-- ===== src/RunStream/Simulation.antt =====
-- The provided methods of `RunStream` of src/def.rs on two implementations of `read`.
use rog.Prelude.{
  ℕ, zero, suc, ◌-◌, ◌≡◌, refl, ◌==◌, Bool-cases, inl, inr, Result, ok, err, panics, ◌>>=◌, length,
}
use rog.Prelude.Word.{Bytes}
use rog.RunStream.{read_exact_loop, read_exact}

module _ {S R : Type 0} (Rel : S → R → Type 0) where
  -- The same bytes and states in relation, the same error, or two panics.
  abbrev pub Same : Result (Bytes × S) → Result (Bytes × R) → Type 0
  Same (ok (got, s)) (ok (got', r)) = (got ≡ got') × Rel s r
  Same (err k m) (err k' m') = (k ≡ k') × (m ≡ m')
  Same panics panics = Unit {0}
  Same _ _ = ⊥

  -- Calls that behave alike, each followed by what behaves alike on the same bytes.
  Same-bind :
      (x : Result (Bytes × S)) (y : Result (Bytes × R)) (f : (Bytes × S) → Result (Bytes × S))
      (g : (Bytes × R) → Result (Bytes × R))
      → Same x y
      → ((got : Bytes) (s : S) (r : R) → Rel s r → Same (f (got, s)) (g (got, r)))
      → Same (x >>= f) (y >>= g)
  Same-bind (ok (a, s)) (ok (b, r)) f g (e, h) k = rw (← e) (k a s r h)
  Same-bind (err k m) (err k' m') f g h _ = h
  Same-bind panics panics f g h _ = tt
  Same-bind (ok x) (err k m) f g h _ = elim h [ ]
  Same-bind (ok x) panics f g h _ = elim h [ ]
  Same-bind (err k m) (ok x) f g h _ = elim h [ ]
  Same-bind (err k m) panics f g h _ = elim h [ ]
  Same-bind panics (ok x) f g h _ = elim h [ ]
  Same-bind panics (err k m) f g h _ = elim h [ ]

  module _ (read : ℕ → S → Result (Bytes × S)) (read' : ℕ → R → Result (Bytes × R))
      (alike : (n : ℕ) (s : S) (r : R) → Rel s r → Same (read n s) (read' n r)) where
    loop-Same :
        (fuel room : ℕ) (s : S) (r : R)
        → Rel s r
        → Same (read_exact_loop read fuel room s) (read_exact_loop read' fuel room r)
    unfolding read_exact_loop
    loop-Same zero room s r h = (refl, h)
    loop-Same (suc fuel) room s r h = elim (Bool-cases (room == 0)) [
      | inl e ↦ rw e (refl, h)
      | inr e ↦ rw e (
          Same-bind (read room s) (read' room r) _ _ (alike room s r h) (λ got s r h.
            elim (Bool-cases (length got == 0)) [
              | inl e ↦ rw e (refl, h)
              | inr e ↦ rw e (
                  Same-bind _ _ _ _ (loop-Same fuel (room - length got) s r h)
                    (λ more s r h. (refl, h)))
            ]))
    ]

    -- If two reads behave alike on related connections, so does `read_exact`.
    pub read_exact-Same :
        (n : ℕ) (s : S) (r : R) → Rel s r → Same (read_exact read n s) (read_exact read' n r)
    unfolding read_exact
    read_exact-Same n s r h = Same-bind _ _ _ _ (loop-Same n n s r h) (λ got s r h.
        elim (Bool-cases (length got == 0)) [ inl e ↦ rw e (refl, refl) | inr e ↦ rw e (refl, h) ])
