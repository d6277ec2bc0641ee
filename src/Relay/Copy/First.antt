-- ===== src/Relay/Copy/First.antt =====
-- A loop of a relay that starts behind a first write.
use rog.Prelude.{ℕ, ◌≡◌, List, [], ◌∷◌, ◌++◌, ok, arith}
use rog.Streams.Channels.{sends}
use rog.Relay.Copy.{passes, Ends, u64, Loop}
use rog.Relay.Copy.Order.{Took, nothing, passed, left_out, total, Rest, Copied}

module _ {R W A : Type 0} (v : Ends R W A) where
  abbrev pub Passed : List A → Type 0
  Passed [] = Unit {0}
  Passed (x ∷ xs) = (v.verdict x ≡ passes) × Passed xs

  Passed-snoc : (xs : List A) (a : A) → Passed xs → v.verdict a ≡ passes → Passed (xs ++ a ∷ [])
  Passed-snoc [] a h e = (e, tt)
  Passed-snoc (x ∷ xs) a (p, h) e = (p, Passed-snoc xs a h e)

  Passed-front : (xs ys : List A) → Passed (xs ++ ys) → Passed xs
  Passed-front [] ys h = tt
  Passed-front (x ∷ xs) ys (p, h) = (p, Passed-front xs ys h)

  Took-Passed : {r : R} {xs : List A} {r' : R} → Took v r xs r' → Passed xs
  Took-Passed nothing = tt
  Took-Passed (passed {xs = xs} a t e p) = Passed-snoc xs a (Took-Passed t) p
  Took-Passed (left_out a t e p) = Took-Passed t

  -- What a loop wrote behind a first write, of what it read.
  pub record Follows (first : A) (r : R) (w : W) (l : Loop v) : Type 0 where
    pub took : Took v r l.seen l.reader
    pub rest : List A
    pub in_order : l.seen ≡ l.put ++ rest
    pub held : Rest v l.phase rest
    pub only : Passed l.put
    pub wrote : sends v.write (first ∷ l.put) w ≡ ok l.writer
    pub counts : l.counted ≡ u64 (total v (first ∷ l.put))

  pub Copied-Follows :
      (first : A) (r : R) (w w' : W) (n : ℕ) (l : Loop v)
      → v.write first w ≡ ok w'
      → n ≡ u64 (v.size first)
      → Copied v r w' n l
      → Follows first r w l
  Copied-Follows first r w w' n l e m c = record {
    took = c.took;
    rest = c.rest;
    in_order = c.in_order;
    held = c.held;
    only =
        Passed-front l.put c.rest
          (let h : Passed l.seen = Took-Passed c.took in rw c.in_order at h);
    wrote = rw e c.wrote;
    counts = omega (arith, m, c.counts);
  }
