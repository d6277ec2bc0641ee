-- ===== src/Streams/Refines.antt =====
-- The `read` of src/stream/ against the `read` of the trait `RunStream` on a connection whose pieces
-- are the payloads of the messages.
use rog.Prelude.{
  ℕ, ◌+◌, ◌-◌, ◌≤◌, ◌<◌, ◌≡◌, refl, ltb, leb, Bool-cases, inl, inr, ltb→lt, ltb→le, lt→ltb, le→ltb,
  leb→le, [], ◌∷◌, Result, ok, err, panics, ◌>>=◌, length, take, drop, drop-add, drop_all, take_all,
  length-drop, min, arith, ◌∙◌, sym, ap,
}
use rog.Prelude.Word.{Bytes}
use rog.RunStream.{arrives, fails, Stream, leftover, read}
use rog.RunStream.Simulation.{Same}
use rog.Streams.Cached.{Cache, copy_cached, copy_payload, read_cached}

abbrev pub unread : Cache → Bytes
unread c = drop c.cache_pos c.cache

-- The cache position stays within the cache.
abbrev pub IsValid : Cache → Type 0
IsValid c = c.cache_pos ≤ length c.cache

take-min : (m n : ℕ) (xs : Bytes) → m ≡ length xs → take (min m n) xs ≡ take n xs
take-min m n xs e = elim (Bool-cases (leb m n)) [
  | inl h ↦
      let e₁ : min m n ≡ length xs = omega (arith, leb→le m n h) in
      ap (λ k. take k xs) e₁
      ∙ (take_all (length xs) xs (omega arith) ∙ sym (take_all n xs (omega (arith, leb→le m n h))))
  | inr h ↦ let e₁ : min m n ≡ n = ground (arith, h) in ap (λ k. take k xs) e₁
]

drop-min : (m n : ℕ) (xs : Bytes) → m ≡ length xs → drop (min m n) xs ≡ drop n xs
drop-min m n xs e = elim (Bool-cases (leb m n)) [
  | inl h ↦
      let e₁ : min m n ≡ length xs = omega (arith, leb→le m n h) in
      ap (λ k. drop k xs) e₁
      ∙ (drop_all (length xs) xs (omega arith) ∙ sym (drop_all n xs (omega (arith, leb→le m n h))))
  | inr h ↦ let e₁ : min m n ≡ n = ground (arith, h) in ap (λ k. drop k xs) e₁
]

-- What a copy takes, and what it leaves.
record Copies (n : ℕ) (bytes : Bytes) (r : Bytes × Cache) : Type 0 where
  got : r.0 ≡ take n bytes
  left : unread r.1 ≡ drop n bytes
  valid : IsValid r.1

copy_cached-Copies : (n : ℕ) (c : Cache) → IsValid c → Copies n (unread c) (copy_cached n c)
unfolding copy_cached
copy_cached-Copies n c v =
    let len = length-drop c.cache_pos c.cache in
    let m = length c.cache - c.cache_pos in
    let got : take (min m n) (unread c) ≡ take n (unread c) = take-min m n (unread c) (sym len) in
    let left : drop (c.cache_pos + min m n) c.cache ≡ drop n (unread c) =
      drop-add c.cache_pos (min m n) c.cache ∙ drop-min m n (unread c) (sym len) in
    elim (Bool-cases (leb (length c.cache) (c.cache_pos + min m n))) [
      | inl h ↦ record {
        got = got;
        left = rw h (
            sym (
              drop_all n (unread c)
                (omega (arith, len, leb→le (length c.cache) (c.cache_pos + min m n) h))));
        valid = rw h (omega arith);
      }
      | inr h ↦ record { got = got; left = rw h left; valid = rw h (omega arith) }
    ]

copy_payload-Copies : (n : ℕ) (payload : Bytes) → Copies n payload (copy_payload n payload)
unfolding copy_payload
copy_payload-Copies n payload =
    let m = length payload in
    let swap : min n m ≡ min m n = omega arith in
    let got : take (min n m) payload ≡ take n payload =
      ap (λ k. take k payload) swap ∙ take-min m n payload refl in
    let left : drop (min n m) payload ≡ drop n payload =
      ap (λ k. drop k payload) swap ∙ drop-min m n payload refl in
    elim (Bool-cases (ltb (min n m) m)) [
      | inl h ↦ record { got = got; left = rw h left; valid = rw h (omega arith) }
      | inr h ↦ record {
        got = got;
        left = rw h (sym (drop_all n payload (omega (arith, ltb→le (min n m) m h))));
        valid = rw h (omega arith);
      }
    ]

read-leftover :
    (n : ℕ) (u : Bytes) (t : Stream)
    → 0 < length u
    → read n (leftover u t) ≡ ok (take n u, leftover (drop n u) t)
unfolding read
read-leftover n [] t h = absurd (omega arith)
read-leftover n (b ∷ bs) t h = refl

module _ {S : Type 0} (next : S → Result (Bytes × S)) where
  -- The source will give the payloads that arrive, and then fail.
  abbrev pub Yields : S → Stream → Type 0
  Yields s [] = ⊥
  Yields s (arrives p ∷ t) = (s' : S) × (next s ≡ ok (p, s')) × Yields s' t
  Yields s (fails k m ∷ t) = next s ≡ err k m

  -- A connection whose pieces are what is unread in the cache, and then the payloads.
  abbrev pub Related : Stream → Cache × S → Type 0
  Related t (c, s) = (IsValid c) × ((t' : Stream) × (t ≡ leftover (unread c) t') × (Yields s t'))

  from_cache :
      (n : ℕ) (c : Cache) (s : S) (t : Stream)
      → IsValid c
      → Yields s t
      → c.cache_pos < length c.cache
      → Same Related (read n (leftover (unread c) t)) (read_cached next n c s)
  unfolding read_cached
  from_cache n c s t v y h =
      let k = copy_cached-Copies n c v in
      let e = read-leftover n (unread c) t (omega (arith, length-drop c.cache_pos c.cache)) in
      rw (e, lt→ltb c.cache_pos (length c.cache) h)
        (sym k.got, (k.valid, (t, ap (λ u. leftover u t) (sym k.left), y)))

  from_next :
      (n : ℕ) (c : Cache) (s : S) (t : Stream)
      → Yields s t
      → length c.cache ≤ c.cache_pos
      → Same Related (read n t) (read_cached next n c s)
  unfolding read_cached read
  from_next n c s [] y h = elim y [ ]
  from_next n c s (arrives p ∷ t) (s', e, y) h =
      let k = copy_payload-Copies n p in
      rw (le→ltb c.cache_pos (length c.cache) h, e)
        (sym k.got, (k.valid, (t, ap (λ u. leftover u t) (sym k.left), y)))
  from_next n c s (fails k m ∷ t) y h = rw (le→ltb c.cache_pos (length c.cache) h, y) (refl, refl)

  -- The cache of a stream with what is to come is related to a connection if what is unread in the cache
  -- stands in front of the payloads to come there. Then `read` into a buffer of any size, which serves what
  -- is left in the cache, or else takes the next message and keeps its excess, gives the same bytes or
  -- the same error as a read of that connection, and after bytes the two are related again.
  pub read_cached-Same :
      (n : ℕ) (t : Stream) (c : Cache) (s : S)
      → Related t (c, s)
      → Same Related (read n t) (read_cached next n c s)
  read_cached-Same n t c s (v, (t', e, y)) = elim (Bool-cases (ltb c.cache_pos (length c.cache))) [
    | inl h ↦ rw e (from_cache n c s t' v y (ltb→lt c.cache_pos (length c.cache) h))
    | inr h ↦
        let le = ltb→le c.cache_pos (length c.cache) h in
        rw (e, drop_all c.cache_pos c.cache le) (from_next n c s t' y le)
  ]

  -- The same for a stream that keeps its cache and its source among other fields.
  pub stream_read-Same :
      {R : Type 0}
      → (Rel : Stream → R → Type 0) (put : Cache × S → R) (n : ℕ) (t : Stream) (p : Cache × S)
      → ((t : Stream) (p : Cache × S) → Related t p → Rel t (put p))
      → Related t p
      → Same Rel (read n t) (read_cached next n p.0 p.1 >>= λ (got, p). ok (got, put p))
  stream_read-Same {R} Rel put n t p law h =
      go (read n t) (read_cached next n p.0 p.1) (read_cached-Same n t p.0 p.1 h)
    where
      go :
          (x : Result (Bytes × Stream)) (y : Result (Bytes × (Cache × S)))
          → Same Related x y
          → Same Rel x (y >>= λ (got, p). ok (got, put p))
      go (ok (a, t)) (ok (b, p)) (e, h) = (e, law t p h)
      go (err k m) (err k' m') h = h
      go panics panics h = tt
      go (ok x) (err k m) h = elim h [ ]
      go (ok x) panics h = elim h [ ]
      go (err k m) (ok x) h = elim h [ ]
      go (err k m) panics h = elim h [ ]
      go panics (ok x) h = elim h [ ]
      go panics (err k m) h = elim h [ ]
