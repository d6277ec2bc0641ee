-- ===== src/RunStream/Exact.antt =====
-- What `RunStream::read_exact` of src/def.rs reads, however the bytes are cut into pieces.
use rog.Prelude.{
  ℕ, zero, suc, ◌-◌, ◌≤◌, ◌≡◌, ◌≢◌, refl, sym, ap, ◌∙◌, if◌then◌else◌, ◌==◌, false, [], ◌∷◌, ◌++◌,
  Result, ok, err, unexpected_eof, length, take, drop, arith,
}
use rog.Prelude.Word.{Bytes}
use rog.RunStream.{arrives, fails, Stream, leftover, read, read_exact_loop, read_exact}

-- All the bytes that arrive before the connection is closed.
abbrev pub bytes : Stream → Bytes
bytes [] = []
bytes (arrives bs ∷ s) = bs ++ bytes s
bytes (fails k m ∷ s) = []

-- The connection does not fail, and delivers no empty piece before it is closed.
abbrev pub IsLive : Stream → Type 0
IsLive [] = Unit {0}
IsLive (arrives bs ∷ s) = (bs ≢ []) × IsLive s
IsLive (fails k m ∷ s) = ⊥

pub bytes-leftover : (bs : Bytes) (s : Stream) → bytes (leftover bs s) ≡ bs ++ bytes s
bytes-leftover [] s = refl
bytes-leftover (b ∷ bs) s = refl

leftover-IsLive : (bs : Bytes) (s : Stream) → IsLive s → IsLive (leftover bs s)
leftover-IsLive [] s h = h
leftover-IsLive (b ∷ bs) s h = ((λ e. cc), h)

-- The loop's postcondition: the first `room` bytes of the connection, or all if it is shorter.
pub record Reads (room : ℕ) (s : Stream) (r : Result (Bytes × Stream)) : Type 0 where
  pub rest : Stream
  pub result : r ≡ ok (take room (bytes s), rest)
  pub left : bytes rest ≡ drop room (bytes s)
  pub live : IsLive rest

take_split :
    (n : ℕ) (xs ys : Bytes)
    → take n (xs ++ ys) ≡ take n xs ++ take (n - length (take n xs)) (drop n xs ++ ys)
take_split zero xs ys = refl
take_split (suc n) [] ys = let e : suc n ≡ suc n - 0 = omega arith in ap (λ k. take k ys) e
take_split (suc n) (x ∷ xs) ys = ap (◌∷◌ x) (
    take_split n xs ys
    ∙ let e : n - length (take n xs) ≡ suc n - length (take (suc n) (x ∷ xs)) = omega arith in
      ap (λ k. take n xs ++ take k (drop n xs ++ ys)) e)

drop_split :
    (n : ℕ) (xs ys : Bytes) → drop n (xs ++ ys) ≡ drop (n - length (take n xs)) (drop n xs ++ ys)
drop_split zero xs ys = refl
drop_split (suc n) [] ys = let e : suc n ≡ suc n - 0 = omega arith in ap (λ k. drop k ys) e
drop_split (suc n) (x ∷ xs) ys =
    drop_split n xs ys
    ∙ let e : n - length (take n xs) ≡ suc n - length (take (suc n) (x ∷ xs)) = omega arith in
      ap (λ k. drop k (drop n xs ++ ys)) e

pub suc-ne-zero : (n : ℕ) → (suc n == 0) ≡ false
suc-ne-zero n = ground arith

-- One round on a piece that is not empty.
loop_round :
    (fuel room b : ℕ) (bs : Bytes) (s : Stream)
    → let got = b ∷ take room bs in
      let s' = leftover (drop room bs) s in
      Reads (suc room - length got) s' (read_exact_loop read fuel (suc room - length got) s')
      → Reads
          (suc room)
          (arrives (b ∷ bs) ∷ s)
          (read_exact_loop read (suc fuel) (suc room) (arrives (b ∷ bs) ∷ s))
unfolding read_exact_loop read
loop_round fuel room b bs s ih = record {
  rest = ih.rest;
  result =
      rw
        (
          suc-ne-zero room,
          suc-ne-zero (length (take room bs)),
          ih.result,
          bytes-leftover (drop room bs) s,
        )
        (ap (λ bytes'. ok (bytes', ih.rest)) (sym (take_split (suc room) (b ∷ bs) (bytes s))));
  left =
      ih.left
      ∙ rw (bytes-leftover (drop room bs) s) (sym (drop_split (suc room) (b ∷ bs) (bytes s)));
  live = ih.live;
}

read_exact_loop-Reads :
    (fuel room : ℕ) (s : Stream)
    → room ≤ fuel
    → IsLive s
    → Reads room s (read_exact_loop read fuel room s)
unfolding read_exact_loop read
read_exact_loop-Reads zero zero s le h = record { rest = s; result = refl; left = refl; live = h }
read_exact_loop-Reads zero (suc room) s le h = absurd (omega arith)
read_exact_loop-Reads (suc fuel) zero s le h = record {
  rest = s;
  result = refl;
  left = refl;
  live = h;
}
read_exact_loop-Reads (suc fuel) (suc room) [] le h = record {
  rest = [];
  result = rw (suc-ne-zero room);
  left = refl;
  live = tt;
}
read_exact_loop-Reads (suc fuel) (suc room) (arrives [] ∷ s) le h = absurd (h.0 refl)
read_exact_loop-Reads (suc fuel) (suc room) (arrives (b ∷ bs) ∷ s) le h =
    loop_round fuel room b bs s (
      read_exact_loop-Reads fuel (suc room - length (b ∷ take room bs)) (leftover (drop room bs) s)
        (omega arith) (leftover-IsLive (drop room bs) s h.1))
read_exact_loop-Reads (suc fuel) (suc room) (fails k m ∷ s) le h = elim h [ ]

-- On a connection that does not fail, `read_exact` of `n` bytes gives the next `n` bytes, however
-- they are cut into pieces, or all that are left if the connection is closed before; the bytes
-- behind them stay. It reports an early end only if it read nothing.
pub read_exact-IsLive :
    (n : ℕ) (s : Stream)
    → IsLive s
    → (rest : Stream) × (IsLive rest)
      × (bytes rest ≡ drop n (bytes s))
      × (read_exact read n s ≡ (
          if length (take n (bytes s)) == 0
          then err unexpected_eof "early eof"
          else ok (take n (bytes s), rest)))
unfolding read_exact
read_exact-IsLive n s h =
    let r = read_exact_loop-Reads n n s (omega arith) h in (r.rest, r.live, r.left, rw r.result)
