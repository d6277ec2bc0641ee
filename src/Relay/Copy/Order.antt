-- ===== src/Relay/Copy/Order.antt =====
-- What a loop of a relay has written, against what it has read.
use rog.Prelude.{
  ℕ, ◌+◌, ◌^◌, ◌≤◌, ◌<◌, ◌≡◌, ◌≢◌, refl, sym, ap, ◌∙◌, Bool, true, false, ◌&&◌, List, [], ◌∷◌, ◌++◌,
  append-nil, Result, ok, err, panics, length, arith, >>=-eq-ok, inl, inr, Bool-cases,
}
use rog.Streams.Channels.{sends}
use rog.Relay.Copy.{
  Verdict, skips, passes, Ends, u64, Phase, Loop, Turn, reads, stops, writes, leaves, reading,
  writing, leaving, finished, crashed, start, turn, turn_at, judged, after_read, after_write,
}

module _ {R W A : Type 0} (v : Ends R W A) where
  -- Reads that took a reader from `r₀` to `r`, and what of it was to be passed on.
  pub data Took (r₀ : R) : List A → R → Type 0 where
    nothing : Took r₀ [] r₀
    passed :
        {xs : List A} {r r' : R} (a : A)
        → Took r₀ xs r
        → v.read r ≡ ok (a, r')
        → v.verdict a ≡ passes
        → Took r₀ (xs ++ a ∷ []) r'
    left_out :
        {xs : List A} {r r' : R} (a : A)
        → Took r₀ xs r
        → v.read r ≡ ok (a, r')
        → v.verdict a ≢ passes
        → Took r₀ xs r'

  abbrev pub total : List A → ℕ
  total [] = 0
  total (a ∷ l) = v.size a + total l

  -- What was read and is not written yet.
  abbrev pub Rest : Phase v → List A → Type 0
  Rest (writing a) xs = xs ≡ a ∷ []
  Rest reading xs = xs ≡ []
  Rest _ xs = length xs ≤ 1

  pub record Copied (r₀ : R) (w₀ : W) (n₀ : ℕ) (l : Loop v) : Type 0 where
    pub took : Took r₀ l.seen l.reader
    pub rest : List A
    pub in_order : l.seen ≡ l.put ++ rest
    pub held : Rest l.phase rest
    pub wrote : sends v.write l.put w₀ ≡ ok l.writer
    pub counts : l.counted ≡ u64 (n₀ + total l.put)

  sends-append :
      (xs : List A) (a : A) (w w' w'' : W)
      → sends v.write xs w ≡ ok w'
      → v.write a w' ≡ ok w''
      → sends v.write (xs ++ a ∷ []) w ≡ ok w''
  sends-append [] a w w' w'' e f = let same : w ≡ w' = cc in rw (same, f) refl
  sends-append (x ∷ xs) a w w' w'' e f =
      let (w₁, first, more) = >>=-eq-ok (v.write x w) (λ w. sends v.write xs w) e in
      rw first (sends-append xs a w₁ w' w'' more f)

  total-append : (xs : List A) (a : A) → total (xs ++ a ∷ []) ≡ total xs + v.size a
  total-append [] a = omega arith
  total-append (x ∷ xs) a = omega (arith, total-append xs a)

  module _ (r₀ : R) (w₀ : W) (n₀ : ℕ) where
    abbrev Good : Loop v → Type 0
    Good = Copied r₀ w₀ n₀

    -- A loop that goes elsewhere with nothing read or written.
    moved :
        (l : Loop v) (ph : Phase v)
        → Good l
        → ((xs : List A) → Rest l.phase xs → Rest ph xs)
        → Good (record l { phase = ph })
    moved l ph c f = record {
      took = c.took;
      rest = c.rest;
      in_order = c.in_order;
      held = f c.rest c.held;
      wrote = c.wrote;
      counts = c.counts;
    }

    judged-Good :
        (a : A) (r : R) (d : Verdict) (l : Loop v)
        → l.phase ≡ reading
        → v.read l.reader ≡ ok (a, r)
        → v.verdict a ≡ d
        → Good l
        → Good (judged v a r d l)
    judged-Good a r Verdict.ends l p q e c = record {
      took = left_out a c.took q (λ x. cc);
      rest = c.rest;
      in_order = c.in_order;
      held = (let h : c.rest ≡ [] = ground (arith, p, c.held) in ground (arith, h));
      wrote = c.wrote;
      counts = c.counts;
    }
    judged-Good a r skips l p q e c = record {
      took = left_out a c.took q (λ x. cc);
      rest = c.rest;
      in_order = c.in_order;
      held = c.held;
      wrote = c.wrote;
      counts = c.counts;
    }
    judged-Good a r passes l p q e c =
        let h : c.rest ≡ [] = ground (arith, p, c.held) in
        let o : l.seen ≡ l.put = c.in_order ∙ ap (λ x. l.put ++ x) h ∙ append-nil l.put in
        record {
          took = passed a c.took q e;
          rest = a ∷ [];
          in_order = ap (λ x. x ++ a ∷ []) o;
          held = refl;
          wrote = c.wrote;
          counts = c.counts;
        }

    after_read-Good :
        (o : Result (A × R)) (l : Loop v)
        → l.phase ≡ reading
        → v.read l.reader ≡ o
        → Good l
        → Good (after_read v o l)
    after_read-Good (ok (a, r)) l p q c = judged-Good a r (v.verdict a) l p q refl c
    after_read-Good (err k m) l p q c = moved l leaving c (λ xs h. ground (arith, p, h))
    after_read-Good panics l p q c = moved l crashed c (λ xs h. ground (arith, p, h))

    after_write-Good :
        (a : A) (o : Result W) (l : Loop v)
        → l.phase ≡ writing a
        → v.write a l.writer ≡ o
        → Good l
        → Good (after_write v a o l)
    after_write-Good a (ok w) l p q c =
        let h : c.rest ≡ a ∷ [] = ground (arith, p, c.held) in
        record {
          took = c.took;
          rest = [];
          in_order = c.in_order ∙ ap (λ x. l.put ++ x) h ∙ sym (append-nil (l.put ++ a ∷ []));
          held = refl;
          wrote = sends-append l.put a w₀ l.writer w c.wrote q;
          counts = omega (arith, c.counts, total-append l.put a);
        }
    after_write-Good a (err k m) l p q c = moved l leaving c (λ xs h. ground (arith, p, h))
    after_write-Good a panics l p q c = moved l crashed c (λ xs h. ground (arith, p, h))

    turn_at-Good :
        (t : Turn v) (ph : Phase v) (cancelled : Bool) (l : Loop v)
        → l.phase ≡ ph
        → Good l
        → Good (turn_at v t ph cancelled l).1
    unfolding turn_at
    turn_at-Good reads reading cancelled l p c = elim (Bool-cases (v.biased && cancelled)) [
      | inl b ↦ rw b c
      | inr b ↦ rw b (after_read-Good (v.read l.reader) l p refl c)
    ]
    turn_at-Good stops reading true l p c = moved l leaving c (λ xs h. ground (arith, p, h))
    turn_at-Good stops reading false l p c = c
    turn_at-Good writes (writing a) cancelled l p c =
        after_write-Good a (v.write a l.writer) l p refl c
    turn_at-Good leaves leaving cancelled l p c = moved l finished c (λ xs h. ground (arith, p, h))
    turn_at-Good reads (writing a) cancelled l p c = c
    turn_at-Good reads leaving cancelled l p c = c
    turn_at-Good reads finished cancelled l p c = c
    turn_at-Good reads crashed cancelled l p c = c
    turn_at-Good stops (writing a) cancelled l p c = c
    turn_at-Good stops leaving cancelled l p c = c
    turn_at-Good stops finished cancelled l p c = c
    turn_at-Good stops crashed cancelled l p c = c
    turn_at-Good writes reading cancelled l p c = c
    turn_at-Good writes leaving cancelled l p c = c
    turn_at-Good writes finished cancelled l p c = c
    turn_at-Good writes crashed cancelled l p c = c
    turn_at-Good leaves reading cancelled l p c = c
    turn_at-Good leaves (writing a) cancelled l p c = c
    turn_at-Good leaves finished cancelled l p c = c
    turn_at-Good leaves crashed cancelled l p c = c

    pub turn-Copied :
        (t : Turn v) (cancelled : Bool) (l : Loop v)
        → Copied r₀ w₀ n₀ l
        → Copied r₀ w₀ n₀ (turn v t cancelled l).1
    unfolding turn
    turn-Copied t cancelled l c = turn_at-Good t l.phase cancelled l refl c

    pub start-Copied : n₀ < 2 ^ 64 → Copied r₀ w₀ n₀ (start v r₀ w₀ n₀)
    unfolding start
    start-Copied h = record {
      took = nothing;
      rest = [];
      in_order = refl;
      held = refl;
      wrote = refl;
      counts = omega arith;
    }
