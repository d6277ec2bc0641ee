-- ===== src/Relay/Copy/Stops.antt =====
-- When one loop of a relay has come to its end, the other one comes to its end too.
use rog.Prelude.{
  ◌≡◌, ◌≢◌, refl, Bool, true, false, Result, ok, err, panics, arith, inl, inr, Bool-cases,
}
use rog.Relay.Copy.{
  Verdict, skips, passes, Ends, Phase, Loop, Turn, reads, stops, writes, leaves, reading, writing,
  leaving, finished, crashed, turn, turn_at, judged, after_read, after_write,
}

module _ {R W A : Type 0} (v : Ends R W A) where
  abbrev pub is_gone : Phase v → Bool
  is_gone finished = true
  is_gone crashed = true
  is_gone _ = false

  -- A loop that has finished has cancelled the token.
  abbrev pub Told : Bool → Loop v → Type 0
  Told cancelled l = l.phase ≡ finished → cancelled ≡ true

  judged-Told :
      (a : A) (r : R) (d : Verdict) (l : Loop v)
      → l.phase ≡ reading
      → (judged v a r d l).phase ≢ finished
  judged-Told a r Verdict.ends l p e = cc
  judged-Told a r skips l p e = cc
  judged-Told a r passes l p e = cc

  after_read-Told :
      (o : Result (A × R)) (l : Loop v) → l.phase ≡ reading → (after_read v o l).phase ≢ finished
  after_read-Told (ok (a, r)) l p e = judged-Told a r (v.verdict a) l p e
  after_read-Told (err k m) l p e = cc
  after_read-Told panics l p e = cc

  after_write-Told : (a : A) (o : Result W) (l : Loop v) → (after_write v a o l).phase ≢ finished
  after_write-Told a (ok w) l e = cc
  after_write-Told a (err k m) l e = cc
  after_write-Told a panics l e = cc

  turn_at-Told :
      (t : Turn v) (ph : Phase v) (cancelled : Bool) (l : Loop v)
      → l.phase ≡ ph
      → Told cancelled l
      → Told (turn_at v t ph cancelled l).0 (turn_at v t ph cancelled l).1
  unfolding turn_at
  turn_at-Told reads reading true l p c = λ e. refl
  turn_at-Told reads reading false l p c = elim (Bool-cases v.biased) [
    | inl b ↦ rw b (λ e. absurd (after_read-Told (v.read l.reader) l p e))
    | inr b ↦ rw b (λ e. absurd (after_read-Told (v.read l.reader) l p e))
  ]
  turn_at-Told stops reading true l p c = λ e. refl
  turn_at-Told stops reading false l p c = c
  turn_at-Told writes (writing a) cancelled l p c =
      λ e. absurd (after_write-Told a (v.write a l.writer) l e)
  turn_at-Told leaves leaving cancelled l p c = λ e. refl
  turn_at-Told reads (writing a) cancelled l p c = c
  turn_at-Told reads leaving cancelled l p c = c
  turn_at-Told reads finished cancelled l p c = c
  turn_at-Told reads crashed cancelled l p c = c
  turn_at-Told stops (writing a) cancelled l p c = c
  turn_at-Told stops leaving cancelled l p c = c
  turn_at-Told stops finished cancelled l p c = c
  turn_at-Told stops crashed cancelled l p c = c
  turn_at-Told writes reading cancelled l p c = c
  turn_at-Told writes leaving cancelled l p c = c
  turn_at-Told writes finished cancelled l p c = c
  turn_at-Told writes crashed cancelled l p c = c
  turn_at-Told leaves reading cancelled l p c = c
  turn_at-Told leaves (writing a) cancelled l p c = c
  turn_at-Told leaves finished cancelled l p c = c
  turn_at-Told leaves crashed cancelled l p c = c

  pub turn-Told :
      (t : Turn v) (cancelled : Bool) (l : Loop v)
      → Told cancelled l
      → Told (turn v t cancelled l).0 (turn v t cancelled l).1
  unfolding turn
  turn-Told t cancelled l c = turn_at-Told t l.phase cancelled l refl c

  -- A cancelled token stays so.
  turn_at-cancelled : (t : Turn v) (ph : Phase v) (l : Loop v) → (turn_at v t ph true l).0 ≡ true
  unfolding turn_at
  turn_at-cancelled t ph l = ground arith

  pub turn-cancelled : (t : Turn v) (l : Loop v) → (turn v t true l).0 ≡ true
  unfolding turn
  turn-cancelled t l = turn_at-cancelled t l.phase l

  abbrev pub last_turns : Loop v → Loop v
  last_turns l = (turn v leaves true (turn v stops true (turn v writes true l).1).1).1

  abbrev stop_and_leave : Loop v → Loop v
  stop_and_leave l = (turn v leaves true (turn v stops true l).1).1

  written_last :
      (a : A) (o : Result W) (l : Loop v)
      → is_gone (stop_and_leave (after_write v a o l)).phase ≡ true
  unfolding turn turn_at
  written_last a (ok w) l = refl
  written_last a (err k m) l = refl
  written_last a panics l = refl

  last_at :
      (ph : Phase v) (l : Loop v)
      → l.phase ≡ ph
      → is_gone (stop_and_leave (turn_at v writes ph true l).1).phase ≡ true
  unfolding turn turn_at
  last_at reading l p = ground arith
  last_at (writing a) l p = written_last a (v.write a l.writer) l
  last_at leaving l p = ground arith
  last_at finished l p = ground arith
  last_at crashed l p = ground arith

  pub last_turns-gone : (l : Loop v) → is_gone (last_turns l).phase ≡ true
  unfolding turn
  last_turns-gone l = last_at l.phase l refl
