-- ===== src/Relay/Copy.antt =====
-- The loop that src/object/tcp.rs, src/object/udp.rs and src/object/raw_udp.rs run once for each
-- direction: read, perhaps drop what was read, write, count. All loops of a relay share a token, which a
-- loop cancels when it ends, and which ends the others where they would read. A loop is generic in
-- what it reads and writes.
pub mod Order
pub mod Stops
pub mod Runs
pub mod First
use rog.Prelude.{
  ℕ, ◌+◌, ◌%◌, ◌^◌, if◌then◌else◌, Bool, true, false, ◌&&◌, List, [], ◌∷◌, ◌++◌, Result, ok, err,
  panics,
}

-- What a loop does with what it has read.
pub data Verdict : Type 0 where
  ends skips passes : Verdict

-- The parts in which the loops differ.
pub record Ends (R W A : Type 0) : Type 0 where
  pub read : R → Result (A × R)
  pub verdict : A → Verdict
  pub write : A → W → Result W
  -- The bytes that are counted for what was written.
  pub size : A → ℕ
  -- `biased;` in the select: the token is looked at first.
  pub biased : Bool

abbrev pub u64 : ℕ → ℕ
u64 n = n % 2 ^ 64

module _ {R W A : Type 0} (v : Ends R W A) where
  -- Where a loop stands: at its `select!`, about to write, about to cancel the token, or gone;
  -- a panic ends the task and leaves the token alone.
  pub data Phase : Type 0 where
    reading : Phase
    writing : A → Phase
    leaving finished crashed : Phase

  -- `seen` and `put` record what was to be passed on, and what was written.
  pub record Loop : Type 0 where
    pub reader : R
    pub writer : W
    pub phase : Phase
    pub seen : List A
    pub put : List A
    pub counted : ℕ

  unfoldable pub start : R → W → ℕ → Loop
  start r w counted = record {
    reader = r;
    writer = w;
    phase = reading;
    seen = [];
    put = [];
    counted = counted;
  }

  pub data Turn : Type 0 where
    reads stops writes leaves : Turn

  abbrev judged : A → R → Verdict → Loop → Loop
  judged a r ends l = record l { reader = r; phase = leaving }
  judged a r skips l = record l { reader = r }
  judged a r passes l = record l { reader = r; phase = writing a; seen = l.seen ++ a ∷ [] }

  abbrev after_read : Result (A × R) → Loop → Loop
  after_read (ok (a, r)) l = judged a r (v.verdict a) l
  after_read (err k m) l = record l { phase = leaving }
  after_read panics l = record l { phase = crashed }

  abbrev after_write : A → Result W → Loop → Loop
  after_write a (ok w) l = record l {
    writer = w;
    phase = reading;
    put = l.put ++ a ∷ [];
    counted = u64 (l.counted + v.size a);
  }
  after_write a (err k m) l = record l { phase = leaving }
  after_write a panics l = record l { phase = crashed }

  -- A turn of a loop in a phase; what it cannot do changes nothing.
  turn_at : Turn → Phase → Bool → Loop → Bool × Loop
  turn_at reads reading cancelled l =
      (cancelled, if v.biased && cancelled then l else after_read (v.read l.reader) l)
  turn_at stops reading cancelled l =
      (cancelled, if cancelled then record l { phase = leaving } else l)
  turn_at writes (writing a) cancelled l = (cancelled, after_write a (v.write a l.writer) l)
  turn_at leaves leaving cancelled l = (true, record l { phase = finished })
  turn_at t p cancelled l = (cancelled, l)

  unfoldable pub turn : Turn → Bool → Loop → Bool × Loop
  unfolding turn_at
  turn t cancelled l = turn_at t l.phase cancelled l

-- The two loops of a relay.
module _ {R W A R' W' A' : Type 0} (v : Ends R W A) (v' : Ends R' W' A') where
  pub record Relay : Type 0 where
    pub cancelled : Bool
    pub left : Loop v
    pub right : Loop v'

  pub data Side : Type 0 where
    on_left : Turn v → Side
    on_right : Turn v' → Side
    -- Another holder of the token cancels it.
    on_token : Side

  unfoldable pub relay_step : Side → Relay → Relay
  relay_step (on_left t) s =
      let (cancelled, l) = turn v t s.cancelled s.left in
      record s { cancelled = cancelled; left = l }
  relay_step (on_right t) s =
      let (cancelled, l) = turn v' t s.cancelled s.right in
      record s { cancelled = cancelled; right = l }
  relay_step on_token s = record s { cancelled = true }

  unfoldable pub relay : Relay → List Side → Relay
  relay s [] = s
  relay s (t ∷ rest) = relay (relay_step t s) rest
