-- ===== src/Tests/Pool.antt =====
-- Runs of the block pool: one block, with a provider and a consumer that take turns.
use rog.Prelude.{
  false, ℕ, ◌+◌, ◌-◌, ◌*◌, ◌≤◌, ◌≡◌, refl, ◌⊎◌, none, some, List, [], ◌∷◌, ◌++◌, arith, get_elem?,
}
use rog.Block.{releasing, DataBlock, Provider, Consumer, Action, offers, provides, consumes, step}
use rog.Block.Local.{to_push, to_return}
use rog.Block.Pool.{System, start, run, held, stored, total}
use rog.Block.Pool.Runs.{run_bounded, run_fifo, run_not_stuck}

-- The consumer waits, two pieces of data are provided, and one is consumed.
abbrev turns : List (ℕ × Action)
turns =
    (0, consumes)
    ∷ (0, offers (1 ∷ []))
    ∷ (0, provides)
    ∷ (0, provides)
    ∷ (0, provides)
    ∷ (0, provides)
    ∷ (0, offers (2 ∷ []))
    ∷ (0, provides)
    ∷ (0, provides)
    ∷ (0, provides)
    ∷ (0, provides)
    ∷ (0, provides)
    ∷ (0, consumes)
    ∷ (0, consumes)
    ∷ (0, consumes)
    ∷ []

run_bounded_example :
    let s = run (start 2 1) turns in
    (s.manager.taken_blocks ≡ total held s.blocks)
    × (total stored s.blocks ≤ (2 - 1) + 1)
    × (s.manager.taken_blocks ≤ (2 - 1) + 2 * 1)
run_bounded_example = run_bounded 2 1 turns (omega arith)

-- The block behind `turns`.
abbrev ended : DataBlock
ended = record {
  queue = (2 ∷ []) ∷ [];
  provide_notify = false;
  consume_notify = false;
  provider = Provider.idle;
  consumer = releasing (1 ∷ []);
  sent = (1 ∷ []) ∷ (2 ∷ []) ∷ [];
  received = [];
}

ended_is : get_elem? (run (start 2 1) turns).blocks 0 ≡ some ended
unfolding run start rog.Block.fresh rog.Block.new rog.Block.step rog.Block.Pool.step_at
ended_is = refl

run_fifo_example :
    ended.received ++ (to_return ended.consumer ++ (ended.queue ++ to_push ended.provider))
    ≡ ended.sent
run_fifo_example = run_fifo 2 1 turns 0 ended (omega arith) ended_is (λ e. cc)

-- The consumer finds nothing and waits.
abbrev one_turn : List (ℕ × Action)
one_turn = (0, consumes) ∷ []

abbrev at_rest : DataBlock
at_rest = record {
  queue = [];
  provide_notify = false;
  consume_notify = false;
  provider = Provider.idle;
  consumer = Consumer.waiting;
  sent = [];
  received = [];
}

at_rest_is : get_elem? (run (start 2 1) one_turn).blocks 0 ≡ some at_rest
unfolding run start rog.Block.fresh rog.Block.new rog.Block.step rog.Block.Pool.step_at
at_rest_is = refl

provider_rests : step provides (run (start 2 1) one_turn).manager at_rest ≡ none
unfolding rog.Block.step
provider_rests = refl

consumer_rests : step consumes (run (start 2 1) one_turn).manager at_rest ≡ none
unfolding rog.Block.step
consumer_rests = refl

run_not_stuck_example :
    (at_rest.provider ≡ Provider.dropped)
    ⊎ ((at_rest.queue ≡ [])
        × (at_rest.provider ≡ Provider.idle)
        × (at_rest.consumer ≡ Consumer.waiting))
run_not_stuck_example =
    run_not_stuck 2 1 one_turn 0 at_rest (omega arith) at_rest_is provider_rests consumer_rests
