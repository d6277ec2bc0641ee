-- ===== src/Block/Pool.antt =====
-- Many data blocks of src/block.rs on one manager, under any interleaving of their tasks.
pub mod Count
pub mod Step
pub mod Runs
use rog.Prelude.{ℕ, zero, suc, ◌+◌, ◌-◌, Option, none, some, List, [], ◌∷◌, length, replicate}
use rog.Block.{
  BlockManager, DataBlock, Provider, Consumer, Action, Next, fresh, new, step, taking, pushing,
  releasing,
}

pub record System : Type 0 where
  pub manager : BlockManager
  pub blocks : List DataBlock

abbrev pub keep : List DataBlock → DataBlock → Next → Option (BlockManager × List DataBlock)
keep bs b none = none
keep bs b (some (m, b')) = some (m, b' ∷ bs)

abbrev behind :
    DataBlock → Option (BlockManager × List DataBlock) → Option (BlockManager × List DataBlock)
behind b none = none
behind b (some (m, bs)) = some (m, b ∷ bs)

-- A step of the tasks of block `i`; `none` where it is not enabled.
unfoldable pub step_at :
    ℕ → Action → BlockManager → List DataBlock → Option (BlockManager × List DataBlock)
step_at i a m [] = none
step_at zero a m (b ∷ bs) = keep bs b (step a m b)
step_at (suc i) a m (b ∷ bs) = behind b (step_at i a m bs)

abbrev after : System → Option (BlockManager × List DataBlock) → System
after s none = s
after s (some (m, bs)) = record { manager = m; blocks = bs }

-- A schedule picks a block and an action each time; what is not enabled changes nothing.
unfoldable pub run : System → List (ℕ × Action) → System
run s [] = s
run s ((i, a) ∷ rest) = run (after s (step_at i a s.manager s.blocks)) rest

-- A manager with room for `n` data blocks, none of them in use.
unfoldable pub start : ℕ → ℕ → System
unfolding new
start limit n = record { manager = new limit; blocks = replicate n fresh }

-- The data that a block holds: what is queued, and what its provider is about to queue.
abbrev pub committed : Provider → ℕ
committed (taking x) = 1
committed (pushing x) = 1
committed _ = 0

abbrev pub counted_early : Provider → ℕ
counted_early (pushing x) = 1
counted_early _ = 0

abbrev pub counted_late : Consumer → ℕ
counted_late (releasing data') = 1
counted_late _ = 0

abbrev pub stored : DataBlock → ℕ
stored b = length b.queue + committed b.provider

-- What it contributes to `taken_blocks`.
abbrev pub held : DataBlock → ℕ
held b = length b.queue + counted_early b.provider + counted_late b.consumer

abbrev nonzero : ℕ → ℕ
nonzero zero = 0
nonzero (suc n) = 1

abbrev pub occupied : DataBlock → ℕ
occupied b = nonzero (stored b)

abbrev pub total : (DataBlock → ℕ) → List DataBlock → ℕ
total f [] = 0
total f (b ∷ bs) = f b + total f bs
