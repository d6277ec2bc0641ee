-- ===== src/Block.antt =====
-- src/block.rs: the pool of buffer blocks. One `BlockManager` is shared by many `DataBlock`s; each
-- of these has one task that provides and one that consumes (src/object/tcp.rs). Every atomic
-- operation, lock or wake-up is a step of its own, so that the tasks interleave between any two.
pub mod Local
pub mod Pool
use rog.Prelude.{
  ℕ, zero, suc, ◌+◌, ◌-◌, ◌%◌, ◌^◌, ltb, if◌then◌else◌, Bool, true, false, Option, none, some, List,
  [], ◌∷◌, ◌++◌,
}
use rog.Prelude.Word.{Bytes}

abbrev pub u64_mod : ℕ
u64_mod = 2 ^ 64

-- `notify` is the permit that `Notify::notify_one` leaves for the next waiter.
pub record BlockManager : Type 0 where
  pub block_limit : ℕ
  pub taken_blocks : ℕ
  pub take_count : ℕ
  pub notify : Bool

unfoldable pub new : ℕ → BlockManager
new block_limit = record {
  block_limit = block_limit;
  taken_blocks = 0;
  take_count = 0;
  notify = false;
}

unfoldable pub can_take : BlockManager → Bool
can_take m = ltb m.taken_blocks m.block_limit

-- `fetch_add` wraps around. Both counters are one step: `take_count` is read for the log lines only, which
-- are left out.
unfoldable pub take : BlockManager → BlockManager
take m = record m {
  taken_blocks = (m.taken_blocks + 1) % u64_mod;
  take_count = (m.take_count + 1) % u64_mod;
}

-- The two halves of `release`: `fetch_sub`, and the wake-up.
unfoldable pub give_back : BlockManager → BlockManager
give_back m = record m { taken_blocks = (m.taken_blocks + u64_mod - 1) % u64_mod }

unfoldable pub notify_one : BlockManager → BlockManager
notify_one m = record m { notify = true }

unfoldable pub release : BlockManager → BlockManager
unfolding give_back notify_one
release m = notify_one (give_back m)

-- Where the providing task stands: in `inner_provide` with its data, or waiting in `provide`.
pub data Provider : Type 0 where
  idle : Provider
  starting checking taking pushing waiting : Bytes → Provider
  notifying dropped : Provider

-- Where the consuming task stands in `consume`.
pub data Consumer : Type 0 where
  idle waiting rechecking popping dropped : Consumer
  releasing waking notifying : Bytes → Consumer

-- A `DataBlock` with its two tasks. `sent` records what `provide` was called with, and `received` what
-- `consume` returned.
pub record DataBlock : Type 0 where
  pub queue : List Bytes
  pub provide_notify : Bool
  pub consume_notify : Bool
  pub provider : Provider
  pub consumer : Consumer
  pub sent : List Bytes
  pub received : List Bytes

unfoldable pub fresh : DataBlock
fresh = record {
  queue = [];
  provide_notify = false;
  consume_notify = false;
  provider = Provider.idle;
  consumer = Consumer.idle;
  sent = [];
  received = [];
}

abbrev pub is_empty : List Bytes → Bool
is_empty [] = true
is_empty (x ∷ xs) = false

abbrev pub Next : Type 0
Next = Option (BlockManager × DataBlock)

-- One step of `inner_provide`, or of the wait in `provide` on the block's own notification.
unfoldable pub provider_step : Provider → BlockManager → DataBlock → Next
unfolding can_take take
provider_step Provider.idle m b = none
provider_step Provider.dropped m b = none
provider_step (starting data') m b =
    some (m, record b { provider = if is_empty b.queue then taking data' else checking data' })
provider_step (checking data') m b =
    some (m, record b { provider = if can_take m then taking data' else Provider.waiting data' })
provider_step (taking data') m b = some (take m, record b { provider = pushing data' })
provider_step (pushing data') m b =
    some (m, record b { queue = b.queue ++ data' ∷ []; provider = Provider.notifying })
provider_step Provider.notifying m b =
    some (m, record b { provide_notify = true; provider = Provider.idle })
provider_step (Provider.waiting data') m b =
    if b.consume_notify
    then some (m, record b { consume_notify = false; provider = starting data' })
    else none

-- The other branch of the wait: a permit of the manager.
unfoldable pub manager_wakes : Provider → BlockManager → DataBlock → Next
manager_wakes (Provider.waiting data') m b =
    if m.notify
    then some (record m { notify = false }, record b { provider = starting data' })
    else none
manager_wakes _ m b = none

pop : List Bytes → BlockManager → DataBlock → Next
pop [] m b = none
pop (x ∷ xs) m b = some (m, record b { queue = xs; consumer = releasing x })

-- One step of `consume`.
unfoldable pub consumer_step : Consumer → BlockManager → DataBlock → Next
unfolding give_back notify_one pop
consumer_step Consumer.idle m b =
    some (m, record b { consumer = if is_empty b.queue then Consumer.waiting else popping })
consumer_step Consumer.waiting m b =
    if b.provide_notify
    then some (m, record b { provide_notify = false; consumer = rechecking })
    else none
consumer_step rechecking m b =
    some (m, record b { consumer = if is_empty b.queue then Consumer.waiting else popping })
consumer_step popping m b = pop b.queue m b
consumer_step (releasing data') m b = some (give_back m, record b { consumer = waking data' })
consumer_step (waking data') m b =
    some (notify_one m, record b { consumer = Consumer.notifying data' })
consumer_step (Consumer.notifying data') m b = some (
  m,
  record b { consume_notify = true; received = b.received ++ data' ∷ []; consumer = Consumer.idle },
)
consumer_step Consumer.dropped m b = none

-- `provide` is called with data that was read.
unfoldable pub offer : Bytes → Provider → BlockManager → DataBlock → Next
offer data' Provider.idle m b =
    some (m, record b { sent = b.sent ++ data' ∷ []; provider = starting data' })
offer data' _ m b = none

-- Cancellation ends a call of `provide` or `consume` where it waits, and nowhere else.
unfoldable pub rests_provider : Provider → Bool
rests_provider Provider.idle = true
rests_provider (Provider.waiting data') = true
rests_provider _ = false

unfoldable pub rests_consumer : Consumer → Bool
rests_consumer Consumer.idle = true
rests_consumer Consumer.waiting = true
rests_consumer _ = false

-- Both tasks have ended, and `drop` begins.
unfoldable pub close : BlockManager → DataBlock → Next
unfolding rests_provider rests_consumer
close m b =
    if rests_provider b.provider
    then (if rests_consumer b.consumer
        then some (m, record b { provider = Provider.dropped; consumer = Consumer.dropped })
        else none)
    else none

-- One round of the loop in `drop`; behind it the block is gone, and a new one may take its place.
unfoldable pub drop_round : List Bytes → BlockManager → DataBlock → Next
unfolding release fresh
drop_round [] m b = some (m, fresh)
drop_round (x ∷ xs) m b = some (release m, record b { queue = xs })

unfoldable pub drop_step : Provider → BlockManager → DataBlock → Next
unfolding drop_round
drop_step Provider.dropped m b = drop_round b.queue m b
drop_step _ m b = none

pub data Action : Type 0 where
  offers : Bytes → Action
  provides wakes consumes closes drops : Action

unfoldable pub step : Action → BlockManager → DataBlock → Next
unfolding offer provider_step manager_wakes consumer_step close drop_step
step (offers data') m b = offer data' b.provider m b
step provides m b = provider_step b.provider m b
step wakes m b = manager_wakes b.provider m b
step consumes m b = consumer_step b.consumer m b
step closes m b = close m b
step drops m b = drop_step b.provider m b
