-- ===== src/Block/Local.antt =====
-- One data block of src/block.rs by itself, whatever the manager does.
use rog.Prelude.{
  ◌≡◌, ◌≢◌, refl, ◌⊎◌, Bool, true, some, List, [], ◌∷◌, ◌++◌, append-nil, append_assoc, arith,
}
use rog.Prelude.Word.{Bytes}
use rog.Block.{
  starting, taking, BlockManager, DataBlock, Provider, Consumer, Action, offers, provides, wakes,
  consumes, closes, drops, checking, pushing, popping, releasing, waking, fresh, provider_step,
  manager_wakes, consumer_step, offer, close, drop_step, drop_round, step, pop,
}

-- The consumer's side: a waiting consumer of a queue that is not empty has a permit, or the provider
-- is about to leave one; the queue is not empty where `pop_front` is unwrapped.
abbrev pub ConsumerInv : Consumer → Provider → List Bytes → Bool → Type 0
ConsumerInv Consumer.waiting p (x ∷ xs) permit = (permit ≡ true) ⊎ (p ≡ Provider.notifying)
ConsumerInv popping p [] permit = ⊥
ConsumerInv _ p q permit = Unit {0}

-- The consumer has popped, and will leave a permit.
abbrev pub Finishing : Consumer → Type 0
Finishing (releasing data') = Unit {0}
Finishing (waking data') = Unit {0}
Finishing (Consumer.notifying data') = Unit {0}
Finishing _ = ⊥

-- The provider's side: one that waits, or is about to, has a permit if the queue is empty, or the
-- consumer is about to leave one.
abbrev pub ProviderInv : Provider → Consumer → List Bytes → Bool → Type 0
ProviderInv (checking data') c [] permit = (permit ≡ true) ⊎ Finishing c
ProviderInv (Provider.waiting data') c [] permit = (permit ≡ true) ⊎ Finishing c
ProviderInv _ c q permit = Unit {0}

abbrev pub DropInv : Provider → Consumer → Type 0
DropInv Provider.dropped c = c ≡ Consumer.dropped
DropInv p c = c ≢ Consumer.dropped

-- What the provider has still to push, and what the consumer has popped and has still to return.
abbrev pub to_push : Provider → List Bytes
to_push (starting data') = data' ∷ []
to_push (checking data') = data' ∷ []
to_push (taking data') = data' ∷ []
to_push (pushing data') = data' ∷ []
to_push (Provider.waiting data') = data' ∷ []
to_push _ = []

abbrev pub to_return : Consumer → List Bytes
to_return (releasing data') = data' ∷ []
to_return (waking data') = data' ∷ []
to_return (Consumer.notifying data') = data' ∷ []
to_return _ = []

abbrev pub in_order : DataBlock → List Bytes
in_order b = b.received ++ (to_return b.consumer ++ (b.queue ++ to_push b.provider))

-- What was received and what is under way make up what was sent, until the block is dropped.
abbrev pub FifoInv : Provider → DataBlock → Type 0
FifoInv Provider.dropped b = Unit {0}
FifoInv _ b = in_order b ≡ b.sent

pub record LocalInv (b : DataBlock) : Type 0 where
  pub consumer_inv : ConsumerInv b.consumer b.provider b.queue b.provide_notify
  pub provider_inv : ProviderInv b.provider b.consumer b.queue b.consume_notify
  pub drop_inv : DropInv b.provider b.consumer
  pub fifo : FifoInv b.provider b

pub fresh-LocalInv : LocalInv fresh
unfolding fresh
fresh-LocalInv = record { consumer_inv = tt; provider_inv = tt; drop_inv = λ e. cc; fifo = refl }

provider_step-LocalInv :
    (p : Provider) (m m' : BlockManager) (b b' : DataBlock)
    → b.provider ≡ p
    → LocalInv b
    → provider_step p m b ≡ some (m', b')
    → LocalInv b'
unfolding provider_step
provider_step-LocalInv Provider.idle m m' b b' e v h = cc
provider_step-LocalInv (pushing x) m m' b b' e v h = ground (arith, append-nil (b.queue ++ x ∷ []))
provider_step-LocalInv _ m m' b b' e v h = ground arith

manager_wakes-LocalInv :
    (p : Provider) (m m' : BlockManager) (b b' : DataBlock)
    → b.provider ≡ p
    → LocalInv b
    → manager_wakes p m b ≡ some (m', b')
    → LocalInv b'
unfolding manager_wakes
manager_wakes-LocalInv (Provider.waiting x) m m' b b' e v h = ground arith
manager_wakes-LocalInv _ m m' b b' e v h = cc

offer-LocalInv :
    (x : Bytes) (p : Provider) (m m' : BlockManager) (b b' : DataBlock)
    → b.provider ≡ p
    → LocalInv b
    → offer x p m b ≡ some (m', b')
    → LocalInv b'
unfolding offer
offer-LocalInv x Provider.idle m m' b b' e v h = ground (
  arith,
  append-nil b.queue,
  append_assoc b.received (to_return b.consumer ++ b.queue) (x ∷ []),
  append_assoc (to_return b.consumer) b.queue (x ∷ []),
)
offer-LocalInv x _ m m' b b' e v h = cc

pop-LocalInv :
    (q : List Bytes) (m m' : BlockManager) (b b' : DataBlock)
    → b.queue ≡ q
    → b.consumer ≡ popping
    → LocalInv b
    → pop q m b ≡ some (m', b')
    → LocalInv b'
unfolding pop
pop-LocalInv [] m m' b b' e c v h = cc
pop-LocalInv (x ∷ xs) m m' b b' e c v h = ground arith

consumer_step-LocalInv :
    (c : Consumer) (m m' : BlockManager) (b b' : DataBlock)
    → b.consumer ≡ c
    → LocalInv b
    → consumer_step c m b ≡ some (m', b')
    → LocalInv b'
unfolding consumer_step
consumer_step-LocalInv popping m m' b b' e v h = pop-LocalInv b.queue m m' b b' refl e v h
consumer_step-LocalInv (Consumer.notifying x) m m' b b' e v h =
    ground (arith, append_assoc b.received (x ∷ []) (b.queue ++ to_push b.provider))
consumer_step-LocalInv Consumer.dropped m m' b b' e v h = cc
consumer_step-LocalInv _ m m' b b' e v h = ground arith

close-LocalInv :
    (m m' : BlockManager) (b b' : DataBlock) → LocalInv b → close m b ≡ some (m', b') → LocalInv b'
unfolding close
close-LocalInv m m' b b' v h = ground arith

drop_round-LocalInv :
    (q : List Bytes) (m m' : BlockManager) (b b' : DataBlock)
    → b.provider ≡ Provider.dropped
    → LocalInv b
    → drop_round q m b ≡ some (m', b')
    → LocalInv b'
unfolding drop_round
drop_round-LocalInv [] m m' b b' e v h = ground (arith, fresh-LocalInv)
drop_round-LocalInv (x ∷ xs) m m' b b' e v h = ground arith

drop_step-LocalInv :
    (p : Provider) (m m' : BlockManager) (b b' : DataBlock)
    → b.provider ≡ p
    → LocalInv b
    → drop_step p m b ≡ some (m', b')
    → LocalInv b'
unfolding drop_step
drop_step-LocalInv Provider.dropped m m' b b' e v h = drop_round-LocalInv b.queue m m' b b' e v h
drop_step-LocalInv _ m m' b b' e v h = cc

-- Every step of a block's tasks keeps its invariant, whatever the manager's counters are.
pub step-LocalInv :
    (a : Action) (m m' : BlockManager) (b b' : DataBlock)
    → LocalInv b
    → step a m b ≡ some (m', b')
    → LocalInv b'
unfolding step
step-LocalInv (offers x) m m' b b' v h = offer-LocalInv x b.provider m m' b b' refl v h
step-LocalInv provides m m' b b' v h = provider_step-LocalInv b.provider m m' b b' refl v h
step-LocalInv wakes m m' b b' v h = manager_wakes-LocalInv b.provider m m' b b' refl v h
step-LocalInv consumes m m' b b' v h = consumer_step-LocalInv b.consumer m m' b b' refl v h
step-LocalInv closes m m' b b' v h = close-LocalInv m m' b b' v h
step-LocalInv drops m m' b b' v h = drop_step-LocalInv b.provider m m' b b' refl v h
