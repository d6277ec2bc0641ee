-- ===== src/Block/Pool/Count.antt =====
-- How one step of one data block moves the counts, with what the other blocks hold as parameters.
use rog.Prelude.{ℕ, ◌+◌, ◌-◌, ◌≤◌, ◌<◌, ◌≡◌, refl, some, List, [], ◌∷◌, length-append, arith}
use rog.Prelude.Word.{Bytes}
use rog.Block.{
  u64_mod, BlockManager, DataBlock, Provider, Consumer, Action, offers, provides, wakes, consumes,
  closes, drops, pushing, popping, provider_step, manager_wakes, consumer_step, offer, close,
  drop_step, drop_round, step, pop,
}
use rog.Block.Local.{LocalInv}
use rog.Block.Pool.{stored, held, occupied}

-- The other blocks hold `a` counted and `b` stored pieces of data, and `c` of them are occupied.
module _ (limit a b c : ℕ) where
  -- `taken_blocks` counts what all blocks hold; what is stored stays within the limit, but for one
  -- piece of data in each occupied block.
  pub record Counts (m : BlockManager) (d : DataBlock) : Type 0 where
    pub limit_is : m.block_limit ≡ limit
    pub counted : m.taken_blocks ≡ a + held d
    pub bounded : b + stored d ≤ c + (limit - 1) + occupied d

  module _ (others : b ≤ a + c) where
    provider_step-Counts :
        (p : Provider) (m m' : BlockManager) (d d' : DataBlock)
        → d.provider ≡ p
        → Counts m d
        → LocalInv d
        → m.taken_blocks + 1 < u64_mod
        → provider_step p m d ≡ some (m', d')
        → Counts m' d'
    unfolding provider_step
    provider_step-Counts Provider.idle m m' d d' e v l h s = cc
    provider_step-Counts (pushing x) m m' d d' e v l h s =
        ground (arith, length-append d.queue (x ∷ []))
    provider_step-Counts _ m m' d d' e v l h s = ground arith

    manager_wakes-Counts :
        (p : Provider) (m m' : BlockManager) (d d' : DataBlock)
        → d.provider ≡ p
        → Counts m d
        → manager_wakes p m d ≡ some (m', d')
        → Counts m' d'
    unfolding manager_wakes
    manager_wakes-Counts (Provider.waiting x) m m' d d' e v s = ground arith
    manager_wakes-Counts _ m m' d d' e v s = cc

    offer-Counts :
        (x : Bytes) (p : Provider) (m m' : BlockManager) (d d' : DataBlock)
        → d.provider ≡ p
        → Counts m d
        → offer x p m d ≡ some (m', d')
        → Counts m' d'
    unfolding offer
    offer-Counts x Provider.idle m m' d d' e v s = ground arith
    offer-Counts x _ m m' d d' e v s = cc

    pop-Counts :
        (q : List Bytes) (m m' : BlockManager) (d d' : DataBlock)
        → d.queue ≡ q
        → d.consumer ≡ popping
        → Counts m d
        → pop q m d ≡ some (m', d')
        → Counts m' d'
    unfolding pop
    pop-Counts [] m m' d d' e k v s = cc
    pop-Counts (x ∷ xs) m m' d d' e k v s = ground arith

    consumer_step-Counts :
        (k : Consumer) (m m' : BlockManager) (d d' : DataBlock)
        → d.consumer ≡ k
        → Counts m d
        → m.taken_blocks + 1 < u64_mod
        → consumer_step k m d ≡ some (m', d')
        → Counts m' d'
    unfolding consumer_step
    consumer_step-Counts popping m m' d d' e v h s = pop-Counts d.queue m m' d d' refl e v s
    consumer_step-Counts Consumer.dropped m m' d d' e v h s = cc
    consumer_step-Counts _ m m' d d' e v h s = ground arith

    close-Counts :
        (m m' : BlockManager) (d d' : DataBlock)
        → Counts m d
        → close m d ≡ some (m', d')
        → Counts m' d'
    unfolding close
    close-Counts m m' d d' v s = ground arith

    drop_round-Counts :
        (q : List Bytes) (m m' : BlockManager) (d d' : DataBlock)
        → d.queue ≡ q
        → d.provider ≡ Provider.dropped
        → d.consumer ≡ Consumer.dropped
        → Counts m d
        → m.taken_blocks + 1 < u64_mod
        → drop_round q m d ≡ some (m', d')
        → Counts m' d'
    unfolding drop_round
    drop_round-Counts [] m m' d d' e k l v h s = ground arith
    drop_round-Counts (x ∷ xs) m m' d d' e k l v h s = ground arith

    drop_step-Counts :
        (p : Provider) (m m' : BlockManager) (d d' : DataBlock)
        → d.provider ≡ p
        → Counts m d
        → LocalInv d
        → m.taken_blocks + 1 < u64_mod
        → drop_step p m d ≡ some (m', d')
        → Counts m' d'
    unfolding drop_step
    drop_step-Counts Provider.dropped m m' d d' e v l h s =
        drop_round-Counts d.queue m m' d d' refl e (ground arith) v h s
    drop_step-Counts _ m m' d d' e v l h s = cc

    pub step-Counts :
        (act : Action) (m m' : BlockManager) (d d' : DataBlock)
        → Counts m d
        → LocalInv d
        → m.taken_blocks + 1 < u64_mod
        → step act m d ≡ some (m', d')
        → Counts m' d'
    unfolding step
    step-Counts (offers x) m m' d d' v l h s = offer-Counts x d.provider m m' d d' refl v s
    step-Counts provides m m' d d' v l h s = provider_step-Counts d.provider m m' d d' refl v l h s
    step-Counts wakes m m' d d' v l h s = manager_wakes-Counts d.provider m m' d d' refl v s
    step-Counts consumes m m' d d' v l h s = consumer_step-Counts d.consumer m m' d d' refl v h s
    step-Counts closes m m' d d' v l h s = close-Counts m m' d d' v s
    step-Counts drops m m' d d' v l h s = drop_step-Counts d.provider m m' d d' refl v l h s
