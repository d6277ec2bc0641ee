-- ===== src/Block/Pool/Runs.antt =====
-- Any schedule of the tasks of src/block.rs.
use rog.Prelude.{
  ℕ, zero, suc, ◌+◌, ◌-◌, ◌*◌, ◌≤◌, ◌<◌, ◌≡◌, ◌≢◌, refl, ◌⊎◌, inl, Option, none, some, List, [],
  ◌∷◌, ◌++◌, length, replicate, length-replicate, arith, get_elem?,
}
use rog.Block.{
  u64_mod, BlockManager, DataBlock, Provider, Consumer, Action, provides, consumes, step, fresh,
  new, provider_step, consumer_step,
}
use rog.Block.Local.{LocalInv, fresh-LocalInv, FifoInv, in_order, to_return, to_push}
use rog.Block.Pool.{System, start, run, step_at, stored, held, total, after}
use rog.Block.Pool.Step.{Inv, AllLocal, step_at-Inv, total-held-le-stored, total-occupied-le}

-- The counts of a whole system of `n` data blocks.
record Sound (limit n : ℕ) (s : System) : Type 0 where
  inv : Inv limit 0 0 0 s.manager s.blocks
  size : length s.blocks ≡ n

Sound-taken :
    (limit n : ℕ) (s : System) → Sound limit n s → s.manager.taken_blocks ≤ (limit - 1) + 2 * n
Sound-taken limit n s v = omega (
  arith,
  v.inv.counted,
  v.inv.bounded,
  v.size,
  total-held-le-stored s.blocks,
  total-occupied-le s.blocks,
)

after-Sound :
    (limit n i : ℕ) (a : Action) (s : System) (r : Option (BlockManager × List DataBlock))
    → limit + 2 * n + 1 < u64_mod
    → Sound limit n s
    → step_at i a s.manager s.blocks ≡ r
    → Sound limit n (after s r)
after-Sound limit n i a s none f v e = v
after-Sound limit n i a s (some (m, ds)) f v e =
    let (w, len) =
      step_at-Inv limit 0 0 0 i a s.manager m s.blocks ds (omega arith)
        (omega (arith, Sound-taken limit n s v)) v.inv e in
    record { inv = w; size = omega (arith, v.size) }

run-Sound :
    (limit n : ℕ) (s : System) (schedule : List (ℕ × Action))
    → limit + 2 * n + 1 < u64_mod
    → Sound limit n s
    → Sound limit n (run s schedule)
unfolding run
run-Sound limit n s [] f v = v
run-Sound limit n s ((i, a) ∷ rest) f v =
    run-Sound limit n (after s (step_at i a s.manager s.blocks)) rest f
      (after-Sound limit n i a s (step_at i a s.manager s.blocks) f v refl)

replicate-fresh :
    (n : ℕ)
    → (total held (replicate n fresh) ≡ 0)
      × (total stored (replicate n fresh) ≡ 0)
      × AllLocal (replicate n fresh)
unfolding fresh
replicate-fresh zero = (refl, refl, tt)
replicate-fresh (suc n) =
    let (h, s, l) = replicate-fresh n in
    (omega (arith, h), omega (arith, s), (unfold fresh in fresh-LocalInv, l))

start-Sound : (limit n : ℕ) → Sound limit n (start limit n)
unfolding start new
start-Sound limit n =
    let (h, s, l) = replicate-fresh n in
    record {
      inv = record {
        limit_is = refl;
        counted = omega (arith, h);
        bounded = omega (arith, s);
        locals = l;
      };
      size = length-replicate n fresh;
    }

-- For `n` data blocks on one manager, with `limit + 2 * n + 1` below 2 ^ 64, after any schedule of
-- their tasks: `taken_blocks` is what the blocks hold (queued, about to be queued, or popped and
-- about to be given back); what is queued or about to be queued exceeds `limit - 1` by at most one
-- piece of data for each block, and `taken_blocks` by at most two.
pub run_bounded :
    (limit n : ℕ) (schedule : List (ℕ × Action))
    → limit + 2 * n + 1 < u64_mod
    → let s = run (start limit n) schedule in
      (s.manager.taken_blocks ≡ total held s.blocks)
      × (total stored s.blocks ≤ (limit - 1) + n)
      × (s.manager.taken_blocks ≤ (limit - 1) + 2 * n)
run_bounded limit n schedule f =
    let s = run (start limit n) schedule in
    let v = run-Sound limit n (start limit n) schedule f (start-Sound limit n) in
    (
      omega (arith, v.inv.counted),
      omega (arith, v.inv.bounded, v.size, total-occupied-le s.blocks),
      Sound-taken limit n s v,
    )

AllLocal-get_elem? :
    (ds : List DataBlock) (i : ℕ) (d : DataBlock)
    → AllLocal ds
    → get_elem? ds i ≡ some d
    → LocalInv d
AllLocal-get_elem? [] i d l h = cc
AllLocal-get_elem? (x ∷ ds) zero d l h = ground (arith, l.0)
AllLocal-get_elem? (x ∷ ds) (suc i) d l h = AllLocal-get_elem? ds i d l.1 h

run-LocalInv :
    (limit n : ℕ) (schedule : List (ℕ × Action)) (i : ℕ) (d : DataBlock)
    → limit + 2 * n + 1 < u64_mod
    → get_elem? (run (start limit n) schedule).blocks i ≡ some d
    → LocalInv d
run-LocalInv limit n schedule i d f h =
    let v = run-Sound limit n (start limit n) schedule f (start-Sound limit n) in
    AllLocal-get_elem? (run (start limit n) schedule).blocks i d v.inv.locals h

fifo-of : (p : Provider) (d : DataBlock) → p ≢ Provider.dropped → FifoInv p d → in_order d ≡ d.sent
fifo-of Provider.dropped d ne h = absurd (ne refl)
fifo-of _ d ne h = h

-- After any schedule, in each block that is not being dropped, what the calls of `provide` were given is,
-- in their order, what the calls of `consume` have returned, what one has popped and is about to
-- return, what is queued, and what a call of `provide` that has not ended has still to push, whether it
-- waits or not: nothing is lost, repeated or reordered on the way.
pub run_fifo :
    (limit n : ℕ) (schedule : List (ℕ × Action)) (i : ℕ) (d : DataBlock)
    → limit + 2 * n + 1 < u64_mod
    → get_elem? (run (start limit n) schedule).blocks i ≡ some d
    → d.provider ≢ Provider.dropped
    → d.received ++ (to_return d.consumer ++ (d.queue ++ to_push d.provider)) ≡ d.sent
run_fifo limit n schedule i d f h ne =
    fifo-of d.provider d ne (run-LocalInv limit n schedule i d f h).fifo

quiet :
    (p : Provider) (k : Consumer) (m : BlockManager) (d : DataBlock)
    → d.provider ≡ p
    → d.consumer ≡ k
    → LocalInv d
    → provider_step p m d ≡ none
    → consumer_step k m d ≡ none
    → (p ≡ Provider.dropped) ⊎ ((d.queue ≡ []) × (p ≡ Provider.idle) × (k ≡ Consumer.waiting))
unfolding provider_step consumer_step
quiet Provider.dropped k m d e g v h c = inl refl
quiet Provider.idle Consumer.waiting m d e g v h c = ground arith
quiet Provider.idle _ m d e g v h c = ground arith
quiet (Provider.waiting x) Consumer.waiting m d e g v h c = ground arith
quiet (Provider.waiting x) _ m d e g v h c = ground arith
quiet _ k m d e g v h c = cc

-- No wake-up is lost. After any schedule, a block whose provider and consumer can both make no step
-- of their own is being dropped, or its queue is empty, its provider has no data to provide and its
-- consumer waits.
pub run_not_stuck :
    (limit n : ℕ) (schedule : List (ℕ × Action)) (i : ℕ) (d : DataBlock)
    → limit + 2 * n + 1 < u64_mod
    → get_elem? (run (start limit n) schedule).blocks i ≡ some d
    → (let m = (run (start limit n) schedule).manager in
        step provides m d ≡ none
        → step consumes m d ≡ none
        → (d.provider ≡ Provider.dropped)
          ⊎ ((d.queue ≡ []) × (d.provider ≡ Provider.idle) × (d.consumer ≡ Consumer.waiting)))
unfolding step
run_not_stuck limit n schedule i d f h p c =
    quiet d.provider d.consumer (run (start limit n) schedule).manager d refl refl
      (run-LocalInv limit n schedule i d f h) p c
