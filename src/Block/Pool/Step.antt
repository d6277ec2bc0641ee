-- ===== src/Block/Pool/Step.antt =====
-- One step of one task of src/block.rs, and the counts of the whole pool.
use rog.Prelude.{
  ℕ, zero, suc, ◌+◌, ◌-◌, ◌≤◌, ◌<◌, ◌≡◌, refl, Option, none, some, List, [], ◌∷◌, length, arith,
}
use rog.Block.{u64_mod, BlockManager, DataBlock, Action, step}
use rog.Block.Local.{LocalInv, step-LocalInv}
use rog.Block.Pool.{step_at, keep, behind, stored, held, occupied, total}
use rog.Block.Pool.Count.{step-Counts}

abbrev pub AllLocal : List DataBlock → Type 0
AllLocal [] = Unit {0}
AllLocal (d ∷ ds) = LocalInv d × AllLocal ds

stored-le-held : (d : DataBlock) → stored d ≤ held d + occupied d
stored-le-held d = ground arith

held-le-stored : (d : DataBlock) → held d ≤ stored d + 1
held-le-stored d = ground arith

occupied-le : (d : DataBlock) → occupied d ≤ 1
occupied-le d = ground arith

total-stored-le-held : (ds : List DataBlock) → total stored ds ≤ total held ds + total occupied ds
total-stored-le-held [] = omega arith
total-stored-le-held (d ∷ ds) = omega (arith, stored-le-held d, total-stored-le-held ds)

pub total-held-le-stored : (ds : List DataBlock) → total held ds ≤ total stored ds + length ds
total-held-le-stored [] = omega arith
total-held-le-stored (d ∷ ds) = omega (arith, held-le-stored d, total-held-le-stored ds)

pub total-occupied-le : (ds : List DataBlock) → total occupied ds ≤ length ds
total-occupied-le [] = omega arith
total-occupied-le (d ∷ ds) = omega (arith, occupied-le d, total-occupied-le ds)

-- The counts of a list of blocks, beside others with `a` counted, `b` stored and `c` occupied.
pub record Inv (limit a b c : ℕ) (m : BlockManager) (ds : List DataBlock) : Type 0 where
  pub limit_is : m.block_limit ≡ limit
  pub counted : m.taken_blocks ≡ a + total held ds
  pub bounded : b + total stored ds ≤ c + (limit - 1) + total occupied ds
  pub locals : AllLocal ds

keep-eq-some :
    (ds : List DataBlock) (d : DataBlock) (r : Option (BlockManager × DataBlock))
    {m' : BlockManager} {ds' : List DataBlock}
    → keep ds d r ≡ some (m', ds')
    → (d' : DataBlock) × (r ≡ some (m', d')) × (ds' ≡ d' ∷ ds)
keep-eq-some ds d none h = cc
keep-eq-some ds d (some (m, d')) h = (d', cc, cc)

behind-eq-some :
    (d : DataBlock) (r : Option (BlockManager × List DataBlock)) {m' : BlockManager}
    {ds' : List DataBlock}
    → behind d r ≡ some (m', ds')
    → (es : List DataBlock) × (r ≡ some (m', es)) × (ds' ≡ d ∷ es)
behind-eq-some d none h = cc
behind-eq-some d (some (m, es)) h = (es, cc, cc)

pub step_at-Inv :
    (limit a b c i : ℕ) (act : Action) (m m' : BlockManager) (ds ds' : List DataBlock)
    → b ≤ a + c
    → m.taken_blocks + 1 < u64_mod
    → Inv limit a b c m ds
    → step_at i act m ds ≡ some (m', ds')
    → Inv limit a b c m' ds' × (length ds' ≡ length ds)
unfolding step_at
step_at-Inv limit a b c i act m m' [] ds' o f v h = cc
step_at-Inv limit a b c zero act m m' (d ∷ ds) ds' o f v h =
    let (d', s, e) = keep-eq-some ds d (step act m d) h in
    let w =
      step-Counts limit (a + total held ds) (b + total stored ds) (c + total occupied ds)
        (omega (arith, total-stored-le-held ds)) act m m' d d'
        (record {
          limit_is = v.limit_is;
          counted = omega (arith, v.counted);
          bounded = omega (arith, v.bounded);
        })
        v.locals.0 f s in
    rw e (
      record {
        limit_is = w.limit_is;
        counted = omega (arith, w.counted);
        bounded = omega (arith, w.bounded);
        locals = (step-LocalInv act m m' d d' v.locals.0 s, v.locals.1);
      },
      refl,
    )
step_at-Inv limit a b c (suc i) act m m' (d ∷ ds) ds' o f v h =
    let (es, s, e) = behind-eq-some d (step_at i act m ds) h in
    let (w, len) =
      step_at-Inv limit (a + held d) (b + stored d) (c + occupied d) i act m m' ds es
        (omega (arith, stored-le-held d)) f
        (record {
          limit_is = v.limit_is;
          counted = omega (arith, v.counted);
          bounded = omega (arith, v.bounded);
          locals = v.locals.1;
        })
        s in
    rw e (
      record {
        limit_is = w.limit_is;
        counted = omega (arith, w.counted);
        bounded = omega (arith, w.bounded);
        locals = (v.locals.0, w.locals);
      },
      omega arith,
    )
