-- ===== src/Relay/Copy/Runs.antt =====
-- The two loops of a relay of src/object/, under any schedule.
use rog.Prelude.{ℕ, ◌^◌, ◌<◌, ◌≡◌, refl, ap, ◌∙◌, ◌⊎◌, Bool, true, false, List, [], ◌∷◌, inl, inr}
use rog.Relay.Copy.{
  Ends, Loop, Turn, stops, writes, leaves, finished, start, turn, Relay, Side, on_left, on_right,
  on_token, relay_step, relay,
}
use rog.Relay.Copy.Order.{Copied, turn-Copied, start-Copied}
use rog.Relay.Copy.Stops.{is_gone, Told, turn-Told, turn-cancelled, last_turns, last_turns-gone}

module _ {R W A R' W' A' : Type 0} (v : Ends R W A) (v' : Ends R' W' A') where
  -- Both loops, each against where it started.
  record Sound (r₀ : R) (w₀ : W) (n₀ : ℕ) (r₁ : R') (w₁ : W') (n₁ : ℕ) (s : Relay v v')
      : Type 0 where
    left : Copied v r₀ w₀ n₀ s.left
    right : Copied v' r₁ w₁ n₁ s.right
    left_told : Told v s.cancelled s.left
    right_told : Told v' s.cancelled s.right

  module _ (r₀ : R) (w₀ : W) (n₀ : ℕ) (r₁ : R') (w₁ : W') (n₁ : ℕ) where
    keeps :
        (t : Turn v) (l : Loop v) (c : Bool) (p : Type 0)
        → (p → c ≡ true)
        → p
        → (turn v t c l).0 ≡ true
    keeps t l true p f h = turn-cancelled v t l
    keeps t l false p f h = absurd (let e : false ≡ true = f h in cc)

    keeps' :
        (t : Turn v') (l : Loop v') (c : Bool) (p : Type 0)
        → (p → c ≡ true)
        → p
        → (turn v' t c l).0 ≡ true
    keeps' t l true p f h = turn-cancelled v' t l
    keeps' t l false p f h = absurd (let e : false ≡ true = f h in cc)

    relay_step-Sound :
        (d : Side v v') (s : Relay v v')
        → Sound r₀ w₀ n₀ r₁ w₁ n₁ s
        → Sound r₀ w₀ n₀ r₁ w₁ n₁ (relay_step v v' d s)
    unfolding relay_step
    relay_step-Sound (on_left t) s i = record {
      left = turn-Copied v r₀ w₀ n₀ t s.cancelled s.left i.left;
      right = i.right;
      left_told = turn-Told v t s.cancelled s.left i.left_told;
      right_told = λ e. keeps t s.left s.cancelled (s.right.phase ≡ finished) i.right_told e;
    }
    relay_step-Sound (on_right t) s i = record {
      left = i.left;
      right = turn-Copied v' r₁ w₁ n₁ t s.cancelled s.right i.right;
      left_told = λ e. keeps' t s.right s.cancelled (s.left.phase ≡ finished) i.left_told e;
      right_told = turn-Told v' t s.cancelled s.right i.right_told;
    }
    relay_step-Sound on_token s i = record {
      left = i.left;
      right = i.right;
      left_told = λ e. refl;
      right_told = λ e. refl;
    }

    relay-Sound :
        (s : Relay v v') (schedule : List (Side v v'))
        → Sound r₀ w₀ n₀ r₁ w₁ n₁ s
        → Sound r₀ w₀ n₀ r₁ w₁ n₁ (relay v v' s schedule)
    unfolding relay
    relay-Sound s [] i = i
    relay-Sound s (d ∷ rest) i = relay-Sound (relay_step v v' d s) rest (relay_step-Sound d s i)

    abbrev pub begin : Relay v v'
    begin = record { cancelled = false; left = start v r₀ w₀ n₀; right = start v' r₁ w₁ n₁ }

    reach :
        (schedule : List (Side v v'))
        → n₀ < 2 ^ 64
        → n₁ < 2 ^ 64
        → Sound r₀ w₀ n₀ r₁ w₁ n₁ (relay v v' begin schedule)
    reach schedule h₀ h₁ = relay-Sound begin schedule (record {
      left = start-Copied v r₀ w₀ n₀ h₀;
      right = start-Copied v' r₁ w₁ n₁ h₁;
      left_told = (unfold start in λ e. absurd (cc));
      right_told = (unfold start in λ e. absurd (cc));
    })

    -- Two loops that start with counts below 2 ^ 64. After any schedule of their turns, each of them
    -- has written what its reader gave it to pass on, in that order and nothing else, except for at most
    -- one piece at the end, which a failed write may have lost; its writer is where these writes take
    -- it, and its count has grown by their sizes, modulo 2 ^ 64.
    pub relay_copies :
        (schedule : List (Side v v'))
        → n₀ < 2 ^ 64
        → n₁ < 2 ^ 64
        → Copied v r₀ w₀ n₀ (relay v v' begin schedule).left
          × Copied v' r₁ w₁ n₁ (relay v v' begin schedule).right
    relay_copies schedule h₀ h₁ = let i = reach schedule h₀ h₁ in (i.left, i.right)

    -- The last turns of both loops: each may finish its write, sees the token, and leaves.
    abbrev pub farewell : List (Side v v')
    farewell =
        on_left writes
        ∷ on_left stops
        ∷ on_left leaves
        ∷ on_right writes
        ∷ on_right stops
        ∷ on_right leaves
        ∷ []

    abbrev told : Loop v → Loop v' → Relay v v'
    told l l' = record { cancelled = true; left = l; right = l' }

    told_left :
        (t : Turn v) (l : Loop v) (l' : Loop v')
        → relay_step v v' (on_left t) (told l l') ≡ told (turn v t true l).1 l'
    unfolding relay_step
    told_left t l l' =
        ap (λ c. record { cancelled = c; left = (turn v t true l).1; right = l' })
          (turn-cancelled v t l)

    told_right :
        (t : Turn v') (l : Loop v) (l' : Loop v')
        → relay_step v v' (on_right t) (told l l') ≡ told l (turn v' t true l').1
    unfolding relay_step
    told_right t l l' =
        ap (λ c. record { cancelled = c; left = l; right = (turn v' t true l').1 })
          (turn-cancelled v' t l')

    farewell_lem :
        (l : Loop v) (l' : Loop v')
        → relay v v' (told l l') farewell ≡ told (last_turns v l) (last_turns v' l')
    unfolding relay
    farewell_lem l l' = simp (told_left, told_right)

    gone_after :
        (s : Relay v v')
        → s.cancelled ≡ true
        → (is_gone v (relay v v' s farewell).left.phase ≡ true)
          × (is_gone v' (relay v v' s farewell).right.phase ≡ true)
    gone_after s c =
        let e : s ≡ told s.left s.right =
          ap (λ c. record { cancelled = c; left = s.left; right = s.right }) c in
        let f : relay v v' s farewell ≡ told (last_turns v s.left) (last_turns v' s.right) =
          ap (λ x. relay v v' x farewell) e ∙ farewell_lem s.left s.right in
        (
          ap (λ x. is_gone v x.left.phase) f ∙ last_turns-gone v s.left,
          ap (λ x. is_gone v' x.right.phase) f ∙ last_turns-gone v' s.right,
        )

    -- After any schedule in which one of the two loops has come to its end without a panic, at most
    -- three turns of each, of which one is the end of a write that has begun, end both.
    pub relay_ends :
        (schedule : List (Side v v'))
        → n₀ < 2 ^ 64
        → n₁ < 2 ^ 64
        → ((relay v v' begin schedule).left.phase ≡ finished)
          ⊎ ((relay v v' begin schedule).right.phase ≡ finished)
        → (is_gone v (relay v v' (relay v v' begin schedule) farewell).left.phase ≡ true)
          × (is_gone v' (relay v v' (relay v v' begin schedule) farewell).right.phase ≡ true)
    relay_ends schedule h₀ h₁ (inl e) =
        gone_after (relay v v' begin schedule) ((reach schedule h₀ h₁).left_told e)
    relay_ends schedule h₀ h₁ (inr e) =
        gone_after (relay v v' begin schedule) ((reach schedule h₀ h₁).right_told e)
