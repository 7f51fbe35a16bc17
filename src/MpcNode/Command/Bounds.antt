-- ===== src/MpcNode/Command/Bounds.antt =====
-- What the commands of mpc_node.py keep to: the turn's limit, the decay of a soft hold, the velocity limit.
use navigation.Prelude.{
  ℕ, zero, suc, ◌+◌, ◌≤◌, ◌≡◌, refl, Bool, true, false, Option, none, some, List, [], ◌∷◌, leb,
  length, if◌then◌else◌, arith, inl, inr, ◌⊎◌, Bool-cases,
}
use mathlib.Core.Path.{subst, sym}
use navigation.Float.{Float, IsOrdered, ◌⊗◌, ◌≼◌, less, nought, negate, fmax, fmin}
use navigation.Velocity.Slew.{IsCapped, le_of_less, le_of_not_less, negate-le}
use navigation.JointFilters.Clamp.{bound-IsCapped}
use navigation.MpcNode.Plane.{absolute, copysign}
use navigation.MpcNode.Command.{
  Command, CommandParams, Hold, halt, decayed, turn_limit, align_turn, heading_align, soft_hold,
}
use navigation.MpcNode.Command.Limits.{Adaptive, adapted, adapt, first, otherwise, remember}

module _ {F : Type 0} ⦃f : Float F⦄ where
  abbrev pub limits_step : Bool → F → Bool → Adaptive F × F → Adaptive F × F
  limits_step enabled cfg r (a, v) =
      let after = adapt enabled cfg r a in (after.0, otherwise v after.1)

  -- The velocity limit and the tracker's after some solves, of which the head is the latest; the tracker
  -- begins with the configured limit, and keeps what the last `update_velocity_limits` gave it.
  unfoldable pub limits : Bool → F → List Bool → Adaptive F × F
  limits enabled cfg [] = (record { vx_max = cfg; recent = [] }, cfg)
  limits enabled cfg (r ∷ rs) =
      let before = limits enabled cfg rs in limits_step enabled cfg r before

  abbrev pub IsLimited : F → Adaptive F × F → Type 0
  IsLimited cfg (a, v) = (a.vx_max ≼ cfg) × (a.vx_max ≡ v) × (length a.recent ≤ 20)

module _ {F : Type 0} ⦃f : Float F⦄ (laws : IsOrdered F) where
  open laws use {le_refl, le_trans, neg_antitone, neg_nought, ltb-eq-not-leb}

  absolute-nonneg : (x : F) → nought ≼ absolute x
  absolute-nonneg x = elim (Bool-cases (less x nought)) [
    | inl e ↦
        rw e (
          subst (λ z. z ≼ negate x) neg_nought (neg_antitone x nought (le_of_less laws x nought e)))
    | inr e ↦ rw e (le_of_not_less laws x nought e)
  ]

  fmin_le : (x y : F) → fmin x y ≼ y
  fmin_le x y = ground (arith, le_refl y, le_of_not_less laws y x)

  fmin_nonneg : (x y : F) → nought ≼ x → nought ≼ y → nought ≼ fmin x y
  fmin_nonneg x y h k = ground arith

  fmax_nonneg : (y : F) → nought ≼ fmax nought y
  fmax_nonneg y = ground (arith, le_refl nought, le_of_less laws nought y)

  copysign-IsCapped : (m lim e : F) → nought ≼ m → m ≼ lim → IsCapped lim (copysign m e)
  copysign-IsCapped m lim e h k =
      let back = neg_antitone m lim k in
      let around = negate-le laws m h in
      ground (
        arith,
        le_trans (negate lim) (negate m) m,
        le_trans (negate m) m lim,
        ltb-eq-not-leb m nought,
      )

  -- The turn of `_publish_heading_align` never exceeds the limit, the least speed of a turn included.
  pub heading_align-IsCapped :
      (p : CommandParams F) (yaw_err : F) → IsCapped (turn_limit p) (heading_align p yaw_err)
  unfolding heading_align align_turn
  heading_align-IsCapped p yaw_err =
      let limit_nonneg = fmax_nonneg (fmin p.heading_max_omega p.cfg_omega_max) in
      let least = fmin (absolute p.heading_min_omega) (turn_limit p) in
      elim (Bool-cases (less (absolute (align_turn p yaw_err)) least)) [
        | inl e ↦ rw e (
            copysign-IsCapped least (turn_limit p) yaw_err
              (fmin_nonneg (absolute p.heading_min_omega) (turn_limit p)
                (absolute-nonneg p.heading_min_omega) limit_nonneg)
              (fmin_le (absolute p.heading_min_omega) (turn_limit p)))
        | inr e ↦ rw e (bound-IsCapped laws (p.heading_kp ⊗ yaw_err) (turn_limit p) limit_nonneg)
      ]

  chosen_cases :
      (enough failing shrinks healthy : Bool) (low high v' : F)
      → (if enough
          then if failing
            then if shrinks then some low else none
            else (if healthy then some high else none)
          else none)
        ≡ some v'
      → ((shrinks ≡ true) × (v' ≡ low)) ⊎ (v' ≡ high)
  chosen_cases enough failing shrinks healthy low high v' h = ground arith

  fmin_le_left : (x y : F) → fmin x y ≼ x
  fmin_le_left x y = ground (arith, le_refl x, le_of_less laws y x)

  adapted_le : (cfg v v' : F) (rs : List Bool) → v ≼ cfg → adapted cfg rs v ≡ some v' → v' ≼ cfg
  unfolding adapted
  adapted_le cfg v v' rs h e =
      elim (chosen_cases _ _ (less (fmax (f.lit 15 100) (v ⊗ f.lit 90 100)) v) _ _ _ v' e) [
        | inl (s, q) ↦ subst (λ z. z ≼ cfg) (sym q) (le_trans _ v cfg (le_of_less laws _ v s) h)
        | inr q ↦ subst (λ z. z ≼ cfg) (sym q) (fmin_le_left cfg _)
      ]

  length-first : {A : Type 0} (n : ℕ) (xs : List A) → length (first n xs) ≤ n
  length-first zero xs = ground arith
  length-first (suc n) [] = ground arith
  length-first (suc n) (x ∷ xs) = ground (arith, length-first n xs)

  otherwise_le :
      (cfg v w : F) (rs : List Bool) (o : Option F)
      → v ≼ cfg
      → v ≡ w
      → adapted cfg rs v ≡ o
      → (otherwise v o ≼ cfg) × (otherwise v o ≡ otherwise w o)
  otherwise_le cfg v w rs none h e q = (h, e)
  otherwise_le cfg v w rs (some v') h e q = (adapted_le cfg v v' rs h q, refl)

  step-IsLimited :
      (enabled : Bool) (cfg : F) (r : Bool) (s : Adaptive F × F)
      → IsLimited cfg s
      → IsLimited cfg (limits_step enabled cfg r s)
  unfolding adapt remember
  step-IsLimited false cfg r (a, v) h = h
  step-IsLimited true cfg r (a, v) (le, eq, few) =
      let (le', eq') = otherwise_le cfg a.vx_max v (remember r a.recent) _ le eq refl in
      (le', eq', length-first 20 (r ∷ a.recent))

  -- After any solves: the limit is the tracker's limit and at most the configured one, and no more than
  -- twenty results are remembered.
  pub limits-IsLimited :
      (enabled : Bool) (cfg : F) (rs : List Bool) → IsLimited cfg (limits enabled cfg rs)
  unfolding limits
  limits-IsLimited enabled cfg [] = (le_refl cfg, refl, ground arith)
  limits-IsLimited enabled cfg (r ∷ rs) =
      step-IsLimited enabled cfg r (limits enabled cfg rs) (limits-IsLimited enabled cfg rs)

module _ {F : Type 0} ⦃f : Float F⦄ (p : CommandParams F) where
  -- The state of the hold after failures in a row.
  unfoldable pub failing : ℕ → Hold F → Hold F
  failing zero h = h
  failing (suc n) h = let before = failing n h in (soft_hold p none before).1

  -- A command that has decayed so many times.
  abbrev pub faded : ℕ → Command F → Command F
  faded zero u = u
  faded (suc n) u = decayed p.soft_hold_decay (faded n u)

  failing-count : (n : ℕ) (h : Hold F) → (failing n h).soft_hold_count ≡ n + h.soft_hold_count
  unfolding failing soft_hold
  failing-count zero h = omega arith
  failing-count (suc n) h = ground (arith, failing-count n h)

  failing-last_good :
      (n : ℕ) (u : Command F) (h : Hold F)
      → n ≤ p.soft_hold_cycles
      → (failing n (soft_hold p (some u) h).1).last_good ≡ faded n u
  unfolding failing soft_hold
  failing-last_good zero u h le = refl
  failing-last_good (suc n) u h le = ground (
    arith,
    failing-count n (record { last_good = u; soft_hold_count = 0 }),
    failing-last_good n u h (omega (arith, le)),
  )

  -- After a solve that gave the command `u`, the failed solve number n + 1 in a row publishes `u` decayed
  -- n + 1 times while that is at most the number of cycles, and from then on zero velocity.
  pub soft_hold-failing :
      (n : ℕ) (u : Command F) (h : Hold F)
      → (soft_hold p none (failing n (soft_hold p (some u) h).1)).0
        ≡ (if leb (suc n) p.soft_hold_cycles then faded (suc n) u else halt)
  unfolding soft_hold
  soft_hold-failing n u h = ground (
    arith,
    failing-count n (record { last_good = u; soft_hold_count = 0 }),
    failing-last_good n u h,
  )
