-- ===== src/MpcNode/Command/Limits.antt =====
-- The adaptive velocity limit of `_solve_cb`.
use navigation.Prelude.{
  ℕ, zero, suc, Bool, true, false, Option, none, some, List, [], ◌∷◌, ◌&&◌, leb, length, pos,
  if◌then◌else◌,
}
use navigation.Float.{Float, ◌⊗◌, ◌⊘◌, less, fmax, fmin}

-- `_adaptive_vx_max`, and `_recent_solves` with the latest result at the head.
pub record Adaptive (F : Type 0) : Type 0 where
  pub vx_max : F
  pub recent : List Bool

abbrev pub first : {A : Type 0} → ℕ → List A → List A
first zero xs = []
first (suc n) [] = []
first (suc n) (x ∷ xs) = x ∷ first n xs

abbrev pub otherwise : {A : Type 0} → A → Option A → A
otherwise a none = a
otherwise a (some b) = b

abbrev pub failures : List Bool → ℕ
failures [] = 0
failures (true ∷ rs) = failures rs
failures (false ∷ rs) = suc (failures rs)

-- `append` on a deque of at most 20.
unfoldable pub remember : Bool → List Bool → List Bool
remember r rs = first 20 (r ∷ rs)

module _ {F : Type 0} ⦃f : Float F⦄ where
  abbrev pub fail_rate : List Bool → F
  fail_rate rs = f.of_int (pos (failures rs)) ⊘ f.of_int (pos (length rs))

  -- The limit after a solve that has joined the recent ones, when `update_velocity_limits` is called.
  unfoldable pub adapted : F → List Bool → F → Option F
  adapted cfg_vx_max rs vx_max =
      let lowered = fmax (f.lit 15 100) (vx_max ⊗ f.lit 90 100) in
      if leb 10 (length rs)
      then if less (f.lit 30 100) (fail_rate rs)
        then if less lowered vx_max then some lowered else none
        else if less (fail_rate rs) (f.lit 5 100) && less vx_max cfg_vx_max
        then some (fmin cfg_vx_max (vx_max ⊗ f.lit 105 100))
        else none
      else none

  -- The state after a solve, and the argument of `update_velocity_limits` when it is called.
  unfoldable pub adapt : Bool → F → Bool → Adaptive F → Adaptive F × Option F
  adapt enabled cfg_vx_max success a =
      let rs = remember success a.recent in
      let v = adapted cfg_vx_max rs a.vx_max in
      if enabled then (record { vx_max = otherwise a.vx_max v; recent = rs }, v) else (a, none)
