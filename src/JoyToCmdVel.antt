-- ===== src/JoyToCmdVel.antt =====
-- `JoyToCmdVel` of ros2_ws/src/g1_sim_bridge/g1_sim_bridge/joy_to_cmdvel_node.py: the velocity that it
-- publishes, from the last message of the joystick. Parameters of the node are fields.
pub mod Deadman
mod Tests
use package.navigation.Prelude.{
  ℕ, zero, suc, Bool, true, false, ◌&&◌, ◌||◌, not, Option, none, some, List, [], ◌∷◌, ℤ, pos,
  negsuc, leb_ℤ, if◌then◌else◌,
}
use package.navigation.Float.{Float, ◌⊗◌, less, nought, negate}
use package.navigation.Velocity.{Velocity, standstill}

pub record Joy (F : Type 0) : Type 0 where
  pub axes : List F
  -- `joy.buttons[k]` as a condition
  pub buttons : List Bool

-- An axis: its index, scale and inversion.
pub record Axis (F : Type 0) : Type 0 where
  pub idx : ℤ
  pub scale : F
  pub invert : Bool

pub record Params (F : Type 0) : Type 0 where
  pub vx : Axis F
  pub vy : Axis F
  pub yaw : Axis F
  pub dz : F
  pub enable : ℤ

-- An element of a list; an index below 0 or past the end has none.
abbrev pub nth {ℓ} : {A : Type ℓ} → List A → ℕ → Option A
nth [] k = none
nth (x ∷ xs) zero = some x
nth (x ∷ xs) (suc k) = nth xs k

abbrev pub at {ℓ} : {A : Type ℓ} → List A → ℤ → Option A
at xs (pos k) = nth xs k
at xs (negsuc k) = none

-- What wakes the node: a message, or the timer, which publishes the last velocity.
pub data Event (F : Type 0) : Type 0 where
  joy_msg : Joy F → Event F
  timer : Event F

module _ {F : Type 0} ⦃f : Float F⦄ where
  abbrev pub magnitude : F → F
  magnitude v = if less v nought then negate v else v

  unfoldable pub axis : F → Joy F → Axis F → F
  axis dz joy a = elim (at joy.axes a.idx) [
    | none ↦ nought
    | some v ↦
        if less (magnitude v) dz then nought else (if a.invert then negate v else v) ⊗ a.scale
  ]

  -- `enable < len(buttons) and buttons[enable]`, for an index of at least 0.
  abbrev pub is_held : Params F → Joy F → Bool
  is_held p joy = elim (at joy.buttons p.enable) [ none ↦ false | some b ↦ b ]

  unfoldable pub on_joy : Params F → Joy F → Velocity F
  unfolding axis
  on_joy p joy =
      if leb_ℤ (pos 0) p.enable && not (is_held p joy)
      then standstill
      else record { vx = axis p.dz joy p.vx; vy = axis p.dz joy p.vy; wz = axis p.dz joy p.yaw }

  unfoldable pub published : Params F → List (Event F) → Velocity F → List (Velocity F)
  unfolding on_joy
  published p [] twist = []
  published p (joy_msg joy ∷ es) twist = published p es (on_joy p joy)
  published p (timer ∷ es) twist = let rest = published p es twist in twist ∷ rest
