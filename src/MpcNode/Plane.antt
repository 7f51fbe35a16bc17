-- ===== src/MpcNode/Plane.antt =====
-- `_quat_to_yaw`, `_yaw_to_quat` and `_wrap_angle` of mpc_node.py, and its vectors of the plane.
use navigation.Prelude.{List, [], ◌∷◌, pos, length, if◌then◌else◌}
use navigation.Float.{Float, ◌⊕◌, ◌⊖◌, ◌⊗◌, ◌⊘◌, less, nought, unit, negate}
use navigation.Float.Trig.{Trig}

-- A point of the plane.
abbrev pub Point : Type 0 → Type 0
Point F = F × F

pub record Quaternion (F : Type 0) : Type 0 where
  pub qx : F
  pub qy : F
  pub qz : F
  pub qw : F

module _ {F : Type 0} ⦃f : Float F⦄ where
  abbrev pub plus : Point F → Point F → Point F
  plus a b = (a.0 ⊕ b.0, a.1 ⊕ b.1)

  abbrev pub minus : Point F → Point F → Point F
  minus a b = (a.0 ⊖ b.0, a.1 ⊖ b.1)

  abbrev pub scaled : F → Point F → Point F
  scaled k a = (a.0 ⊗ k, a.1 ⊗ k)

  abbrev pub shrunk : F → Point F → Point F
  shrunk k a = (a.0 ⊘ k, a.1 ⊘ k)

  -- `np.linalg.norm` of a vector of the plane.
  abbrev pub norm : Point F → F
  norm a = f.hypot a.0 a.1

  abbrev pub distance : Point F → Point F → F
  distance a b = norm (minus a b)

  abbrev pub absolute : F → F
  absolute x = if less x nought then negate x else x

  abbrev pub sum : List (Point F) → Point F
  sum [] = (nought, nought)
  sum (a ∷ rest) = plus a (sum rest)

  -- `mean(axis=0)`, of points that are some.
  unfoldable pub mean : List (Point F) → Point F
  mean points = shrunk (f.of_int (pos (length points))) (sum points)

  -- `math.copysign`, the sign of zero left out.
  abbrev pub copysign : F → F → F
  copysign x y = if less y nought then negate (absolute x) else absolute x

module _ {F : Type 0} ⦃f : Float F⦄ ⦃t : Trig F⦄ where
  unfoldable pub quat_to_yaw : Quaternion F → F
  quat_to_yaw q =
      let two = f.lit 2 1 in
      let siny = two ⊗ (q.qw ⊗ q.qz ⊕ q.qx ⊗ q.qy) in
      let cosy = unit ⊖ two ⊗ (q.qy ⊗ q.qy ⊕ q.qz ⊗ q.qz) in t.atan2 siny cosy

  unfoldable pub yaw_to_quat : F → Quaternion F
  yaw_to_quat yaw =
      let half = yaw ⊘ f.lit 2 1 in
      record { qx = nought; qy = nought; qz = t.sin half; qw = t.cos half }

  unfoldable pub wrap_angle : F → F
  wrap_angle angle = t.atan2 (t.sin angle) (t.cos angle)
