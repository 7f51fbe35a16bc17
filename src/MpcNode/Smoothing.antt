-- ===== src/MpcNode/Smoothing.antt =====
-- `_smooth_resample_path` of mpc_node.py. numpy's sampling and interpolation and scipy's spline are
-- parameters.
pub mod Endpoints
use navigation.Prelude.{
  ℕ, suc, Bool, true, false, ◌&&◌, leb, length, List, [], ◌∷◌, ◌++◌, if◌then◌else◌, map,
}
use navigation.Float.{Float, ◌⊕◌, ◌⊖◌, ◌⊗◌, at_most, less, nought, fmax}
use navigation.MpcNode.Plane.{Point, distance}

-- A point of the plane with a height.
abbrev pub Spot : Type 0 → Type 0
Spot F = Point F × F

-- A path that is not empty: its first point and the others.
abbrev pub Trail : Type 0 → Type 0
Trail A = A × List A

pub record Numeric (F : Type 0) : Type 0 where
  -- whether scipy could be imported
  pub has_scipy : Bool
  -- the values of `np.arange(0.0, stop, ds)` after the first, which is 0.0
  pub arange : F → F → List F
  -- `CubicSpline(xs, ys)(s)` and `np.interp(s, xs, ys)`
  pub spline : List F → List F → F → F
  pub interp : List F → List F → F → F

abbrev pub final : {A : Type 0} → A → List A → A
final a [] = a
final a (b ∷ bs) = final b bs

abbrev pub replace_final : {A : Type 0} → A → List A → List A
replace_final a [] = []
replace_final a (b ∷ []) = a ∷ []
replace_final a (b ∷ c ∷ bs) = b ∷ replace_final a (c ∷ bs)

module _ {F : Type 0} ⦃f : Float F⦄ where
  -- The points that are farther than 1e-4 from the point before them.
  unfoldable pub distinct : Point F → List (Point F) → List (Point F)
  distinct a [] = []
  distinct a (b ∷ bs) =
      let others = distinct b bs in
      if less (f.lit 1 10000) (distance b a) then b ∷ others else others

  -- `cumsum` of the segments' lengths, after a given length.
  unfoldable pub arc_from : F → Point F → List (Point F) → List F
  arc_from s a [] = []
  arc_from s a (b ∷ bs) = (s ⊕ distance b a) ∷ arc_from (s ⊕ distance b a) b bs

  -- The arc lengths after one that is given, made to increase.
  unfoldable pub increasing : F → List F → List F
  increasing s [] = []
  increasing s (t ∷ ts) =
      let t' = if at_most t s then s ⊕ f.lit 1 1000000 else t in t' ∷ increasing t' ts

  module _ (n : Numeric F) (resample_ds : F) where
    -- The samples after 0.0 of a path's length: the last is the length, or above it.
    unfoldable pub samples : F → List F
    samples total =
        let s = n.arange (total ⊕ f.lit 1 1000000000) (fmax resample_ds (f.lit 1 100)) in
        if less (final nought s) total then s ++ (total ∷ []) else s

    abbrev pub xs : List (Point F) → List F
    xs = map (λ a. a.0)

    abbrev pub ys : List (Point F) → List F
    ys = map (λ a. a.1)

    -- The curve through points at their arc lengths.
    abbrev pub curve : (List F → List F → F → F) → List F → List (Point F) → F → Point F
    curve fit arc points s = (fit arc (xs points) s, fit arc (ys points) s)

    -- The spline at the samples, whose ends are the ends of the points.
    unfoldable pub splined : Point F → List (Point F) → List F → List F → Trail (Point F)
    splined a points arc s = elim s [
      | [] ↦ (final a points, [])
      | s1 ∷ ss ↦ (
        a,
        replace_final (final a points)
            (map (curve n.spline (nought ∷ increasing nought arc) (a ∷ points)) (s1 ∷ ss)),
      )
    ]

    unfoldable pub interpolated : Point F → List (Point F) → List F → List F → Trail (Point F)
    interpolated a points arc s =
        let at = curve n.interp (nought ∷ arc) (a ∷ points) in (at nought, map at s)

    -- The resampled points, from points that are distinct from each other.
    unfoldable pub resampled : Point F → List (Point F) → Trail (Point F)
    resampled a [] = (a, [])
    resampled a (b ∷ bs) =
        let arc = arc_from nought a (b ∷ bs) in
        let total = final nought arc in
        if at_most total (f.lit 1 1000000)
        then (a, final b bs ∷ [])
        else (if n.has_scipy && leb 4 (suc (length (b ∷ bs)))
            then splined a (b ∷ bs) arc (samples total)
            else interpolated a (b ∷ bs) arc (samples total))

    abbrev pub lifted : F → Trail (Point F) → Trail (Spot F)
    lifted z (a, others) = ((a, z), map (λ b. (b, z)) others)

    -- A path of one point is returned as it is; the others take the height of the last point.
    unfoldable pub smooth_resample_path : Trail (Spot F) → Trail (Spot F)
    smooth_resample_path (a, []) = (a, [])
    smooth_resample_path (a, b ∷ bs) =
        let points = map (λ c. c.0) (b ∷ bs) in
        lifted (final b bs).1 (resampled a.0 (distinct a.0 points))
