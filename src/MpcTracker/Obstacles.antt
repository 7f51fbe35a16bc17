-- ===== src/MpcTracker/Obstacles.antt =====
-- `_select_obs_points` of mpc_tracker.py. A point is `none` where it is not finite; the order that
-- `np.argsort` gives is a parameter.
use navigation.Prelude.{
  ℕ, zero, suc, ◌-◌, ◌≤◌, ◌≡◌, refl, sym, ap, ◌⊎◌, inl, inr, true, Option, none, some, List, [],
  ◌∷◌, ◌++◌, ◌∈◌, All, All-append, length, length-append, if-split, if◌then◌else◌, arith,
}
use mathlib.Core.Path.{subst}
use navigation.Float.{Float, less}
use navigation.MpcNode.Plane.{Point, distance}
use navigation.MpcNode.Command.Limits.{first}
use navigation.MpcTracker.{TrackerConfig}

-- The points in the order of the distances that stand with them.
abbrev pub Argsort : Type 0 → Type 0
Argsort F = List (Point F × F) → List (Point F)

abbrev pub repeated : {A : Type 0} → ℕ → A → List A
repeated zero a = []
repeated (suc n) a = a ∷ repeated n a

length-repeated : {A : Type 0} (n : ℕ) (a : A) → length (repeated n a) ≡ n
length-repeated zero a = refl
length-repeated (suc n) a = omega (arith, length-repeated n a)

length-first : {A : Type 0} (n : ℕ) (xs : List A) → length (first n xs) ≤ n
length-first zero xs = ground arith
length-first (suc n) [] = ground arith
length-first (suc n) (x ∷ xs) = omega (arith, length-first n xs)

All-first : {A : Type 0} (P : A → Type 0) (n : ℕ) (xs : List A) → All P xs → All P (first n xs)
All-first P zero xs h = tt
All-first P (suc n) [] h = tt
All-first P (suc n) (x ∷ xs) h = (h.0, All-first P n xs h.1)

All-repeated : {A : Type 0} (P : A → Type 0) (n : ℕ) (a : A) → P a → All P (repeated n a)
All-repeated P zero a h = tt
All-repeated P (suc n) a h = (h, All-repeated P n a h)

All-members : {A : Type 0} (P : A → Type 0) (xs : List A) → ((x : A) → x ∈ xs → P x) → All P xs
All-members P [] h = tt
All-members P (x ∷ xs) h = (h x (inl refl), All-members P xs (λ y m. h y (inr m)))

module _ {F : Type 0} ⦃f : Float F⦄ where
  abbrev pub sentinel : Point F
  sentinel = (f.lit 1000 1, f.lit 1000 1)

  abbrev pub finite : List (Option (Point F)) → List (Point F)
  finite [] = []
  finite (none ∷ os) = finite os
  finite (some o ∷ os) = o ∷ finite os

  -- The points that are close to the robot, with their distances.
  unfoldable pub close_points : F → Point F → List (Point F) → List (Point F × F)
  close_points radius robot [] = []
  close_points radius robot (o ∷ os) =
      let others = close_points radius robot os in
      if less (distance o robot) radius then (o, distance o robot) ∷ others else others

  unfoldable pub select_obs_points :
      TrackerConfig F → Argsort F → Point F → List (Option (Point F)) → List (Point F)
  select_obs_points cfg argsort robot pts =
      let close = close_points cfg.obs_check_radius robot (finite pts) in
      let selected = first cfg.max_obs_constraints (argsort close) in
      selected ++ repeated (cfg.max_obs_constraints - length selected) sentinel

  -- Some permutation: what `argsort` keeps, whatever it does with equal distances.
  pub record IsOrdering (argsort : Argsort F) : Type 0 where
    pub same_members :
        (o : Point F) (ps : List (Point F × F)) → o ∈ argsort ps → (d : F) × ((o, d) ∈ ps)

  -- A sentinel, or a finite point of the cloud within the radius.
  abbrev pub IsSelected : TrackerConfig F → Point F → List (Option (Point F)) → Point F → Type 0
  IsSelected cfg robot pts o =
      (o ≡ sentinel) ⊎ ((o ∈ finite pts) × (less (distance o robot) cfg.obs_check_radius ≡ true))

  close_points-member :
      (radius : F) (robot o : Point F) (d : F) (os : List (Point F))
      → (o, d) ∈ close_points radius robot os
      → (o ∈ os) × (less (distance o robot) radius ≡ true)
  unfolding close_points
  close_points-member radius robot o d [] = λ m. absurd m
  close_points-member radius robot o d (p ∷ os) =
      let Member = λ (ps : List (Point F × F)).
        (o, d) ∈ ps → (o ∈ p ∷ os) × (less (distance o robot) radius ≡ true) in
      let later : (o, d) ∈ close_points radius robot os
          → (o ∈ p ∷ os) × (less (distance o robot) radius ≡ true) =
        λ m.
          let (inside, close) = close_points-member radius robot o d os m in (inr inside, close) in
      if-split Member (less (distance p robot) radius)
        (λ e m. elim m [
          | inl q ↦
              let same_point : o ≡ p = ap (λ x. x.0) q in
              (
                inl same_point,
                subst (λ x. less (distance x robot) radius ≡ true) (sym same_point) e,
              )
          | inr m' ↦ later m'
        ])
        (λ e m. later m)

  -- With any order of the points: as many points are selected as the problem has room for, and each is a
  -- finite point of the cloud within the radius of the robot, or a sentinel.
  pub select_obs_points-AllSelected :
      (cfg : TrackerConfig F) (argsort : Argsort F) (robot : Point F)
      (pts : List (Option (Point F)))
      → IsOrdering argsort
      → (length (select_obs_points cfg argsort robot pts) ≡ cfg.max_obs_constraints)
        × All (IsSelected cfg robot pts) (select_obs_points cfg argsort robot pts)
  unfolding select_obs_points
  select_obs_points-AllSelected cfg argsort robot pts ordering =
      let close = close_points cfg.obs_check_radius robot (finite pts) in
      let selected = first cfg.max_obs_constraints (argsort close) in
      let padding = cfg.max_obs_constraints - length selected in
      (
        omega (
          arith,
          length-append selected (repeated padding sentinel),
          length-repeated padding sentinel,
          length-first cfg.max_obs_constraints (argsort close),
        ),
        All-append _ selected _
            (All-first _ cfg.max_obs_constraints (argsort close) (
              All-members _ (argsort close) (λ o m.
                let (d, inside) = ordering.same_members o close m in
                inr (close_points-member cfg.obs_check_radius robot o d (finite pts) inside))))
            (All-repeated _ padding sentinel (inl refl)),
      )
