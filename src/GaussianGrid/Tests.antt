-- ===== src/GaussianGrid/Tests.antt =====
-- Segmentation of a small cloud, and a grid made from it.
use navigation.Prelude.{
  ◌≡◌, refl, ℕ, Bool, true, false, some, if◌then◌else◌, ◌-ℤ◌, List, [], ◌∷◌, ℤ, pos, All, ◌+ℤ◌,
}
use navigation.Float.{Millis, millis, milli}
use navigation.Grid.{Cell, inside}
use navigation.GaussianGrid.{
  Point3, GaussianGrid, init, update, live_obstacles, hit_cells, cost_layer, inflated,
  segment_obstacles, risen,
}
use navigation.GaussianGrid.Queries.{world_to_index, get_probability, get_height}
use navigation.GaussianGrid.Segments.{IsObstacle, segment_obstacles-AllObstacles}

abbrev at : ℤ → ℤ → ℤ → Point3 Millis
at x y z = (milli x, milli y, milli z)

-- Two points of one cell, the upper one a metre higher, and one alone in the next cell.
abbrev cloud : List (Point3 Millis)
cloud =
    at (pos 100) (pos 100) (pos 0)
    ∷ at (pos 200) (pos 100) (pos 1000)
    ∷ at (pos 1500) (pos 0) (pos 900)
    ∷ []

abbrev floor : Millis → ℤ
floor = millis.trunc

upper_point :
    segment_obstacles floor cloud (milli (pos 1000)) (milli (pos 300))
    ≡ at (pos 200) (pos 100) (pos 1000) ∷ []
unfolding segment_obstacles risen ◌+ℤ◌
upper_point = refl

segment_obstacles-AllObstacles_example :
    All
      (IsObstacle floor (milli (pos 1000)) (milli (pos 300)) cloud)
      (segment_obstacles floor cloud (milli (pos 1000)) (milli (pos 300)))
segment_obstacles-AllObstacles_example =
    segment_obstacles-AllObstacles floor cloud (milli (pos 1000)) (milli (pos 300))

-- Three cells by three, of one metre. For the test, the distance to the nearest obstacle counts as 0 in its
-- cell and as 1 elsewhere.
abbrev grid : GaussianGrid Millis
grid =
    init (milli (pos 1000)) (milli (pos 1500)) (milli (pos 0)) (milli (pos 2000)) (milli (pos 300))
      true (milli (pos 300)) (milli (pos 600)) (milli (pos 490)) true false

abbrev nearest : ℕ → (Cell → Bool) → Cell → Millis
nearest n free c = if free c then milli (pos 1000) else milli (pos 0)

abbrev updated : GaussianGrid Millis × Bool
updated = update nearest (λ x. x) cloud (milli (pos 1500), milli (pos 1500)) [] grid

-- Both the upper point and the lone one rise above the lowest point beside them.
has_obstacle : updated.1 ≡ true
unfolding update init live_obstacles risen hit_cells cost_layer inside ◌+ℤ◌ ◌-ℤ◌
has_obstacle = refl

blocked : get_probability updated.0 (milli (pos 500)) (milli (pos 500)) ≡ milli (pos 1000)
unfolding update init live_obstacles risen hit_cells cost_layer inside inflated world_to_index
    get_probability ◌+ℤ◌ ◌-ℤ◌
blocked = refl

free : get_probability updated.0 (milli (pos 2500)) (milli (pos 2500)) ≡ milli (pos 0)
unfolding update init live_obstacles risen hit_cells cost_layer inside inflated world_to_index
    get_probability ◌+ℤ◌ ◌-ℤ◌
free = refl

highest : get_height updated.0 (milli (pos 500)) (milli (pos 500)) ≡ some (milli (pos 1000))
unfolding update init inside world_to_index get_height ◌+ℤ◌ ◌-ℤ◌
highest = refl
