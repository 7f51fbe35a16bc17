-- ===== src/GlobalCostmap/Tests.antt =====
-- A small costmap: a wall that is seen twice, and the robot's way beside it.
use navigation.Prelude.{
  ℕ, ◌≡◌, refl, Bool, false, Option, some, List, [], ◌∷◌, pos, negsuc, ◌+ℤ◌, ◌-ℤ◌, if◌then◌else◌,
}
use navigation.Float.{Millis, millis, milli, nought, unit, Millis-IsOrdered}
use navigation.Grid.{Cell, inside}
use navigation.GlobalCostmap.{
  Layers, GlobalCostmap, init, update, updates, set_origin, stamp_disk, hit_cells, add_hits, build,
  built,
}
use navigation.GlobalCostmap.Costs.{shown, IsDistance, build_known}
use navigation.GlobalCostmap.Breadcrumb.{way_back}

-- A crude distance: 0 on the background and 1 off it.
abbrev crude : ℕ → (Cell → Bool) → Cell → Millis
crude n mask c = if mask c then milli (pos 1000) else nought

crude-IsDistance : IsDistance crude
crude-IsDistance n mask c i h = rw h refl

abbrev flat : Millis → Millis
flat x = unit

-- Ten by ten cells of 0.2 m.
abbrev empty : GlobalCostmap Millis
empty =
    init (milli (pos 200)) (milli (pos 1000)) (milli (pos 100)) (milli (pos 150)) (milli (pos 490))
      (milli (pos 2000)) (milli (pos 6000)) (milli (pos 1000)) (milli (pos 100))

abbrev frame : Option (List (Millis × Millis)) × (Millis × Millis)
frame = (
  some ((milli (pos 600), milli (pos 600)) ∷ (milli (negsuc 4999), milli (pos 0)) ∷ []),
  (milli (pos 0), milli (pos 0)),
)

-- Seen once, an obstacle does not count; seen twice, it is lethal.
wall_counts :
    (shown (build crude flat (updates (frame ∷ []) empty)) (pos 8, pos 8) ≡ some nought)
    × (shown (build crude flat (updates (frame ∷ frame ∷ []) empty)) (pos 8, pos 8) ≡ some unit)
unfolding updates update set_origin stamp_disk hit_cells add_hits init build built inside ◌+ℤ◌ ◌-ℤ◌
wall_counts = (refl, refl)

abbrev layers : Layers Millis
layers = record { occ = λ c. milli (pos 2000); free = λ c. false; gmap = λ c. nought }

abbrev seen : GlobalCostmap Millis
seen = record {
  reso = milli (pos 200);
  half_width = milli (pos 1000);
  robot_radius = milli (pos 100);
  inflation_radius = milli (pos 150);
  soft_cost_max = milli (pos 490);
  hit_threshold = milli (pos 2000);
  hit_cap = milli (pos 6000);
  decay = milli (pos 1000);
  free_radius = milli (pos 100);
  cells = 10;
  minx = nought;
  miny = nought;
  layers = some layers;
}

-- What the robot sees at a place where it then stands.
abbrev seen_here : Option (List (Millis × Millis))
seen_here = some ((milli (pos 1000), milli (pos 1000)) ∷ [])

abbrev here : Millis × Millis
here = (milli (pos 1000), milli (pos 1000))

way_back_example :
    shown
      (build crude flat
        (updates ((seen_here, here) ∷ (seen_here, (milli (pos 0), milli (pos 0))) ∷ []) seen))
      (pos 5, pos 5)
    ≡ some nought
unfolding set_origin inside ◌+ℤ◌ ◌-ℤ◌
way_back_example =
    way_back crude flat seen_here here ((seen_here, (milli (pos 0), milli (pos 0))) ∷ []) seen
      (pos 5, pos 5)
      (record {
        on_grid = refl;
        not_left = refl;
        not_right = refl;
        not_below = refl;
        not_above = refl;
        close = refl;
      })

abbrev wall : Layers Millis
wall = record { occ = λ c. milli (pos 2000); free = λ c. false; gmap = λ c. nought }

build_known_example :
    shown (build crude flat (record seen { layers = some wall })) (pos 3, pos 4) ≡ some unit
unfolding inside
build_known_example =
    build_known crude flat Millis-IsOrdered crude-IsDistance (record seen { layers = some wall })
      wall (pos 3, pos 4) refl refl refl refl
