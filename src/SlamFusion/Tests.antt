-- ===== src/SlamFusion/Tests.antt =====
-- A SLAM map of three by two cells.
use navigation.Prelude.{◌≡◌, refl, false, some, [], ◌∷◌, List, ℤ, pos, negsuc, ◌+ℤ◌, ◌-ℤ◌}
use navigation.Float.{Millis, millis, milli, nought, unit}
use navigation.SlamFusion.{
  OccupancyGrid, Settings, Transform, Extracted, points, shape_error, centre, row_points,
  crop_points, window, crop_between, crop, extract_slam_obstacle_points,
}
use navigation.SlamFusion.Occupied.{IsSound, extract-IsSound}

abbrev one : Millis → Millis
one x = unit

abbrev zero_ : Millis → Millis
zero_ x = nought

abbrev settings : Settings Millis
settings = record {
  slam_map_max_age = milli (pos 2000);
  slam_map_occ_thr = pos 50;
  slam_map_unknown_obstacle = false;
  grid_half_width = milli (pos 5000);
  planning_height = milli (pos 300);
}

abbrev grid : List ℤ → OccupancyGrid Millis
grid values = record {
  resolution = milli (pos 1000);
  ox = milli (pos 0);
  oy = milli (pos 0);
  width = 3;
  height = 2;
  values = values;
}

abbrev shifted : Transform Millis
shifted = record { dx = milli (pos 10000); dy = nought; yaw = nought }

abbrev cells : List ℤ
cells = pos 0 ∷ pos 100 ∷ negsuc 0 ∷ pos 0 ∷ pos 0 ∷ pos 50 ∷ []

abbrev extracted : List ℤ → Extracted Millis
extracted values =
    extract_slam_obstacle_points one zero_ settings (some (grid values)) (milli (pos 0))
      (milli (pos 1000)) (milli (pos 11000), milli (pos 1000)) shifted

extracted_points :
    extracted cells
    ≡ points (
        (milli (pos 11500), milli (pos 500), milli (pos 300))
        ∷ (milli (pos 12500), milli (pos 1500), milli (pos 300))
        ∷ [])
unfolding extract_slam_obstacle_points crop crop_between window crop_points row_points centre ◌+ℤ◌
    ◌-ℤ◌
extracted_points = refl

truncated_map : extracted (pos 0 ∷ []) ≡ shape_error
unfolding extract_slam_obstacle_points crop crop_between window ◌+ℤ◌ ◌-ℤ◌
truncated_map = refl

extract-IsSound_example : IsSound one zero_ settings (grid cells) shifted (extracted cells)
extract-IsSound_example =
    extract-IsSound one zero_ settings (grid cells) shifted (milli (pos 0)) (milli (pos 1000))
      (milli (pos 11000), milli (pos 1000))
