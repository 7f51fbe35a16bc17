-- ===== src/ExternalGrid/Tests.antt =====
-- A payload of four cells.
use navigation.Prelude.{List, ℕ, ◌+◌, ◌*◌, ◌≡◌, refl, [], ◌∷◌, pos, negsuc, arith}
use navigation.Float.{Millis, millis, milli}
use navigation.Grid.{GridMap}
use navigation.ExternalGrid.{malformed, parsed, non_positive, wrong_length, parse_costmap_raw}
use navigation.ExternalGrid.Payload.{
  payload, IsReadBack, parse-reads_back, IsJustified, parse-IsJustified,
}

abbrev costs : ℕ → ℕ → Millis
costs i j = milli (pos (100 * i + 10 * j))

parse-reads_back_example :
    (g : GridMap Millis) × (parse_costmap_raw
        (payload (milli (negsuc 999)) (milli (pos 0)) (milli (pos 250)) 2 costs)
      ≡ parsed g)
    × IsReadBack (milli (negsuc 999)) (milli (pos 0)) (milli (pos 250)) 2 costs g
parse-reads_back_example =
    parse-reads_back (milli (negsuc 999)) (milli (pos 0)) (milli (pos 250)) 2 costs (omega arith)
      refl

truncated :
    parse_costmap_raw
      (milli (pos 0) ∷ milli (pos 0) ∷ milli (pos 250) ∷ milli (pos 2000) ∷ milli (pos 1) ∷ [])
    ≡ malformed (wrong_length 5 2)
unfolding parse_costmap_raw
truncated = refl

-- One cell, whose cost is 0.7, and a count of 0.
abbrev lone : List Millis
lone = milli (pos 0) ∷ milli (pos 0) ∷ milli (pos 250) ∷ milli (pos 1000) ∷ milli (pos 700) ∷ []

abbrev refused : List Millis
refused = milli (pos 0) ∷ milli (pos 0) ∷ milli (pos 250) ∷ milli (pos 0) ∷ []

refused_count : parse_costmap_raw refused ≡ malformed (non_positive (pos 0))
unfolding parse_costmap_raw
refused_count = refl

parse-IsJustified_example : IsJustified lone (parse_costmap_raw lone)
parse-IsJustified_example = parse-IsJustified lone
