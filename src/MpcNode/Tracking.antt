-- ===== src/MpcNode/Tracking.antt =====
-- `_predict_obs_positions` of mpc_node.py: the velocities of clusters of obstacle points, from the
-- centroids of the previous frame, and the extrapolation of the points of moving clusters. The labels
-- that `_cluster_points` gives are an argument.
pub mod Confirmed
use navigation.Prelude.{
  ℕ, zero, suc, Bool, true, false, ◌&&◌, ◌==◌, Option, none, some, List, [], ◌∷◌, if◌then◌else◌,
  map,
}
use navigation.Float.{Float, ◌⊕◌, ◌⊖◌, ◌⊗◌, ◌⊘◌, at_most, less, nought}
use navigation.MpcNode.Plane.{Point, plus, minus, scaled, shrunk, norm, distance, mean}

pub record TrackParams (F : Type 0) : Type 0 where
  pub cell : F
  pub static_speed : F
  pub max_track_speed : F
  pub dir_consistency : F

-- A cluster of the previous frame: its centroid and the estimate of its velocity.
abbrev pub Cluster : Type 0 → Type 0
Cluster F = Point F × Point F

-- `_prev_cluster_centroids` with `_prev_cluster_vel`, which are set together, `_prev_cluster_time`, and
-- `_track_centroids` with `_track_vel`.
pub record Tracks (F : Type 0) : Type 0 where
  pub prev : Option (List (Cluster F))
  pub prev_time : Option F
  pub shown : Option (List (Cluster F))

-- What a frame estimates of a cluster: its centroid, and the raw and the confirmed velocity.
pub record Estimate (F : Type 0) : Type 0 where
  pub centroid : Point F
  pub raw : Point F
  pub confirmed : Point F

module _ {F : Type 0} ⦃f : Float F⦄ where
  abbrev pub rest : Point F
  rest = (nought, nought)

  abbrev pub dot : Point F → Point F → F
  dot a b = a.0 ⊗ b.0 ⊕ a.1 ⊗ b.1

  -- `argmin` of the distances, the first of equal ones.
  abbrev pub nearest : Point F → Cluster F → List (Cluster F) → Cluster F
  nearest c best [] = best
  nearest c best (k ∷ ks) =
      nearest c (if less (distance k.0 c) (distance best.0 c) then k else best) ks

  -- The points that carry a label.
  abbrev pub labelled : ℕ → List (Point F × ℕ) → List (Point F)
  labelled c [] = []
  labelled c (o ∷ os) = let others = labelled c os in if o.1 == c then o.0 ∷ others else others

  abbrev pub velocity_of : ℕ → List (Estimate F) → Point F
  velocity_of c [] = rest
  velocity_of zero (e ∷ es) = e.confirmed
  velocity_of (suc c) (e ∷ es) = velocity_of c es

  -- A point, extrapolated when its cluster moves.
  abbrev pub extrapolated : F → List (Estimate F) → Point F × ℕ → Point F
  extrapolated predict_sec es (o, c) =
      let vel = velocity_of c es in
      if less nought (norm vel) then plus o (scaled predict_sec vel) else o

  module _ (p : TrackParams F) where
    abbrev pub is_plausible : F → Point F → Cluster F → Bool
    is_plausible frame_dt c j = less (distance j.0 c) (p.max_track_speed ⊗ frame_dt ⊕ p.cell)

    abbrev pub is_dynamic : Point F → Bool
    is_dynamic vel = at_most p.static_speed (norm vel) && at_most (norm vel) p.max_track_speed

    -- The cluster moved in the same direction in the last frame.
    abbrev pub is_coherent : Point F → Point F → Bool
    is_coherent vel pv =
        at_most p.static_speed (norm pv)
        && at_most p.dir_consistency (dot vel pv ⊘ (norm vel ⊗ norm pv ⊕ f.lit 1 1000000000))

    -- The estimate from the cluster that matches, after a time.
    unfoldable pub matched : F → Point F → Cluster F → Estimate F
    matched frame_dt c j =
        let vel = shrunk frame_dt (minus c j.0) in
        if is_plausible frame_dt c j && is_dynamic vel
        then record {
          centroid = c;
          raw = vel;
          confirmed = if is_coherent vel j.1 then vel else rest;
        }
        else record { centroid = c; raw = rest; confirmed = rest }

    abbrev pub still : Point F → Estimate F
    still c = record { centroid = c; raw = rest; confirmed = rest }

    abbrev pub compared : F → Option (List (Cluster F)) → Option F → Point F → Estimate F
    compared now (some (k ∷ ks)) (some before) c =
        let frame_dt = now ⊖ before in
        if less (f.lit 5 100) frame_dt && less frame_dt (f.lit 1 1)
        then matched frame_dt c (nearest c k ks)
        else still c
    compared now _ _ c = still c

    -- The estimate of a cluster, given the previous frame.
    unfoldable pub estimate : F → Tracks F → Point F → Estimate F
    estimate now s c = compared now s.prev s.prev_time c

    -- The estimates of the clusters whose labels begin with `c`, one for each.
    abbrev pub estimates : F → Tracks F → List (Point F × ℕ) → ℕ → ℕ → List (Estimate F)
    estimates now s os c zero = []
    estimates now s os c (suc n) =
        estimate now s (mean (labelled c os)) ∷ estimates now s os (suc c) n

    -- The predicted points, and the tracks for the next frame, from labelled points and their clusters'
    -- number.
    unfoldable pub predict_obs_positions :
        F → F → List (Point F × ℕ) → ℕ → Tracks F → List (Point F) × Tracks F
    predict_obs_positions predict_sec now [] n s =
        ([], record { prev = none; prev_time = some now; shown = none })
    predict_obs_positions predict_sec now (o ∷ os) n s =
        let es = estimates now s (o ∷ os) 0 n in
        (
          map (extrapolated predict_sec es) (o ∷ os),
          record {
            prev = some (map (λ e. (e.centroid, e.raw)) es);
            prev_time = some now;
            shown = some (map (λ e. (e.centroid, e.confirmed)) es);
          },
        )
