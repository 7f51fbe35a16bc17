-- ===== src/MpcNode/Tracking/Confirmed.antt =====
-- Which obstacle points the prediction moves.
use navigation.Prelude.{
  ℕ, zero, suc, ◌≡◌, refl, ◌⊎◌, inl, inr, Bool, true, false, ◌&&◌, Option, none, some, List, [],
  ◌∷◌, ◌∈◌, map, if-split, arith,
}
use navigation.Float.{Float, ◌⊖◌, less, nought}
use navigation.MpcNode.Plane.{Point, plus, minus, scaled, shrunk, norm, distance, mean}
use navigation.MpcNode.Tracking.{
  TrackParams, Cluster, Tracks, Estimate, rest, nearest, is_plausible, is_dynamic, is_coherent,
  matched, compared, estimate, estimates, velocity_of, extrapolated, labelled,
  predict_obs_positions,
}

and_true : (a b : Bool) → (a && b) ≡ true → (a ≡ true) × (b ≡ true)
and_true a b h = ground arith

module _ {F : Type 0} ⦃f : Float F⦄ where
  nearest-member : (c : Point F) (k : Cluster F) (ks : List (Cluster F)) → nearest c k ks ∈ k ∷ ks
  nearest-member c k [] = inl refl
  nearest-member c k (j ∷ ks) =
      if-split (λ b. nearest c b ks ∈ k ∷ j ∷ ks) (less (distance j.0 c) (distance k.0 c))
        (λ e. inr (nearest-member c j ks))
        (λ e. elim (nearest-member c k ks) [ inl q ↦ inl q | inr m ↦ inr (inr m) ])

  module _ (p : TrackParams F) where
    -- A velocity that is neither too slow nor too fast, and agrees in direction with the last estimate
    -- of a cluster of the previous frame.
    pub record IsConfirmed (s : Tracks F) (v : Point F) : Type 0 where
      pub clusters : List (Cluster F)
      pub cluster : Cluster F
      pub known : s.prev ≡ some clusters
      pub member : cluster ∈ clusters
      pub dynamic : is_dynamic p v ≡ true
      pub coherent : is_coherent p v cluster.1 ≡ true

    abbrev IsEstimated : Tracks F → Estimate F → Type 0
    IsEstimated s e = (e.confirmed ≡ rest) ⊎ IsConfirmed s e.confirmed

    matched-IsEstimated :
        (s : Tracks F) (clusters : List (Cluster F)) (dt : F) (c : Point F) (j : Cluster F)
        → s.prev ≡ some clusters
        → j ∈ clusters
        → IsEstimated s (matched p dt c j)
    unfolding matched
    matched-IsEstimated s clusters dt c j known member =
        let vel = shrunk dt (minus c j.0) in
        if-split (IsEstimated s) (is_plausible p dt c j && is_dynamic p vel)
          (λ e.
            if-split (λ (v : Point F). (v ≡ rest) ⊎ IsConfirmed s v) (is_coherent p vel j.1)
              (λ coherent. inr (record {
                clusters = clusters;
                cluster = j;
                known = known;
                member = member;
                dynamic = (and_true (is_plausible p dt c j) _ e).1;
                coherent = coherent;
              }))
              (λ _. inl refl))
          (λ _. inl refl)

    compared-IsEstimated :
        (now : F) (s : Tracks F) (prev : Option (List (Cluster F))) (before : Option F)
        (c : Point F)
        → s.prev ≡ prev
        → IsEstimated s (compared p now prev before c)
    compared-IsEstimated now s none before c e = inl refl
    compared-IsEstimated now s (some []) before c e = inl refl
    compared-IsEstimated now s (some (k ∷ ks)) none c e = inl refl
    compared-IsEstimated now s (some (k ∷ ks)) (some before) c e =
        if-split (IsEstimated s)
          (less (f.lit 5 100) (now ⊖ before) && less (now ⊖ before) (f.lit 1 1))
          (λ _.
            matched-IsEstimated s (k ∷ ks) (now ⊖ before) c (nearest c k ks) e
              (nearest-member c k ks))
          (λ _. inl refl)

    velocity-cases :
        (now : F) (s : Tracks F) (os : List (Point F × ℕ)) (c first n : ℕ)
        → (velocity_of c (estimates p now s os first n) ≡ rest)
          ⊎ IsConfirmed s (velocity_of c (estimates p now s os first n))
    unfolding estimate
    velocity-cases now s os c first zero = inl refl
    velocity-cases now s os zero first (suc n) =
        compared-IsEstimated now s s.prev s.prev_time (mean (labelled first os)) refl
    velocity-cases now s os (suc c) first (suc n) = velocity-cases now s os c (suc first) n

    -- A point and its prediction: it stays, or is moved with a confirmed velocity.
    abbrev pub IsPredicted : F → Tracks F → Point F → Point F → Type 0
    IsPredicted predict_sec s o o' =
        (o' ≡ o) ⊎ ((v : Point F) × IsConfirmed s v × (o' ≡ plus o (scaled predict_sec v)))

    -- The same for lists of as many points.
    abbrev pub ArePredicted : F → Tracks F → List (Point F × ℕ) → List (Point F) → Type 0
    ArePredicted predict_sec s [] [] = Unit
    ArePredicted predict_sec s (o ∷ os) (o' ∷ os') =
        IsPredicted predict_sec s o.0 o' × ArePredicted predict_sec s os os'
    ArePredicted predict_sec s _ _ = ⊥

    extrapolated-IsPredicted :
        (predict_sec : F) (s : Tracks F) (es : List (Estimate F)) (o : Point F × ℕ)
        → less {F = F} nought (norm {F = F} rest) ≡ false
        → (velocity_of o.1 es ≡ rest) ⊎ IsConfirmed s (velocity_of o.1 es)
        → IsPredicted predict_sec s o.0 (extrapolated predict_sec es o)
    extrapolated-IsPredicted predict_sec s es (o, c) unmoved (inl e) = inl (rw (e, unmoved) refl)
    extrapolated-IsPredicted predict_sec s es (o, c) unmoved (inr v) =
        if-split (IsPredicted predict_sec s o) (less nought (norm (velocity_of c es)))
          (λ _. inr (velocity_of c es, v, refl)) (λ _. inl refl)

    map-ArePredicted :
        (predict_sec now : F) (s : Tracks F) (all : List (Point F × ℕ)) (n : ℕ)
        (os : List (Point F × ℕ))
        → less {F = F} nought (norm {F = F} rest) ≡ false
        → ArePredicted predict_sec s os
            (map (extrapolated predict_sec (estimates p now s all 0 n)) os)
    map-ArePredicted predict_sec now s all n [] unmoved = tt
    map-ArePredicted predict_sec now s all n (o ∷ os) unmoved = (
      extrapolated-IsPredicted predict_sec s (estimates p now s all 0 n) o unmoved
          (velocity-cases now s all o.1 0 n),
      map-ArePredicted predict_sec now s all n os unmoved,
    )

    -- When the velocity zero has no length: the prediction keeps each obstacle point where it is, or moves
    -- it with a velocity that lies between the static and the largest tracked speed and agrees with the
    -- velocity that the previous frame estimated of a cluster.
    pub predict-ArePredicted :
        (predict_sec now : F) (os : List (Point F × ℕ)) (n : ℕ) (s : Tracks F)
        → less {F = F} nought (norm {F = F} rest) ≡ false
        → ArePredicted predict_sec s os (predict_obs_positions p predict_sec now os n s).0
    unfolding predict_obs_positions
    predict-ArePredicted predict_sec now [] n s unmoved = tt
    predict-ArePredicted predict_sec now (o ∷ os) n s unmoved =
        map-ArePredicted predict_sec now s (o ∷ os) n (o ∷ os) unmoved
