-- ===== src/MpcNode/Smoothing/Endpoints.antt =====
-- The ends of a resampled path.
use navigation.Prelude.{
  suc, ◌≡◌, refl, sym, ap, ◌∙◌, true, false, ◌&&◌, leb, length, List, [], ◌∷◌, ◌++◌, map, if-split,
  arith,
}
use mathlib.Core.Path.{subst}
use navigation.Float.{Float, IsOrdered, ◌≼◌, ◌⊕◌, less, at_most, nought, fmax}
use navigation.Velocity.Slew.{le_of_not_less}
use navigation.MpcNode.Plane.{Point, distance}
use navigation.MpcNode.Smoothing.{
  Spot, Trail, Numeric, final, replace_final, distinct, arc_from, samples, increasing, curve,
  splined, interpolated, resampled, smooth_resample_path,
}

final-map :
    {A B : Type 0} (g : A → B) (a : A) (as' : List A) → final (g a) (map g as') ≡ g (final a as')
final-map g a [] = refl
final-map g a (b ∷ bs) = final-map g b bs

final-append : {A : Type 0} (a b : A) (bs : List A) → final a (bs ++ (b ∷ [])) ≡ b
final-append a b [] = refl
final-append a b (c ∷ cs) = final-append c b cs

final-replace_final :
    {A : Type 0} (a b x : A) (bs : List A) → final x (replace_final a (b ∷ bs)) ≡ a
final-replace_final a b x [] = refl
final-replace_final a b x (c ∷ bs) = final-replace_final a c b bs

length-map : {A B : Type 0} (g : A → B) (as' : List A) → length (map g as') ≡ length as'
length-map g [] = refl
length-map g (a ∷ bs) = omega (arith, length-map g bs)

pair_eq : {F : Type 0} (a b : F × F) → a.0 ≡ b.0 → a.1 ≡ b.1 → a ≡ b
pair_eq a b e q = ground (arith, e, q)

module _ {F : Type 0} ⦃f : Float F⦄ where
  -- What numpy documents: `interp` gives the first value left of the first abscissa, and the last value
  -- right of the last one.
  pub record IsInterp (n : Numeric F) : Type 0 where
    pub interp_left : (s x y : F) (xs ys : List F) → s ≼ x → n.interp (x ∷ xs) (y ∷ ys) s ≡ y
    pub interp_right :
        (s x y : F) (xs ys : List F)
        → length xs ≡ length ys
        → less x (final x xs) ≡ true
        → final x xs ≼ s
        → n.interp (x ∷ xs) (y ∷ ys) s ≡ final y ys

  -- The ends of a trail.
  abbrev pub HasEnds : Point F → Point F → Trail (Point F) → Type 0
  HasEnds a b t = (t.0 ≡ a) × (final t.0 t.1 ≡ b)

  length-arc_from :
      (s : F) (a : Point F) (bs : List (Point F)) → length (arc_from s a bs) ≡ length bs
  unfolding arc_from
  length-arc_from s a [] = refl
  length-arc_from s a (b ∷ bs) = omega (arith, length-arc_from (s ⊕ distance b a) b bs)

  module _ (n : Numeric F) (resample_ds : F) (laws : IsOrdered F) where
    open laws use {le_refl, le_trans, ltb-eq-not-leb, lit_nonneg}

    long : (total : F) → at_most total (f.lit 1 1000000) ≡ false → less nought total ≡ true
    long total e = ground (
      arith,
      ltb-eq-not-leb nought total,
      lit_nonneg 1 1000000,
      le_trans total nought (f.lit 1 1000000),
    )

    -- The last sample reaches the length.
    final-samples : (total : F) → total ≼ final nought (samples n resample_ds total)
    unfolding samples
    final-samples total =
        let s = n.arange (total ⊕ f.lit 1 1000000000) (fmax resample_ds (f.lit 1 100)) in
        if-split (λ q. total ≼ final nought q) (less (final nought s) total)
          (λ e. subst (λ x. total ≼ x) (sym (final-append nought total s)) (le_refl total))
          (λ e. le_of_not_less laws (final nought s) total e)

    splined-HasEnds :
        (a : Point F) (points : List (Point F)) (arc s : List F) (total : F)
        → less nought total ≡ true
        → total ≼ final nought s
        → HasEnds a (final a points) (splined n resample_ds a points arc s)
    unfolding splined
    splined-HasEnds a points arc [] total some_length reached =
        ground (arith, some_length, reached, ltb-eq-not-leb nought total)
    splined-HasEnds a points arc (s1 ∷ s) total some_length reached =
        let spline = curve n resample_ds n.spline (nought ∷ increasing nought arc) (a ∷ points) in
        (refl, final-replace_final (final a points) (spline s1) a (map spline s))

    interpolated-HasEnds :
        (a : Point F) (points : List (Point F)) (arc s : List F)
        → IsInterp n
        → length arc ≡ length points
        → less nought (final nought arc) ≡ true
        → final nought arc ≼ final nought s
        → HasEnds a (final a points) (interpolated n resample_ds a points arc s)
    unfolding interpolated
    interpolated-HasEnds (ax, ay) points arc s doc same_length some_length reached =
        let at = curve n resample_ds n.interp (nought ∷ arc) ((ax, ay) ∷ points) in
        let left =
          λ (v : F) (vs : List F). doc.interp_left nought nought v arc vs (le_refl nought) in
        let right = λ (v : F) (g : Point F → F).
          doc.interp_right (final nought s) nought v arc (map g points)
            (same_length ∙ sym (length-map g points)) some_length reached in
        (
          pair_eq _ _ (left ax (map (λ q. q.0) points)) (left ay (map (λ q. q.1) points)),
          final-map at nought s
              ∙ pair_eq _ _ (right ax (λ q. q.0) ∙ final-map (λ q. q.0) (ax, ay) points)
                  (right ay (λ q. q.1) ∙ final-map (λ q. q.1) (ax, ay) points),
        )

    resampled-HasEnds :
        (a : Point F) (points : List (Point F))
        → IsInterp n
        → HasEnds a (final a points) (resampled n resample_ds a points)
    unfolding resampled
    resampled-HasEnds a [] doc = (refl, refl)
    resampled-HasEnds a (b ∷ bs) doc =
        let arc = arc_from nought a (b ∷ bs) in
        let total = final nought arc in
        let Ends = HasEnds a (final b bs) in
        if-split Ends (at_most total (f.lit 1 1000000)) (λ e. (refl, refl))
          (λ e.
            if-split Ends (n.has_scipy && leb 4 (suc (length (b ∷ bs))))
              (λ _.
                splined-HasEnds a (b ∷ bs) arc (samples n resample_ds total) total (long total e)
                  (final-samples total))
              (λ _.
                interpolated-HasEnds a (b ∷ bs) arc (samples n resample_ds total) doc
                  (length-arc_from nought a (b ∷ bs)) (long total e) (final-samples total)))

    -- With an interpolation as numpy documents it: a smoothed path of two points or more begins at the
    -- first point of the path and ends at the last of its distinct points, whichever way it is smoothed.
    pub smooth_resample_path-HasEnds :
        (a b : Spot F) (bs : List (Spot F))
        → IsInterp n
        → (((smooth_resample_path n resample_ds (a, b ∷ bs)).0).0 ≡ a.0)
          × ((final
                (smooth_resample_path n resample_ds (a, b ∷ bs)).0
                (smooth_resample_path n resample_ds (a, b ∷ bs)).1).0
              ≡ final a.0 (distinct a.0 (map (λ c. c.0) (b ∷ bs))))
    unfolding smooth_resample_path
    smooth_resample_path-HasEnds a b bs doc =
        let points = distinct a.0 (map (λ c. c.0) (b ∷ bs)) in
        let (starts, ends) = resampled-HasEnds a.0 points doc in
        let (first, others) = resampled n resample_ds a.0 points in
        let lift : Point F → Spot F = λ q. (q, (final b bs).1) in
        (starts, ap (λ q. q.0) (final-map lift first others) ∙ ends)
