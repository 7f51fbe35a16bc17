-- ===== src/GaussianGrid/Segments.antt =====
-- What the segmentation of a cloud keeps.
use navigation.Prelude.{
  ◌≡◌, refl, sym, ap, ◌∙◌, inl, inr, Bool, true, Option, some, List, [], ◌∷◌, ◌∈◌, ℤ, map, if-split,
  arith, option-split, All, All-map,
}
use mathlib.Core.Path.{subst}
use navigation.Float.{Float, ◌⊕◌, ◌⊘◌, less}
use navigation.Grid.{Cell}
use navigation.GaussianGrid.{Point3, same_key, least_z, rises, risen, segment_obstacles}

some-injective : {A : Type 0} (a b : A) → some a ≡ some b → a ≡ b
some-injective a b e = ground (arith, e)

module _ {F : Type 0} ⦃f : Float F⦄ where
  -- A point whose cell passes a test, with its z.
  abbrev Attained : (Cell → Bool) → List (Cell × Point3 F) → F → Type 0
  Attained test ps z = (q : Cell × Point3 F) × (q ∈ ps) × (test q.0 ≡ true) × (q.1.2 ≡ z)

  later :
      (test : Cell → Bool) (k : Cell × Point3 F) (ps : List (Cell × Point3 F)) (z : F)
      → Attained test ps z
      → Attained test (k ∷ ps) z
  later test k ps z (q, m, e, r) = (q, inr m, e, r)

  -- The least z is that of a point whose cell passes the test.
  least_z-attained :
      (test : Cell → Bool) (z : F) (ps : List (Cell × Point3 F))
      → least_z test ps ≡ some z
      → Attained test ps z
  least_z-attained test z [] = λ e. ground (arith, e)
  least_z-attained test z ((c, p) ∷ ps) =
      let R = Attained test ((c, p) ∷ ps) z in
      if-split (λ (o : Option F). o ≡ some z → R) (test c)
        (λ passes.
          option-split (λ (w : F). some w ≡ some z → R) (least_z test ps)
            (λ _ e. ((c, p), inl refl, passes, some-injective p.2 z e))
            (λ y q.
              if-split (λ (w : F). some w ≡ some z → R) (less y p.2)
                (λ _ e. later test (c, p) ps z (least_z-attained test z ps (q ∙ e)))
                (λ _ e. ((c, p), inl refl, passes, some-injective p.2 z e))))
        (λ _ e. later test (c, p) ps z (least_z-attained test z ps e))

  -- Some point of a cell that `near` relates lies lower by more than the height.
  abbrev pub IsAbove : F → (Cell → Cell → Bool) → List (Cell × Point3 F) → Cell × Point3 F → Type 0
  IsAbove height near all (c, p) =
      (q : Cell × Point3 F) × (q ∈ all) × (near c q.0 ≡ true) × (less (q.1.2 ⊕ height) p.2 ≡ true)

  rises-IsAbove :
      (height : F) (near : Cell → Cell → Bool) (all : List (Cell × Point3 F)) (c : Cell)
      (p : Point3 F)
      → rises height (near c) all p ≡ true
      → IsAbove height near all (c, p)
  rises-IsAbove height near all c p =
      option-split (λ (b : Bool). b ≡ true → IsAbove height near all (c, p)) (least_z (near c) all)
        (λ _ e. ground (arith, e))
        (λ z e h.
          let (q, m, n, r) = least_z-attained (near c) z all e in
          (q, m, n, subst (λ y. less (y ⊕ height) p.2 ≡ true) (sym r) h))

  risen-AllAbove :
      (height : F) (near : Cell → Cell → Bool) (all ps : List (Cell × Point3 F))
      → All
          (λ p. (c : Cell) × ((c, p) ∈ ps) × IsAbove height near all (c, p))
          (risen height near all ps)
  unfolding risen
  risen-AllAbove height near all [] = tt
  risen-AllAbove height near all ((c, p) ∷ ps) =
      let P =
        λ (q : Point3 F). (d : Cell) × ((d, q) ∈ (c, p) ∷ ps) × IsAbove height near all (d, q) in
      let rest : All P (risen height near all ps) =
        All-map _ P (risen height near all ps) (λ q. λ (d, m, a). (d, inr m, a))
          (risen-AllAbove height near all ps) in
      if-split (λ qs. All P qs) (rises height (near c) all p)
        (λ e. ((c, inl refl, rises-IsAbove height near all c p e), rest)) (λ e. rest)

  abbrev cell_of : (F → ℤ) → F → Point3 F → Cell
  cell_of floor reso p = (floor (p.0 ⊘ reso), floor (p.1 ⊘ reso))

  abbrev keyed : (F → ℤ) → F → Point3 F → Cell × Point3 F
  keyed floor reso p = (cell_of floor reso p, p)

  -- A point of a cloud that rises more than the height above some point with the same key.
  abbrev pub IsObstacle : (F → ℤ) → F → F → List (Point3 F) → Point3 F → Type 0
  IsObstacle floor reso height pts p =
      (p ∈ pts)
      × ((q : Point3 F) × (q ∈ pts)
          × (same_key (cell_of floor reso p) (cell_of floor reso q) ≡ true)
          × (less (q.2 ⊕ height) p.2 ≡ true))

  keyed-member :
      (floor : F → ℤ) (reso : F) (c : Cell) (p : Point3 F) (pts : List (Point3 F))
      → ◌∈◌ {A = Cell × Point3 F} (c, p) (map (keyed floor reso) pts)
      → (p ∈ pts) × (c ≡ cell_of floor reso p)
  keyed-member floor reso c p [] m = absurd m
  keyed-member floor reso c p (q ∷ pts) (inl e) =
      (inl (ap (λ x. x.1) e), ap (λ x. x.0) e ∙ ap (cell_of floor reso) (sym (ap (λ x. x.1) e)))
  keyed-member floor reso c p (q ∷ pts) (inr m) =
      let (m', e) = keyed-member floor reso c p pts m in (inr m', e)

  -- Every point that the segmentation of a cloud keeps is a point of the cloud, and rises more than the
  -- height above some point of the cloud whose cell has the same key.
  pub segment_obstacles-AllObstacles :
      (floor : F → ℤ) (pts : List (Point3 F)) (reso height : F)
      → All (IsObstacle floor reso height pts) (segment_obstacles floor pts reso height)
  unfolding segment_obstacles
  segment_obstacles-AllObstacles floor pts reso height =
      let all = map (keyed floor reso) pts in
      All-map _ (IsObstacle floor reso height pts) (risen height same_key all all)
        (λ p. λ (c, m, ((d, q), m', near, above)).
          let (inside, e) = keyed-member floor reso c p pts m in
          let (inside', e') = keyed-member floor reso d q pts m' in
          (
            inside,
            (
              q,
              inside',
              subst (λ x. same_key (cell_of floor reso p) x ≡ true) e'
                  (subst (λ x. same_key x d ≡ true) e near),
              above,
            ),
          ))
        (risen-AllAbove height same_key all all)
