-- ===== src/Plan/Shortcut.antt =====
-- `_shortcut_path` keeps the ends of a route, takes its points from it, and joins them by moves of the
-- route or by free lines of sight.
use mathlib.Core.Path.{subst}
use navigation.Prelude.{
  All, suc, ◌≤◌, ◌≡◌, refl, sym, ap, ◌∙◌, ◌⊎◌, inl, inr, Bool, true, some, List, [], ◌∷◌, length,
  ◌∈◌, arith, Bool-cases, Option-cases,
}
use navigation.Grid.{Cell}
use navigation.AStar.Moves.{Move, Route}
use navigation.Plan.{line_of_sight, pull, shortcut_path}
use navigation.Plan.Sight.{FreeLine, Sees, line_of_sight-Sees}

module _ (free : Cell → Bool) where
  -- Two points that a move joins, or a line of free cells.
  abbrev pub Leg : Cell → Cell → Type 0
  Leg c d = Move free c d ⊎ ((cs : List Cell) × FreeLine free c d cs)

  abbrev pub Legs : Cell → Cell → List Cell → Type 0
  Legs a b [] = ⊥
  Legs a b (c ∷ []) = (a ≡ c) × (b ≡ c)
  Legs a b (c ∷ d ∷ cs) = (a ≡ c) × Leg c d × Legs d b (d ∷ cs)

  Route-Legs : (a b : Cell) (path : List Cell) → Route free a b path → Legs a b path
  Route-Legs a b [] r = r
  Route-Legs a b (c ∷ []) r = r
  Route-Legs a b (c ∷ d ∷ cs) r = (r.0, inl r.1, Route-Legs d b (d ∷ cs) r.2)

  seen-Leg : (a b : Cell) → line_of_sight free a b ≡ some true → Leg a b
  seen-Leg a b e = inr (subst (Sees free a b) e (line_of_sight-Sees free a b))

  -- One round of the loop: the segment is extended, or a point is kept.
  pull_round :
      (anchor at next : Cell) (rest : List Cell)
      → (line_of_sight free anchor next ≡ some true)
          × (pull free anchor at (next ∷ rest) ≡ pull free anchor next rest)
        ⊎ (pull free anchor at (next ∷ rest) ≡ at ∷ pull free at next rest)
  unfolding pull
  pull_round anchor at next rest = elim (Option-cases (line_of_sight free anchor next)) [
    | inl e ↦ inr (rw (e, pull))
    | inr (b, e) ↦ elim (Bool-cases b) [
      | inl t ↦ let e' = e ∙ ap some t in inl (e', rw (e', pull))
      | inr t ↦ let e' = e ∙ ap some t in inr (rw (e', pull))
    ]
  ]

  pull-Legs :
      (anchor at b : Cell) (rest : List Cell)
      → Leg anchor at
      → Route free at b (at ∷ rest)
      → Legs anchor b (anchor ∷ pull free anchor at rest)
  unfolding pull
  pull-Legs anchor at b [] leg r = (refl, leg, (refl, r.1))
  pull-Legs anchor at b (next ∷ rest) leg r =
      let go = r.2 in
      elim (pull_round anchor at next rest) [
        | inl (seen, e) ↦
            subst (λ z. Legs anchor b (anchor ∷ z)) (sym e)
              (pull-Legs anchor next b rest (seen-Leg anchor next seen) go)
        | inr e ↦
            subst (λ z. Legs anchor b (anchor ∷ z)) (sym e)
              (refl, leg, pull-Legs at next b rest (inl r.1) go)
      ]

  mem-pull :
      (anchor at : Cell) (rest : List Cell) (c : Cell)
      → c ∈ pull free anchor at rest
      → c ∈ at ∷ rest
  unfolding pull
  mem-pull anchor at [] c m = m
  mem-pull anchor at (next ∷ rest) c m = elim (pull_round anchor at next rest) [
    | inl (seen, e) ↦ inr (mem-pull anchor next rest c (subst (λ z. c ∈ z) e m))
    | inr e ↦ elim (subst (λ z. c ∈ z) e m) [
      | inl same ↦ inl same
      | inr later ↦ inr (mem-pull at next rest c later)
    ]
  ]

  length-pull :
      (anchor at : Cell) (rest : List Cell) → length (pull free anchor at rest) ≤ suc (length rest)
  unfolding pull
  length-pull anchor at [] = omega arith
  length-pull anchor at (next ∷ rest) = elim (pull_round anchor at next rest) [
    | inl (seen, e) ↦ rw e (omega (arith, length-pull anchor next rest))
    | inr e ↦ rw e (omega (arith, length-pull at next rest))
  ]

  All-of : (xs ys : List Cell) → ((c : Cell) → c ∈ xs → c ∈ ys) → All (λ c. c ∈ ys) xs
  All-of [] ys h = tt
  All-of (x ∷ xs) ys h = (h x (inl refl), All-of xs ys (λ c m. h c (inr m)))

  -- Of a route from `a` to `b`, the shortcut path still leads from `a` to `b`; its points are points of
  -- the route, no more of them; and each is joined to the next by a move of A* or by a line of
  -- neighbouring cells that are all free.
  pub shortcut_path-Legs :
      (a b : Cell) (path : List Cell)
      → Route free a b path
      → Legs a b (shortcut_path free path)
        × All (λ c. c ∈ path) (shortcut_path free path)
        × (length (shortcut_path free path) ≤ length path)
  unfolding shortcut_path
  shortcut_path-Legs a b [] r = absurd r
  shortcut_path-Legs a b (c ∷ []) r = (r, All-of (c ∷ []) (c ∷ []) (λ k m. m), omega arith)
  shortcut_path-Legs a b (c ∷ d ∷ []) r =
      (Route-Legs a b (c ∷ d ∷ []) r, All-of (c ∷ d ∷ []) (c ∷ d ∷ []) (λ k m. m), omega arith)
  shortcut_path-Legs a b (c ∷ d ∷ e ∷ rest) r = (
    subst (λ z. Legs z b (c ∷ pull free c d (e ∷ rest))) (sym r.0)
        (pull-Legs c d b (e ∷ rest) (inl r.1) r.2),
    All-of (c ∷ pull free c d (e ∷ rest)) (c ∷ d ∷ e ∷ rest)
        (λ k m. elim m [ inl same ↦ inl same | inr later ↦ inr (mem-pull c d (e ∷ rest) k later) ]),
    omega (arith, length-pull c d (e ∷ rest)),
  )
