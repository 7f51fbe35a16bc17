-- ===== src/MpcNode/Security/Debounce.antt =====
-- The debouncing of the security check, against a specification over the history of sightings.
use navigation.Prelude.{
  ℕ, suc, ◌<◌, ◌≡◌, refl, ap, ◌∙◌, Bool, true, false, not, Option, none, some, List, [], ◌∷◌, map,
  leb, if◌then◌else◌, arith, same,
}
use navigation.Float.{Float}
use navigation.MpcNode.Plane.{Point}
use navigation.MpcNode.Security.{
  SecurityParams, Security, calm, debounce, security_escape, near_points, sees_near,
}

-- How many of the latest sightings, the head being the latest, are `b` in a row.
abbrev pub streak : Bool → List Bool → ℕ
streak b [] = 0
streak b (x ∷ xs) = let rest = streak b xs in if same b x then suc rest else 0

module _ (engage clear : ℕ) where
  -- The mode that a history calls for: it is entered on a streak of near obstacles that is long enough,
  -- and left on a streak of clear sightings that is long enough.
  abbrev pub called_for : List Bool → Bool
  called_for [] = false
  called_for (x ∷ xs) =
      if called_for xs
      then not (leb clear (streak false (x ∷ xs)))
      else leb engage (streak true (x ∷ xs))

  unfoldable pub sightings : List Bool → Security
  unfolding debounce
  sightings [] = calm
  sightings (x ∷ xs) = debounce engage clear x (sightings xs)

  record IsFollowing (xs : List Bool) (s : Security) : Type 0 where
    agreed : s.mode ≡ called_for xs
    engaging : s.engage_count ≡ streak true xs
    clearing : (if s.mode then s.clear_count else streak false xs) ≡ streak false xs

  debounce-IsFollowing :
      (x : Bool) (xs : List Bool) (s : Security)
      → 0 < engage
      → 0 < clear
      → IsFollowing xs s
      → IsFollowing (x ∷ xs) (debounce engage clear x s)
  unfolding debounce
  debounce-IsFollowing true xs s e c i = ground (arith, i.agreed, i.engaging)
  debounce-IsFollowing false xs s e c i = ground (arith, i.agreed, i.clearing)

  sightings-IsFollowing : (xs : List Bool) → 0 < engage → 0 < clear → IsFollowing xs (sightings xs)
  unfolding sightings
  sightings-IsFollowing [] e c = record { agreed = refl; engaging = refl; clearing = refl }
  sightings-IsFollowing (x ∷ xs) e c =
      debounce-IsFollowing x xs (sightings xs) e c (sightings-IsFollowing xs e c)

-- What a solve passes to the security check.
abbrev pub Observed : Type 0 → Type 0
Observed F = Point F × Option (List (Point F))

module _ {F : Type 0} ⦃f : Float F⦄ (p : SecurityParams F) where
  security_escape-eq-debounce :
      (robot : Point F) (obs : Option (List (Point F))) (s : Security)
      → (security_escape p robot obs s).0
        ≡ debounce p.engage_cycles p.clear_cycles (sees_near p robot obs) s
  unfolding security_escape near_points
  security_escape-eq-debounce robot none s = refl
  security_escape-eq-debounce robot (some []) s = ground arith
  security_escape-eq-debounce robot (some (o ∷ os)) s = ground arith

  -- The state after the security checks of some solves, of which the head is the latest.
  unfoldable pub watched : List (Observed F) → Security
  watched [] = calm
  watched (o ∷ os) = let before = watched os in (security_escape p o.0 o.1 before).0

  watched-eq-sightings :
      (os : List (Observed F))
      → watched os ≡ sightings p.engage_cycles p.clear_cycles (map (λ o. sees_near p o.0 o.1) os)
  unfolding watched sightings
  watched-eq-sightings [] = refl
  watched-eq-sightings (o ∷ os) =
      security_escape-eq-debounce o.0 o.1 (watched os)
      ∙ ap (debounce p.engage_cycles p.clear_cycles (sees_near p o.0 o.1)) (watched-eq-sightings os)

  -- After any sequence of security checks that starts from the state of a new node, with both numbers of
  -- cycles positive, the node is in the security mode exactly when the history calls for it.
  pub watched-mode :
      (os : List (Observed F))
      → 0 < p.engage_cycles
      → 0 < p.clear_cycles
      → (watched os).mode
        ≡ called_for p.engage_cycles p.clear_cycles (map (λ o. sees_near p o.0 o.1) os)
  watched-mode os e c =
      ap (λ s. s.mode) (watched-eq-sightings os)
      ∙ IsFollowing.agreed (sightings-IsFollowing p.engage_cycles p.clear_cycles _ e c)
