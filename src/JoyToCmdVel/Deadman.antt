-- ===== src/JoyToCmdVel/Deadman.antt =====
-- The deadman button.
use navigation.Prelude.{
  ◌≡◌, Bool, true, false, ◌&&◌, not, List, [], ◌∷◌, All, pos, leb_ℤ, if◌then◌else◌, arith,
}
use navigation.Float.{Float}
use navigation.Velocity.{Velocity, standstill}
use navigation.JoyToCmdVel.{Joy, Params, Event, joy_msg, timer, is_held, on_joy, published}

module _ {F : Type 0} ⦃f : Float F⦄ where
  -- A message in which the deadman button is not held, or not there.
  abbrev pub IsLetGo : Params F → Event F → Type 0
  IsLetGo p (joy_msg joy) = is_held p joy ≡ false
  IsLetGo p timer = Unit

  abbrev pub IsStill : Velocity F → Type 0
  IsStill v = v ≡ standstill

  on_joy_let_go :
      (p : Params F) (joy : Joy F)
      → leb_ℤ (pos 0) p.enable ≡ true
      → is_held p joy ≡ false
      → on_joy p joy ≡ standstill
  unfolding on_joy
  on_joy_let_go p joy e h = decided _ (leb_ℤ (pos 0) p.enable) (is_held p joy) e h
    where
      decided :
          (v : Velocity F) (a b : Bool)
          → a ≡ true
          → b ≡ false
          → (if a && not b then standstill else v) ≡ standstill
      decided v a b h k = ground (arith, h, k)

  published-IsStill :
      (p : Params F) (es : List (Event F)) (v : Velocity F)
      → leb_ℤ (pos 0) p.enable ≡ true
      → v ≡ standstill
      → All (IsLetGo p) es
      → All IsStill (published p es v)
  unfolding published
  published-IsStill p [] v e h k = tt
  published-IsStill p (joy_msg joy ∷ es) v e h k =
      published-IsStill p es (on_joy p joy) e (on_joy_let_go p joy e k.0) k.1
  published-IsStill p (timer ∷ es) v e h k = (h, published-IsStill p es v e h k.1)

  -- With a deadman button configured: after a message in which it is not held, whatever the sticks say,
  -- every velocity that is published is zero until a message in which it is held.
  pub deadman_stops :
      (p : Params F) (joy : Joy F) (es : List (Event F)) (v : Velocity F)
      → leb_ℤ (pos 0) p.enable ≡ true
      → is_held p joy ≡ false
      → All (IsLetGo p) es
      → All IsStill (published p (joy_msg joy ∷ es) v)
  unfolding published
  deadman_stops p joy es v e h k =
      published-IsStill p es (on_joy p joy) e (on_joy_let_go p joy e h) k
