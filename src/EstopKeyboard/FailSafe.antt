-- ===== src/EstopKeyboard/FailSafe.antt =====
-- What the keyboard leaves on the latched e-stop topic.
use navigation.Prelude.{◌≡◌, refl, Bool, true, false, List, [], ◌∷◌, ◌++◌, arith, ℕ}
use navigation.Float.{Float}
use navigation.EstopKeyboard.{
  Key, stop, go, quit, blank, other, key_of, Input, idle, eof, interrupted, shut_down, line, Round,
  Keyboard, Next, goes_on, left_by, refresh, on_key, on_input, round_on, round, carry_on, rounds,
  session,
}

-- The value that a latched topic holds after further publications.
abbrev pub latched : Bool → List Bool → Bool
latched b [] = b
latched b (c ∷ cs) = latched c cs

latched-append : (b : Bool) (xs ys : List Bool) → latched b (xs ++ ys) ≡ latched (latched b xs) ys
latched-append b [] ys = refl
latched-append b (x ∷ xs) ys = latched-append x xs ys

-- What is asked for after a line: a stop, or the release of a stop, or else what was asked for before.
abbrev pub asked_by : Key → Bool → Bool
asked_by stop a = true
asked_by go a = false
asked_by quit a = a
asked_by blank a = a
asked_by other a = a

abbrev pub asked_in : Input → Bool → Bool
asked_in (line text) a = asked_by (key_of text) a
asked_in idle a = a
asked_in eof a = a
asked_in interrupted a = a
asked_in shut_down a = a

-- What is asked for last in some rounds, from what was asked for before them.
abbrev pub asked_last : {F : Type 0} → List (Round F) → Bool → Bool
asked_last [] a = a
asked_last (r ∷ rs) a = asked_last rs (asked_in r.input a)

-- A loop that is left by the end of the input, an interrupt or a line that asks to quit leaves a stop on the
-- topic.
abbrev pub IsLeftSafe : Input → Bool → Type 0
IsLeftSafe idle b = ⊥
IsLeftSafe eof b = b ≡ true
IsLeftSafe interrupted b = b ≡ true
IsLeftSafe shut_down b = Unit
IsLeftSafe (line text) b = (key_of text ≡ quit) × (b ≡ true)

module _ {F : Type 0} ⦃f : Float F⦄ where
  -- While the loop runs, the topic and the keyboard hold what was asked for last.
  abbrev pub IsFailSafe : Bool → Next F → Bool → Type 0
  IsFailSafe asked (goes_on k) b = (b ≡ asked) × (k.engaged ≡ asked)
  IsFailSafe asked (left_by i) b = IsLeftSafe i b

  -- The keyboard and the topic hold what is asked for.
  abbrev Agrees : Bool → Keyboard F → Bool → Type 0
  Agrees asked k b = (b ≡ asked) × (k.engaged ≡ asked)

  refresh-Agrees :
      (asked : Bool) (now : F) (k : Keyboard F) (b : Bool)
      → Agrees asked k b
      → Agrees asked (refresh now k).0 (latched b (refresh now k).1)
  unfolding refresh
  refresh-Agrees asked now k b (h, e) = (ground arith, ground arith)

  on_key-IsFailSafe :
      (asked : Bool) (later : F) (text : List ℕ) (key : Key) (k : Keyboard F) (b : Bool)
      → Agrees asked k b
      → key_of text ≡ key
      → IsFailSafe
          (asked_by key asked)
          (on_key later text key k).0
          (latched b (on_key later text key k).1)
  unfolding on_key
  on_key-IsFailSafe asked later text stop k b h eq = (refl, refl)
  on_key-IsFailSafe asked later text go k b h eq = (refl, refl)
  on_key-IsFailSafe asked later text quit k b h eq = (eq, refl)
  on_key-IsFailSafe asked later text blank k b h eq = h
  on_key-IsFailSafe asked later text other k b h eq = h

  on_input-IsFailSafe :
      (asked : Bool) (later : F) (i : Input) (k : Keyboard F) (b : Bool)
      → Agrees asked k b
      → IsFailSafe (asked_in i asked) (on_input later i k).0 (latched b (on_input later i k).1)
  unfolding on_input
  on_input-IsFailSafe asked later idle k b h = h
  on_input-IsFailSafe asked later eof k b h = refl
  on_input-IsFailSafe asked later interrupted k b h = refl
  on_input-IsFailSafe asked later shut_down k b h = tt
  on_input-IsFailSafe asked later (line text) k b h =
      on_key-IsFailSafe asked later text (key_of text) k b h refl

  round_refreshed :
      (asked : Bool) (r : Round F) (i : Input) (k : Keyboard F) (b : Bool)
      → Agrees asked k b
      → (let (k', first) = refresh r.now k in
          let (next, then_sent) = on_input r.later i k' in
          IsFailSafe (asked_in i asked) next (latched b (first ++ then_sent)))
  round_refreshed asked r i k b h =
      rw (latched-append b (refresh r.now k).1 (on_input r.later i (refresh r.now k).0).1) (
        on_input-IsFailSafe asked r.later i (refresh r.now k).0 _
          (refresh-Agrees asked r.now k b h))

  round_on-IsFailSafe :
      (asked : Bool) (r : Round F) (i : Input) (k : Keyboard F) (b : Bool)
      → Agrees asked k b
      → IsFailSafe (asked_in i asked) (round_on r i k).0 (latched b (round_on r i k).1)
  unfolding round_on
  round_on-IsFailSafe asked r idle k b h = round_refreshed asked r idle k b h
  round_on-IsFailSafe asked r eof k b h = round_refreshed asked r eof k b h
  round_on-IsFailSafe asked r interrupted k b h = round_refreshed asked r interrupted k b h
  round_on-IsFailSafe asked r shut_down k b h = tt
  round_on-IsFailSafe asked r (line text) k b h = round_refreshed asked r (line text) k b h

  carry_on-IsFailSafe :
      (asked asked' : Bool) (rest : Keyboard F → Next F × List Bool) (out : Next F × List Bool)
      (b : Bool)
      → ((k : Keyboard F) (c : Bool)
          → Agrees asked k c
          → IsFailSafe asked' (rest k).0 (latched c (rest k).1))
      → IsFailSafe asked out.0 (latched b out.1)
      → IsFailSafe asked' (carry_on rest out).0 (latched b (carry_on rest out).1)
  unfolding carry_on
  carry_on-IsFailSafe asked asked' rest (goes_on k, sent) b next ok =
      rw (latched-append b sent (rest k).1) (next k (latched b sent) ok)
  carry_on-IsFailSafe asked asked' rest (left_by i, sent) b next ok = ok

  rounds-IsFailSafe :
      (asked : Bool) (rs : List (Round F)) (k : Keyboard F) (b : Bool)
      → Agrees asked k b
      → IsFailSafe (asked_last rs asked) (rounds rs k).0 (latched b (rounds rs k).1)
  unfolding rounds round
  rounds-IsFailSafe asked [] k b h = h
  rounds-IsFailSafe asked (r ∷ rs) k b h =
      carry_on-IsFailSafe (asked_in r.input asked) _ (rounds rs) (round r k) b
        (rounds-IsFailSafe (asked_in r.input asked) rs) (round_on-IsFailSafe asked r r.input k b h)

  -- Whatever is typed, while the loop runs the latched e-stop topic holds what the last line that is read
  -- as a stop or as its release asked for, or no stop before the first; and a loop that is left by the end
  -- of the input, an interrupt or a line that asks to quit leaves the e-stop engaged on the topic.
  pub session-IsFailSafe :
      (b : Bool) (rs : List (Round F))
      → IsFailSafe (asked_last rs false) (session rs).0 (latched b (session rs).1)
  unfolding session
  session-IsFailSafe b rs = rounds-IsFailSafe false rs _ false (refl, refl)
