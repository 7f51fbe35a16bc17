-- ===== src/EstopKeyboard.antt =====
-- `main` of ros2_ws/src/g1_sim_bridge/g1_sim_bridge/estop_keyboard_node.py: the loop over the keyboard,
-- and what it publishes on the e-stop topic. A line is the list of its characters' codes, in ASCII.
pub mod FailSafe
mod Tests
use package.navigation.Prelude.{
  ℕ, ◌-◌, ◌+◌, Bool, true, false, ◌&&◌, ◌||◌, List, [], ◌∷◌, ◌++◌, ltb, leb, ◌==◌, if◌then◌else◌,
  pos,
}
use mathlib.Core.List.{reverse}
use Prim.Native.String.{String}
unfoldable use package.navigation.Prelude.Text.{lower}
use package.navigation.Prelude.Text.{codes, same_text}
use package.navigation.Float.{Float, ◌⊖◌, at_most}

is_space : ℕ → Bool
is_space c = (leb 9 c && leb c 13) || (leb 28 c && leb c 32)

strip_left : List ℕ → List ℕ
unfolding is_space
strip_left [] = []
strip_left (c ∷ s) = let rest = strip_left s in if is_space c then rest else c ∷ s

-- `line.strip()`
unfoldable pub strip : List ℕ → List ℕ
unfolding strip_left
strip s = reverse (strip_left (reverse (strip_left s)))

-- The branches of the chain of tests on the key.
pub data Key : Type 0 where
  stop go quit blank other : Key

unfoldable pub key_of : List ℕ → Key
unfolding strip lower
key_of line =
    let key = lower (strip line) in
    let is = λ (s : String). same_text key (codes s) in
    if is "s" || is "stop"
    then stop
    else if is "g" || is "go" || is "r" || is "resume"
    then go
    else if is "q" || is "quit" || is "exit"
    then quit
    else if is ""
    then blank
    else other

-- What a round of the loop meets: no input within a tenth of a second, the end of the input, a line,
-- `KeyboardInterrupt` or `EOFError`, or a context that was shut down before the round.
pub data Input : Type 0 where
  idle eof interrupted shut_down : Input
  line : List ℕ → Input

-- A round, with the readings of the clock at its start and after the input.
pub record Round (F : Type 0) : Type 0 where
  pub now : F
  pub later : F
  pub input : Input

pub record Keyboard (F : Type 0) : Type 0 where
  pub engaged : Bool
  pub last_pub_t : F

-- How a round ends: the loop goes on, or it is left.
pub data Next (F : Type 0) : Type 0 where
  goes_on : Keyboard F → Next F
  left_by : Input → Next F

module _ {F : Type 0} ⦃f : Float F⦄ where
  -- The republication of a stop that is engaged.
  unfoldable pub refresh : F → Keyboard F → Keyboard F × List Bool
  refresh now k =
      if k.engaged && at_most (f.lit 1 10) (now ⊖ k.last_pub_t)
      then (record k { last_pub_t = now }, true ∷ [])
      else (k, [])

  unfoldable pub on_key : F → List ℕ → Key → Keyboard F → Next F × List Bool
  on_key later text stop k = (goes_on (record { engaged = true; last_pub_t = later }), true ∷ [])
  on_key later text go k = (goes_on (record { engaged = false; last_pub_t = later }), false ∷ [])
  on_key later text quit k = (left_by (line text), true ∷ [])
  on_key later text blank k = (goes_on k, [])
  on_key later text other k = (goes_on k, [])

  unfoldable pub on_input : F → Input → Keyboard F → Next F × List Bool
  unfolding on_key
  on_input later idle k = (goes_on k, [])
  on_input later eof k = (left_by eof, true ∷ [])
  on_input later interrupted k = (left_by interrupted, true ∷ [])
  on_input later shut_down k = (left_by shut_down, [])
  on_input later (line text) k = on_key later text (key_of text) k

  -- A round; a context that is shut down ends the loop before the republication.
  unfoldable pub round_on : Round F → Input → Keyboard F → Next F × List Bool
  unfolding refresh on_input
  round_on r shut_down k = (left_by shut_down, [])
  round_on r i k =
      let (k', first) = refresh r.now k in
      let (next, then_sent) = on_input r.later i k' in (next, first ++ then_sent)

  unfoldable pub round : Round F → Keyboard F → Next F × List Bool
  unfolding round_on
  round r k = round_on r r.input k

  unfoldable pub carry_on :
      (Keyboard F → Next F × List Bool) → Next F × List Bool → Next F × List Bool
  carry_on rest (goes_on k, sent) = let (last, more) = rest k in (last, sent ++ more)
  carry_on rest (left_by i, sent) = (left_by i, sent)

  -- What the rounds publish, and the input that left the loop, unless it still runs.
  unfoldable pub rounds : List (Round F) → Keyboard F → Next F × List Bool
  rounds [] k = (goes_on k, [])
  rounds (r ∷ rs) k = carry_on (rounds rs) (round r k)

  -- `publish(False)` and then the loop.
  unfoldable pub session : List (Round F) → Next F × List Bool
  unfolding rounds round
  session rs =
      let start : Keyboard F = record { engaged = false; last_pub_t = f.of_int (pos 0) } in
      let (last, sent) = rounds rs start in (last, false ∷ sent)
