-- ===== src/EstopKeyboard/Tests.antt =====
-- A session at the keyboard.
use navigation.Prelude.{◌≡◌, refl, true, false, List, [], ◌∷◌, pos, ◌-ℤ◌}
use navigation.Float.{Millis, millis, milli}
unfoldable use navigation.Prelude.Text.{lower}
use navigation.Prelude.Text.{codes}
use navigation.EstopKeyboard.{
  Round, Input, idle, line, strip, key_of, refresh, on_key, on_input, round_on, round, carry_on,
  rounds, session,
}
use navigation.EstopKeyboard.FailSafe.{latched, asked_last, IsFailSafe, session-IsFailSafe}

abbrev at : Input → Round Millis
at i = record { now = milli (pos 500); later = milli (pos 550); input = i }

-- Stop, nothing for a while, resume, and quit.
abbrev typed : List (Round Millis)
typed =
    at (line (codes " Stop"))
    ∷ record { now = milli (pos 700); later = milli (pos 800); input = idle }
    ∷ at (line (codes "g"))
    ∷ at (line (codes "hm"))
    ∷ at (line (codes "QUIT "))
    ∷ at (line (codes "g"))
    ∷ []

session_runs : (session typed).1 ≡ false ∷ true ∷ true ∷ false ∷ true ∷ []
unfolding session rounds carry_on round round_on refresh on_input on_key key_of strip lower ◌-ℤ◌
session_runs = refl

-- The session before the line that quits.
abbrev resumed : List (Round Millis)
resumed = at (line (codes "s")) ∷ at (line (codes "g")) ∷ at (line (codes "hm")) ∷ []

session-IsFailSafe_example :
    IsFailSafe (asked_last resumed false) (session resumed).0 (latched false (session resumed).1)
session-IsFailSafe_example = session-IsFailSafe false resumed
