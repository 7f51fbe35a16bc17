-- ===== src/LocoDriver.antt =====
-- `LocoDriver` of ros2_ws/src/g1_sim_bridge/g1_sim_bridge/unitree_loco.py. The robot's SDK, the clock and
-- `time.sleep` are a parameter, `Sdk`, over a state W of the world; log lines are left out. A wait is
-- given the number of polls that it may make: `unfinished` says that they were not enough.
pub mod BringUp
pub mod Waiting
mod Tests
use package.navigation.Prelude.{
  ℕ, zero, suc, Bool, true, false, ◌&&◌, not, Option, none, some, ℤ, pos, negsuc, eqb_ℤ,
  if◌then◌else◌,
}
use package.navigation.Float.{Float, ◌⊕◌, at_most, nought, unit, fmax}

-- What the driver calls. `none` is an exception; `GetFsmId` replies with a code and, perhaps, a state.
pub record Sdk (W F : Type 0) : Type 0 where
  -- `ChannelFactoryInitialize`, `LocoClient`, `SetTimeout`, `Init`; false: the SDK is not installed
  pub open_client : ℤ → F → W → W × Bool
  pub get_fsm_id : W → W × Option (ℤ × Option ℤ)
  pub set_fsm_id : ℤ → W → W × Option ℤ
  pub set_velocity : F → F → F → F → W → W × Option ℤ
  pub set_balance_mode : ℤ → W → W × Option ℤ
  pub monotonic : W → W × F
  pub sleep : F → W → W

pub record Driver (F : Type 0) : Type 0 where
  pub domain_id : ℤ
  pub timeout : F
  -- `_client is not None`
  pub ready : Bool

-- The exceptions: the SDK's absence, no client, one that the SDK raises, a command that is refused, no
-- reply from the service, and a robot that stays out of the state that was asked for.
pub data Failure : Type 0 where
  not_installed not_connected raised : Failure
  refused : ℤ → ℤ → Failure
  no_service : ℤ → Failure
  not_entered : ℤ → Option ℤ → Failure

pub data Result (A : Type 0) : Type 0 where
  done : A → Result A
  failed : Failure → Result A
  unfinished : Result A

abbrev pub Action : Type 0 → Type 0 → Type 0
Action W A = W → W × Result A

-- A reply of `probe`.
pub record Probe : Type 0 where
  pub ok : Bool
  pub code : ℤ
  pub fsm : Option ℤ

module _ {W A B : Type 0} where
  unfoldable pub go_on : (A → Action W B) → W × Result A → W × Result B
  go_on k (w, done a) = k a w
  go_on k (w, failed e) = (w, failed e)
  go_on k (w, unfinished) = (w, unfinished)

  -- The next statement, unless the first one raises.
  unfoldable pub and_then : Action W A → (A → Action W B) → Action W B
  unfolding go_on
  and_then m k w = go_on k (m w)

module _ {W : Type 0} where
  -- The SDK's reply, where the client may be missing.
  abbrev pub reply : W × Option ℤ → W × Result ℤ
  reply (w, none) = (w, failed raised)
  reply (w, some code) = (w, done code)

  abbrev pub require_client : Bool → (W → W × Option ℤ) → Action W ℤ
  require_client ready call w = if ready then reply (call w) else (w, failed not_connected)

  abbrev pub require_ok : ℤ → ℤ → Action W ℤ
  require_ok command code w =
      if eqb_ℤ code (pos 0) then (w, done code) else (w, failed (refused command code))

  abbrev pub probed : W × Option (ℤ × Option ℤ) → W × Probe
  probed (w, none) = (w, record { ok = false; code = negsuc 1; fsm = none })
  probed (w, some (code, none)) = (w, record { ok = false; code = code; fsm = none })
  probed (w, some (code, some fsm)) =
      (w, record { ok = eqb_ℤ code (pos 0); code = code; fsm = some fsm })

-- `ok and int(fsm) == int(expected_fsm)`
abbrev pub shows : ℤ → Probe → Bool
shows expected p = p.ok && elim p.fsm [ none ↦ false | some fsm ↦ eqb_ℤ fsm expected ]

abbrev pub fsm_zero_torque : ℤ
fsm_zero_torque = pos 0

abbrev pub fsm_damp : ℤ
fsm_damp = pos 1

abbrev pub fsm_stand_up : ℤ
fsm_stand_up = pos 4

module _ {W F : Type 0} ⦃f : Float F⦄ (sdk : Sdk W F) where
  unfoldable pub connect : Driver F → Action W (Driver F)
  connect d w =
      let (w', installed) = sdk.open_client d.domain_id d.timeout w in
      if installed then (w', done (record d { ready = true })) else (w', failed not_installed)

  unfoldable pub probe : Driver F → W → W × Probe
  probe d w =
      if d.ready
      then probed (sdk.get_fsm_id w)
      else (w, record { ok = false; code = negsuc 0; fsm = none })

  module _ (d : Driver F) where
    unfoldable pub set_fsm_id : ℤ → Action W ℤ
    set_fsm_id fsm_id = require_client d.ready (sdk.set_fsm_id fsm_id)

    unfoldable pub set_velocity : F → F → F → F → Action W ℤ
    set_velocity vx vy omega duration =
        require_client d.ready (sdk.set_velocity vx vy omega duration)

    unfoldable pub stop_move : Action W ℤ
    unfolding set_velocity
    stop_move = set_velocity nought nought nought unit

    unfoldable pub damp : Action W ℤ
    unfolding set_fsm_id
    damp = set_fsm_id fsm_damp

    unfoldable pub zero_torque : Action W ℤ
    unfolding set_fsm_id
    zero_torque = set_fsm_id fsm_zero_torque

    unfoldable pub stand_up : Action W ℤ
    unfolding set_fsm_id
    stand_up = set_fsm_id fsm_stand_up

    unfoldable pub start_main_control : ℤ → Action W ℤ
    unfolding set_fsm_id
    start_main_control target_fsm = set_fsm_id target_fsm

    unfoldable pub balance_stand : ℤ → Action W ℤ
    balance_stand balance_mode = require_client d.ready (sdk.set_balance_mode balance_mode)

    -- The rounds of the wait: true with the last probe, if it shows the state that is expected.
    unfoldable pub poll : ℕ → ℤ → F → F → Action W (Bool × Probe)
    poll zero expected deadline poll_s w = (w, unfinished)
    poll (suc n) expected deadline poll_s w =
        let (w1, p) = probe d w in
        let (w2, now) = sdk.monotonic w1 in
        let again = poll n expected deadline poll_s (sdk.sleep poll_s w2) in
        if shows expected p
        then (w1, done (true, p))
        else if at_most deadline now
        then (w2, done (false, p))
        else again

    unfoldable pub wait_for_fsm : ℕ → ℤ → F → Action W (Bool × Probe)
    unfolding poll
    wait_for_fsm polls expected timeout_s w =
        let (w', now) = sdk.monotonic w in
        poll polls expected (now ⊕ fmax nought timeout_s) (f.lit 2 10) w'

    -- The attempts that are left; `last` is the last probe of the wait before.
    unfoldable pub attempts : ℕ → ℕ → ℤ → F → Probe → Action W Unit
    unfolding start_main_control wait_for_fsm
    attempts zero polls target settle_s last w = (w, failed (not_entered last.code last.fsm))
    attempts (suc n) polls target settle_s last w =
        and_then (start_main_control target)
          (λ code. and_then (require_ok target code) (λ _.
            and_then (wait_for_fsm polls target settle_s) (λ seen w'.
              let rest = attempts n polls target settle_s seen.1 w' in
              if seen.0 then (w', done tt) else rest)))
          w

    -- A command that must succeed, and the pause after it.
    unfoldable pub settle : ℤ → F → Action W ℤ → Action W Unit
    settle command settle_s act =
        and_then act
          (λ code. and_then (require_ok command code) (λ _ w. (sdk.sleep settle_s w, done tt)))

    unfoldable pub bring_up : ℕ → F → ℤ → Action W Unit
    unfolding probe settle damp stand_up attempts
    bring_up polls settle_s target w =
        let (w', p) = probe d w in
        let start : Probe = record { ok = false; code = negsuc 0; fsm = none } in
        let rest = and_then (settle fsm_damp settle_s damp) (λ _.
          and_then (settle fsm_stand_up settle_s stand_up)
            (λ _. attempts 3 polls target settle_s start)) in
        if p.ok then rest w' else (w', failed (no_service p.code))
