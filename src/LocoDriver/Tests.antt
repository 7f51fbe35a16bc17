-- ===== src/LocoDriver/Tests.antt =====
-- A bring-up of a simulated robot, which enters the state that it was told half a second later.
use navigation.Prelude.{
  ◌≡◌, refl, Bool, true, false, some, List, [], ◌∷◌, ◌++◌, ℤ, pos, ◌+ℤ◌, ltb_ℤ, if◌then◌else◌,
  arith, leb_ℤ,
}
use navigation.Float.{Millis, millis, milli}
use navigation.LocoDriver.{
  Sdk, Driver, Result, done, failed, no_service, go_on, and_then, probe, poll, wait_for_fsm,
  attempts, settle, damp, stand_up, start_main_control, set_fsm_id, bring_up,
}
use navigation.LocoDriver.Waiting.{IsFinished, IsTimely, bring_up-IsFinished}
use navigation.LocoDriver.BringUp.{IsGuarded, bring_up-IsSound}

record Robot : Type 0 where
  clock : Millis
  fsm : ℤ
  wanted : ℤ
  since : Millis
  alive : Bool
  told : List ℤ

abbrev current : Robot → ℤ
current r = if ltb_ℤ (r.since +ℤ milli (pos 500)) r.clock then r.wanted else r.fsm

abbrev simulated : Sdk Robot Millis
simulated = record {
  open_client = λ domain timeout r. (r, true);
  get_fsm_id = λ r. (r, some (if r.alive then pos 0 else pos 3102, some (current r)));
  set_fsm_id = λ id r. (
    record r { fsm = current r; wanted = id; since = r.clock; told = r.told ++ (id ∷ []) },
    some (pos 0),
  );
  set_velocity = λ vx vy omega duration r. (r, some (pos 0));
  set_balance_mode = λ mode r. (r, some (pos 0));
  monotonic = λ r. (r, r.clock);
  sleep = λ dt r. record r { clock = r.clock +ℤ dt };
}

abbrev driver : Driver Millis
driver = record { domain_id = pos 0; timeout = milli (pos 10000); ready = true }

abbrev robot : Bool → Robot
robot alive = record {
  clock = milli (pos 0);
  fsm = pos 2;
  wanted = pos 2;
  since = milli (pos 0);
  alive = alive;
  told = [];
}

abbrev woken : Robot × Result Unit
woken = bring_up simulated driver 20 (milli (pos 3000)) (pos 501) (robot true)

-- Damping, standing up, and the walking state, after two seconds three pauses and three polls.
bring_up_run :
    (woken.1 ≡ done tt)
    × (woken.0.told ≡ pos 1 ∷ pos 4 ∷ pos 501 ∷ [])
    × (woken.0.clock ≡ milli (pos 6600))
unfolding bring_up probe settle damp stand_up set_fsm_id start_main_control attempts wait_for_fsm
    poll and_then go_on ◌+ℤ◌
bring_up_run = (refl, refl, refl)

bring_up_dead :
    bring_up simulated driver 20 (milli (pos 3000)) (pos 501) (robot false)
    ≡ (robot false, failed (no_service (pos 3102)))
unfolding bring_up probe
bring_up_dead = refl

bring_up-IsSound_example :
    IsGuarded simulated driver
      (probe simulated driver (robot true)).1.ok
      (pos 501)
      (robot true)
      woken
bring_up-IsSound_example =
    bring_up-IsSound simulated driver 20 (milli (pos 3000)) (pos 501) (robot true)

leb_ℤ_refl : (a : ℤ) → leb_ℤ a a ≡ true
leb_ℤ_refl a = ground arith

-- A wait of a fifth of a second ends in the round after the first.
simulated-IsTimely : IsTimely simulated driver 1 (milli (pos 200))
unfolding probe
simulated-IsTimely w = leb_ℤ_refl (w.clock +ℤ milli (pos 200))

bring_up-IsFinished_example :
    IsFinished (bring_up simulated driver 2 (milli (pos 200)) (pos 501) (robot true))
bring_up-IsFinished_example =
    bring_up-IsFinished simulated driver 1 2 (milli (pos 200)) (pos 501) (robot true) (omega arith)
      simulated-IsTimely
