-- ===== src/LocoDriver/BringUp.antt =====
-- What the sequence that starts the robot's gait guarantees to the code that streams velocities after it.
use navigation.Prelude.{
  ℕ, zero, suc, ◌≡◌, refl, inl, inr, Bool, true, false, Option, none, some, ℤ, pos, negsuc, eqb_ℤ,
  Bool-cases, if◌then◌else◌,
}
use navigation.Float.{Float, at_most}
use navigation.LocoDriver.{
  Sdk, Driver, Failure, not_installed, not_connected, raised, refused, no_service, not_entered,
  Result, done, failed, unfinished, Action, Probe, go_on, and_then, reply, require_client,
  require_ok, shows, probe, poll, wait_for_fsm, attempts, settle, damp, stand_up,
  start_main_control, set_fsm_id, bring_up,
}

-- The failures of a command.
abbrev IsOfCommand : Failure → Type 0
IsOfCommand not_connected = Unit
IsOfCommand raised = Unit
IsOfCommand (refused command code) = eqb_ℤ code (pos 0) ≡ false
IsOfCommand not_installed = ⊥
IsOfCommand (no_service code) = ⊥
IsOfCommand (not_entered code fsm) = ⊥

module _ {W A : Type 0} where
  abbrev IsCommandSound : W × Result A → Type 0
  IsCommandSound (w, done a) = Unit
  IsCommandSound (w, failed e) = IsOfCommand e
  IsCommandSound (w, unfinished) = Unit

module _ {W A B : Type 0} where
  then-IsCommandSound :
      (m : Action W A) (k : A → Action W B) (w : W)
      → IsCommandSound (m w)
      → ((a : A) (w : W) → IsCommandSound (k a w))
      → IsCommandSound (and_then m k w)
  unfolding and_then go_on
  then-IsCommandSound m k w ok next = after (m w) ok
    where
      after : (out : W × Result A) → IsCommandSound out → IsCommandSound (go_on k out)
      after (w', done a) h = next a w'
      after (w', failed e) h = h
      after (w', unfinished) h = tt

module _ {W : Type 0} where
  require_client-IsCommandSound :
      (ready : Bool) (call : W → W × Option ℤ) (w : W)
      → IsCommandSound (require_client ready call w)
  require_client-IsCommandSound false call w = tt
  require_client-IsCommandSound true call w = replied (call w)
    where
      replied : (r : W × Option ℤ) → IsCommandSound (reply r)
      replied (w', none) = tt
      replied (w', some code) = tt

  require_ok-IsCommandSound :
      (command code : ℤ) (w : W) → IsCommandSound (require_ok command code w)
  require_ok-IsCommandSound command code w = elim (Bool-cases (eqb_ℤ code (pos 0))) [
    | inl ok ↦ rw ok tt
    | inr bad ↦ rw bad bad
  ]

module _ {W F : Type 0} ⦃f : Float F⦄ (sdk : Sdk W F) (d : Driver F) where
  -- The world is as a probe left it that showed the state.
  abbrev pub HasShown : ℤ → W → Type 0
  HasShown target w' = (w : W) × (p : Probe) × (probe sdk d w ≡ (w', p)) × (shows target p ≡ true)

  abbrev IsPollSound : ℤ → W × Result (Bool × Probe) → Type 0
  IsPollSound target (w, done (true, p)) = HasShown target w
  IsPollSound target (w, done (false, p)) = Unit
  IsPollSound target (w, failed e) = ⊥
  IsPollSound target (w, unfinished) = Unit

  poll-IsPollSound :
      (n : ℕ) (target : ℤ) (deadline poll_s : F) (w : W)
      → IsPollSound target (poll sdk d n target deadline poll_s w)
  unfolding poll
  poll-IsPollSound zero target deadline poll_s w = tt
  poll-IsPollSound (suc n) target deadline poll_s w =
      elim (Bool-cases (shows target (probe sdk d w).1)) [
        | inl seen ↦ rw seen (w, (probe sdk d w).1, refl, seen)
        | inr unseen ↦ elim (Bool-cases (at_most deadline (sdk.monotonic (probe sdk d w).0).1)) [
          | inl late ↦ rw (unseen, late) tt
          | inr early ↦ rw (unseen, early) (poll-IsPollSound n target deadline poll_s _)
        ]
      ]

  -- With a service that replies: a bring-up that succeeds ends in a probe that shows the target; a command
  -- counts as refused only if its code is not 0; and the service does not count as silent.
  abbrev pub IsSound : ℤ → W → W × Result Unit → Type 0
  IsSound target start (w, done u) = HasShown target w
  IsSound target start (w, failed (refused command code)) = eqb_ℤ code (pos 0) ≡ false
  IsSound target start (w, failed (no_service code)) = ⊥
  IsSound target start (w, failed not_installed) = ⊥
  IsSound target start (w, failed not_connected) = Unit
  IsSound target start (w, failed raised) = Unit
  IsSound target start (w, failed (not_entered code fsm)) = Unit
  IsSound target start (w, unfinished) = Unit

  -- With one that does not: the bring-up fails with the code of the probe, and the world is as that probe
  -- left it.
  abbrev pub IsGuarded : Bool → ℤ → W → W × Result Unit → Type 0
  IsGuarded true target start out = IsSound target start out
  IsGuarded false target start out =
      out ≡ ((probe sdk d start).0, failed (no_service (probe sdk d start).1.code))

  failure-IsSound :
      (target : ℤ) (start w : W) (e : Failure) → IsOfCommand e → IsSound target start (w, failed e)
  failure-IsSound target start w not_connected h = tt
  failure-IsSound target start w raised h = tt
  failure-IsSound target start w (refused command code) h = h
  failure-IsSound target start w not_installed h = h
  failure-IsSound target start w (no_service code) h = h
  failure-IsSound target start w (not_entered code fsm) h = tt

  then-IsSound :
      {A : Type 0} (target : ℤ) (start : W) (m : Action W A) (k : A → Action W Unit) (w : W)
      → IsCommandSound (m w)
      → ((a : A) (w : W) → IsSound target start (k a w))
      → IsSound target start (and_then m k w)
  unfolding and_then go_on
  then-IsSound {A} target start m k w ok next = after (m w) ok
    where
      after : (out : W × Result A) → IsCommandSound out → IsSound target start (go_on k out)
      after (w', done a) h = next a w'
      after (w', failed e) h = failure-IsSound target start w' e h
      after (w', unfinished) h = tt

  waited-IsSound :
      (target : ℤ) (start : W) (m : Action W (Bool × Probe)) (rest : Probe → Action W Unit) (w : W)
      → IsPollSound target (m w)
      → ((p : Probe) (w : W) → IsSound target start (rest p w))
      → IsSound target start
          (and_then m (λ seen w'. if seen.0 then (w', done tt) else rest seen.1 w') w)
  unfolding and_then go_on
  waited-IsSound target start m rest w ok next = after (m w) ok
    where
      after :
          (out : W × Result (Bool × Probe))
          → IsPollSound target out
          → IsSound target start
              (go_on (λ seen w'. if seen.0 then (w', done tt) else rest seen.1 w') out)
      after (w', done (true, p)) h = h
      after (w', done (false, p)) h = next p w'
      after (w', failed e) h = absurd h
      after (w', unfinished) h = tt

  set_fsm_id-IsCommandSound : (fsm_id : ℤ) (w : W) → IsCommandSound (set_fsm_id sdk d fsm_id w)
  unfolding set_fsm_id
  set_fsm_id-IsCommandSound fsm_id w =
      require_client-IsCommandSound d.ready (sdk.set_fsm_id fsm_id) w

  start_main_control-IsCommandSound :
      (fsm_id : ℤ) (w : W) → IsCommandSound (start_main_control sdk d fsm_id w)
  unfolding start_main_control
  start_main_control-IsCommandSound fsm_id w = set_fsm_id-IsCommandSound fsm_id w

  damp-IsCommandSound : (w : W) → IsCommandSound (damp sdk d w)
  unfolding damp
  damp-IsCommandSound w = set_fsm_id-IsCommandSound _ w

  stand_up-IsCommandSound : (w : W) → IsCommandSound (stand_up sdk d w)
  unfolding stand_up
  stand_up-IsCommandSound w = set_fsm_id-IsCommandSound _ w

  attempts-IsSound :
      (n polls : ℕ) (target : ℤ) (settle_s : F) (last : Probe) (start w : W)
      → IsSound target start (attempts sdk d n polls target settle_s last w)
  unfolding attempts wait_for_fsm
  attempts-IsSound zero polls target settle_s last start w = tt
  attempts-IsSound (suc n) polls target settle_s last start w =
      then-IsSound target start _ _ _ (start_main_control-IsCommandSound target w) (λ code w1.
        then-IsSound target start _ _ _ (require_ok-IsCommandSound target code w1) (λ _ w2.
          waited-IsSound target start (wait_for_fsm sdk d polls target settle_s)
            (attempts sdk d n polls target settle_s) w2 (poll-IsPollSound polls target _ _ _)
            (λ p w3. attempts-IsSound n polls target settle_s p start w3)))

  settle-IsCommandSound :
      (command : ℤ) (settle_s : F) (act : Action W ℤ) (w : W)
      → IsCommandSound (act w)
      → IsCommandSound (settle sdk d command settle_s act w)
  unfolding settle
  settle-IsCommandSound command settle_s act w h =
      then-IsCommandSound _ _ _ h (λ code w1.
        then-IsCommandSound _ _ _ (require_ok-IsCommandSound command code w1) (λ _ _. tt))

  -- However the robot replies. Where the service does not reply to the first probe, the bring-up fails with
  -- the code of that probe, and no command is sent at all. Where it does reply, a bring-up that succeeds
  -- ends in a probe to which the robot replies with code 0 and the target state; one that fails because a
  -- command was refused had a code other than 0; and none fails for a silent service.
  pub bring_up-IsSound :
      (polls : ℕ) (settle_s : F) (target : ℤ) (w : W)
      → IsGuarded (probe sdk d w).1.ok target w (bring_up sdk d polls settle_s target w)
  unfolding bring_up
  bring_up-IsSound polls settle_s target w = elim (Bool-cases (probe sdk d w).1.ok) [
    | inl ok ↦ rw ok (
        then-IsSound target w _ _ _ (settle-IsCommandSound _ settle_s _ _ (damp-IsCommandSound _))
          (λ _ w1.
            then-IsSound target w _ _ _
              (settle-IsCommandSound _ settle_s _ _ (stand_up-IsCommandSound w1))
              (λ _ w2.
                attempts-IsSound 3 polls target settle_s
                  (record { ok = false; code = negsuc 0; fsm = none }) w w2)))
    | inr dead ↦ rw dead refl
  ]
