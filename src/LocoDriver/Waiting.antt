-- ===== src/LocoDriver/Waiting.antt =====
-- That the polls of a wait end, and the start of the gait with them.
use navigation.Prelude.{
  ℕ, zero, suc, ◌<◌, ◌≡◌, inl, inr, Bool, true, false, Option, none, some, ℤ, pos, negsuc, eqb_ℤ,
  arith, Bool-cases, if◌then◌else◌,
}
use navigation.Float.{Float, ◌⊕◌, at_most, nought, fmax}
use navigation.LocoDriver.{
  Sdk, Driver, Result, done, failed, unfinished, Action, Probe, go_on, and_then, require_client,
  require_ok, reply, shows, probe, poll, wait_for_fsm, attempts, settle, damp, stand_up,
  start_main_control, set_fsm_id, bring_up,
}

module _ {W A : Type 0} where
  abbrev pub IsFinished : W × Result A → Type 0
  IsFinished (w, done a) = Unit
  IsFinished (w, failed e) = Unit
  IsFinished (w, unfinished) = ⊥

module _ {W A B : Type 0} where
  then-IsFinished :
      (m : Action W A) (k : A → Action W B) (w : W)
      → IsFinished (m w)
      → ((a : A) (w : W) → IsFinished (k a w))
      → IsFinished (and_then m k w)
  unfolding and_then go_on
  then-IsFinished m k w ok next = after (m w) ok
    where
      after : (out : W × Result A) → IsFinished out → IsFinished (go_on k out)
      after (w', done a) h = next a w'
      after (w', failed e) h = tt
      after (w', unfinished) h = h

module _ {W : Type 0} where
  require_client-IsFinished :
      (ready : Bool) (call : W → W × Option ℤ) (w : W) → IsFinished (require_client ready call w)
  require_client-IsFinished false call w = tt
  require_client-IsFinished true call w = replied (call w)
    where
      replied : (r : W × Option ℤ) → IsFinished (reply r)
      replied (w', none) = tt
      replied (w', some code) = tt

  require_ok-IsFinished : (command code : ℤ) (w : W) → IsFinished (require_ok command code w)
  require_ok-IsFinished command code w = elim (Bool-cases (eqb_ℤ code (pos 0))) [
    | inl ok ↦ rw ok tt
    | inr bad ↦ rw bad tt
  ]

module _ {W F : Type 0} ⦃f : Float F⦄ (sdk : Sdk W F) (d : Driver F) where
  -- The reading of the clock in the n-th round of a wait, if the rounds before it have gone on.
  abbrev pub reading : ℕ → F → W → F
  reading zero poll_s w = (sdk.monotonic (probe sdk d w).0).1
  reading (suc n) poll_s w = reading n poll_s (sdk.sleep poll_s (sdk.monotonic (probe sdk d w).0).0)

  poll-IsFinished :
      (n polls : ℕ) (expected : ℤ) (deadline poll_s : F) (w : W)
      → n < polls
      → at_most deadline (reading n poll_s w) ≡ true
      → IsFinished (poll sdk d polls expected deadline poll_s w)
  unfolding poll
  poll-IsFinished n zero expected deadline poll_s w lt late = omega arith
  poll-IsFinished zero (suc polls) expected deadline poll_s w lt late =
      elim (Bool-cases (shows expected (probe sdk d w).1)) [
        | inl seen ↦ rw seen tt
        | inr unseen ↦ rw (unseen, late) tt
      ]
  poll-IsFinished (suc n) (suc polls) expected deadline poll_s w lt late =
      elim (Bool-cases (shows expected (probe sdk d w).1)) [
        | inl seen ↦ rw seen tt
        | inr unseen ↦ elim (Bool-cases (at_most deadline (sdk.monotonic (probe sdk d w).0).1)) [
          | inl now ↦ rw (unseen, now) tt
          | inr early ↦
              rw (unseen, early)
                (poll-IsFinished n polls expected deadline poll_s _ (omega arith) late)
        ]
      ]

  -- Wherever a wait of `settle_s` begins, its deadline has passed by the round `n`.
  abbrev pub IsTimely : ℕ → F → Type 0
  IsTimely n settle_s =
      (w : W)
      → at_most ((sdk.monotonic w).1 ⊕ fmax nought settle_s)
          (reading n (f.lit 2 10) (sdk.monotonic w).0)
        ≡ true

  attempts-IsFinished :
      (n k polls : ℕ) (target : ℤ) (settle_s : F) (last : Probe) (w : W)
      → n < polls
      → IsTimely n settle_s
      → IsFinished (attempts sdk d k polls target settle_s last w)
  unfolding attempts start_main_control set_fsm_id wait_for_fsm
  attempts-IsFinished n zero polls target settle_s last w lt timely = tt
  attempts-IsFinished n (suc k) polls target settle_s last w lt timely =
      then-IsFinished (start_main_control sdk d target) _ w
        (require_client-IsFinished d.ready (sdk.set_fsm_id target) w)
        (λ code w1.
          then-IsFinished (require_ok target code) _ w1 (require_ok-IsFinished target code w1)
            (λ _ w2.
              then-IsFinished (wait_for_fsm sdk d polls target settle_s) _ w2
                (poll-IsFinished n polls target _ _ _ lt (timely w2))
                (λ seen w3.
                  entered _ seen.0 w3
                    (attempts-IsFinished n k polls target settle_s seen.1 w3 lt timely))))
    where
      entered :
          (out : W × Result Unit) (b : Bool) (w' : W)
          → IsFinished out
          → IsFinished (if b then (w', done tt) else out)
      entered out true w' h = tt
      entered out false w' h = h

  settle-IsFinished :
      (command : ℤ) (settle_s : F) (act : Action W ℤ) (w : W)
      → IsFinished (act w)
      → IsFinished (settle sdk d command settle_s act w)
  unfolding settle
  settle-IsFinished command settle_s act w h =
      then-IsFinished _ _ _ h
        (λ code w1. then-IsFinished _ _ _ (require_ok-IsFinished command code w1) (λ _ _. tt))

  -- If, wherever a wait begins, its deadline has passed by the round `n`, then a bring-up whose waits
  -- may poll more than `n` times ends, with success or with one of the failures.
  pub bring_up-IsFinished :
      (n polls : ℕ) (settle_s : F) (target : ℤ) (w : W)
      → n < polls
      → IsTimely n settle_s
      → IsFinished (bring_up sdk d polls settle_s target w)
  unfolding bring_up damp stand_up set_fsm_id
  bring_up-IsFinished n polls settle_s target w lt timely = elim (Bool-cases (probe sdk d w).1.ok) [
    | inl ok ↦ rw ok (
        then-IsFinished (settle sdk d _ settle_s (damp sdk d)) _ _
          (settle-IsFinished _ settle_s (damp sdk d) _
            (require_client-IsFinished d.ready (sdk.set_fsm_id _) _))
          (λ _ w1.
            then-IsFinished (settle sdk d _ settle_s (stand_up sdk d)) _ _
              (settle-IsFinished _ settle_s (stand_up sdk d) _
                (require_client-IsFinished d.ready (sdk.set_fsm_id _) w1))
              (λ _ w2.
                attempts-IsFinished n 3 polls target settle_s
                  (record { ok = false; code = negsuc 0; fsm = none }) w2 lt timely)))
    | inr dead ↦ rw dead tt
  ]
