-- ===== src/UnitreeBridge/Held.antt =====
-- What the whole node sends while the e-stop is engaged.
use navigation.Prelude.{
  ℕ, ◌≡◌, refl, ◌⊎◌, inl, inr, true, List, [], ◌∷◌, ◌∈◌, All, All-append, All-map, if-split,
}
use navigation.Float.{Float}
use navigation.UnitreeBridge.{Params, Command, set_velocity, set_fsm_id, fsm_damp, destroy_node}
use navigation.UnitreeBridge.Node.{
  Activity, callback, thread_sends, thread_ends, shutdown, Node, thread_step, act, run,
}
use navigation.UnitreeBridge.Safety.{IsStop, IsNoRelease, handle_held}
use navigation.Velocity.{standstill}

module _ {F : Type 0} ⦃f : Float F⦄ (p : Params F) where
  -- A velocity is zero. A change of the robot's mode is one that the bring-up thread had still to make, or
  -- the damping of a shutdown that is configured to damp.
  abbrev pub IsHeld : List ℕ → Command F → Type 0
  IsHeld pending (set_velocity v d) = v ≡ standstill
  IsHeld pending (set_fsm_id fsm_id) =
      (fsm_id ∈ pending) ⊎ ((fsm_id ≡ fsm_damp) × (p.damp_on_shutdown ≡ true))

  -- Any activity but the handling of a message that releases the e-stop.
  abbrev pub IsQuiet : Activity F → Type 0
  IsQuiet (callback e) = IsNoRelease e
  IsQuiet thread_sends = Unit
  IsQuiet thread_ends = Unit
  IsQuiet shutdown = Unit

  stop-IsHeld : (pending : List ℕ) (c : Command F) → IsStop c → IsHeld pending c
  stop-IsHeld pending (set_velocity v d) h = h
  stop-IsHeld pending (set_fsm_id n) h = absurd h

  -- What is held for fewer pending commands is held for more.
  more-IsHeld :
      (fewer more : List ℕ)
      → ((i : ℕ) → i ∈ fewer → i ∈ more)
      → (c : Command F) → IsHeld fewer c
      → IsHeld more c
  more-IsHeld fewer more h (set_velocity v d) i = i
  more-IsHeld fewer more h (set_fsm_id n) (inl m) = inl (h n m)
  more-IsHeld fewer more h (set_fsm_id n) (inr d) = inr d

  -- After an activity the e-stop is engaged still, what it sends is held, and the thread has no new plans.
  abbrev IsKept : Node F → Node F × List (Command F) → Type 0
  IsKept n (n', sent) =
      (n'.bridge.estop ≡ true)
      × All (IsHeld n.pending) sent
      × ((i : ℕ) → i ∈ n'.pending → i ∈ n.pending)

  destroy_node-AllHeld : (pending : List ℕ) → All (IsHeld pending) (destroy_node p)
  unfolding destroy_node
  destroy_node-AllHeld pending = (
    refl,
    if-split (All (IsHeld pending)) p.damp_on_shutdown (λ e. (inr (refl, e), tt)) (λ _. tt),
  )

  thread_step-IsHeld :
      (ids : List ℕ)
      → All (IsHeld ids) (thread_step p ids).1 × ((i : ℕ) → i ∈ (thread_step p ids).0 → i ∈ ids)
  unfolding thread_step
  thread_step-IsHeld [] = (tt, λ i m. m)
  thread_step-IsHeld (k ∷ ids) = ((inl (inl refl), tt), λ i m. inr m)

  act-IsKept :
      (a : Activity F) (n : Node F) → n.bridge.estop ≡ true → IsQuiet a → IsKept n (act p a n)
  unfolding act
  act-IsKept (callback e) n h q =
      let (kept, stops) = handle_held p e n.bridge h q in
      (kept, All-map IsStop (IsHeld n.pending) _ (stop-IsHeld n.pending) stops, λ i m. m)
  act-IsKept thread_sends n h q =
      let (held, fewer) = thread_step-IsHeld n.pending in (h, held, fewer)
  act-IsKept thread_ends n h q = (h, tt, λ i m. absurd m)
  act-IsKept shutdown n h q = (h, destroy_node-AllHeld n.pending, λ i m. m)

  -- While the e-stop is engaged and no message releases it, the e-stop stays engaged; every velocity that the
  -- node sends, in its callbacks or as it shuts down, is zero; and every other command of the node is one
  -- that its bring-up thread had still to send, which does not wait for the e-stop, or the damping of a
  -- shutdown that is configured to damp.
  pub run-AllHeld :
      (as_ : List (Activity F)) (n : Node F)
      → n.bridge.estop ≡ true
      → All IsQuiet as_
      → ((run p as_ n).0.bridge.estop ≡ true) × All (IsHeld n.pending) (run p as_ n).1
  unfolding run
  run-AllHeld [] n h q = (h, tt)
  run-AllHeld (a ∷ as_) n h q =
      let (kept, held, fewer) = act-IsKept a n h q.0 in
      let (kept', held') = run-AllHeld as_ (act p a n).0 kept q.1 in
      (
        kept',
        All-append (IsHeld n.pending) _ _ held (
            All-map (IsHeld (act p a n).0.pending) (IsHeld n.pending) _
              (more-IsHeld (act p a n).0.pending n.pending fewer) held'),
      )
