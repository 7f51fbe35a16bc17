-- ===== src/UnitreeBridge/Node.antt =====
-- The whole node of cmd_vel_to_unitree_loco_node.py: its callbacks, the thread of `_bring_up_safe`, which runs
-- beside them, and `destroy_node`. When the thread goes on and when it gives up is the driver's `bring_up`
-- (LocoDriver); here each of its commands may come at any time, and it may end at any time.
use navigation.Prelude.{ℕ, Bool, List, [], ◌∷◌, ◌++◌, if◌then◌else◌}
use navigation.Float.{Float}
use navigation.UnitreeBridge.{
  Params, Bridge, Command, set_fsm_id, Event, fsm_damp, init, handle, destroy_node,
}

-- What the node does: it handles an event, its thread sends its next command or ends, or it shuts down.
pub data Activity (F : Type 0) : Type 0 where
  callback : Event F → Activity F
  thread_sends thread_ends shutdown : Activity F

-- The callbacks' state, and the commands that the thread may still send.
pub record Node (F : Type 0) : Type 0 where
  pub bridge : Bridge F
  pub pending : List ℕ

abbrev pub fsm_stand_up : ℕ
fsm_stand_up = 4

-- The commands of `bring_up`, with all three attempts at the target.
abbrev pub bring_up_ids : ℕ → List ℕ
bring_up_ids control_fsm = fsm_damp ∷ fsm_stand_up ∷ control_fsm ∷ control_fsm ∷ control_fsm ∷ []

module _ {F : Type 0} ⦃f : Float F⦄ (p : Params F) where
  -- The node after `__init__`, with the parameters `auto_bring_up` and `control_fsm`.
  unfoldable pub start : Bool → ℕ → F → Node F
  start auto_bring_up control_fsm now = record {
    bridge = init p now;
    pending = if auto_bring_up then bring_up_ids control_fsm else [];
  }

  unfoldable pub thread_step : List ℕ → List ℕ × List (Command F)
  thread_step [] = ([], [])
  thread_step (fsm_id ∷ ids) = (ids, set_fsm_id fsm_id ∷ [])

  unfoldable pub act : Activity F → Node F → Node F × List (Command F)
  act (callback e) n =
      let (bridge', sent) = handle p e n.bridge in (record n { bridge = bridge' }, sent)
  act thread_sends n = let (ids, sent) = thread_step n.pending in (record n { pending = ids }, sent)
  act thread_ends n = (record n { pending = [] }, [])
  act shutdown n = (n, destroy_node p)

  -- The activities in the order in which they take place. No callback follows a shutdown.
  unfoldable pub run : List (Activity F) → Node F → Node F × List (Command F)
  run [] n = (n, [])
  run (a ∷ as_) n = let (n', sent) = act a n in let (n'', rest) = run as_ n' in (n'', sent ++ rest)
