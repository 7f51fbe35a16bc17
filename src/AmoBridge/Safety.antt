-- ===== src/AmoBridge/Safety.antt =====
-- What the AMO bridge guarantees, whatever messages arrive in whatever order.
use navigation.Prelude.{◌≡◌, inl, inr, true, List, [], ◌∷◌, ◌++◌, All, arith, Bool-cases, same}
use navigation.Float.{Float, IsOrdered, ◌⊖◌, ◌≼◌, less, nought}
use navigation.Velocity.{Velocity, standstill}
use navigation.Velocity.Slew.{IsCapped, clip-IsCapped, nought-IsCapped}
use navigation.AmoBridge.{
  Params, Bridge, Event, twist, estop_msg, tick, init, on_twist, on_estop, on_tick, handle, run,
}

module _ {F : Type 0} ⦃f : Float F⦄ where
  abbrev pub IsStop : Velocity F → Type 0
  IsStop v = v ≡ standstill

  -- Any event but a message that releases the e-stop.
  abbrev pub IsNoRelease : Event F → Type 0
  IsNoRelease (twist now v) = Unit
  IsNoRelease (estop_msg now engaged) = engaged ≡ true
  IsNoRelease (tick now ok) = Unit

  All-append {κ} :
      (P : Velocity F → Type κ) (xs ys : List (Velocity F)) → All P xs → All P ys → All P (xs ++ ys)
  All-append P [] ys h k = k
  All-append P (x ∷ xs) ys h k = (h.0, All-append P xs ys h.1 k)

  module _ (p : Params F) where
    handle_held :
        (e : Event F) (b : Bridge F)
        → b.estop ≡ true
        → IsNoRelease e
        → ((handle p e b).0.estop ≡ true) × All IsStop (handle p e b).1
    unfolding handle on_twist on_estop on_tick
    handle_held (twist now v) b h n = (h, tt)
    handle_held (estop_msg now engaged) b h n = ground arith
    handle_held (tick now ok) b h n = ground arith

    -- While the e-stop is engaged and no message releases it, every velocity that the node forwards
    -- is zero, and the e-stop stays engaged.
    pub amo_held :
        (es : List (Event F)) (b : Bridge F)
        → b.estop ≡ true
        → All IsNoRelease es
        → ((run p es b).0.estop ≡ true) × All IsStop (run p es b).1
    unfolding run
    amo_held [] b h n = (h, tt)
    amo_held (e ∷ es) b h n =
        let (kept, stopped) = handle_held e b h n.0 in
        let (kept', stopped') = amo_held es (handle p e b).0 kept n.1 in
        (kept', All-append IsStop _ _ stopped stopped')

    module _ (laws : IsOrdered F) where
      pub record IsSane : Type 0 where
        pub cap_x : nought ≼ p.vmax.vx
        pub cap_y : nought ≼ p.vmax.vy
        pub cap_wz : nought ≼ p.vmax.wz

      -- Within the caps of the node.
      pub record IsAllowed (v : Velocity F) : Type 0 where
        pub capped_x : IsCapped p.vmax.vx v.vx
        pub capped_y : IsCapped p.vmax.vy v.vy
        pub capped_wz : IsCapped p.vmax.wz v.wz

      module _ (sane : IsSane) where
        standstill-IsAllowed : IsAllowed standstill
        standstill-IsAllowed = record {
          capped_x = nought-IsCapped laws p.vmax.vx sane.cap_x;
          capped_y = nought-IsCapped laws p.vmax.vy sane.cap_y;
          capped_wz = nought-IsCapped laws p.vmax.wz sane.cap_wz;
        }

        handle-IsAllowed :
            (e : Event F) (b : Bridge F)
            → IsAllowed b.cmd
            → IsAllowed (handle p e b).0.cmd × All IsAllowed (handle p e b).1
        unfolding handle on_twist on_estop on_tick
        handle-IsAllowed (twist now v) b i = (
          record {
            capped_x = clip-IsCapped laws v.vx p.vmax.vx sane.cap_x;
            capped_y = clip-IsCapped laws v.vy p.vmax.vy sane.cap_y;
            capped_wz = clip-IsCapped laws v.wz p.vmax.wz sane.cap_wz;
          },
          tt,
        )
        handle-IsAllowed (estop_msg now engaged) b i = elim (Bool-cases (same engaged b.estop)) [
          | inl old ↦ rw old (i, tt)
          | inr new ↦ elim (Bool-cases engaged) [
            | inl on ↦ rw (new, on) (standstill-IsAllowed, (standstill-IsAllowed, tt))
            | inr off ↦ rw (new, off) (i, tt)
          ]
        ]
        handle-IsAllowed (tick now ok) b i = elim (Bool-cases b.estop) [
          | inl on ↦ rw on (i, (standstill-IsAllowed, tt))
          | inr off ↦ elim (Bool-cases (less p.cmd_timeout (now ⊖ b.last_cmd_t))) [
            | inl stale ↦ rw (off, stale) (standstill-IsAllowed, (standstill-IsAllowed, tt))
            | inr fresh ↦ rw (off, fresh) (i, (i, tt))
          ]
        ]

        run-IsAllowed :
            (es : List (Event F)) (b : Bridge F)
            → IsAllowed b.cmd
            → IsAllowed (run p es b).0.cmd × All IsAllowed (run p es b).1
        unfolding run
        run-IsAllowed [] b i = (i, tt)
        run-IsAllowed (e ∷ es) b i =
            let (kept, sent) = handle-IsAllowed e b i in
            let (kept', sent') = run-IsAllowed es (handle p e b).0 kept in
            (kept', All-append IsAllowed _ _ sent sent')

        -- From the start on, whatever velocities the messages ask for, every velocity that is
        -- forwarded lies within the caps of the node, which are not negative.
        pub forwards-IsAllowed :
            (now : F) (es : List (Event F)) → All IsAllowed (run p es (init p now)).1
        unfolding init
        forwards-IsAllowed now es = (run-IsAllowed es (init p now) standstill-IsAllowed).1
