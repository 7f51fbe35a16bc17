-- ===== src/UnitreeBridge/Safety.antt =====
-- What the Unitree bridge guarantees, whatever messages arrive in whatever order.
use navigation.Prelude.{
  ◌≡◌, ◌≢◌, refl, sym, ◌∙◌, ◌⊎◌, inl, inr, Bool, true, false, List, [], ◌∷◌, All, arith, Bool-cases,
}
use mathlib.Core.Path.{subst}
use navigation.Float.{Float, IsOrdered, ◌⊖◌, ◌≼◌, less, nought}
use navigation.Velocity.{Velocity, Smoother, standstill, smooth}
use navigation.Velocity.Slew.{
  IsCapped, clip-IsCapped, nought-IsCapped, IsSlewed, IsSlewable, slewable, smooth-IsSlewed,
  smooth-cfg,
}
use navigation.UnitreeBridge.{
  Params, Bridge, Command, set_velocity, set_fsm_id, Event, twist, estop_msg, tick, init, on_twist,
  on_estop, on_tick, handle,
}

module _ {F : Type 0} ⦃f : Float F⦄ where
  abbrev pub IsStop : Command F → Type 0
  IsStop (set_velocity v d) = v ≡ standstill
  IsStop (set_fsm_id n) = ⊥

  -- Any event but a message that releases the e-stop.
  abbrev pub IsNoRelease : Event F → Type 0
  IsNoRelease (twist now v) = Unit
  IsNoRelease (estop_msg now engaged) = engaged ≡ true
  IsNoRelease (tick now later) = Unit

  module _ (p : Params F) where
    pub handle_held :
        (e : Event F) (b : Bridge F)
        → b.estop ≡ true
        → IsNoRelease e
        → ((handle p e b).0.estop ≡ true) × All IsStop (handle p e b).1
    unfolding handle on_twist on_estop on_tick
    handle_held (twist now v) b h n = (h, tt)
    handle_held (estop_msg now engaged) b h n = ground arith
    handle_held (tick now later) b h n = rw h (refl, (refl, tt))

    -- A tick sends a velocity other than zero only while the e-stop is released and the last command
    -- is not older than the timeout.
    pub moves_only_if_live :
        (now later : F) (b : Bridge F) (v : Velocity F) (d : F)
        → (on_tick p now later b).1 ≡ set_velocity v d ∷ []
        → v ≢ standstill
        → (b.estop ≡ false) × (less p.cmd_timeout (now ⊖ b.last_cmd_t) ≡ false)
    unfolding on_tick
    moves_only_if_live now later b v d e moving = ground arith

    module _ (laws : IsOrdered F) where
      -- The caps are not negative, and neither are the slew limits.
      pub record IsSane : Type 0 where
        pub cap_x : nought ≼ p.vmax.vx
        pub cap_y : nought ≼ p.vmax.vy
        pub cap_wz : nought ≼ p.vmax.wz
        pub lin : nought ≼ p.smoothing.lin_accel_max
        pub yaw : nought ≼ p.smoothing.yaw_accel_max

      pub record IsValid (b : Bridge F) : Type 0 where
        pub capped_x : IsCapped p.vmax.vx b.cmd.vx
        pub capped_y : IsCapped p.vmax.vy b.cmd.vy
        pub capped_wz : IsCapped p.vmax.wz b.cmd.wz
        pub configured : b.smoother.cfg ≡ p.smoothing
        pub halted : b.estop ≡ true → b.smoother.sent ≡ standstill

      -- What a handler may send after `prev`, when it leaves `next` as the last velocity sent.
      abbrev pub Sends : F → Velocity F → Velocity F → List (Command F) → Type 0
      Sends dt prev next [] = next ≡ prev
      Sends dt prev next (set_velocity v d ∷ []) =
          (next ≡ v) × ((v ≡ standstill) ⊎ IsSlewed laws p.smoothing dt prev v)
      Sends dt prev next _ = ⊥

      -- The time that a tick takes for the last interval.
      abbrev pub interval : Event F → Bridge F → F
      interval (tick now later) b = now ⊖ b.last_tick_t
      interval e b = nought

      module _ (sane : IsSane) where
        pub init-IsValid : (now : F) → IsValid (init p now)
        unfolding init
        init-IsValid now = record {
          capped_x = nought-IsCapped laws p.vmax.vx sane.cap_x;
          capped_y = nought-IsCapped laws p.vmax.vy sane.cap_y;
          capped_wz = nought-IsCapped laws p.vmax.wz sane.cap_wz;
          configured = refl;
          halted = λ e. refl;
        }

        on_twist-IsValid :
            (now : F) (v : Velocity F) (b : Bridge F) → IsValid b → IsValid (on_twist p now v b)
        unfolding on_twist
        on_twist-IsValid now v b i = record {
          capped_x = clip-IsCapped laws v.vx p.vmax.vx sane.cap_x;
          capped_y = clip-IsCapped laws v.vy p.vmax.vy sane.cap_y;
          capped_wz = clip-IsCapped laws v.wz p.vmax.wz sane.cap_wz;
          configured = i.configured;
          halted = i.halted;
        }

        -- A state that stores the same command.
        kept-IsValid :
            (b : Bridge F) (s : Smoother F) (engaged : Bool) (t : F)
            → IsValid b
            → s.cfg ≡ p.smoothing
            → (engaged ≡ true → s.sent ≡ standstill)
            → IsValid (record b { smoother = s; estop = engaged; last_tick_t = t })
        kept-IsValid b s engaged t i c h = record {
          capped_x = i.capped_x;
          capped_y = i.capped_y;
          capped_wz = i.capped_wz;
          configured = c;
          halted = h;
        }

        -- A state that stands still and stores the zero command.
        stopped-IsValid :
            (b : Bridge F)
            → b.cmd ≡ standstill
            → b.smoother.cfg ≡ p.smoothing
            → b.smoother.sent ≡ standstill
            → IsValid b
        stopped-IsValid b e c s = record {
          capped_x = rw e (nought-IsCapped laws p.vmax.vx sane.cap_x);
          capped_y = rw e (nought-IsCapped laws p.vmax.vy sane.cap_y);
          capped_wz = rw e (nought-IsCapped laws p.vmax.wz sane.cap_wz);
          configured = c;
          halted = λ _. s;
        }

        on_estop-IsValid :
            (now : F) (engaged : Bool) (b : Bridge F)
            → IsValid b
            → let (b', sent) = on_estop p now engaged b in
              IsValid b' × Sends nought b.smoother.sent b'.smoother.sent sent
        unfolding on_estop
        on_estop-IsValid now true b i = elim (Bool-cases b.estop) [
          | inl on ↦
              rw on (
                kept-IsValid b b.smoother true b.last_tick_t i i.configured (λ _. i.halted on),
                refl,
              )
          | inr off ↦ rw off (stopped-IsValid _ refl i.configured refl, (refl, inl refl))
        ]
        on_estop-IsValid now false b i = elim (Bool-cases b.estop) [
          | inr off ↦
              rw off (kept-IsValid b b.smoother false b.last_tick_t i i.configured (λ e. cc), refl)
          | inl on ↦
              rw on (kept-IsValid b b.smoother false b.last_tick_t i i.configured (λ e. cc), refl)
        ]

        abbrev smoothed : F → F → Bridge F → Smoother F
        smoothed now later b = smooth later b.cmd (now ⊖ b.last_tick_t) b.smoother

        slewed :
            (now later : F) (b : Bridge F)
            → IsValid b
            → IsSlewed laws p.smoothing
                (now ⊖ b.last_tick_t)
                b.smoother.sent
                (smoothed now later b).sent
        slewed now later b i =
            let dt = now ⊖ b.last_tick_t in
            subst (λ c. IsSlewed laws c dt b.smoother.sent (smoothed now later b).sent) i.configured
              (smooth-IsSlewed laws later b.cmd dt b.smoother (
                subst (λ c. IsSlewable laws c dt) (sym i.configured)
                  (slewable laws p.smoothing sane.lin sane.yaw dt)))

        on_tick-IsValid :
            (now later : F) (b : Bridge F)
            → IsValid b
            → let (b', sent) = on_tick p now later b in
              IsValid b' × Sends (now ⊖ b.last_tick_t) b.smoother.sent b'.smoother.sent sent
        unfolding on_tick
        on_tick-IsValid now later b i = elim (Bool-cases b.estop) [
          | inl on ↦ rw on (
            kept-IsValid b b.smoother true now i i.configured (λ _. i.halted on),
            (i.halted on, inl refl),
          )
          | inr off ↦ elim (Bool-cases (less p.cmd_timeout (now ⊖ b.last_cmd_t))) [
            | inl stale ↦
                rw (off, stale) (stopped-IsValid _ refl i.configured refl, (refl, inl refl))
            | inr fresh ↦
                rw (off, fresh)
                  (
                    kept-IsValid b (smoothed now later b) false now i
                        (smooth-cfg later b.cmd (now ⊖ b.last_tick_t) b.smoother ∙ i.configured)
                        (λ e. cc),
                    (refl, inr (slewed now later b i)),
                  )
          ]
        ]

        -- Every event leaves the stored command within its caps; and each velocity that goes to the
        -- robot is zero, or differs from the one sent before it by no more than the slew limits allow
        -- for the time since the last tick.
        pub handle-IsValid :
            (e : Event F) (b : Bridge F)
            → IsValid b
            → let (b', sent) = handle p e b in
              IsValid b' × Sends (interval e b) b.smoother.sent b'.smoother.sent sent
        unfolding handle on_twist
        handle-IsValid (twist now v) b i = (on_twist-IsValid now v b i, refl)
        handle-IsValid (estop_msg now engaged) b i = on_estop-IsValid now engaged b i
        handle-IsValid (tick now later) b i = on_tick-IsValid now later b i
