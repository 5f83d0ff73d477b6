-- ===== src/Agent/Session/Idle.antt =====
-- `livenessLoop` of cmd/agent/desktop.go: when a silent controller is let go.
use runeverything.Agent.Session.Run.{Event, ticks, step, run}
use runeverything.Agent.Session.{
  Agent, forget_session, clear_udp_direct, cancel_udp_session_stale, close_desktop, release_peer,
  live_checked, live_since, liveness_tick, desk_liveness_timeout,
}
use runeverything.Base.Float64.{Float64}
use mathlib.Core.Path.{subst}
use runeverything.Base.{
  ℕ, ◌+◌, ◌-◌, ◌≤◌, ◌<◌, ◌≡◌, refl, sym, ap, ◌∙◌, ◌⊎◌, inl, inr, true, false, not, ◌&&◌, Option,
  none, some, List, [], ◌∷◌, ◌++◌, arith, ltb, ◌==◌, Bool-cases, length, is_some, All,
}

module _ {S V F : Type 0} ⦃fl : Float64 F⦄ where
  -- The times at which the loop looks.
  unfoldable pub tick_events : List ℕ → List (Event S V F)
  tick_events [] = []
  tick_events (now ∷ times) = ticks now ∷ tick_events times

  -- The controller is let go, its desktop with it.
  abbrev pub IsReleased : Agent S V F → Type 0
  IsReleased b =
      (b.re2_sess ≡ none) × (b.use_udp ≡ false) × (b.desk_sid ≡ []) × (b.last_activity ≡ none)

  -- Still silent since `t`: let go, or as it was but for the desktop.
  data Waits (t : ℕ) (a b : Agent S V F) : Type 0 where
    gone : IsReleased b → Waits t a b
    waits :
        b.last_activity ≡ some t
        → b.re2_sess ≡ a.re2_sess
        → b.session_idle ≡ a.session_idle
        → Waits t a b

  live_since_released :
      (now : ℕ) (o : Option ℕ) (b : Agent S V F) → o ≡ none → live_since now o b ≡ b
  unfolding live_since
  live_since_released now o b e = rw e

  release_peer-IsReleased : (b : Agent S V F) → IsReleased (release_peer b)
  unfolding release_peer forget_session clear_udp_direct cancel_udp_session_stale close_desktop
  release_peer-IsReleased b = (refl, refl, refl, refl)

  live_checked-Waits :
      (t now : ℕ) (a b : Agent S V F)
      → b.last_activity ≡ some t
      → b.re2_sess ≡ a.re2_sess
      → b.session_idle ≡ a.session_idle
      → Waits t a (live_checked (now - t) b)
  unfolding live_checked close_desktop
  live_checked-Waits t now a b last sess idle =
      elim (Bool-cases
        (is_some b.re2_sess && ltb 0 b.session_idle && ltb b.session_idle (now - t))) [
          | inl over ↦ rw over (gone (release_peer-IsReleased b))
          | inr not_over ↦
              elim (Bool-cases
                (not (length b.desk_sid == 0) && ltb desk_liveness_timeout (now - t))) [
                  | inl quiet ↦ rw (not_over, quiet) (waits last sess idle)
                  | inr heard ↦ rw (not_over, heard) (waits last sess idle)
                ]
        ]

  tick-Waits : (t now : ℕ) (a b : Agent S V F) → Waits t a b → Waits t a (liveness_tick now b)
  unfolding liveness_tick live_since
  tick-Waits t now a b (gone h) = rw (live_since_released now b.last_activity b h.3) (gone h)
  tick-Waits t now a b (waits last sess idle) =
      subst (λ o. Waits t a (live_since now o b)) (sym last)
        (live_checked-Waits t now a b last sess idle)

  ticks-Waits :
      (times : List ℕ) (t : ℕ) (a b : Agent S V F)
      → Waits t a b
      → Waits t a (run (tick_events times) b)
  unfolding run tick_events step
  ticks-Waits [] t a b w = w
  ticks-Waits (now ∷ times) t a b w =
      ticks-Waits times t a (liveness_tick now b) (tick-Waits t now a b w)

  -- The first look after the time is over.
  late_checked :
      (t now : ℕ) (b : Agent S V F)
      → is_some b.re2_sess ≡ true
      → 0 < b.session_idle
      → t + b.session_idle < now
      → IsReleased (live_checked (now - t) b)
  unfolding live_checked
  late_checked t now b sess timed late =
      let over : (is_some b.re2_sess && ltb 0 b.session_idle && ltb b.session_idle (now - t))
          ≡ true =
        ground arith in
      rw over (release_peer-IsReleased b)

  late_tick :
      (t now : ℕ) (a b : Agent S V F)
      → is_some a.re2_sess ≡ true
      → 0 < a.session_idle
      → t + a.session_idle < now
      → Waits t a b
      → IsReleased (liveness_tick now b)
  unfolding liveness_tick live_since
  late_tick t now a b sess timed late (gone h) =
      rw (live_since_released now b.last_activity b h.3) h
  late_tick t now a b sess timed late (waits last same idle) =
      subst (λ o. IsReleased (live_since now o b)) (sym last)
        (late_checked t now b (rw same sess) (rw idle timed) (rw idle late))

  run-ticks :
      (times : List ℕ) (now : ℕ) (b : Agent S V F)
      → run (tick_events (times ++ (now ∷ []))) b ≡ liveness_tick now (run (tick_events times) b)
  unfolding run tick_events step
  run-ticks [] now b = refl
  run-ticks (x ∷ times) now b = run-ticks times now (liveness_tick x b)

  early_checked :
      (t now : ℕ) (b : Agent S V F)
      → now ≤ t + b.session_idle
      → now ≤ t + desk_liveness_timeout
      → live_checked (now - t) b ≡ b
  unfolding live_checked
  early_checked t now b soon soon' =
      let not_over : (is_some b.re2_sess && ltb 0 b.session_idle && ltb b.session_idle (now - t))
          ≡ false =
        ground arith in
      let heard : (not (length b.desk_sid == 0) && ltb desk_liveness_timeout (now - t)) ≡ false =
        ground arith in
      rw (not_over, heard)

  early_ticks :
      (times : List ℕ) (t : ℕ) (a : Agent S V F)
      → a.last_activity ≡ some t
      → All (λ now. (now ≤ t + a.session_idle) × (now ≤ t + desk_liveness_timeout)) times
      → run (tick_events times) a ≡ a
  unfolding run tick_events step liveness_tick live_since
  early_ticks [] t a last h = refl
  early_ticks (now ∷ times) t a last h =
      let same : live_since now a.last_activity a ≡ a =
        subst (λ o. live_since now o a ≡ a) (sym last) (early_checked t now a h.0.0 h.0.1) in
      ap (run (tick_events times)) same ∙ early_ticks times t a last h.1

  -- Within the idle time at most the desktop goes.
  in_time_checked :
      (t now : ℕ) (b : Agent S V F)
      → now ≤ t + b.session_idle
      → (live_checked (now - t) b ≡ b) ⊎ (live_checked (now - t) b ≡ close_desktop b)
  unfolding live_checked
  in_time_checked t now b soon =
      let not_over : (is_some b.re2_sess && ltb 0 b.session_idle && ltb b.session_idle (now - t))
          ≡ false =
        ground arith in
      elim (Bool-cases (not (length b.desk_sid == 0) && ltb desk_liveness_timeout (now - t))) [
        | inl quiet ↦ inr (rw (not_over, quiet))
        | inr heard ↦ inl (rw (not_over, heard))
      ]

  in_time_ticks :
      (times : List ℕ) (t : ℕ) (a b : Agent S V F)
      → a.last_activity ≡ some t
      → All (λ now. now ≤ t + a.session_idle) times
      → (b ≡ a) ⊎ (b ≡ close_desktop a)
      → (run (tick_events times) b ≡ a) ⊎ (run (tick_events times) b ≡ close_desktop a)
  unfolding run tick_events step liveness_tick live_since close_desktop
  in_time_ticks [] t a b last h e = e
  in_time_ticks (now ∷ times) t a b last h (inl same) =
      let looked = in_time_checked t now a h.0 in
      let one : live_since now b.last_activity b ≡ live_checked (now - t) a =
        rw (same, last) refl in
      in_time_ticks times t a (live_since now b.last_activity b) last h.1
        (elim looked [ inl kept ↦ inl (one ∙ kept) | inr closed ↦ inr (one ∙ closed) ])
  in_time_ticks (now ∷ times) t a b last h (inr same) =
      let looked = in_time_checked t now (close_desktop a) h.0 in
      let one : live_since now b.last_activity b ≡ live_checked (now - t) (close_desktop a) =
        rw (same, last) refl in
      in_time_ticks times t a (live_since now b.last_activity b) last h.1
        (elim looked [ inl kept ↦ inr (one ∙ kept) | inr closed ↦ inr (one ∙ closed) ])

  -- A controller that was last heard at `t`, where the idle time is set: looks within the idle time
  -- and 15 s of `t` change nothing, looks within the idle time at most close the desktop; and after a
  -- look later than the idle time, whatever looks went before, its session, its plane and its desktop
  -- are gone.
  pub silent-IsReleased :
      (t : ℕ) (a : Agent S V F)
      → a.last_activity ≡ some t
      → is_some a.re2_sess ≡ true
      → 0 < a.session_idle
      → ((times : List ℕ)
          → All (λ now. (now ≤ t + a.session_idle) × (now ≤ t + desk_liveness_timeout)) times
          → run (tick_events times) a ≡ a)
        × ((times : List ℕ)
            → All (λ now. now ≤ t + a.session_idle) times
            → (run (tick_events times) a ≡ a) ⊎ (run (tick_events times) a ≡ close_desktop a))
        × ((times : List ℕ) (now : ℕ)
            → t + a.session_idle < now
            → IsReleased (run (tick_events (times ++ (now ∷ []))) a))
  silent-IsReleased t a last sess timed = (
    λ times. early_ticks times t a last,
    λ times h. in_time_ticks times t a a last h (inl refl),
    λ times now late. rw (run-ticks times now a) (
        late_tick t now a (run (tick_events times) a) sess timed late
          (ticks-Waits times t a a (waits last refl refl))),
  )
