-- ===== src/Host/Frames/Wanted.antt =====
-- A frame that is wanted stays wanted until a pulse is taken or the platform refuses it.
use dui.Host.{
  SurfaceState, PointerPhase, UiTask, HostWindow, Posts, is_available, arm_frame_locked,
  invalidate_frame_locked, post_ui, complete_platform_shutdown, schedule_platform_shutdown, close,
  stop, shutdown, post_frame_control, take_exhausted, control_or_shutdown,
}
use dui.Base.{
  if_holds_when, if_holds, bool_eq, ℕ, ◌+◌, ◌≡◌, refl, sym, subst, Bool, true, false, ◌&&◌, ◌||◌,
  not, Option, none, some, List, arith, ◌==◌, if◌then◌else◌, u64_max,
}
use dui.Host.Driver.{
  request_frame, set_metrics, hide_or_show, set_visible, set_focused, same_surface, is_out_of_date,
  set_surface_state, next_pointers, send_pointer, send_key, reset_binding,
}
use dui.Host.Frames.Calls.{posted}
use dui.Host.Frames.Histories.{
  Event, requests, shuts, ui_task, resizes, shows, focuses, pulses, surfaces, points, keys, binds,
  unbinds, platform_task, perform,
}

-- The window has stopped, or wants a frame.
pub record Wants (s : HostWindow) : Type 0 where
  pub wanted : s.running ≡ true → s.frame_demand ≡ true

schedule-Wants : (p : Posts) (s : HostWindow) → Wants s → Wants (schedule_platform_shutdown p s)
unfolding schedule_platform_shutdown complete_platform_shutdown
schedule-Wants p s h = record { wanted = ground (arith, h.wanted) }

close-Wants : (p : Posts) (g : ℕ) (s : HostWindow) → Wants s → Wants (close p g s)
unfolding close
close-Wants p g s h = schedule-Wants p _ (record { wanted = ground (arith, h.wanted) })

stop-Wants : (s : HostWindow) → Wants (stop s)
unfolding stop
stop-Wants s = record { wanted = ground arith }

shutdown-Wants : (p : Posts) (s : HostWindow) → Wants (shutdown p s)
unfolding shutdown post_ui
shutdown-Wants p s =
    if_holds_when Wants (not s.running)
      (λ stopped.
        let h : Wants s = record { wanted = ground (arith, stopped) } in
        if_holds Wants (not s.shutdown_ui_pending && not s.platform_shutdown_complete)
          (schedule-Wants p s h) h)
      (λ runs.
        if_holds Wants p.closing_ui (record { wanted = (stop-Wants s).wanted })
          (close-Wants p s.delegate_generation (stop s) (stop-Wants s)))

arm-Wants : (s : HostWindow) → Wants s → Wants (arm_frame_locked s).1
unfolding arm_frame_locked
arm-Wants s h = record { wanted = ground (arith, h.wanted) }

invalidate-Wants : (s : HostWindow) → Wants s → Wants (invalidate_frame_locked s)
unfolding invalidate_frame_locked
invalidate-Wants s h = record { wanted = ground (arith, h.wanted) }

control_or_shutdown-Wants :
    (p : Posts) (cancels : Bool) (generation : Option ℕ) (s : HostWindow)
    → Wants s
    → Wants (control_or_shutdown p cancels generation s)
unfolding control_or_shutdown take_exhausted
control_or_shutdown-Wants p cancels generation s h =
    let r = posted p cancels generation s in
    let q = post_frame_control p cancels generation s in
    let k : Wants q.1 =
      subst (λ (x : Bool × HostWindow). Wants x.1) (sym r.2) (record { wanted = h.wanted }) in
    if_holds Wants (not q.0) (shutdown-Wants p q.1) (
      if_holds Wants q.1.frame_generation_exhausted (shutdown-Wants p (take_exhausted q.1).1)
        (record { wanted = k.wanted }))

request_frame-Wants : (p : Posts) (s : HostWindow) → Wants s → Wants (request_frame p s).1
unfolding request_frame take_exhausted
request_frame-Wants p s h =
    let t = record s { frame_demand = true } in
    let a = arm_frame_locked t in
    let armed = arm-Wants t (record { wanted = λ r. refl }) in
    let e = record a.1 { frame_generation_exhausted = false } in
    let r = posted p false a.0 e in
    let c = post_frame_control p false a.0 e in
    if_holds After (not s.running) h (
      if_holds After a.1.frame_generation_exhausted (shutdown-Wants p e) (
        if_holds After c.0
          (subst (λ (q : Bool × HostWindow). Wants q.1) (sym r.2)
            (record { wanted = armed.wanted }))
          (shutdown-Wants p c.1)))
  where
    After : Bool × HostWindow → Type 0
    After q = Wants q.1

set_metrics-Wants :
    (p : Posts) (same valid : Bool) (size : ℕ) (s : HostWindow)
    → Wants s
    → Wants (set_metrics p same valid size s)
unfolding set_metrics post_ui
set_metrics-Wants p same valid size s h =
    let i = invalidate_frame_locked s in
    let t = record i { metrics = size; metrics_generation = s.metrics_generation + 1 } in
    let k = arm-Wants t (record { wanted = (invalidate-Wants s h).wanted }) in
    if_holds Wants (not s.running || same) h (
      if_holds Wants (s.metrics_generation == u64_max || not valid) h (
        if_holds Wants p.to_ui
          (control_or_shutdown-Wants p s.frame_armed _ _ (record { wanted = k.wanted }))
          (shutdown-Wants p (arm_frame_locked t).1)))

hide_or_show-Wants : (visible : Bool) (s : HostWindow) → Wants s → Wants (hide_or_show visible s).1
unfolding hide_or_show
hide_or_show-Wants true s h = arm-Wants _ (record { wanted = h.wanted })
hide_or_show-Wants false s h = invalidate-Wants _ (record { wanted = h.wanted })

set_visible-Wants :
    (p : Posts) (visible : Bool) (s : HostWindow) → Wants s → Wants (set_visible p visible s)
unfolding set_visible post_ui
set_visible-Wants p visible s h =
    let r = hide_or_show visible s in
    if_holds Wants (not s.running || bool_eq s.visible visible) h (
      if_holds Wants p.to_ui
        (control_or_shutdown-Wants p (not visible && s.frame_armed) r.0 _
          (record { wanted = (hide_or_show-Wants visible s h).wanted }))
        (shutdown-Wants p _))

set_focused-Wants :
    (p : Posts) (focused : Bool) (s : HostWindow) → Wants s → Wants (set_focused p focused s)
unfolding set_focused post_ui
set_focused-Wants p focused s h = if_holds Wants (not s.running || bool_eq s.focused focused) h (
    if_holds Wants (focused && not s.visible) h
      (if_holds Wants p.to_ui (record { wanted = h.wanted }) (shutdown-Wants p _)))

set_surface_state-Wants :
    (p : Posts) (surface : SurfaceState) (s : HostWindow)
    → Wants s
    → Wants (set_surface_state p surface s)
unfolding set_surface_state post_ui
set_surface_state-Wants p surface s h =
    let renewed = is_out_of_date surface || is_available surface in
    let generation = if renewed then s.metrics_generation + 1 else s.metrics_generation in
    let t = record s { surface_state = surface; metrics_generation = generation } in
    let r =
      if is_available surface then arm_frame_locked t else (none, invalidate_frame_locked t) in
    let k : Wants r.1 =
      if_holds (λ (r : Option ℕ × HostWindow). Wants r.1) (is_available surface)
        (arm-Wants t (record { wanted = h.wanted }))
        (invalidate-Wants t (record { wanted = h.wanted })) in
    if_holds Wants (not s.running || same_surface s.surface_state surface) h (
      if_holds Wants (renewed && (s.metrics_generation == u64_max)) (shutdown-Wants p s) (
        if_holds Wants p.to_ui
          (control_or_shutdown-Wants p (not (is_available surface) && s.frame_armed) r.0 _
            (record { wanted = k.wanted }))
          (shutdown-Wants p r.1)))

send_key-Wants :
    (p : Posts) (valid : Bool) (key : ℕ) (s : HostWindow) → Wants s → Wants (send_key p valid key s)
unfolding send_key post_ui
send_key-Wants p valid key s h =
    if_holds Wants (not s.running || not s.visible || not valid) h
      (if_holds Wants p.to_ui (record { wanted = h.wanted }) (shutdown-Wants p s))

delivered-Wants :
    (p : Posts) (task : UiTask) (active : Option (List ℕ)) (s : HostWindow)
    → Wants s
    → Wants (elim active [
      | none ↦ s
      | some pointers ↦
          if p.to_ui then post_ui task (record s { active_pointers = pointers }) else shutdown p s
    ])
unfolding post_ui
delivered-Wants p task none s h = h
delivered-Wants p task (some pointers) s h =
    if_holds Wants p.to_ui (record { wanted = h.wanted }) (shutdown-Wants p s)

send_pointer-Wants :
    (p : Posts) (finite : Bool) (pointer : ℕ) (phase : PointerPhase) (s : HostWindow)
    → Wants s
    → Wants (send_pointer p finite pointer phase s)
unfolding send_pointer
send_pointer-Wants p finite pointer phase s h =
    if_holds Wants (not s.running || not s.visible || not finite) h
      (delivered-Wants p _ (next_pointers phase pointer s.active_pointers) s h)

-- What asks for a frame or may put one off: all calls but those that may take or refuse a frame.
unfoldable pub puts_off : Event → Bool
puts_off (requests p) = true
puts_off (shuts p) = true
puts_off (resizes p same valid size) = true
puts_off (shows p visible) = true
puts_off (focuses p focused) = true
puts_off (surfaces p surface) = true
puts_off (points p finite pointer phase) = true
puts_off (keys p valid key) = true
puts_off (unbinds generation) = true
puts_off (binds p) = false
puts_off (ui_task p) = false
puts_off (pulses p timestamp generation) = false
puts_off (platform_task throws) = false

reset_binding-Wants :
    (generation : ℕ) (s : HostWindow) → Wants s → Wants (reset_binding generation s)
unfolding reset_binding
reset_binding-Wants generation s h = record { wanted = ground (arith, h.wanted) }

-- A frame that a running window wants is still wanted, unless the window has stopped, after a call
-- that asks for a frame, hides or shows the window, changes its focus, its size or its surface,
-- brings an event, shuts it down or lets the delegate go, whichever posts fail.
pub perform-Wants :
    (event : Event) (s : HostWindow)
    → puts_off event ≡ true
    → s.frame_demand ≡ true
    → (perform event s).running ≡ true
    → (perform event s).frame_demand ≡ true
unfolding perform puts_off
perform-Wants (requests p) s e d = (request_frame-Wants p s (record { wanted = λ r. d })).wanted
perform-Wants (shuts p) s e d = (shutdown-Wants p s).wanted
perform-Wants (resizes p same valid size) s e d =
    (set_metrics-Wants p same valid size s (record { wanted = λ r. d })).wanted
perform-Wants (shows p visible) s e d =
    (set_visible-Wants p visible s (record { wanted = λ r. d })).wanted
perform-Wants (focuses p focused) s e d =
    (set_focused-Wants p focused s (record { wanted = λ r. d })).wanted
perform-Wants (surfaces p surface) s e d =
    (set_surface_state-Wants p surface s (record { wanted = λ r. d })).wanted
perform-Wants (points p finite pointer phase) s e d =
    (send_pointer-Wants p finite pointer phase s (record { wanted = λ r. d })).wanted
perform-Wants (keys p valid key) s e d =
    (send_key-Wants p valid key s (record { wanted = λ r. d })).wanted
perform-Wants (unbinds generation) s e d =
    (reset_binding-Wants generation s (record { wanted = λ r. d })).wanted
perform-Wants (binds p) s e d = absurd (ground (arith, e))
perform-Wants (ui_task p) s e d = absurd (ground (arith, e))
perform-Wants (pulses p timestamp generation) s e d = absurd (ground (arith, e))
perform-Wants (platform_task throws) s e d = absurd (ground (arith, e))
