-- ===== src/Host/Frames/Tasks.antt =====
-- The frame's pulse, the surface, the events and the tasks keep what holds of the frames.
use dui.Host.{
  SurfaceState, PointerPhase, UiTask, frame, HostWindow, Posts, is_available, can_frame,
  arm_frame_locked, invalidate_frame_locked, post_ui, shutdown,
}
use dui.Base.{
  if_holds_when, if_holds, ℕ, ◌+◌, ◌<◌, ◌≡◌, refl, Bool, true, false, ◌&&◌, ◌||◌, not, Option, none,
  some, List, [], ◌∷◌, arith, ◌==◌, if◌then◌else◌, u64_max, length,
}
use dui.Base.Int.{ℤ, pos, negsuc}
use dui.Host.Frames.{frame_tasks, frame_tasks-append, Loose, Ready, Served, Steady}
use dui.Host.Frames.Calls.{
  arm-Ready, arm-Served, invalidate-Ready, post_ui-Ready, post_ui-Steady, post_ui-Served,
  post_ui-exhausted, shutdown_running-Steady, shutdown-Steady, control_or_shutdown-Steady,
}
use dui.Host.Driver.{
  is_earlier, deliver_frame, frame_pulse, same_surface, is_out_of_date, set_surface_state,
  next_pointers, send_pointer, send_key,
}

deliver_frame-Steady :
    (p : Posts) (timestamp : ℕ) (s : HostWindow)
    → s.running ≡ true
    → s.frame_armed ≡ true
    → Steady s
    → Steady (deliver_frame p timestamp s)
unfolding deliver_frame frame_tasks can_frame post_ui
deliver_frame-Steady p timestamp s r a h =
    let u = record s {
      frame_armed = false;
      frame_delivering = true;
      frame_demand = false;
      last_frame_timestamp = some timestamp;
      next_frame_sequence = s.next_frame_sequence + 1;
    } in
    let none_queued : frame_tasks s.ui ≡ 0 =
      ground (arith, r, a, h.ready.armed_alone, h.ready.task_delivers) in
    let task = frame s.delegate_generation s.next_frame_sequence timestamp s.metrics_generation in
    if_holds Steady (is_earlier timestamp s.last_frame_timestamp) h (
      if_holds Steady (s.next_frame_sequence == u64_max)
        (shutdown_running-Steady p _ r (record {
          one_task = h.ready.loose.one_task;
          bounded = h.ready.loose.bounded;
          focus_shown = h.ready.loose.focus_shown;
        }))
        (if_holds Steady p.to_ui
          (record {
            ready = record {
              loose = record {
                one_task = omega (arith, none_queued, frame_tasks-append s.ui (task ∷ []));
                bounded = h.ready.loose.bounded;
                focus_shown = h.ready.loose.focus_shown;
              };
              armed_shown = ground arith;
              armed_wanted = ground arith;
              armed_alone = ground arith;
              task_delivers = λ q. omega (arith, none_queued, frame_tasks-append s.ui (task ∷ []));
              pointers_shown = h.ready.pointers_shown;
            };
            served = ground arith;
          })
          (shutdown_running-Steady p u r (record {
            one_task = h.ready.loose.one_task;
            bounded = h.ready.loose.bounded;
            focus_shown = h.ready.loose.focus_shown;
          }))))

pub frame_pulse-Steady :
    (p : Posts) (timestamp : ℤ) (generation : ℕ) (s : HostWindow)
    → Steady s
    → Steady (frame_pulse p timestamp generation s)
unfolding frame_pulse
frame_pulse-Steady p (negsuc n) generation s h = if_holds Steady _ h h
frame_pulse-Steady p (pos n) generation s h =
    if_holds_when Steady
      (s.running
        && s.frame_armed
        && (s.frame_generation == generation)
        && s.visible
        && is_available s.surface_state)
      (λ due. deliver_frame-Steady p n s (ground (arith, due)) (ground (arith, due)) h) (λ stale. h)

-- Where nothing can be shown no frame is forgotten.
hidden-Served :
    (t : HostWindow) → is_available t.surface_state ≡ false → Served (invalidate_frame_locked t)
unfolding invalidate_frame_locked can_frame
hidden-Served t hidden = ground (arith, hidden)

-- The surface's new state, with the frame that it may allow.
surface_Ready :
    (surface : SurfaceState) (generation : ℕ) (s : HostWindow)
    → Ready s
    → let t = record s { surface_state = surface; metrics_generation = generation } in
      let r =
        if is_available surface then arm_frame_locked t else (none, invalidate_frame_locked t) in
      Ready r.1 × (r.1.frame_generation_exhausted ≡ false → Served r.1)
unfolding can_frame
surface_Ready surface generation s h =
    let t = record s { surface_state = surface; metrics_generation = generation } in
    let loose : Loose t = record {
      one_task = h.loose.one_task;
      bounded = h.loose.bounded;
      focus_shown = h.loose.focus_shown;
    } in
    if_holds_when
      (λ (r : Option ℕ × HostWindow).
        Ready r.1 × (r.1.frame_generation_exhausted ≡ false → Served r.1))
      (is_available surface)
      (λ shown. (
        arm-Ready t (record {
          loose = loose;
          armed_shown = λ a. ground (arith, h.armed_shown a, shown);
          armed_wanted = h.armed_wanted;
          armed_alone = h.armed_alone;
          task_delivers = h.task_delivers;
          pointers_shown = h.pointers_shown;
        }),
        arm-Served t,
      ))
      (λ hidden.
        (invalidate-Ready t loose h.task_delivers h.pointers_shown, λ e. hidden-Served t hidden))

pub set_surface_state-Steady :
    (p : Posts) (surface : SurfaceState) (s : HostWindow)
    → Steady s
    → Steady (set_surface_state p surface s)
unfolding set_surface_state frame_tasks
set_surface_state-Steady p surface s h =
    let renewed = is_out_of_date surface || is_available surface in
    let generation = if renewed then s.metrics_generation + 1 else s.metrics_generation in
    let t = record s { surface_state = surface; metrics_generation = generation } in
    let r =
      if is_available surface then arm_frame_locked t else (none, invalidate_frame_locked t) in
    let k = surface_Ready surface generation s h.ready in
    if_holds Steady (not s.running || same_surface s.surface_state surface) h (
      if_holds Steady (renewed && (s.metrics_generation == u64_max)) (shutdown-Steady p s h.ready) (
        if_holds Steady p.to_ui
          (control_or_shutdown-Steady p (not (is_available surface) && s.frame_armed) r.0
            (post_ui _ r.1) (post_ui-Ready _ r.1 refl k.0)
            (λ e. post_ui-Served _ r.1 (k.1 (post_ui-exhausted _ r.1 e))))
          (shutdown-Steady p r.1 k.0)))

pub send_key-Steady :
    (p : Posts) (valid : Bool) (key : ℕ) (s : HostWindow)
    → Steady s
    → Steady (send_key p valid key s)
unfolding send_key frame_tasks
send_key-Steady p valid key s h =
    if_holds Steady (not s.running || not s.visible || not valid) h
      (if_holds Steady p.to_ui (post_ui-Steady _ s refl h) (shutdown-Steady p s h.ready))

-- The pointers of a window that is shown may change.
pub pointers-Steady :
    (pointers : List ℕ) (s : HostWindow)
    → (0 < length pointers → (s.running ≡ true) × (s.visible ≡ true))
    → Steady s
    → Steady (record s { active_pointers = pointers })
unfolding can_frame
pointers-Steady pointers s shown h = record {
  ready = record {
    loose = record {
      one_task = h.ready.loose.one_task;
      bounded = h.ready.loose.bounded;
      focus_shown = h.ready.loose.focus_shown;
    };
    armed_shown = h.ready.armed_shown;
    armed_wanted = h.ready.armed_wanted;
    armed_alone = h.ready.armed_alone;
    task_delivers = h.ready.task_delivers;
    pointers_shown = shown;
  };
  served = h.served;
}

delivered-Steady :
    (p : Posts) (task : UiTask) (active : Option (List ℕ)) (s : HostWindow)
    → frame_tasks (task ∷ []) ≡ 0
    → s.running ≡ true
    → s.visible ≡ true
    → Steady s
    → Steady (elim active [
      | none ↦ s
      | some pointers ↦
          if p.to_ui then post_ui task (record s { active_pointers = pointers }) else shutdown p s
    ])
delivered-Steady p task none s e r v h = h
delivered-Steady p task (some pointers) s e r v h =
    if_holds Steady p.to_ui (post_ui-Steady task _ e (pointers-Steady pointers s (λ any. (r, v)) h))
      (shutdown-Steady p s h.ready)

pub send_pointer-Steady :
    (p : Posts) (finite : Bool) (pointer : ℕ) (phase : PointerPhase) (s : HostWindow)
    → Steady s
    → Steady (send_pointer p finite pointer phase s)
unfolding send_pointer frame_tasks
send_pointer-Steady p finite pointer phase s h =
    if_holds_when Steady (not s.running || not s.visible || not finite) (λ ignored. h)
      (λ seen.
        delivered-Steady p _ (next_pointers phase pointer s.active_pointers) s refl
          (ground (arith, seen)) (ground (arith, seen)) h)
