-- ===== src/Host/Frames/Driver.antt =====
-- Each call of a window and of its driver keeps what holds of the frames.
use dui.Host.{
  metrics_changed, tell, HostWindow, Posts, can_frame, arm_frame_locked, invalidate_frame_locked,
  post_ui, shutdown, take_exhausted,
}
use dui.Base.{
  if_holds_when, if_holds, bool_eq, ℕ, ◌+◌, ◌≡◌, refl, sym, subst, ◌∙◌, Bool, true, false, ◌&&◌,
  ◌||◌, not, List, [], ◌∷◌, arith, ◌==◌, if◌then◌else◌, u64_max,
}
use dui.Host.Frames.{frame_tasks, Loose, Ready, Served, Steady}
use dui.Host.Frames.Calls.{
  arm-Ready, arm-Served, invalidate-Ready, retag-Ready, post_ui-Ready, post_ui-Steady,
  post_ui-Served, post_ui-exhausted, shutdown_running-Steady, shutdown-Steady, posted,
  control_or_shutdown-Steady,
}
use dui.Host.Driver.{request_frame, set_metrics, hide_or_show, set_visible, set_focused}

-- The window wants a frame.
want-Ready : (s : HostWindow) → Ready s → Ready (record s { frame_demand = true })
unfolding can_frame
want-Ready s h = record {
  loose = record {
    one_task = h.loose.one_task;
    bounded = h.loose.bounded;
    focus_shown = h.loose.focus_shown;
  };
  armed_shown = h.armed_shown;
  armed_wanted = λ a. refl;
  armed_alone = h.armed_alone;
  task_delivers = h.task_delivers;
  pointers_shown = h.pointers_shown;
}

pub request_frame-Steady : (p : Posts) (s : HostWindow) → Steady s → Steady (request_frame p s).1
unfolding request_frame take_exhausted can_frame
request_frame-Steady p s h =
    let t = record s { frame_demand = true } in
    let a = arm_frame_locked t in
    let armed = arm-Ready t (want-Ready s h.ready) in
    let e = take_exhausted a.1 in
    let ready = retag-Ready a.1 _ _ _ _ _ false _ _ _ _ _ _ _ _ armed in
    let r = posted p false a.0 e.1 in
    let sent = record e.1 { platform = r.1 } in
    let sent_ready = retag-Ready a.1 _ _ _ _ _ false _ _ _ _ _ r.1 _ _ armed in
    if_holds After (not s.running) h (
      if_holds_when After e.0 (λ out. shutdown-Steady p e.1 ready)
        (λ fine.
          subst
            (λ (q : Bool × HostWindow).
              After (if q.0 then (true, q.1) else (false, shutdown p q.1)))
            (sym r.2)
            (if_holds After r.0 (record { ready = sent_ready; served = arm-Served t fine })
              (shutdown-Steady p sent sent_ready))))
  where
    After : Bool × HostWindow → Type 0
    After q = Steady q.1

pub set_metrics-Steady :
    (p : Posts) (same valid : Bool) (size : ℕ) (s : HostWindow)
    → Steady s
    → Steady (set_metrics p same valid size s)
unfolding set_metrics frame_tasks
set_metrics-Steady p same valid size s h =
    let i = invalidate_frame_locked s in
    let t = record i { metrics = size; metrics_generation = s.metrics_generation + 1 } in
    let a = arm_frame_locked t in
    let ready = arm-Ready t (
      retag-Ready i _ _ _ _ _ _ size (s.metrics_generation + 1) _ _ _ _ _ _
        (invalidate-Ready s h.ready.loose h.ready.task_delivers h.ready.pointers_shown)) in
    let task = tell s.delegate_generation (metrics_changed (s.metrics_generation + 1) ∷ []) in
    if_holds Steady (not s.running || same) h (
      if_holds Steady (s.metrics_generation == u64_max || not valid) h (
        if_holds Steady p.to_ui
          (control_or_shutdown-Steady p s.frame_armed a.0 (post_ui task a.1)
            (post_ui-Ready task a.1 refl ready)
            (λ e. post_ui-Served task a.1 (arm-Served t (post_ui-exhausted task a.1 e))))
          (shutdown-Steady p a.1 ready)))

-- A window that has just been hidden, or another one that may have an armed frame.
hide_or_show-Ready : (visible : Bool) (s : HostWindow) → Ready s → Ready (hide_or_show visible s).1
unfolding hide_or_show can_frame
hide_or_show-Ready true s h =
    arm-Ready (record s { visible = true })
      (record {
        loose = record {
          one_task = h.loose.one_task;
          bounded = h.loose.bounded;
          focus_shown = λ f. refl;
        };
        armed_shown = ground (arith, h.armed_shown);
        armed_wanted = h.armed_wanted;
        armed_alone = h.armed_alone;
        task_delivers = h.task_delivers;
        pointers_shown = ground (arith, h.pointers_shown);
      })
hide_or_show-Ready false s h =
    invalidate-Ready (record s { visible = false; focused = false; active_pointers = [] })
      (record {
        one_task = h.loose.one_task;
        bounded = h.loose.bounded;
        focus_shown = ground arith;
      })
      h.task_delivers (ground arith)

hide_or_show-Served :
    (visible : Bool) (s : HostWindow)
    → (hide_or_show visible s).1.frame_generation_exhausted ≡ false
    → Served (hide_or_show visible s).1
unfolding hide_or_show can_frame invalidate_frame_locked
hide_or_show-Served true s e = arm-Served (record s { visible = true }) e
hide_or_show-Served false s e = ground arith

-- Pointers put back before a shutdown.
Loose-pointers :
    (s : HostWindow) (pointers : List ℕ) → Loose s → Loose (record s { active_pointers = pointers })
Loose-pointers s pointers h = record {
  one_task = h.one_task;
  bounded = h.bounded;
  focus_shown = h.focus_shown;
}

hide_or_show-running :
    (visible : Bool) (s : HostWindow) → (hide_or_show visible s).1.running ≡ s.running
unfolding hide_or_show arm_frame_locked invalidate_frame_locked
hide_or_show-running true s = ground arith
hide_or_show-running false s = ground arith

pub set_visible-Steady :
    (p : Posts) (visible : Bool) (s : HostWindow) → Steady s → Steady (set_visible p visible s)
unfolding set_visible frame_tasks
set_visible-Steady p visible s h =
    let r = hide_or_show visible s in
    let ready = hide_or_show-Ready visible s h.ready in
    if_holds_when Steady (not s.running || bool_eq s.visible visible) (λ same. h)
      (λ changed.
        if_holds Steady p.to_ui
          (control_or_shutdown-Steady p (not visible && s.frame_armed) r.0 (post_ui _ r.1)
            (post_ui-Ready _ r.1 refl ready)
            (λ e. post_ui-Served _ r.1 (hide_or_show-Served visible s (post_ui-exhausted _ r.1 e))))
          (shutdown_running-Steady p _ (hide_or_show-running visible s ∙ ground (arith, changed))
            (Loose-pointers r.1 _ ready.loose)))

pub set_focused-Steady :
    (p : Posts) (focused : Bool) (s : HostWindow) → Steady s → Steady (set_focused p focused s)
unfolding set_focused frame_tasks can_frame
set_focused-Steady p focused s h =
    let t = record s {
      focused = focused;
      active_pointers = if focused then s.active_pointers else [];
    } in
    if_holds_when Steady (not s.running || bool_eq s.focused focused) (λ same. h)
      (λ changed.
        if_holds_when Steady (focused && not s.visible) (λ hidden. h)
          (λ shown.
            let loose : Loose t = record {
              one_task = h.ready.loose.one_task;
              bounded = h.ready.loose.bounded;
              focus_shown = ground (arith, shown);
            } in
            let ready : Ready t = record {
              loose = loose;
              armed_shown = h.ready.armed_shown;
              armed_wanted = h.ready.armed_wanted;
              armed_alone = h.ready.armed_alone;
              task_delivers = h.ready.task_delivers;
              pointers_shown = ground (arith, h.ready.pointers_shown);
            } in
            if_holds Steady p.to_ui
              (post_ui-Steady _ t refl (record { ready = ready; served = h.served }))
              (shutdown_running-Steady p (record t { active_pointers = s.active_pointers })
                (ground (arith, changed))
                (record {
                  one_task = h.ready.loose.one_task;
                  bounded = h.ready.loose.bounded;
                  focus_shown = ground (arith, shown);
                }))))
