-- ===== src/Host/Frames/Runs.antt =====
-- The tasks of the two threads, the delegate's binding, and any sequence of calls and tasks.
use dui.Host.{
  Notice, UiTask, tell, frame, frame_end, closing, PlatformTask, control, complete, HostWindow,
  Posts, can_frame, arm_frame_locked, complete_platform_shutdown,
}
use dui.Base.{
  if_holds, ℕ, suc, ◌+◌, ◌≡◌, refl, sym, ◌∙◌, Bool, true, false, ◌&&◌, not, Option, none, some,
  List, [], ◌∷◌, arith, ◌==◌, u64_max,
}
use dui.Base.Outcome.{Result}
use dui.Host.Frames.{frame_tasks, Ready, Steady}
use dui.Host.Frames.Calls.{
  arm-Ready, arm-Served, retag-Steady, post_ui-Steady, close-Steady, shutdown-Steady,
  control_or_shutdown-Steady,
}
use dui.Host.Frames.Tasks.{pointers-Steady}
use dui.Host.Driver.{bind_delegate, reset_binding}
use dui.Host.Tasks.{
  invoke_delegate, invoke_each, run_ui_task, run_ui, request_control, run_platform_task,
  run_platform,
}

pub bind_delegate-Steady : (p : Posts) (s : HostWindow) → Steady s → Steady (bind_delegate p s).1
unfolding bind_delegate frame_tasks
bind_delegate-Steady p s h =
    let t =
      retag-Steady (record s { active_pointers = [] }) _ _ _ _ true _ _ _
        (s.delegate_generation + 1) _ _ _ _ _
        (pointers-Steady [] s (λ any. absurd (omega arith)) h) in
    if_holds After (not s.running) h (
      if_holds After (s.delegate_generation == u64_max) h
        (if_holds After p.to_ui (post_ui-Steady _ _ refl t) (shutdown-Steady p _ t.ready)))
  where
    After : Result (Option ℕ) × HostWindow → Type 0
    After r = Steady r.1

pub reset_binding-Steady :
    (generation : ℕ) (s : HostWindow) → Steady s → Steady (reset_binding generation s)
unfolding reset_binding
reset_binding-Steady generation s h =
    if_holds Steady (not (generation == 0) && (s.delegate_generation == generation))
      (retag-Steady (record s { active_pointers = [] }) _ _ _ _ false _ _ _ _ _ _ _ _ _
        (pointers-Steady [] s (λ any. absurd (omega arith)) h))
      h

-- A call of the delegate adds a notice.
invoke_delegate-Steady :
    (generation : ℕ) (require_running : Bool) (notice : Notice) (s : HostWindow)
    → Steady s
    → Steady (invoke_delegate generation require_running notice s)
unfolding invoke_delegate
invoke_delegate-Steady generation require_running notice s h =
    if_holds Steady _ h (retag-Steady s _ _ _ _ _ _ _ _ _ _ _ _ _ _ h)

invoke_each-Steady :
    (generation : ℕ) (require_running : Bool) (told : List Notice) (s : HostWindow)
    → Steady s
    → Steady (invoke_each generation require_running told s)
unfolding invoke_each
invoke_each-Steady generation require_running [] s h = h
invoke_each-Steady generation require_running (n ∷ ns) s h =
    invoke_each-Steady generation require_running ns
      (invoke_delegate generation require_running n s)
      (invoke_delegate-Steady generation require_running n s h)

-- The queue may be exchanged for one with as many tasks of frames.
queue-Steady :
    (tasks : List UiTask) (s : HostWindow)
    → frame_tasks tasks ≡ frame_tasks s.ui
    → Steady s
    → Steady (record s { ui = tasks })
unfolding can_frame
queue-Steady tasks s e h = record {
  ready = record {
    loose = record {
      one_task = omega (arith, e, h.ready.loose.one_task);
      bounded = h.ready.loose.bounded;
      focus_shown = h.ready.loose.focus_shown;
    };
    armed_shown = h.ready.armed_shown;
    armed_wanted = h.ready.armed_wanted;
    armed_alone = h.ready.armed_alone;
    task_delivers = λ r. e ∙ h.ready.task_delivers r;
    pointers_shown = h.ready.pointers_shown;
  };
  served = h.served;
}

-- The end of a frame's task.
frame_done-Ready :
    (tasks : List UiTask) (s : HostWindow)
    → frame_tasks s.ui ≡ suc (frame_tasks tasks)
    → Ready s
    → Ready (record s { ui = tasks; frame_delivering = false })
unfolding can_frame
frame_done-Ready tasks s e h = record {
  loose = record {
    one_task = omega (arith, e, h.loose.one_task);
    bounded = h.loose.bounded;
    focus_shown = h.loose.focus_shown;
  };
  armed_shown = h.armed_shown;
  armed_wanted = h.armed_wanted;
  armed_alone = λ a. refl;
  task_delivers = λ r. omega (arith, e, h.loose.one_task);
  pointers_shown = h.pointers_shown;
}

ui_from-Steady :
    (p : Posts) (tasks : List UiTask) (s : HostWindow)
    → frame_tasks s.ui ≡ frame_tasks tasks
    → Steady s
    → Steady (elim tasks [ [] ↦ s | task ∷ later ↦ run_ui_task p task (record s { ui = later }) ])
unfolding run_ui_task frame_tasks invoke_delegate
ui_from-Steady p [] s e h = h
ui_from-Steady p (tell g ns ∷ later) s e h =
    invoke_each-Steady g true ns _ (queue-Steady later s (sym e) h)
ui_from-Steady p (closing g ps ∷ later) s e h =
    close-Steady p g _ (invoke_each-Steady g false _ _ (queue-Steady later s (sym e) h))
ui_from-Steady p (frame_end ∷ later) s e h =
    let u = record s { ui = later; frame_delivering = false } in
    let a = arm_frame_locked u in
    control_or_shutdown-Steady p false a.0 a.1
      (arm-Ready u (frame_done-Ready later s (omega (arith, e)) h.ready)) (arm-Served u)
ui_from-Steady p (frame g n t m ∷ later) s e h =
    let put = queue-Steady (frame_end ∷ later) s (omega (arith, e)) h in
    let back = record s { ui = frame_end ∷ later } in
    if_holds (λ (x : HostWindow). Steady (record x { ui = frame_end ∷ x.ui })) _
      (if_holds (λ (x : HostWindow). Steady (record x { ui = frame_end ∷ x.ui })) _ put
        (retag-Steady back _ _ _ _ _ _ _ _ _ _ _ _ _ _ put))
      put

pub run_ui-Steady : (p : Posts) (s : HostWindow) → Steady s → Steady (run_ui p s)
unfolding run_ui
run_ui-Steady p s h = ui_from-Steady p s.ui s refl h

-- A request that the platform refuses is given up.
drop_frame-Steady :
    (s : HostWindow) → Steady s → Steady (record s { frame_armed = false; frame_demand = false })
unfolding can_frame
drop_frame-Steady s h = record {
  ready = record {
    loose = record {
      one_task = h.ready.loose.one_task;
      bounded = h.ready.loose.bounded;
      focus_shown = h.ready.loose.focus_shown;
    };
    armed_shown = ground arith;
    armed_wanted = ground arith;
    armed_alone = ground arith;
    task_delivers = h.ready.task_delivers;
    pointers_shown = h.ready.pointers_shown;
  };
  served = ground arith;
}

request_control-Steady :
    (throws : Bool) (generation : ℕ) (s : HostWindow)
    → Steady s
    → Steady (request_control throws generation s)
unfolding request_control
request_control-Steady throws generation s h =
    if_holds Steady throws (if_holds Steady _ (drop_frame-Steady s h) h)
      (retag-Steady s _ _ _ _ _ _ _ _ _ _ _ _ _ _ h)

platform_from-Steady :
    (throws : Bool) (tasks : List PlatformTask) (s : HostWindow)
    → Steady s
    → Steady (elim tasks [
      | [] ↦ s
      | task ∷ later ↦ run_platform_task throws task (record s { platform = later })
    ])
unfolding run_platform_task complete_platform_shutdown
platform_from-Steady throws [] s h = h
platform_from-Steady throws (complete ∷ later) s h =
    if_holds Steady s.platform_shutdown_complete (retag-Steady s _ _ _ _ _ _ _ _ _ _ _ later _ _ h)
      (retag-Steady s _ _ _ _ _ _ _ _ _ _ _ later _ _ h)
platform_from-Steady throws (control cancels generation ∷ later) s h =
    if_holds Steady (not s.running) (retag-Steady s _ _ _ _ _ _ _ _ _ _ _ later _ _ h) (
      requested generation _ (
        if_holds Steady cancels (retag-Steady s _ _ _ _ _ _ _ _ _ _ _ later _ _ h)
          (retag-Steady s _ _ _ _ _ _ _ _ _ _ _ later _ _ h)))
  where
    requested :
        (generation : Option ℕ) (t : HostWindow)
        → Steady t
        → Steady (elim generation [ none ↦ t | some g ↦ request_control throws g t ])
    requested none t k = k
    requested (some g) t k = request_control-Steady throws g t k

pub run_platform-Steady :
    (throws : Bool) (s : HostWindow) → Steady s → Steady (run_platform throws s)
unfolding run_platform
run_platform-Steady throws s h = platform_from-Steady throws s.platform s h
