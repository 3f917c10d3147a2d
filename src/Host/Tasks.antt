-- ===== src/Host/Tasks.antt =====
-- The tasks of the UI's thread and of the platform's, each taken from the head of its queue.
use dui.Host.{
  Notice, frame_requested, window_shutting_down, UiTask, tell, frame, frame_end, closing,
  PlatformTask, control, complete, cancel_frame, request, HostWindow, Posts, is_available,
  arm_frame_locked, complete_platform_shutdown, close, control_or_shutdown,
}
use dui.Base.{
  ℕ, Bool, true, false, ◌&&◌, ◌||◌, not, none, some, List, [], ◌∷◌, ◌++◌, ◌==◌, if◌then◌else◌,
}
use dui.Host.Driver.{pointer_cancels, sort_pointers}

unfoldable pub invoke_delegate : ℕ → Bool → Notice → HostWindow → HostWindow
invoke_delegate generation require_running notice s =
    if require_running && not s.running && not s.deliver_queued_events
      || not (s.delegate_generation == generation)
      || not s.has_delegate
    then s
    else record s { notices = s.notices ++ notice ∷ [] }

unfoldable pub invoke_each : ℕ → Bool → List Notice → HostWindow → HostWindow
invoke_each generation require_running [] s = s
invoke_each generation require_running (n ∷ ns) s =
    invoke_each generation require_running ns (invoke_delegate generation require_running n s)

-- One task of the UI's thread. The frame's task leaves its rest at the head of the queue.
unfoldable pub run_ui_task : Posts → UiTask → HostWindow → HostWindow
run_ui_task p (tell generation told) s = invoke_each generation true told s
run_ui_task p (frame generation sequence timestamp metrics) s =
    let current =
      s.running
      && s.frame_delivering
      && s.visible
      && is_available s.surface_state
      && (s.metrics_generation == metrics) in
    let t =
      if current
      then invoke_delegate generation true (frame_requested sequence timestamp metrics) s
      else s in
    record t { ui = frame_end ∷ t.ui }
run_ui_task p frame_end s =
    let a = arm_frame_locked (record s { frame_delivering = false }) in
    control_or_shutdown p false a.0 a.1
run_ui_task p (closing generation pointers) s = close p generation (
    invoke_each generation false
      (pointer_cancels (sort_pointers pointers) ++ window_shutting_down ∷ []) s)

unfoldable pub run_ui : Posts → HostWindow → HostWindow
run_ui p s = elim s.ui [ [] ↦ s | task ∷ tasks ↦ run_ui_task p task (record s { ui = tasks }) ]

-- `control.request_frame`, which may throw.
unfoldable pub request_control : Bool → ℕ → HostWindow → HostWindow
request_control throws generation s =
    if throws
    then (if s.frame_armed && (s.frame_generation == generation)
        then record s { frame_armed = false; frame_demand = false }
        else s)
    else record s { calls = s.calls ++ request generation ∷ [] }

unfoldable pub run_platform_task : Bool → PlatformTask → HostWindow → HostWindow
run_platform_task throws complete s = complete_platform_shutdown s
run_platform_task throws (control cancels generation) s =
    let t = if cancels then record s { calls = s.calls ++ cancel_frame ∷ [] } else s in
    if not s.running then s else elim generation [ none ↦ t | some g ↦ request_control throws g t ]

unfoldable pub run_platform : Bool → HostWindow → HostWindow
run_platform throws s = elim s.platform [
  | [] ↦ s
  | task ∷ tasks ↦ run_platform_task throws task (record s { platform = tasks })
]
