-- ===== src/Host/Frames/Histories.antt =====
-- Any sequence of calls of a window, of its driver and of tasks of the two threads.
use dui.Host.{SurfaceState, available, PointerPhase, HostWindow, Posts, can_frame, shutdown}
use dui.Base.{ℕ, ◌≤◌, ◌<◌, ◌≡◌, refl, Bool, true, false, ◌||◌, none, List, [], ◌∷◌, arith, length}
use dui.Base.Int.{ℤ}
use dui.Host.Frames.{frame_tasks, Steady}
use dui.Host.Frames.Driver.{
  request_frame-Steady, set_metrics-Steady, set_visible-Steady, set_focused-Steady,
}
use dui.Host.Frames.Tasks.{
  frame_pulse-Steady, set_surface_state-Steady, send_key-Steady, send_pointer-Steady,
}
use dui.Host.Frames.Calls.{shutdown-Steady}
use dui.Host.Frames.Runs.{
  bind_delegate-Steady, reset_binding-Steady, run_ui-Steady, run_platform-Steady,
}
use dui.Host.Driver.{
  request_frame, set_metrics, set_visible, set_focused, frame_pulse, set_surface_state,
  send_pointer, send_key, bind_delegate, reset_binding,
}
use dui.Host.Tasks.{run_ui, run_platform}

-- `make_host_window`, after its checks: a window that may be visible from the start.
abbrev pub opened : Bool → HostWindow
opened visible = record {
  running = true;
  deliver_queued_events = true;
  shutdown_ui_pending = false;
  platform_shutdown_pending = false;
  platform_shutdown_complete = false;
  visible = visible;
  focused = false;
  surface_state = available;
  metrics = 0;
  metrics_generation = 1;
  has_delegate = false;
  delegate_generation = 0;
  frame_demand = false;
  frame_armed = false;
  frame_delivering = false;
  frame_generation_exhausted = false;
  frame_generation = 0;
  next_frame_sequence = 1;
  last_frame_timestamp = none;
  active_pointers = [];
  ui = [];
  platform = [];
  notices = [];
  calls = [];
}

pub data Event : Type 0 where
  requests shuts ui_task : Posts → Event
  resizes : Posts → Bool → Bool → ℕ → Event
  shows focuses : Posts → Bool → Event
  pulses : Posts → ℤ → ℕ → Event
  surfaces : Posts → SurfaceState → Event
  points : Posts → Bool → ℕ → PointerPhase → Event
  keys : Posts → Bool → ℕ → Event
  binds : Posts → Event
  unbinds : ℕ → Event
  platform_task : Bool → Event

unfoldable pub perform : Event → HostWindow → HostWindow
perform (requests p) s = (request_frame p s).1
perform (shuts p) s = shutdown p s
perform (ui_task p) s = run_ui p s
perform (resizes p same valid size) s = set_metrics p same valid size s
perform (shows p visible) s = set_visible p visible s
perform (focuses p focused) s = set_focused p focused s
perform (pulses p timestamp generation) s = frame_pulse p timestamp generation s
perform (surfaces p surface) s = set_surface_state p surface s
perform (points p finite pointer phase) s = send_pointer p finite pointer phase s
perform (keys p valid key) s = send_key p valid key s
perform (binds p) s = (bind_delegate p s).1
perform (unbinds generation) s = reset_binding generation s
perform (platform_task throws) s = run_platform throws s

unfoldable pub run : List Event → HostWindow → HostWindow
run [] s = s
run (event ∷ events) s = run events (perform event s)

pub perform-Steady : (event : Event) (s : HostWindow) → Steady s → Steady (perform event s)
unfolding perform
perform-Steady (requests p) s h = request_frame-Steady p s h
perform-Steady (shuts p) s h = shutdown-Steady p s h.ready
perform-Steady (ui_task p) s h = run_ui-Steady p s h
perform-Steady (resizes p same valid size) s h = set_metrics-Steady p same valid size s h
perform-Steady (shows p visible) s h = set_visible-Steady p visible s h
perform-Steady (focuses p focused) s h = set_focused-Steady p focused s h
perform-Steady (pulses p timestamp generation) s h = frame_pulse-Steady p timestamp generation s h
perform-Steady (surfaces p surface) s h = set_surface_state-Steady p surface s h
perform-Steady (points p finite pointer phase) s h = send_pointer-Steady p finite pointer phase s h
perform-Steady (keys p valid key) s h = send_key-Steady p valid key s h
perform-Steady (binds p) s h = bind_delegate-Steady p s h
perform-Steady (unbinds generation) s h = reset_binding-Steady generation s h
perform-Steady (platform_task throws) s h = run_platform-Steady throws s h

run-Steady : (events : List Event) (s : HostWindow) → Steady s → Steady (run events s)
unfolding run
run-Steady [] s h = h
run-Steady (event ∷ events) s h = run-Steady events (perform event s) (perform-Steady event s h)

opened-Steady : (visible : Bool) → Steady (opened visible)
unfolding frame_tasks can_frame
opened-Steady visible = record {
  ready = record {
    loose = record { one_task = omega arith; bounded = omega arith; focus_shown = ground arith };
    armed_shown = ground arith;
    armed_wanted = ground arith;
    armed_alone = ground arith;
    task_delivers = λ r. refl;
    pointers_shown = λ any. absurd (omega (arith, any));
  };
  served = ground arith;
}

-- After any calls of a new window and its driver and any tasks of the two threads, whichever posts fail
-- and whatever the platform's control throws: a frame that is wanted, where the window runs, is
-- visible and has a surface, is armed or being delivered, so none is forgotten; a frame is armed
-- only there, only if one is wanted, and not while another is being delivered; and at most one task
-- of a frame is queued.
pub run-served :
    (visible : Bool) (events : List Event)
    → let s = run events (opened visible) in
      (can_frame s ≡ true → s.frame_demand ≡ true → (s.frame_armed || s.frame_delivering) ≡ true)
      × (s.frame_armed ≡ true
          → (can_frame s ≡ true) × (s.frame_demand ≡ true) × (s.frame_delivering ≡ false))
      × (frame_tasks s.ui ≤ 1)
run-served visible events =
    let h = run-Steady events (opened visible) (opened-Steady visible) in
    (
      h.served,
      λ a. (h.ready.armed_shown a, h.ready.armed_wanted a, h.ready.armed_alone a),
      h.ready.loose.one_task,
    )

-- After any calls and tasks, a new window that has the focus is visible, and one that has pointers down
-- runs and is visible.
pub run-shown :
    (visible : Bool) (events : List Event)
    → let s = run events (opened visible) in
      (s.focused ≡ true → s.visible ≡ true)
      × (0 < length s.active_pointers → (s.running ≡ true) × (s.visible ≡ true))
run-shown visible events =
    let h = run-Steady events (opened visible) (opened-Steady visible) in
    (h.ready.loose.focus_shown, h.ready.pointers_shown)
