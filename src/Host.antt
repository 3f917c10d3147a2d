-- ===== src/Host.antt =====
-- HostWindowState: a window between the platform's thread, which drives it, and the UI's, where its
-- delegate is told. Tasks posted to the two runners are queues; whether a post succeeds is given
-- with each call. Semantics, text input, the clipboard and the cursor are left out, and so are
-- reports of errors; the tests on a window's size, made of floats, are given.
pub mod Driver
pub mod Tasks
mod Tests
pub mod Frames
use dui.Base.{
  ℕ, ◌+◌, Bool, true, false, ◌&&◌, ◌||◌, not, Option, none, some, List, [], ◌∷◌, ◌++◌, ◌==◌,
  if◌then◌else◌, u64_max,
}

pub data SurfaceState : Type 0 where
  available unavailable out_of_date lost : SurfaceState

pub data PointerPhase : Type 0 where
  down move up cancel : PointerPhase

-- What the delegate is told.
pub data Notice : Type 0 where
  window_created : ℕ → Notice
  metrics_changed : ℕ → Notice
  visibility_changed focus_changed : Bool → Notice
  surface_changed : SurfaceState → ℕ → Notice
  pointer_event : ℕ → PointerPhase → Notice
  key_event : ℕ → Notice
  -- The frame's sequence number, its time and the generation of its metrics.
  frame_requested : ℕ → ℕ → ℕ → Notice
  window_shutting_down : Notice

-- Tasks for the UI's thread, with the generation of the delegate that they are for. `frame_end` is
-- the rest of a frame's task, after the call of the delegate.
pub data UiTask : Type 0 where
  tell : ℕ → List Notice → UiTask
  frame : ℕ → ℕ → ℕ → ℕ → UiTask
  frame_end : UiTask
  closing : ℕ → List ℕ → UiTask

-- Tasks for the platform's thread: whether to cancel a frame and which to request.
pub data PlatformTask : Type 0 where
  control : Bool → Option ℕ → PlatformTask
  complete : PlatformTask

-- HostWindowControl's calls.
pub data ControlCall : Type 0 where
  cancel_frame shutdown_control : ControlCall
  request : ℕ → ControlCall

pub record HostWindow : Type 0 where
  pub running : Bool
  pub deliver_queued_events : Bool
  pub shutdown_ui_pending : Bool
  pub platform_shutdown_pending : Bool
  pub platform_shutdown_complete : Bool
  pub visible : Bool
  pub focused : Bool
  pub surface_state : SurfaceState
  pub metrics : ℕ
  pub metrics_generation : ℕ
  pub has_delegate : Bool
  pub delegate_generation : ℕ
  pub frame_demand : Bool
  pub frame_armed : Bool
  pub frame_delivering : Bool
  pub frame_generation_exhausted : Bool
  pub frame_generation : ℕ
  pub next_frame_sequence : ℕ
  pub last_frame_timestamp : Option ℕ
  pub active_pointers : List ℕ
  pub ui : List UiTask
  pub platform : List PlatformTask
  pub notices : List Notice
  pub calls : List ControlCall

-- Whether the posts of a call succeed: to the UI's runner, to the platform's, the two that a shutdown
-- makes, and whether the platform's runner runs tasks on this thread.
pub record Posts : Type 0 where
  pub to_ui : Bool
  pub to_platform : Bool
  pub closing_ui : Bool
  pub closing_platform : Bool
  pub inline : Bool

abbrev pub is_available : SurfaceState → Bool
is_available available = true
is_available unavailable = false
is_available out_of_date = false
is_available lost = false

unfoldable pub can_frame : HostWindow → Bool
can_frame s = s.running && (s.visible && is_available s.surface_state)

unfoldable pub arm_frame_locked : HostWindow → Option ℕ × HostWindow
arm_frame_locked s =
    if not (can_frame s) || s.frame_armed || s.frame_delivering || not s.frame_demand
    then (none, s)
    else (if s.frame_generation == u64_max
        then (none, record s { frame_generation_exhausted = true })
        else (
          some (s.frame_generation + 1),
          record s { frame_generation = s.frame_generation + 1; frame_armed = true },
        ))

unfoldable pub invalidate_frame_locked : HostWindow → HostWindow
invalidate_frame_locked s =
    let t =
      if s.frame_armed || s.frame_delivering
      then record s { frame_demand = true; frame_armed = false }
      else s in
    if t.frame_generation == u64_max
    then record t { frame_generation_exhausted = true }
    else record t { frame_generation = t.frame_generation + 1 }

unfoldable pub post_ui : UiTask → HostWindow → HostWindow
post_ui task s = record s { ui = s.ui ++ task ∷ [] }

-- complete_platform_shutdown.
unfoldable pub complete_platform_shutdown : HostWindow → HostWindow
complete_platform_shutdown s = if s.platform_shutdown_complete then s else record s {
  platform_shutdown_pending = false;
  platform_shutdown_complete = true;
  calls = s.calls ++ cancel_frame ∷ shutdown_control ∷ [];
}

unfoldable pub schedule_platform_shutdown : Posts → HostWindow → HostWindow
schedule_platform_shutdown p s =
    if s.platform_shutdown_complete || s.platform_shutdown_pending
    then s
    else (if p.inline
        then complete_platform_shutdown (record s { platform_shutdown_pending = true })
        else (if p.closing_platform
            then record s {
              platform_shutdown_pending = true;
              platform = s.platform ++ complete ∷ [];
            }
            else record s { platform_shutdown_pending = false }))

-- The generation that a delegate which is let go leaves behind.
abbrev pub next_generation : ℕ → ℕ
next_generation g = if g == u64_max then g else g + 1

-- The end of the closing task, and what is done where it cannot be posted.
unfoldable pub close : Posts → ℕ → HostWindow → HostWindow
close p generation s =
    let t = record s { deliver_queued_events = false; shutdown_ui_pending = false } in
    let u =
      if t.delegate_generation == generation
      then record t {
        has_delegate = false;
        delegate_generation = next_generation t.delegate_generation;
      }
      else t in
    schedule_platform_shutdown p u

-- The part of `shutdown` under the lock, of a window that runs.
unfoldable pub stop : HostWindow → HostWindow
stop s = record s {
  running = false;
  shutdown_ui_pending = true;
  frame_demand = false;
  frame_armed = false;
  frame_generation = next_generation s.frame_generation;
  active_pointers = [];
}

unfoldable pub shutdown : Posts → HostWindow → HostWindow
shutdown p s =
    if not s.running
    then (if not s.shutdown_ui_pending && not s.platform_shutdown_complete
        then schedule_platform_shutdown p s
        else s)
    else (if p.closing_ui
        then post_ui (closing s.delegate_generation s.active_pointers) (stop s)
        else close p s.delegate_generation (stop s))

-- `!post_frame_control(...) || frame_generation_exhausted(...)`: a window that cannot ask for its
-- frame is shut down.
unfoldable pub post_frame_control : Posts → Bool → Option ℕ → HostWindow → Bool × HostWindow
post_frame_control p false none s = (true, s)
post_frame_control p true none s =
    if p.to_platform
    then (true, record s { platform = s.platform ++ control true none ∷ [] })
    else (false, s)
post_frame_control p cancels (some g) s =
    if p.to_platform
    then (true, record s { platform = s.platform ++ control cancels (some g) ∷ [] })
    else (false, s)

-- `frame_generation_exhausted`, which resets the flag.
unfoldable pub take_exhausted : HostWindow → Bool × HostWindow
take_exhausted s = (s.frame_generation_exhausted, record s { frame_generation_exhausted = false })

-- `if (!post_frame_control(...) || frame_generation_exhausted(...)) shutdown();`
unfoldable pub control_or_shutdown : Posts → Bool → Option ℕ → HostWindow → HostWindow
control_or_shutdown p cancels generation s =
    let r = post_frame_control p cancels generation s in
    let e = take_exhausted r.1 in
    if not r.0 then shutdown p r.1 else (if e.0 then shutdown p e.1 else e.1)
