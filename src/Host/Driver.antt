-- ===== src/Host/Driver.antt =====
-- The calls of HostWindow and of its driver, each as one step. `dispatch_mutex` makes it one for the
-- driver's calls, bind_delegate and shutdown; DelegateBinding::reset is one critical section of
-- `mutex`. The delegate may make calls of its own during a frame's task.
use dui.Host.{
  SurfaceState, available, unavailable, out_of_date, lost, PointerPhase, down, move, up, cancel,
  Notice, window_created, metrics_changed, visibility_changed, focus_changed, surface_changed,
  pointer_event, key_event, tell, frame, HostWindow, Posts, is_available, arm_frame_locked,
  invalidate_frame_locked, post_ui, next_generation, shutdown, post_frame_control, take_exhausted,
  control_or_shutdown,
}
use dui.Base.{
  bool_eq, ℕ, ◌+◌, Bool, true, false, ◌&&◌, ◌||◌, not, Option, none, some, List, [], ◌∷◌, ◌++◌, ltb,
  leb, ◌==◌, if◌then◌else◌, u64_max,
}
use dui.Base.Outcome.{M, ok, throw, logic_error, overflow_error}
use dui.Base.Assoc.{contains, without}
use dui.Base.Int.{ℤ, pos, negsuc}

-- HostWindow::request_frame does not take `dispatch_mutex`: it holds `mutex` while it arms the frame
-- and again while it takes the mark of exhausted generations, then posts. Here these parts follow one
-- another with nothing of another thread in between.
unfoldable pub request_frame : Posts → HostWindow → Bool × HostWindow
request_frame p s =
    let a = arm_frame_locked (record s { frame_demand = true }) in
    let e = take_exhausted a.1 in
    let c = post_frame_control p false a.0 e.1 in
    if not s.running
    then (false, s)
    else (if e.0
        then (false, shutdown p e.1)
        else (if c.0 then (true, c.1) else (false, shutdown p c.1)))

-- `same` and `valid` are the tests on the window's sizes.
unfoldable pub set_metrics : Posts → Bool → Bool → ℕ → HostWindow → HostWindow
set_metrics p same valid size s =
    let generation = s.metrics_generation + 1 in
    let i = invalidate_frame_locked s in
    let a = arm_frame_locked (record i { metrics = size; metrics_generation = generation }) in
    let t = post_ui (tell s.delegate_generation (metrics_changed generation ∷ [])) a.1 in
    if not s.running || same
    then s
    else (if s.metrics_generation == u64_max || not valid
        then s
        else (if p.to_ui then control_or_shutdown p s.frame_armed a.0 t else shutdown p a.1))

unfoldable pub pointer_cancels : List ℕ → List Notice
pointer_cancels [] = []
pointer_cancels (pointer ∷ pointers) = pointer_event pointer cancel ∷ pointer_cancels pointers

unfoldable pub insert_pointer : ℕ → List ℕ → List ℕ
insert_pointer pointer [] = pointer ∷ []
insert_pointer pointer (q ∷ qs) =
    if leb pointer q then pointer ∷ q ∷ qs else q ∷ insert_pointer pointer qs

-- `std::ranges::sort`.
unfoldable pub sort_pointers : List ℕ → List ℕ
sort_pointers [] = []
sort_pointers (pointer ∷ pointers) = insert_pointer pointer (sort_pointers pointers)

-- With the generation of the frame to request.
unfoldable pub hide_or_show : Bool → HostWindow → Option ℕ × HostWindow
hide_or_show true s = arm_frame_locked (record s { visible = true })
hide_or_show false s = (
  none,
  invalidate_frame_locked (record s { visible = false; focused = false; active_pointers = [] }),
)

unfoldable pub set_visible : Posts → Bool → HostWindow → HostWindow
set_visible p visible s =
    let r = hide_or_show visible s in
    let pointers = if visible then [] else sort_pointers s.active_pointers in
    let focus_lost = not visible && s.focused in
    let told =
      pointer_cancels pointers
      ++ (if focus_lost then focus_changed false ∷ [] else [])
      ++ visibility_changed visible ∷ [] in
    let restored = if visible then r.1.active_pointers else s.active_pointers in
    if not s.running || bool_eq s.visible visible
    then s
    else (if p.to_ui
        then control_or_shutdown p (not visible && s.frame_armed) r.0
            (post_ui (tell s.delegate_generation told) r.1)
        else shutdown p (record r.1 { active_pointers = restored }))

unfoldable pub set_focused : Posts → Bool → HostWindow → HostWindow
set_focused p focused s =
    let pointers = if focused then [] else sort_pointers s.active_pointers in
    let t = record s {
      focused = focused;
      active_pointers = if focused then s.active_pointers else [];
    } in
    if not s.running || bool_eq s.focused focused
    then s
    else (if focused && not s.visible
        then s
        else (if p.to_ui
            then post_ui
                (tell s.delegate_generation
                  (pointer_cancels pointers ++ focus_changed focused ∷ []))
                t
            else shutdown p (record t { active_pointers = s.active_pointers })))

-- `state->last_frame_timestamp.has_value() && timestamp < *state->last_frame_timestamp`.
unfoldable pub is_earlier : ℕ → Option ℕ → Bool
is_earlier timestamp none = false
is_earlier timestamp (some t) = ltb timestamp t

-- A pulse that is taken, at a time that is not negative.
unfoldable pub deliver_frame : Posts → ℕ → HostWindow → HostWindow
deliver_frame p timestamp s =
    let t = record s { frame_armed = false; frame_delivering = false } in
    let u = record s {
      frame_armed = false;
      frame_delivering = true;
      frame_demand = false;
      last_frame_timestamp = some timestamp;
      next_frame_sequence = s.next_frame_sequence + 1;
    } in
    if is_earlier timestamp s.last_frame_timestamp
    then s
    else (if s.next_frame_sequence == u64_max
        then shutdown p t
        else (if p.to_ui
            then post_ui
                (frame s.delegate_generation s.next_frame_sequence timestamp s.metrics_generation) u
            else shutdown p u))

unfoldable pub frame_pulse : Posts → ℤ → ℕ → HostWindow → HostWindow
frame_pulse p timestamp generation s =
    if s.running
      && s.frame_armed
      && (s.frame_generation == generation)
      && s.visible
      && is_available s.surface_state
    then elim timestamp [ negsuc n ↦ s | pos n ↦ deliver_frame p n s ]
    else s

unfoldable pub same_surface : SurfaceState → SurfaceState → Bool
same_surface available available = true
same_surface unavailable unavailable = true
same_surface out_of_date out_of_date = true
same_surface lost lost = true
same_surface a b = false

abbrev pub is_out_of_date : SurfaceState → Bool
is_out_of_date out_of_date = true
is_out_of_date available = false
is_out_of_date unavailable = false
is_out_of_date lost = false

unfoldable pub set_surface_state : Posts → SurfaceState → HostWindow → HostWindow
set_surface_state p surface s =
    let renewed = is_out_of_date surface || is_available surface in
    let generation = if renewed then s.metrics_generation + 1 else s.metrics_generation in
    let t = record s { surface_state = surface; metrics_generation = generation } in
    let r =
      if is_available surface then arm_frame_locked t else (none, invalidate_frame_locked t) in
    let told =
      if renewed
      then metrics_changed generation ∷ surface_changed surface generation ∷ []
      else surface_changed surface generation ∷ [] in
    if not s.running || same_surface s.surface_state surface
    then s
    else (if renewed && (s.metrics_generation == u64_max)
        then shutdown p s
        else (if p.to_ui
            then control_or_shutdown p (not (is_available surface) && s.frame_armed) r.0
                (post_ui (tell s.delegate_generation told) r.1)
            else shutdown p r.1))

-- What a pointer's event does to the pointers that are down: `none` where it is not delivered.
unfoldable pub next_pointers : PointerPhase → ℕ → List ℕ → Option (List ℕ)
next_pointers down pointer active =
    if contains pointer active then none else some (pointer ∷ active)
next_pointers move pointer active = if contains pointer active then some active else none
next_pointers up pointer active =
    if contains pointer active then some (without pointer active) else none
next_pointers cancel pointer active =
    if contains pointer active then some (without pointer active) else none

-- `finite` tells whether the position is.
unfoldable pub send_pointer : Posts → Bool → ℕ → PointerPhase → HostWindow → HostWindow
send_pointer p finite pointer phase s =
    if not s.running || not s.visible || not finite
    then s
    else elim (next_pointers phase pointer s.active_pointers) [
      | none ↦ s
      | some active ↦
          if p.to_ui
          then post_ui (tell s.delegate_generation (pointer_event pointer phase ∷ []))
              (record s { active_pointers = active })
          else shutdown p s
    ]

unfoldable pub send_key : Posts → Bool → ℕ → HostWindow → HostWindow
send_key p valid key s =
    if not s.running || not s.visible || not valid
    then s
    else (if p.to_ui
        then post_ui (tell s.delegate_generation (key_event key ∷ [])) s
        else shutdown p s)

-- With the binding's generation.
unfoldable pub bind_delegate : Posts → M HostWindow (Option ℕ)
bind_delegate p s =
    let generation = s.delegate_generation + 1 in
    let t = record s {
      delegate_generation = generation;
      has_delegate = true;
      active_pointers = [];
    } in
    let told =
      window_created s.metrics_generation
      ∷ (if s.visible then visibility_changed true ∷ [] else []) in
    if not s.running
    then (throw logic_error, s)
    else (if s.delegate_generation == u64_max
        then (throw overflow_error, s)
        else (if p.to_ui
            then (ok (some generation), post_ui (tell generation told) t)
            else (ok none, shutdown p t)))

-- DelegateBinding::reset.
unfoldable pub reset_binding : ℕ → HostWindow → HostWindow
reset_binding generation s =
    if not (generation == 0) && (s.delegate_generation == generation)
    then record s {
      has_delegate = false;
      active_pointers = [];
      delegate_generation = next_generation s.delegate_generation;
    }
    else s
