-- ===== src/Host/Tests.antt =====
-- A visible window that is asked for a frame gets one, and is then hidden.
use dui.Host.{down, Posts, can_frame}
use dui.Base.{◌≤◌, ◌≡◌, true, false, ◌||◌, List, [], ◌∷◌}
use dui.Base.Int.{pos}
use dui.Host.Frames.{frame_tasks}
use dui.Host.Frames.Wanted.{perform-Wants, puts_off}
use dui.Base.{refl}
use dui.Host.{
  invalidate_frame_locked, control_or_shutdown, post_frame_control, take_exhausted, post_ui,
  shutdown, HostWindow,
}
use dui.Host.Driver.{set_visible, hide_or_show}
use dui.Host.Frames.Histories.{
  perform, Event, binds, requests, platform_task, pulses, ui_task, shows, points, run, opened,
  run-served,
}

abbrev posts : Posts
posts = record {
  to_ui = true;
  to_platform = true;
  closing_ui = true;
  closing_platform = true;
  inline = false;
}

abbrev events : List Event
events =
    binds posts
    ∷ ui_task posts
    ∷ requests posts
    ∷ platform_task false
    ∷ pulses posts (pos 5) 1
    ∷ ui_task posts
    ∷ ui_task posts
    ∷ points posts true 4 down
    ∷ shows posts false
    ∷ ui_task posts
    ∷ ui_task posts
    ∷ []

run-served_example :
    let s = run events (opened true) in
    (can_frame s ≡ true → s.frame_demand ≡ true → (s.frame_armed || s.frame_delivering) ≡ true)
    × (s.frame_armed ≡ true
        → (can_frame s ≡ true) × (s.frame_demand ≡ true) × (s.frame_delivering ≡ false))
    × (frame_tasks s.ui ≤ 1)
run-served_example = run-served true events

abbrev wanting : HostWindow
wanting = record (opened true) { frame_demand = true; frame_armed = true; frame_generation = 1 }

perform-Wants_example : (perform (shows posts false) wanting).frame_demand ≡ true
unfolding perform puts_off set_visible hide_or_show invalidate_frame_locked control_or_shutdown
    post_frame_control take_exhausted post_ui shutdown
perform-Wants_example = perform-Wants (shows posts false) wanting refl refl refl
