-- ===== src/Host/Frames.antt =====
-- What holds of a window's frames between the calls: at most one is armed or under way, only where
-- one can be shown, and none that is wanted is forgotten.
pub mod Calls
pub mod Driver
pub mod Wanted
pub mod Histories
pub mod Runs
pub mod Tasks
use dui.Host.{UiTask, tell, frame, frame_end, closing, HostWindow, can_frame}
use dui.Base.{
  ℕ, ◌+◌, ◌-◌, ◌≤◌, ◌<◌, ◌≡◌, true, false, ◌||◌, List, [], ◌∷◌, ◌++◌, arith, if◌then◌else◌, u64_max,
  length,
}

-- Tasks of a frame.
unfoldable pub frame_tasks : List UiTask → ℕ
frame_tasks [] = 0
frame_tasks (tell g ns ∷ ts) = frame_tasks ts
frame_tasks (frame g n t m ∷ ts) = 1 + frame_tasks ts
frame_tasks (frame_end ∷ ts) = 1 + frame_tasks ts
frame_tasks (closing g ps ∷ ts) = frame_tasks ts

pub frame_tasks-append :
    (ts us : List UiTask) → frame_tasks (ts ++ us) ≡ frame_tasks ts + frame_tasks us
unfolding frame_tasks
frame_tasks-append [] us = omega arith
frame_tasks-append (tell g ns ∷ ts) us = frame_tasks-append ts us
frame_tasks-append (frame g n t m ∷ ts) us = omega (arith, frame_tasks-append ts us)
frame_tasks-append (frame_end ∷ ts) us = omega (arith, frame_tasks-append ts us)
frame_tasks-append (closing g ps ∷ ts) us = frame_tasks-append ts us

-- What holds also where the window is about to be shut down.
pub record Loose (s : HostWindow) : Type 0 where
  pub one_task : frame_tasks s.ui ≤ 1
  pub bounded : s.frame_generation ≤ u64_max
  pub focus_shown : s.focused ≡ true → s.visible ≡ true

-- What holds before a frame is armed.
pub record Ready (s : HostWindow) : Type 0 where
  pub loose : Loose s
  pub armed_shown : s.frame_armed ≡ true → can_frame s ≡ true
  pub armed_wanted : s.frame_armed ≡ true → s.frame_demand ≡ true
  pub armed_alone : s.frame_armed ≡ true → s.frame_delivering ≡ false
  pub task_delivers : s.running ≡ true → frame_tasks s.ui ≡ (if s.frame_delivering then 1 else 0)
  pub pointers_shown : 0 < length s.active_pointers → (s.running ≡ true) × (s.visible ≡ true)

-- A frame that is wanted, where one can be shown, is armed or under way.
abbrev pub Served : HostWindow → Type 0
Served s = can_frame s ≡ true → s.frame_demand ≡ true → (s.frame_armed || s.frame_delivering) ≡ true

pub record Steady (s : HostWindow) : Type 0 where
  pub ready : Ready s
  pub served : Served s
