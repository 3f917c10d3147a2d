-- ===== src/Host/Frames/Calls.antt =====
-- The parts of the calls keep what holds of the frames.
use dui.Host.{
  Notice, UiTask, closing, PlatformTask, control, ControlCall, HostWindow, Posts, can_frame,
  arm_frame_locked, invalidate_frame_locked, post_ui, complete_platform_shutdown,
  schedule_platform_shutdown, next_generation, close, stop, shutdown, post_frame_control,
  take_exhausted, control_or_shutdown,
}
use dui.Base.{
  if_holds_when, if_holds, if_pos, if_neg, ℕ, ◌<◌, ◌≡◌, refl, sym, subst, ◌∙◌, inl, inr, Bool, true,
  false, ◌&&◌, ◌||◌, not, Option, none, some, List, [], ◌∷◌, ◌++◌, arith, ◌==◌, if◌then◌else◌,
  Bool-cases, length,
}
use dui.Host.Frames.{frame_tasks, frame_tasks-append, Loose, Ready, Served, Steady}

pub arm-Ready : (s : HostWindow) → Ready s → Ready (arm_frame_locked s).1
unfolding arm_frame_locked can_frame
arm-Ready s h = record {
  loose = record {
    one_task = ground (arith, h.loose.one_task);
    bounded = ground (arith, h.loose.bounded);
    focus_shown = ground (arith, h.loose.focus_shown);
  };
  armed_shown = ground (arith, h.armed_shown);
  armed_wanted = ground (arith, h.armed_wanted);
  armed_alone = ground (arith, h.armed_alone);
  task_delivers = ground (arith, h.task_delivers);
  pointers_shown = ground (arith, h.pointers_shown);
}

pub arm-Served :
    (s : HostWindow)
    → (arm_frame_locked s).1.frame_generation_exhausted ≡ false
    → Served (arm_frame_locked s).1
unfolding arm_frame_locked can_frame
arm-Served s h = ground (arith, h)

pub invalidate-Ready :
    (s : HostWindow)
    → Loose s
    → (s.running ≡ true → frame_tasks s.ui ≡ (if s.frame_delivering then 1 else 0))
    → (0 < length s.active_pointers → (s.running ≡ true) × (s.visible ≡ true))
    → Ready (invalidate_frame_locked s)
unfolding invalidate_frame_locked can_frame
invalidate-Ready s h t p = record {
  loose = record {
    one_task = ground (arith, h.one_task);
    bounded = ground (arith, h.bounded);
    focus_shown = ground (arith, h.focus_shown);
  };
  armed_shown = ground arith;
  armed_wanted = ground arith;
  armed_alone = ground arith;
  task_delivers = ground (arith, t);
  pointers_shown = ground (arith, p);
}

-- The fields that say nothing of frames.
module _ (s : HostWindow) (deliver ui_pending pending done has exhausted : Bool)
    (metrics generation delegate sequence : ℕ) (last : Option ℕ) (platform : List PlatformTask)
    (notices : List Notice) (calls : List ControlCall) where
  abbrev Retagged : HostWindow
  Retagged = record s {
    deliver_queued_events = deliver;
    shutdown_ui_pending = ui_pending;
    platform_shutdown_pending = pending;
    platform_shutdown_complete = done;
    has_delegate = has;
    frame_generation_exhausted = exhausted;
    metrics = metrics;
    metrics_generation = generation;
    delegate_generation = delegate;
    next_frame_sequence = sequence;
    last_frame_timestamp = last;
    platform = platform;
    notices = notices;
    calls = calls;
  }

  pub retag-Ready : Ready s → Ready Retagged
  unfolding can_frame
  retag-Ready h = record {
    loose = record {
      one_task = h.loose.one_task;
      bounded = h.loose.bounded;
      focus_shown = h.loose.focus_shown;
    };
    armed_shown = h.armed_shown;
    armed_wanted = h.armed_wanted;
    armed_alone = h.armed_alone;
    task_delivers = h.task_delivers;
    pointers_shown = h.pointers_shown;
  }

  pub retag-Steady : Steady s → Steady Retagged
  unfolding can_frame
  retag-Steady h = record { ready = retag-Ready h.ready; served = h.served }

pub schedule-Steady :
    (p : Posts) (s : HostWindow) → Steady s → Steady (schedule_platform_shutdown p s)
unfolding schedule_platform_shutdown complete_platform_shutdown
schedule-Steady p s h =
    if_holds Steady (s.platform_shutdown_complete || s.platform_shutdown_pending) h (
      if_holds Steady p.inline
        (if_holds Steady s.platform_shutdown_complete (retag-Steady s _ _ _ _ _ _ _ _ _ _ _ _ _ _ h)
          (retag-Steady s _ _ _ _ _ _ _ _ _ _ _ _ _ _ h))
        (if_holds Steady p.closing_platform (retag-Steady s _ _ _ _ _ _ _ _ _ _ _ _ _ _ h)
          (retag-Steady s _ _ _ _ _ _ _ _ _ _ _ _ _ _ h)))

-- The part of `shutdown` under the lock.
pub stop-Steady : (s : HostWindow) → Loose s → Steady (stop s)
unfolding stop can_frame
stop-Steady s h = record {
  ready = record {
    loose = record {
      one_task = h.one_task;
      bounded = ground (arith, h.bounded);
      focus_shown = h.focus_shown;
    };
    armed_shown = ground arith;
    armed_wanted = ground arith;
    armed_alone = ground arith;
    task_delivers = ground arith;
    pointers_shown = ground arith;
  };
  served = ground arith;
}

pub post_ui-Ready :
    (task : UiTask) (s : HostWindow)
    → frame_tasks (task ∷ []) ≡ 0
    → Ready s
    → Ready (post_ui task s)
unfolding post_ui can_frame
post_ui-Ready task s e h = record {
  loose = record {
    one_task = omega (arith, e, h.loose.one_task, frame_tasks-append s.ui (task ∷ []));
    bounded = h.loose.bounded;
    focus_shown = h.loose.focus_shown;
  };
  armed_shown = h.armed_shown;
  armed_wanted = h.armed_wanted;
  armed_alone = h.armed_alone;
  task_delivers = λ r. frame_tasks-append s.ui (task ∷ []) ∙ omega (arith, e, h.task_delivers r);
  pointers_shown = h.pointers_shown;
}

pub post_ui-Served : (task : UiTask) (s : HostWindow) → Served s → Served (post_ui task s)
unfolding post_ui can_frame
post_ui-Served task s h = h

pub post_ui-exhausted :
    (task : UiTask) (s : HostWindow)
    → (post_ui task s).frame_generation_exhausted ≡ false
    → s.frame_generation_exhausted ≡ false
unfolding post_ui
post_ui-exhausted task s h = h

pub post_ui-Steady :
    (task : UiTask) (s : HostWindow)
    → frame_tasks (task ∷ []) ≡ 0
    → Steady s
    → Steady (post_ui task s)
unfolding post_ui can_frame
post_ui-Steady task s e h = record { ready = post_ui-Ready task s e h.ready; served = h.served }

pub close-Steady :
    (p : Posts) (generation : ℕ) (s : HostWindow) → Steady s → Steady (close p generation s)
unfolding close
close-Steady p generation s h =
    let t = record s { deliver_queued_events = false; shutdown_ui_pending = false } in
    schedule-Steady p
      (if t.delegate_generation == generation
        then record t {
          has_delegate = false;
          delegate_generation = next_generation t.delegate_generation;
        }
        else t)
      (if_holds Steady (t.delegate_generation == generation)
        (retag-Steady s _ _ _ _ _ _ _ _ _ _ _ _ _ _ h)
        (retag-Steady s _ _ _ _ _ _ _ _ _ _ _ _ _ _ h))

-- A window that runs is brought to a stop whatever its frames are.
pub shutdown_running-Steady :
    (p : Posts) (s : HostWindow) → s.running ≡ true → Loose s → Steady (shutdown p s)
unfolding shutdown frame_tasks
shutdown_running-Steady p s r h =
    if_holds_when Steady (not s.running) (λ stopped. absurd (ground (arith, r, stopped)))
      (λ runs.
        if_holds Steady p.closing_ui
          (post_ui-Steady (closing s.delegate_generation s.active_pointers) (stop s) refl
            (stop-Steady s h))
          (close-Steady p s.delegate_generation (stop s) (stop-Steady s h)))

-- A stopped window serves no frame.
idle-Steady : (s : HostWindow) → s.running ≡ false → Ready s → Steady s
unfolding can_frame
idle-Steady s r h = record { ready = h; served = ground (arith, r) }

pub shutdown-Steady : (p : Posts) (s : HostWindow) → Ready s → Steady (shutdown p s)
unfolding shutdown
shutdown-Steady p s h = elim (Bool-cases s.running) [
  | inl r ↦ shutdown_running-Steady p s r h.loose
  | inr r ↦
      if_holds_when Steady (not s.running)
        (λ stopped.
          if_holds Steady (not s.shutdown_ui_pending && not s.platform_shutdown_complete)
            (schedule-Steady p s (idle-Steady s r h)) (idle-Steady s r h))
        (λ runs. absurd (ground (arith, r, runs)))
]

-- Only the platform's queue changes.
pub posted :
    (p : Posts) (cancels : Bool) (generation : Option ℕ) (s : HostWindow)
    → (b : Bool) × (tasks : List PlatformTask) × (post_frame_control p cancels generation s
        ≡ (b, record s { platform = tasks }))
unfolding post_frame_control
posted p false none s = (true, s.platform, refl)
posted p true none s = elim (Bool-cases p.to_platform) [
  | inl taken ↦ (true, s.platform ++ control true none ∷ [], if_pos _ _ _ taken)
  | inr shut ↦ (false, s.platform, if_neg _ _ _ shut)
]
posted p false (some g) s = elim (Bool-cases p.to_platform) [
  | inl taken ↦ (true, s.platform ++ control false (some g) ∷ [], if_pos _ _ _ taken)
  | inr shut ↦ (false, s.platform, if_neg _ _ _ shut)
]
posted p true (some g) s = elim (Bool-cases p.to_platform) [
  | inl taken ↦ (true, s.platform ++ control true (some g) ∷ [], if_pos _ _ _ taken)
  | inr shut ↦ (false, s.platform, if_neg _ _ _ shut)
]

pub control_or_shutdown-Steady :
    (p : Posts) (cancels : Bool) (generation : Option ℕ) (s : HostWindow)
    → Ready s
    → (s.frame_generation_exhausted ≡ false → Served s)
    → Steady (control_or_shutdown p cancels generation s)
unfolding control_or_shutdown take_exhausted can_frame
control_or_shutdown-Steady p cancels generation s h v =
    let r = posted p cancels generation s in
    let sent = record s { platform = r.1 } in
    let kept = retag-Ready s _ _ _ _ _ _ _ _ _ _ _ r.1 _ _ h in
    subst
      (λ (q : Bool × HostWindow).
        let e = take_exhausted q.1 in
        Steady (if not q.0 then shutdown p q.1 else (if e.0 then shutdown p e.1 else e.1)))
      (sym r.2)
      (if_holds Steady (not r.0) (shutdown-Steady p sent kept) (
        if_holds_when Steady s.frame_generation_exhausted
          (λ out.
            shutdown-Steady p (take_exhausted sent).1
              (retag-Ready s _ _ _ _ _ false _ _ _ _ _ r.1 _ _ h))
          (λ fine. record {
            ready = retag-Ready s _ _ _ _ _ false _ _ _ _ _ r.1 _ _ h;
            served = v fine;
          })))
