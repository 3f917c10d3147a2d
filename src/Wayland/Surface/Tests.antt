-- ===== src/Wayland/Surface/Tests.antt =====
-- A surface of 640 by 480 at scale 1.5 without fractional scaling: it is configured, drawn at
-- scale 2, and presented.
use dui.Base.{◌≡◌, refl, true, false, none, some, List, [], ◌∷◌, arith}
use dui.Base.Outcome.{ok, invalid_argument}
use dui.Wayland.Surface.Protocol.{
  Call, begin, demand, prepare, configure, scale, complete, submit, perform, perform-Inv, run,
  committed, configured, framed,
}
use dui.Wayland.Surface.Invariant.{Inv, make-Inv}
use dui.Wayland.Surface.Prepare.{Prepares, prepare-Prepares, with_prepared}
use dui.Wayland.Surface.Trace.{Traffic, run-Traffic}
use dui.Wayland.Surface.Commits.{submit_applies, prepare_returns, perform_throw_unchanged}
use dui.Wayland.Commit.{extent_valid, Extent, Commit}
use dui.Wayland.Surface.{
  Surface, make, begin_initial_commit, request_frame, prepare_commit, build_commit,
  receive_surface_configure, set_preferred_scale, frame_done, commit_of, nothing_to_commit,
  integer_scale, checked_buffer_dimension, effective_scale, submit_commit,
}

abbrev extent : Extent
extent = record { width = 640; height = 480 }

abbrev new_surface : Surface
new_surface = record {
  desired_extent = extent;
  applied_extent = extent;
  staged_width = 0;
  staged_height = 0;
  desired_scale = 120;
  applied_scale = 120;
  pending_configure = none;
  prepared = none;
  state_revision = 1;
  next_commit_generation = 1;
  frame_callback_generation = 0;
  fractional_scale_supported = false;
  initial_commit_started = false;
  configured = false;
  dirty = false;
  frame_demand = false;
}

made : make extent false ≡ ok new_surface
unfolding make extent_valid
made = refl

abbrev commit : Commit
commit = record {
  generation = 1;
  state_revision = 3;
  configure_serial = some 7;
  logical_extent = extent;
  buffer_extent = record { width = 1280; height = 960 };
  buffer_scale = 2;
  scale_numerator = 240;
  use_viewporter = false;
  request_frame_callback = true;
}

abbrev history : List Call
history = begin ∷ configure 7 ∷ scale 180 ∷ demand ∷ prepare ∷ submit commit ∷ complete 1 ∷ []

history_traffic : run new_surface history ≡ configured 7 ∷ committed commit ∷ framed 1 ∷ []
unfolding run perform begin_initial_commit request_frame prepare_commit build_commit commit_of
    nothing_to_commit integer_scale checked_buffer_dimension effective_scale
    receive_surface_configure set_preferred_scale frame_done submit_commit
history_traffic = refl

run-Traffic_example : Traffic none 0 1 (run new_surface history)
run-Traffic_example = run-Traffic extent false history made (omega arith)

abbrev drawn : Surface
drawn =
    (perform demand
      (perform (scale 180) (perform (configure 7) (perform begin new_surface).1).1).1).1

drawn-Inv : Inv drawn
drawn-Inv = perform-Inv demand tt (
    perform-Inv (scale 180) (omega arith)
      (perform-Inv (configure 7) tt (perform-Inv begin tt (make-Inv extent false made))))

prepare-Prepares_example : Prepares drawn (prepare_commit drawn)
prepare-Prepares_example = prepare-Prepares drawn-Inv

abbrev ready : Surface
ready = (perform prepare drawn).1

ready-prepared : ready.prepared ≡ some commit
unfolding perform begin_initial_commit request_frame prepare_commit build_commit commit_of
    nothing_to_commit integer_scale checked_buffer_dimension effective_scale
    receive_surface_configure set_preferred_scale
ready-prepared = refl

ready-Inv : Inv ready
ready-Inv = perform-Inv prepare tt drawn-Inv

submit_applies_example :
    let t = (submit_commit commit ready).1 in
    (t.applied_extent ≡ extent)
    × (t.applied_scale ≡ 240)
    × (t.pending_configure ≡ none)
    × (t.dirty ≡ false)
    × (t.configured ≡ true)
    × (t.prepared ≡ none)
    × (true ≡ true → t.frame_callback_generation ≡ 1)
submit_applies_example = submit_applies commit ready-Inv ready-prepared

prepare_returns_example :
    (c : Commit) × (prepare_commit drawn ≡ (ok (some c), with_prepared drawn c))
unfolding perform begin_initial_commit request_frame nothing_to_commit effective_scale
    receive_surface_configure set_preferred_scale
prepare_returns_example =
    prepare_returns drawn-Inv refl (omega arith) (omega arith) (omega arith) (omega arith)

perform_throw_unchanged_example : (perform (scale 0) ready).1 ≡ ready
unfolding perform set_preferred_scale
perform_throw_unchanged_example =
    perform_throw_unchanged (scale 0) {e = invalid_argument} ready-Inv refl
