-- ===== src/Wayland/Surface.antt =====
-- WaylandSurfaceState: the surface's configure, commit and frame
-- callback protocol. A commit is prepared, then submitted or discarded; every change of what it
-- would show advances the revision and drops it.
pub mod Scale
pub mod Invariant
pub mod Prepare
pub mod Protocol
pub mod Trace
pub mod Commits
mod Tests
use dui.Wayland.Commit.{
  Extent, extent_valid, extent_eq, Commit, scale_denominator, scaled_dimension, commit_valid,
  serial_eq, commit_eq,
}
use dui.Base.{
  bool_eq, ℕ, ◌+◌, ◌-◌, ◌*◌, ◌/◌, ◌%◌, Bool, true, false, ◌&&◌, ◌||◌, not, Option, none, some, leb,
  ltb, ◌==◌, if◌then◌else◌, is_some, i32_max, u32_max, u64_max, u64,
}
use dui.Base.Outcome.{
  M, Result, ok, throw, invalid_argument, overflow_error, ◌>>=◌, ◌>>◌, pure, get, modify, throw_if,
}

pub record Surface : Type 0 where
  pub desired_extent : Extent
  pub applied_extent : Extent
  pub staged_width : ℕ
  pub staged_height : ℕ
  pub desired_scale : ℕ
  pub applied_scale : ℕ
  pub pending_configure : Option ℕ
  pub prepared : Option Commit
  pub state_revision : ℕ
  pub next_commit_generation : ℕ
  pub frame_callback_generation : ℕ
  pub fractional_scale_supported : Bool
  pub initial_commit_started : Bool
  pub configured : Bool
  pub dirty : Bool
  pub frame_demand : Bool

-- The constructor, with the initial values of the members.
pub make : Extent → Bool → Result Surface
make initial fractional =
    if extent_valid initial
    then ok (record {
      desired_extent = initial;
      applied_extent = initial;
      staged_width = 0;
      staged_height = 0;
      desired_scale = scale_denominator;
      applied_scale = scale_denominator;
      pending_configure = none;
      prepared = none;
      state_revision = 1;
      next_commit_generation = 1;
      frame_callback_generation = 0;
      fractional_scale_supported = fractional;
      initial_commit_started = false;
      configured = false;
      dirty = false;
      frame_demand = false;
    })
    else throw invalid_argument

unfoldable pub begin_initial_commit : M Surface Bool
begin_initial_commit s =
    if s.initial_commit_started
    then (ok false, s)
    else (ok true, record s { initial_commit_started = true })

unfoldable pub receive_toplevel_configure : ℕ → ℕ → M Surface (Unit {0})
receive_toplevel_configure width height = do
  throw_if (ltb i32_max width || ltb i32_max height) invalid_argument
  modify (λ s. record s { staged_width = width; staged_height = height })

unfoldable pub advance_revision : M Surface (Unit {0})
advance_revision s =
    if s.state_revision == u64_max
    then (throw overflow_error, s)
    else (ok tt, record s { state_revision = s.state_revision + 1; prepared = none })

-- The assignments of receive_surface_configure.
adopt_configure : ℕ → Surface → Surface
adopt_configure serial s = record s {
  desired_extent = record {
    width = if s.staged_width == 0 then s.desired_extent.width else s.staged_width;
    height = if s.staged_height == 0 then s.desired_extent.height else s.staged_height;
  };
  staged_width = 0;
  staged_height = 0;
  pending_configure = some serial;
  dirty = true;
}

unfoldable pub receive_surface_configure : ℕ → M Surface (Unit {0})
unfolding advance_revision adopt_configure
receive_surface_configure serial s =
    if not s.initial_commit_started
    then (throw invalid_argument, s)
    else (advance_revision >> modify (adopt_configure serial)) s

unfoldable pub set_preferred_scale : ℕ → M Surface (Unit {0})
unfolding advance_revision
set_preferred_scale numerator s =
    if numerator == 0
    then (throw invalid_argument, s)
    else if s.desired_scale == numerator
    then (ok tt, s)
    else (advance_revision
          >> modify (λ t. record t {
            desired_scale = numerator;
            dirty = t.configured || is_some t.pending_configure || t.dirty;
          }))
        s

unfoldable pub request_frame : M Surface (Unit {0})
request_frame = modify (λ s. record s { frame_demand = true })

unfoldable pub buffer_lost : M Surface (Unit {0})
unfolding advance_revision
buffer_lost s =
    if not s.configured && not (is_some s.pending_configure)
    then (ok tt, s)
    else (advance_revision >> modify (λ t. record t { dirty = true })) s

-- The scale that a commit applies: rounded up to whole steps without fractional scaling.
pub effective_scale : Bool → ℕ → ℕ
effective_scale fractional desired =
    if fractional
    then desired
    else u64 ((desired + scale_denominator - 1) / scale_denominator * scale_denominator)

pub integer_scale : ℕ → ℕ
integer_scale effective = u64 (effective + scale_denominator - 1) / scale_denominator

pub checked_buffer_dimension : ℕ → ℕ → Result ℕ
unfolding scaled_dimension
checked_buffer_dimension logical numerator =
    let rounded = scaled_dimension logical numerator in
    if rounded == 0 || ltb i32_max rounded then throw overflow_error else ok rounded

-- The guards of prepare_commit that return no commit.
can_request_frame : Surface → Bool
can_request_frame s = s.frame_demand && s.frame_callback_generation == 0

pub nothing_to_commit : Surface → Bool
unfolding can_request_frame
nothing_to_commit s =
    not s.initial_commit_started
    || (not s.configured && not (is_some s.pending_configure))
    || is_some s.prepared
    || (not s.dirty && not (is_some s.pending_configure) && not (can_request_frame s))

-- The commit that prepare_commit fills in, given its two scales and its buffer's dimensions.
pub commit_of : Surface → ℕ → ℕ → ℕ → Commit
unfolding can_request_frame integer_scale
commit_of s effective buffer_width buffer_height = record {
  generation = s.next_commit_generation;
  state_revision = s.state_revision;
  configure_serial = s.pending_configure;
  logical_extent = s.desired_extent;
  buffer_extent = record { width = buffer_width; height = buffer_height };
  buffer_scale = if s.fractional_scale_supported then 1 else integer_scale effective;
  scale_numerator = effective;
  use_viewporter = s.fractional_scale_supported;
  request_frame_callback = can_request_frame s;
}

-- The rest of prepare_commit once a generation is there to be used.
build_commit : M Surface (Option Commit)
build_commit = do
  s ← get
  let effective = effective_scale s.fractional_scale_supported s.desired_scale
  throw_if (ltb u32_max effective) overflow_error
  throw_if (ltb u32_max (integer_scale effective)) overflow_error
  width ← λ t. (checked_buffer_dimension s.desired_extent.width effective, t)
  height ← λ t. (checked_buffer_dimension s.desired_extent.height effective, t)
  let commit = commit_of s effective width height
  modify (λ t. record t {
    prepared = some commit;
    next_commit_generation = t.next_commit_generation + 1;
  })
  pure (some commit)

pub prepare_commit : M Surface (Option Commit)
prepare_commit s =
    if nothing_to_commit s
    then (ok none, s)
    else if s.next_commit_generation == u64_max
    then (throw overflow_error, s)
    else build_commit s

-- Whether `commit` is the one that stands prepared.
is_prepared : Option Commit → Commit → Bool
is_prepared none commit = false
is_prepared (some prepared) commit = commit_eq prepared commit

-- The assignments of submit_commit.
apply_commit : Commit → Surface → Surface
apply_commit commit s = record s {
  applied_extent = s.desired_extent;
  applied_scale = commit.scale_numerator;
  pending_configure = none;
  dirty = false;
  configured = true;
  frame_callback_generation =
      if commit.request_frame_callback then commit.generation else s.frame_callback_generation;
  frame_demand = if commit.request_frame_callback then false else s.frame_demand;
  prepared = none;
}

unfoldable pub submit_commit : Commit → M Surface Bool
unfolding is_prepared commit_eq apply_commit
submit_commit commit s =
    if not (is_prepared s.prepared commit) || not (commit.state_revision == s.state_revision)
    then (ok false, s)
    else (ok true, apply_commit commit s)

unfoldable pub discard_commit : Commit → M Surface Bool
unfolding is_prepared commit_eq
discard_commit commit s =
    if not (is_prepared s.prepared commit)
    then (ok false, s)
    else (ok true, record s { prepared = none; dirty = true })

unfoldable pub frame_done : ℕ → M Surface Bool
frame_done generation s =
    if generation == 0 || not (s.frame_callback_generation == generation)
    then (ok false, s)
    else (ok true, record s { frame_callback_generation = 0 })
