-- ===== src/Raster/Thread.antt =====
-- RasterThread: clients submit frames, a worker draws them one by one, and a stop or a failure ends
-- it. Each critical section of the mutex is one step; what the worker does between two of them is
-- `draw`, of Raster.Draw. Layer trees and requests are left out of a submission: the checks of
-- submit on them are its argument. `tickets` are the ids that submit has returned, and `completions`
-- are the promises that were set, in order.
pub mod Kept
pub mod Invariant
pub mod Reach
mod Tests
use dui.Base.{
  ◌||◌, ℕ, ◌+◌, Bool, true, false, not, Option, none, some, List, [], ◌∷◌, ◌++◌, ◌==◌,
  if◌then◌else◌, u64, length,
}
use dui.Base.Outcome.{M, Result, ok, throw, Error, invalid_argument, logic_error}
use dui.Base.Assoc.{count}

pub data FrameOutcome : Type 0 where
  presented unavailable out_of_date canceled failed : FrameOutcome

-- Where the worker is: before the factory, at the wait for a submission, drawing one, or returned.
pub data Worker : Type 0 where
  starting waiting returned_it : Worker
  drawing : ℕ → Worker

pub record Thread : Type 0 where
  pub pending : List ℕ
  pub failure : Option Error
  pub next_frame : ℕ
  pub rendering : Bool
  pub stopping : Bool
  pub worker : Worker
  pub tickets : List ℕ
  pub completions : List (ℕ × Result FrameOutcome)

-- The constructor of Impl, with a surface and a renderer factory.
unfoldable pub init : Thread
init = record {
  pending = [];
  failure = none;
  next_frame = 1;
  rendering = false;
  stopping = false;
  worker = starting;
  tickets = [];
  completions = [];
}

-- The constructor's check of what it is given.
unfoldable pub make : Bool → Bool → Result Thread
unfolding init
make has_surface has_factory =
    if not has_surface || not has_factory then throw invalid_argument else ok init

unfoldable pub set_all : Result FrameOutcome → List ℕ → List (ℕ × Result FrameOutcome)
set_all outcome [] = []
set_all outcome (id ∷ ids) = (id, outcome) ∷ set_all outcome ids

-- cancel_pending and fail_pending.
unfoldable pub complete_pending : Result FrameOutcome → Thread → Thread
unfolding set_all
complete_pending outcome s = record s {
  completions = s.completions ++ set_all outcome s.pending;
  pending = [];
}

-- The id that submit takes, and the one after it: 0 is passed over.
unfoldable pub take_id : ℕ → ℕ × ℕ
take_id next =
    let after_it = u64 (next + 1) in
    if next == 0 then (after_it, u64 (after_it + 1)) else (next, after_it)

-- Impl::submit. `acceptable` is whether the layer tree has a root and the request is valid and of
-- its size.
unfoldable pub submit : Bool → M Thread ℕ
unfolding take_id
submit acceptable s = if not acceptable then (throw invalid_argument, s) else elim s.failure [
  | some e ↦ (throw e, s)
  | none ↦ if s.stopping then (throw logic_error, s) else (
    ok (take_id s.next_frame).0,
    record s {
      next_frame = (take_id s.next_frame).1;
      pending = s.pending ++ (take_id s.next_frame).0 ∷ [];
      tickets = s.tickets ++ (take_id s.next_frame).0 ∷ [];
    },
  )
]

-- Impl::request_stop.
unfoldable pub request_stop : Thread → Thread
unfolding complete_pending
request_stop s = record (complete_pending (ok canceled) s) { stopping = true }

-- The worker calls the factory, which returns a renderer or throws; null is a logic_error.
unfoldable pub start : Result (Unit {0}) → Thread → Thread
unfolding complete_pending
start (ok u) s = record s { worker = waiting }
start (throw e) s =
    record (complete_pending (throw e) (record s { failure = some e; stopping = true })) {
      worker = returned_it;
    }

-- The worker at its wait: none while it sleeps.
unfoldable pub take_next : Thread → Option Thread
take_next s = elim s.pending [
  | [] ↦ if s.stopping then some (record s { worker = returned_it }) else none
  | id ∷ ids ↦ some (record s { pending = ids; rendering = true; worker = drawing id })
]

-- What an exception leaves as the failure: the first one stays.
abbrev pub first_failure : Option Error → Error → Error
first_failure none e = e
first_failure (some f) e = f

-- The end of a round, for the submission and what drawing it gave or threw.
unfoldable pub finish : ℕ → Result FrameOutcome → Thread → Thread
unfolding complete_pending
finish id (ok outcome) s = record s {
  completions = s.completions ++ (id, ok outcome) ∷ [];
  rendering = false;
  worker = waiting;
}
finish id (throw e) s =
    let failure = first_failure s.failure e in
    let t = record s {
      failure = some failure;
      completions = s.completions ++ (id, throw failure) ∷ [];
    } in
    record (complete_pending (throw failure) t) {
      stopping = true;
      rendering = false;
      worker = returned_it;
    }

-- One step of the worker: what the factory and what the drawing give, if it is there, are arguments.
unfoldable pub work : Result (Unit {0}) → Result FrameOutcome → Thread → Thread
unfolding start take_next finish
work built drawn s = elim s.worker [
  | starting ↦ start built s
  | waiting ↦ elim (take_next s) [ none ↦ s | some t ↦ t ]
  | drawing id ↦ finish id drawn s
  | returned_it ↦ s
]

-- Impl::wait_idle, of another thread: none while it blocks.
unfoldable pub wait_idle : Thread → Option (Result (Unit {0}))
wait_idle s = elim s.pending [
  | id ∷ ids ↦ none
  | [] ↦
      if s.rendering then none else elim s.failure [ none ↦ some (ok tt) | some e ↦ some (throw e) ]
]

-- Impl::pending_count.
unfoldable pub pending_count : Thread → ℕ
pending_count s = length s.pending + (if s.rendering then 1 else 0)
