-- ===== src/Raster/Thread/Tests.antt =====
-- Two frames are submitted; the first is being drawn when the thread is told to stop.
use dui.Base.{ℕ, ◌+◌, ◌≤◌, ◌≡◌, refl, true, false, none, [], ◌∷◌, ◌++◌, arith}
use dui.Base.Outcome.{invalid_argument, Result, ok, throw, runtime_error}
use dui.Base.Assoc.{count}
use dui.Raster.Thread.{
  make, presented, canceled, returned_it, drawing, Thread, init, submit, request_stop, work, start,
  finish, take_next,
}
use dui.Raster.Thread.Kept.{ids, drawn}
use dui.Raster.Thread.Reach.{
  Reachable, starts, submits, works, ticket_once, completes_in_order, stop_ends,
}

abbrev built : Result (Unit {0})
built = ok tt

abbrev first : Thread
first = (submit true init).1

abbrev second : Thread
second = (submit true first).1

abbrev busy : Thread
busy = work built (ok presented) (work built (ok presented) second)

busy-Reachable : Reachable busy
unfolding init submit
busy-Reachable = works (work built (ok presented) second) built (ok presented) (
    works second built (ok presented)
      (submits first true (submits init true starts (omega arith)) (omega arith)))

busy_eq : busy ≡ record {
  pending = 2 ∷ [];
  failure = none;
  next_frame = 3;
  rendering = true;
  stopping = false;
  worker = drawing 1;
  tickets = 1 ∷ 2 ∷ [];
  completions = [];
}
unfolding init submit work start take_next finish
busy_eq = refl

-- The frame being drawn is presented, and the other one canceled.
stopped :
    (work built (ok presented) (work built (ok presented) (request_stop busy))).completions
    ≡ (2, ok canceled) ∷ (1, ok presented) ∷ []
unfolding init submit work start take_next finish request_stop
stopped = refl

ticket_once_example :
    (count 2 (ids busy.completions) + count 2 (drawn busy.worker) + count 2 busy.pending
      ≡ count 2 busy.tickets)
    × (count 2 busy.tickets ≤ 1)
ticket_once_example = ticket_once busy busy-Reachable 2

completes_in_order_example :
    ids busy.completions ++ (drawn busy.worker ++ busy.pending) ≡ busy.tickets
unfolding init submit work start take_next
completes_in_order_example = completes_in_order busy busy-Reachable refl

abbrev idle : Thread
idle = work built (ok presented) (work built (ok presented) (work built (ok presented) busy))

stop_ends_example :
    let t = work built (ok presented) (work built (throw runtime_error) (request_stop busy)) in
    (t.worker ≡ returned_it) × ((id : ℕ) → count id (ids t.completions) ≡ count id busy.tickets)
stop_ends_example = stop_ends busy built built (throw runtime_error) (ok presented) busy-Reachable

no_factory : make true false ≡ throw invalid_argument
unfolding make
no_factory = refl
