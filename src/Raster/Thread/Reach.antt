-- ===== src/Raster/Thread/Reach.antt =====
-- The states that submissions, stops and the worker lead to, in any order.
use dui.Base.{
  ◌∙◌, ℕ, ◌+◌, ◌≤◌, ◌<◌, ◌≡◌, refl, ap, ◌↔◌, ◌⊎◌, Bool, true, false, some, [], ◌++◌, arith, u64_max,
}
use dui.Base.Outcome.{Result, throw, Error}
use dui.Base.Assoc.{count}
use dui.Raster.Thread.{
  FrameOutcome, starting, waiting, returned_it, drawing, Worker, Thread, init, submit, request_stop,
  work, wait_idle, start, finish, take_next,
}
use dui.Raster.Thread.Kept.{Inv, ids, drawn, is_drawing, init-Inv, submit-Inv, request_stop-Inv}
use dui.Raster.Thread.Invariant.{work-Inv}

-- Fewer than 2^64 ids are taken.
pub data Reachable : Thread → Type 0 where
  starts : Reachable init
  submits :
      (s : Thread) (acceptable : Bool)
      → Reachable s
      → s.next_frame < u64_max
      → Reachable (submit acceptable s).1
  stops : (s : Thread) → Reachable s → Reachable (request_stop s)
  works :
      (s : Thread) (built : Result (Unit {0})) (drawn_it : Result FrameOutcome)
      → Reachable s
      → Reachable (work built drawn_it s)

pub Reachable-Inv : (s : Thread) → Reachable s → Inv s
Reachable-Inv _ starts = init-Inv
Reachable-Inv _ (submits s acceptable r lt) = submit-Inv acceptable s lt (Reachable-Inv s r)
Reachable-Inv _ (stops s r) = request_stop-Inv s (Reachable-Inv s r)
Reachable-Inv _ (works s built drawn_it r) = work-Inv built drawn_it s (Reachable-Inv s r)

-- In every reachable state each id that submit returned was returned once, and its promise has been
-- set once or its frame is being drawn or waits, and only one of these; no other promise was set.
pub ticket_once :
    (s : Thread)
    → Reachable s
    → (id : ℕ)
    → (count id (ids s.completions) + count id (drawn s.worker) + count id s.pending
        ≡ count id s.tickets)
      × (count id s.tickets ≤ 1)
ticket_once s r id = ((Reachable-Inv s r).counted id, (Reachable-Inv s r).once id)

-- Until the thread is stopped or fails, the promises are set in the order of the submissions, that
-- of the frame being drawn is next, and those that wait come after it.
pub completes_in_order :
    (s : Thread)
    → Reachable s
    → s.stopping ≡ false
    → ids s.completions ++ (drawn s.worker ++ s.pending) ≡ s.tickets
completes_in_order s r going = (Reachable-Inv s r).in_order going

idle_counts :
    (s : Thread)
    → Inv s
    → s.pending ≡ []
    → drawn s.worker ≡ []
    → (id : ℕ) → count id (ids s.completions) ≡ count id s.tickets
idle_counts s v e d id =
    let p : count id s.pending ≡ 0 = ap (count id) e in
    let q : count id (drawn s.worker) ≡ 0 = ap (count id) d in omega (arith, v.counted id, p, q)

drawn_nothing : (w : Worker) → is_drawing w ≡ false → drawn w ≡ []
drawn_nothing starting h = refl
drawn_nothing waiting h = refl
drawn_nothing returned_it h = refl
drawn_nothing (drawing id) h = cc

wait_idle_cases :
    (s : Thread) {r : Result (Unit {0})}
    → wait_idle s ≡ some r
    → (s.pending ≡ [])
      × ((s.rendering ≡ false) × ((e : Error) → (r ≡ throw e) ↔ (s.failure ≡ some e)))
unfolding wait_idle
wait_idle_cases s h = (ground arith, (ground arith, λ e. ground arith))

-- Whenever wait_idle comes back, every promise has been set, and it throws exactly what the thread
-- has failed with.
pub wait_idle_completes :
    (s : Thread) {r : Result (Unit {0})}
    → Reachable s
    → wait_idle s ≡ some r
    → ((id : ℕ) → count id (ids s.completions) ≡ count id s.tickets)
      × ((e : Error) → (r ≡ throw e) ↔ (s.failure ≡ some e))
wait_idle_completes s {r} reach h =
    let v = Reachable-Inv s reach in
    let (empty, (still, answer)) = wait_idle_cases s h in
    (idle_counts s v empty (drawn_nothing s.worker (ground (arith, v.busy))), answer)

module _ (s : Thread) (v : Inv s) (h : s.stopping ≡ true) (built : Result (Unit {0}))
    (drawn_it : Result FrameOutcome) where
  work_stopping :
      ((work built drawn_it s).stopping ≡ true)
      × (((work built drawn_it s).worker ≡ waiting)
          ⊎ ((work built drawn_it s).worker ≡ returned_it))
  unfolding work start take_next finish
  work_stopping = ground (arith, v.stopped h)

  work_waiting :
      (s.worker ≡ waiting) ⊎ (s.worker ≡ returned_it) → (work built drawn_it s).worker ≡ returned_it
  unfolding work take_next
  work_waiting w = ground (arith, v.stopped h)

work_tickets :
    (built : Result (Unit {0})) (drawn_it : Result FrameOutcome) (s : Thread)
    → (work built drawn_it s).tickets ≡ s.tickets
unfolding work start take_next finish
work_tickets built drawn_it s = ground arith

-- From every reachable state: once the thread is told to stop, two steps of the worker bring it to
-- its end, whatever the factory and the drawing give, and then the
-- promise of every id that submit had returned has been set.
pub stop_ends :
    (s : Thread) (a c : Result (Unit {0})) (b d : Result FrameOutcome)
    → Reachable s
    → let t = work c d (work a b (request_stop s)) in
      (t.worker ≡ returned_it) × ((id : ℕ) → count id (ids t.completions) ≡ count id s.tickets)
stop_ends s a c b d r =
    let v = request_stop-Inv s (Reachable-Inv s r) in
    let u = work a b (request_stop s) in
    let w = work-Inv a b (request_stop s) v in
    let (stopping, where_it_is) =
      work_stopping (request_stop s) v (unfold request_stop in refl) a b in
    let ended = work_waiting u w stopping c d where_it_is in
    let x = work-Inv c d u w in
    let same : (work c d u).tickets ≡ s.tickets =
      work_tickets c d u ∙ (work_tickets a b (request_stop s) ∙ unfold request_stop in refl) in
    (
      ended,
      λ id.
          idle_counts (work c d u) x (x.stopped (x.ended ended)) (ap drawn ended) id
          ∙ ap (count id) same,
    )
