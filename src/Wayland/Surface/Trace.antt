-- ===== src/Wayland/Surface/Trace.antt =====
-- The protocol between the surface and the compositor, as a predicate on the traffic.
use dui.Base.{
  ℕ, ◌+◌, ◌≤◌, ◌<◌, ◌≡◌, Bool, true, Option, none, some, List, [], ◌∷◌, ◌++◌, arith, if◌then◌else◌,
}
use dui.Base.Outcome.{ok}
use dui.Wayland.Surface.Protocol.{
  Call, Event, begin, demand, lose, prepare, toplevel, configure, scale, complete, submit, discard,
  configured, committed, framed, perform, events, run, InRange, AllInRange, perform-Inv,
}
use dui.Wayland.Surface.Invariant.{Inv, make-Inv}
use dui.Wayland.Surface.Prepare.{prepare-Prepares}
use dui.Wayland.Commit.{Extent, commit_valid}
use dui.Wayland.Surface.{
  ℕ, Option, Surface, make, begin_initial_commit, request_frame, buffer_lost,
  receive_toplevel_configure, receive_surface_configure, set_preferred_scale, frame_done,
  submit_commit, discard_commit,
}

-- `serial` is the configure that no commit has acknowledged yet, `callback` the generation whose
-- frame callback is outstanding (0 for none), and commits to come are no older than `low`.
-- A commit is valid, acknowledges exactly the pending configure, is newer than every earlier one,
-- and asks for a callback only when none is outstanding; a callback fires for the outstanding one.
abbrev pub Traffic : Option ℕ → ℕ → ℕ → List Event → Type 0
Traffic serial callback low [] = Unit
Traffic serial callback low (configured n ∷ es) = Traffic (some n) callback low es
Traffic serial callback low (framed g ∷ es) = (0 < g) × (callback ≡ g) × Traffic serial 0 low es
Traffic serial callback low (committed c ∷ es) =
    (commit_valid c ≡ true)
    × (c.configure_serial ≡ serial)
    × (low ≤ c.generation)
    × (c.request_frame_callback ≡ true → callback ≡ 0)
    × Traffic none (if c.request_frame_callback then c.generation else callback) (c.generation + 1)
        es

Traffic-mono :
    (p : Option ℕ) (g m n : ℕ) (es : List Event) → m ≤ n → Traffic p g n es → Traffic p g m es
Traffic-mono p g m n [] h t = tt
Traffic-mono p g m n (configured k ∷ es) h t = Traffic-mono (some k) g m n es h t
Traffic-mono p g m n (framed k ∷ es) h t = (t.0, t.1, Traffic-mono p 0 m n es h t.2)
Traffic-mono p g m n (committed c ∷ es) h t = (t.0, t.1, omega arith, t.3, t.4)

-- No later commit is older.
abbrev floor : Surface → ℕ
floor s = elim s.prepared [ none ↦ s.next_commit_generation | some c ↦ c.generation ]

abbrev Follows : Surface → List Event → Type 0
Follows s es = Traffic s.pending_configure s.frame_callback_generation (floor s) es

-- What comes after the call follows from the state that it leaves; then all does.
perform-Follows :
    (c : Call) (s : Surface) (es : List Event)
    → InRange c
    → Inv s
    → Follows (perform c s).1 es
    → Follows s (events (perform c s).0 ++ es)
unfolding perform begin_initial_commit request_frame buffer_lost receive_toplevel_configure
    receive_surface_configure set_preferred_scale frame_done submit_commit discard_commit
perform-Follows begin s es h v t = ground arith
perform-Follows demand s es h v t = ground arith
perform-Follows lose s es h v t = ground (
  arith,
  Traffic-mono s.pending_configure s.frame_callback_generation (floor s) s.next_commit_generation
      es,
)
perform-Follows prepare s es h v t = ground (
  arith,
  prepare-Prepares v,
  Traffic-mono s.pending_configure s.frame_callback_generation (floor s) s.next_commit_generation
      es,
)
perform-Follows (toplevel w k) s es h v t = ground arith
perform-Follows (configure n) s es h v t =
    ground (
      arith,
      Traffic-mono (some n) s.frame_callback_generation (floor s) s.next_commit_generation es,
    )
perform-Follows (scale n) s es h v t = ground (
  arith,
  Traffic-mono s.pending_configure s.frame_callback_generation (floor s) s.next_commit_generation
      es,
)
perform-Follows (complete g) s es h v t = ground arith
perform-Follows (submit c) s es h v t = ground arith
perform-Follows (discard c) s es h v t = ground (
  arith,
  Traffic-mono s.pending_configure s.frame_callback_generation (floor s) s.next_commit_generation
      es,
)

run-Follows : (s : Surface) (cs : List Call) → Inv s → AllInRange cs → Follows s (run s cs)
unfolding run
run-Follows s [] v h = tt
run-Follows s (c ∷ cs) v h =
    perform-Follows c s (run (perform c s).1 cs) h.0 v
      (run-Follows (perform c s).1 cs (perform-Inv c h.0 v) h.1)

make-Follows :
    (e : Extent) (f : Bool) {s : Surface} (es : List Event)
    → make e f ≡ ok s
    → Follows s es
    → Traffic none 0 1 es
unfolding make
make-Follows e f es m t = ground arith

-- Whatever the calls and their order, with arguments in the range of their types: the traffic of a
-- new surface follows the protocol.
pub run-Traffic :
    (e : Extent) (f : Bool) {s : Surface} (cs : List Call)
    → make e f ≡ ok s
    → AllInRange cs
    → Traffic none 0 1 (run s cs)
run-Traffic e f {s} cs m h = make-Follows e f (run s cs) m (run-Follows s cs (make-Inv e f m) h)
