-- ===== src/Wayland/Surface/Protocol.antt =====
-- The surface as a component: its calls, what each puts on the wire or takes from it, and the
-- protocol that any sequence of calls follows.
use dui.Base.{ℕ, ◌≤◌, List, [], ◌∷◌, ◌++◌, Bool, true, false, arith, u32_max}
use dui.Base.Outcome.{M, Result, ok, throw, ◌>>=◌, ◌>>◌, pure}
use dui.Wayland.Commit.{Commit}
use dui.Wayland.Surface.{
  Surface, begin_initial_commit, request_frame, buffer_lost, prepare_commit,
  receive_toplevel_configure, receive_surface_configure, set_preferred_scale, frame_done,
  submit_commit, discard_commit,
}
use dui.Wayland.Surface.Prepare.{prepare-Inv}
use dui.Wayland.Surface.Invariant.{
  Inv, begin-Inv, request-Inv, lost-Inv, toplevel-Inv, configure-Inv, scale-Inv, done-Inv,
  submit-Inv, discard-Inv,
}

pub data Call : Type 0 where
  begin demand lose prepare : Call
  toplevel : ℕ → ℕ → Call
  configure scale complete : ℕ → Call
  submit discard : Commit → Call

-- What the compositor sees: a configure event that arrived, a commit, a frame callback that fired.
pub data Event : Type 0 where
  configured : ℕ → Event
  committed : Commit → Event
  framed : ℕ → Event

abbrev pub when : Bool → Event → List Event
when true e = e ∷ []
when false e = []

-- A call, with what it adds to the traffic.
unfoldable pub perform : Call → M Surface (List Event)
perform begin = do _ ← begin_initial_commit; pure []
perform demand = do request_frame; pure []
perform lose = do buffer_lost; pure []
perform prepare = do _ ← prepare_commit; pure []
perform (toplevel w h) = do receive_toplevel_configure w h; pure []
perform (configure n) = do receive_surface_configure n; pure (configured n ∷ [])
perform (scale n) = do set_preferred_scale n; pure []
perform (complete g) = do accepted ← frame_done g; pure (when accepted (framed g))
perform (submit c) = do accepted ← submit_commit c; pure (when accepted (committed c))
perform (discard c) = do _ ← discard_commit c; pure []

abbrev pub events : Result (List Event) → List Event
events (ok es) = es
events (throw e) = []

-- The traffic of a history; an exception ends its call and not the history.
unfoldable pub run : Surface → List Call → List Event
run s [] = []
run s (c ∷ cs) = events (perform c s).0 ++ run (perform c s).1 cs

-- Arguments are std::uint32_t.
abbrev pub InRange : Call → Type 0
InRange (scale n) = n ≤ u32_max
InRange c = Unit

abbrev pub AllInRange : List Call → Type 0
AllInRange [] = Unit
AllInRange (c ∷ cs) = InRange c × AllInRange cs

pub perform-Inv : (c : Call) {s : Surface} → InRange c → Inv s → Inv (perform c s).1
unfolding perform
perform-Inv begin h v = ground (arith, begin-Inv v)
perform-Inv demand h v = ground (arith, request-Inv v)
perform-Inv lose h v = ground (arith, lost-Inv v)
perform-Inv prepare h v = ground (arith, prepare-Inv v)
perform-Inv (toplevel w k) h v = ground (arith, toplevel-Inv w k v)
perform-Inv (configure n) h v = ground (arith, configure-Inv n v)
perform-Inv (scale n) h v = ground (arith, scale-Inv n h v)
perform-Inv (complete g) h v = ground (arith, done-Inv g v)
perform-Inv (submit c) h v = ground (arith, submit-Inv c v)
perform-Inv (discard c) h v = ground (arith, discard-Inv c v)
