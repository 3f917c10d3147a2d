-- ===== src/Input/Arena/Tests.antt =====
-- Three recognisers compete for pointer 1. The callback of the second one throws.
use dui.Base.Assoc.{erase_first, find, erase, put, contains, without}
use dui.Input.Arena.{
  reject, reject_members, ArenaState, Notice, accepted, rejected, Arena, init, add, close, accept,
  sweep, resolve, resolve_winner, sweep_members, deliver,
}
use dui.Input.Arena.Verdicts.{tally}
use dui.Input.Arena.Invariant.{Inv}
use dui.Input.Arena.History.{
  Call, adds, closes, sweeps, accepts, rejects, perform, run, run-Inv, run_conserves, held,
  admitted,
}
use dui.Input.Arena.Winner.{accept-close}
use dui.Base.{
  ◌+◌, ◌≤◌, ◌≡◌, refl, subst, false, Option, none, some, List, [], ◌∷◌, ◌==◌, if◌then◌else◌,
}
use dui.Base.Outcome.{throw, Error, runtime_error}

abbrev faulty : Notice → Option Error
faulty (accepted p m) = none
faulty (rejected p m) = if m == 20 then some runtime_error else none

abbrev joined : List Call
joined = adds 1 (some 10) ∷ adds 1 (some 20) ∷ adds 1 (some 30) ∷ []

abbrev history : List Call
history =
    adds 1 (some 10)
    ∷ adds 1 (some 20)
    ∷ adds 1 (some 20)
    ∷ accepts 1 20
    ∷ rejects 1 20
    ∷ closes 1
    ∷ []

abbrev contested : ArenaState
contested = record { closed = false; members = 10 ∷ 20 ∷ 30 ∷ []; eager_winner = none }

abbrev start : Arena
start = record { arenas = (1, contested) ∷ []; resolving = []; notices = [] }

abbrev decided : List Notice → Arena
decided told = record { arenas = []; resolving = []; notices = told }

joined-start : run faulty init joined ≡ start
unfolding run init perform add find erase put contains
joined-start = refl

start-Inv : Inv start
start-Inv = subst Inv joined-start (run-Inv faulty joined)

-- Both other members are told though a callback throws, and the exception comes out.
sweep_throws : sweep faulty 1 start ≡ (
  throw runtime_error,
  record {
    arenas = [];
    resolving = [];
    notices = accepted 1 10 ∷ rejected 1 20 ∷ rejected 1 30 ∷ [];
  },
)
unfolding sweep sweep_members resolve_winner resolve deliver find erase contains without
sweep_throws = refl

-- Member 30 accepts too late, 40 joins, 10 withdraws, and pointer 2 is contested and swept.
abbrev later : List Call
later =
    accepts 1 30 ∷ adds 2 (some 30) ∷ adds 1 (some 40) ∷ sweeps 2 ∷ rejects 1 10 ∷ accepts 1 40 ∷ []

accept-close_example :
    (close faulty 1 (run faulty (accept faulty 1 20 start).1 later)).1
    ≡ decided (accepted 2 30 ∷ rejected 1 10 ∷ accepted 1 20 ∷ rejected 1 30 ∷ rejected 1 40 ∷ [])
unfolding contains find erase without put run perform add accept reject sweep sweep_members
    resolve_winner resolve deliver erase_first reject_members
accept-close_example =
    accept-close faulty 1 start refl contested 20 later start-Inv refl refl refl refl refl

run-Inv_example : Inv (run faulty init history)
run-Inv_example = run-Inv faulty history

-- The second `adds` is refused; the member was told once and is gone.
run_conserves_example :
    (tally 1 20 (run faulty init history).notices + held 1 20 (run faulty init history)
      ≡ admitted faulty 1 20 init history)
    × (held 1 20 (run faulty init history) ≤ 1)
run_conserves_example = run_conserves faulty history 1 20
