-- ===== src/Input/Arena.antt =====
-- GestureArena: the members that compete for a pointer, and how one of them comes to win it.
-- A member is known by a number (its address); nullptr is `none`. The callbacks are a parameter that
-- says which of them throw; the notices that they get are kept in the order in which they are sent.
pub mod Invariant
pub mod Verdicts
pub mod Calls
pub mod Additions
pub mod History
pub mod Eager
pub mod Winner
mod Tests
use dui.Base.Assoc.{erase_first, find, erase, put, contains, without}
use dui.Base.{
  ℕ, Bool, true, false, ◌||◌, not, Option, none, some, List, [], ◌∷◌, ◌++◌, map, ◌==◌,
  if◌then◌else◌, is_some, length,
}
use dui.Base.Outcome.{M, Result, ok, throw, Error, invalid_argument, logic_error}

pub record ArenaState : Type 0 where
  pub closed : Bool
  pub members : List ℕ
  pub eager_winner : Option ℕ

-- accept_gesture and reject_gesture, by pointer and member.
pub data Notice : Type 0 where
  accepted rejected : ℕ → ℕ → Notice

pub record Arena : Type 0 where
  pub arenas : List (ℕ × ArenaState)
  pub resolving : List ℕ
  pub notices : List Notice

pub init : Arena
init = record { arenas = []; resolving = []; notices = [] }

abbrev new_state : ArenaState
new_state = record { closed = false; members = []; eager_winner = none }

-- `storage->arenas[pointer]`.
abbrev state_or_new : Option ArenaState → ArenaState
state_or_new none = new_state
state_or_new (some a) = a

unfoldable pub add : ℕ → Option ℕ → M Arena (Unit {0})
add pointer none s = (throw invalid_argument, s)
add pointer (some member) s =
    if contains pointer s.resolving
    then (throw logic_error, s)
    else let arena = state_or_new (find pointer s.arenas) in
      let t = record s { arenas = put pointer arena s.arenas } in
      if arena.closed || contains member arena.members then (throw logic_error, t) else (
        ok tt,
        record s {
          arenas = put pointer (record arena { members = arena.members ++ member ∷ [] }) s.arenas;
        },
      )

-- `if (failure != nullptr) std::rethrow_exception(failure);`
abbrev rethrow : Option Error → Result (Unit {0})
rethrow none = ok tt
rethrow (some e) = throw e

-- `if (failure == nullptr) failure = std::current_exception();`
abbrev first_failure : Option Error → Option Error → Option Error
first_failure none thrown = thrown
first_failure (some e) thrown = some e

abbrev pub is_winner : Option ℕ → ℕ → Bool
is_winner none member = false
is_winner (some w) member = w == member

-- What reject leaves of an arena that goes on.
abbrev pub left_of : ArenaState → Bool → List ℕ → ArenaState
left_of arena was_eager members = record arena {
  members = members;
  eager_winner = if was_eager then none else arena.eager_winner;
}

module _ (throws : Notice → Option Error) where
  -- The callbacks in turn, each in its own try block.
  deliver : List Notice → Option Error → List Notice → Option Error × List Notice
  deliver [] failure sent = (failure, sent)
  deliver (n ∷ ns) failure sent = deliver ns (first_failure failure (throws n)) (sent ++ n ∷ [])

  -- The callbacks with the pointer among those being resolved; the first failure is thrown again.
  pub resolve : ℕ → List Notice → M Arena (Unit {0})
  resolve pointer ns s =
      let t = record s { resolving = pointer ∷ s.resolving } in
      let (failure, sent) = deliver ns none t.notices in
      (rethrow failure, record t { resolving = without pointer t.resolving; notices = sent })

  pub resolve_winner : ℕ → ℕ → M Arena (Unit {0})
  resolve_winner pointer winner s = elim (find pointer s.arenas) [
    | none ↦ (ok tt, s)
    | some arena ↦
        resolve pointer
          (accepted pointer winner ∷ map (rejected pointer) (without winner arena.members))
          (record s { arenas = erase pointer s.arenas })
  ]

  -- The first member, of a list that has one.
  close_members : ℕ → List ℕ → M Arena (Unit {0})
  close_members pointer [] s = (ok tt, record s { arenas = erase pointer s.arenas })
  close_members pointer (m ∷ []) s = resolve_winner pointer m s
  close_members pointer (m ∷ n ∷ ms) s = (ok tt, s)

  pub close : ℕ → M Arena (Unit {0})
  close pointer s =
      if contains pointer s.resolving then (ok tt, s) else elim (find pointer s.arenas) [
        | none ↦ (ok tt, s)
        | some arena ↦
            let t = record s { arenas = put pointer (record arena { closed = true }) s.arenas } in
            elim arena.eager_winner [
              | some winner ↦ resolve_winner pointer winner t
              | none ↦ close_members pointer arena.members t
            ]
      ]

  pub accept : ℕ → ℕ → M Arena (Unit {0})
  accept pointer member s =
      if contains pointer s.resolving then (ok tt, s) else elim (find pointer s.arenas) [
        | none ↦ (ok tt, s)
        | some arena ↦
            if not (contains member arena.members)
            then (ok tt, s)
            else if not arena.closed
            then if is_some arena.eager_winner then (ok tt, s) else (
              ok tt,
              record s {
                arenas = put pointer (record arena { eager_winner = some member }) s.arenas;
              },
            )
            else resolve_winner pointer member s
      ]

  -- The arena without the member, and who is told: the member, and the last one standing if closed.
  reject_members : ℕ → ℕ → ArenaState → Bool → List ℕ → M Arena (Unit {0})
  reject_members pointer member arena was_eager [] s =
      resolve pointer (rejected pointer member ∷ []) (record s { arenas = erase pointer s.arenas })
  reject_members pointer member arena was_eager (m ∷ []) s =
      if arena.closed
      then resolve pointer (rejected pointer member ∷ accepted pointer m ∷ [])
          (record s { arenas = erase pointer s.arenas })
      else resolve pointer (rejected pointer member ∷ [])
          (record s { arenas = put pointer (left_of arena was_eager (m ∷ [])) s.arenas })
  reject_members pointer member arena was_eager (m ∷ n ∷ ms) s =
      resolve pointer (rejected pointer member ∷ [])
        (record s { arenas = put pointer (left_of arena was_eager (m ∷ n ∷ ms)) s.arenas })

  pub reject : ℕ → ℕ → M Arena (Unit {0})
  reject pointer member s =
      if contains pointer s.resolving then (ok tt, s) else elim (find pointer s.arenas) [
        | none ↦ (ok tt, s)
        | some arena ↦
            if not (contains member arena.members)
            then (ok tt, s)
            else reject_members pointer member arena (is_winner arena.eager_winner member)
                (erase_first member arena.members) s
      ]

  sweep_members : ℕ → List ℕ → M Arena (Unit {0})
  sweep_members pointer [] s = (ok tt, record s { arenas = erase pointer s.arenas })
  sweep_members pointer (m ∷ ms) s = resolve_winner pointer m s

  pub sweep : ℕ → M Arena (Unit {0})
  sweep pointer s =
      if contains pointer s.resolving then (ok tt, s) else elim (find pointer s.arenas) [
        | none ↦ (ok tt, s)
        | some arena ↦ sweep_members pointer arena.members s
      ]

  pub cancel : ℕ → M Arena (Unit {0})
  cancel pointer s =
      if contains pointer s.resolving then (ok tt, s) else elim (find pointer s.arenas) [
        | none ↦ (ok tt, s)
        | some arena ↦
            resolve pointer (map (rejected pointer) arena.members)
              (record s { arenas = erase pointer s.arenas })
      ]

pub member_count : ℕ → Arena → ℕ
member_count pointer s = elim (find pointer s.arenas) [ none ↦ 0 | some a ↦ length a.members ]
