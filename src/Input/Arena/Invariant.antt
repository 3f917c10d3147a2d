-- ===== src/Input/Arena/Invariant.antt =====
-- What holds of every arena between two calls, and what a call may do to the arena of its pointer.
use dui.Base.Assoc.{find, erase, put, count, find-erase, find-put}
use dui.Input.Arena.{ArenaState, Notice, Arena}
use dui.Input.Arena.Verdicts.{tally}
use dui.Base.{
  ℕ, ◌+◌, ◌≤◌, ◌<◌, ◌≡◌, true, Option, none, some, List, [], ◌++◌, arith, ◌==◌, if◌then◌else◌,
  length,
}

abbrev pub IsMember : Option ℕ → List ℕ → Type 0
IsMember none ms = Unit
IsMember (some w) ms = 0 < count w ms

-- No member twice; the early winner is a member; a closed arena is contested.
pub record Contest (a : ArenaState) : Type 0 where
  pub single : (m : ℕ) → count m a.members ≤ 1
  pub eager : IsMember a.eager_winner a.members
  pub some_left : 0 < length a.members
  pub contested : a.closed ≡ true → (2 ≤ length a.members) × (a.eager_winner ≡ none)

abbrev pub MaybeContest : Option ArenaState → Type 0
MaybeContest none = Unit
MaybeContest (some a) = Contest a

abbrev pub Inv : Arena → Type 0
Inv s = (p : ℕ) → MaybeContest (find p s.arenas)

-- The notices account for the members that `xs` has and `ys` has not.
abbrev pub Settles : ℕ → List ℕ → List ℕ → List Notice → Type 0
Settles p xs ys ns =
    (q m : ℕ)
    → tally q m ns + (if p == q then count m ys else 0) ≡ (if p == q then count m xs else 0)

-- A call leaves everything as it was, ends the arena of its pointer, or goes on with another state.
pub data Effect (p : ℕ) (s t : Arena) : Type 0 where
  unchanged : t ≡ s → Effect p s t
  ended :
      (a : ArenaState) (ns : List Notice)
      → find p s.arenas ≡ some a
      → Settles p a.members [] ns
      → t ≡ record s { arenas = erase p s.arenas; notices = s.notices ++ ns }
      → Effect p s t
  goes_on :
      (a b : ArenaState) (ns : List Notice)
      → find p s.arenas ≡ some a
      → Contest b
      → Settles p a.members b.members ns
      → t ≡ record s { arenas = put p b s.arenas; notices = s.notices ++ ns }
      → Effect p s t

pub Effect-Inv : (p : ℕ) (s t : Arena) → Effect p s t → Inv s → Inv t
Effect-Inv p s t (unchanged e) v q = rw e (v q)
Effect-Inv p s t (ended a ns f h e) v q = rw (e, find-erase p q s.arenas) (ground (arith, v q))
Effect-Inv p s t (goes_on a b ns f c h e) v q =
    rw (e, find-put p q b s.arenas) (ground (arith, v q, c))
