-- ===== src/Input/Arena/Winner.antt =====
-- Who wins: sweep, and the early winner.
use dui.Base.Assoc.{
  without_head, find, erase, put, contains, without, count, find-put, erase-put, without_head,
}
use dui.Input.Arena.{
  ArenaState, Notice, accepted, rejected, Arena, close, accept, sweep, resolve_winner,
  sweep_members,
}
use dui.Input.Arena.Verdicts.{resolve_lem}
use dui.Input.Arena.History.{Call, accepts, run, perform, perform-Inv}
use dui.Input.Arena.Eager.{IsLed, all_leave, run-IsLed}
use dui.Input.Arena.Invariant.{Inv}
use dui.Input.Arena.Calls.{contest}
use dui.Base.{
  [], ℕ, ◌≤◌, ◌≡◌, refl, subst, ◌∙◌, true, false, Option, none, some, List, ◌∷◌, ◌++◌, map, arith,
}
use dui.Base.Outcome.{Error}

abbrev members_of : Option ArenaState → List ℕ
members_of none = []
members_of (some a) = a.members

-- The members that compete for the pointer.
abbrev pub competing : ℕ → Arena → List ℕ
competing p s = members_of (find p s.arenas)

module _ (throws : Notice → Option Error) (p : ℕ) (s : Arena)
    (free : contains p s.resolving ≡ false) where
  resolve_winner_lem :
      (w : ℕ) (a : ArenaState)
      → find p s.arenas ≡ some a
      → (resolve_winner throws p w s).1 ≡ record s {
        arenas = erase p s.arenas;
        notices = s.notices ++ accepted p w ∷ map (rejected p) (without w a.members);
      }
  unfolding resolve_winner
  resolve_winner_lem w a f =
      rw (f, resolve_winner) (resolve_lem throws p _ (record s { arenas = erase p s.arenas }) free)

module _ (throws : Notice → Option Error) (p : ℕ) (s : Arena)
    (free : contains p s.resolving ≡ false) where
  close_early :
      (w : ℕ) (a : ArenaState)
      → find p s.arenas ≡ some a
      → a.eager_winner ≡ some w
      → (close throws p s).1 ≡ record s {
        arenas = erase p s.arenas;
        notices = s.notices ++ accepted p w ∷ map (rejected p) (without w a.members);
      }
  unfolding close
  close_early w a f g =
      let b = record a { closed = true } in
      let t = record s { arenas = put p b s.arenas } in
      let h : find p t.arenas ≡ some b = ground (arith, find-put p p b s.arenas) in
      rw (free, f, g, close)
        (resolve_winner_lem throws p t free w b h ∙ rw (erase-put p b s.arenas) refl)

  accept_early :
      (a : ArenaState) (m : ℕ)
      → find p s.arenas ≡ some a
      → a.closed ≡ false
      → a.eager_winner ≡ none
      → contains m a.members ≡ true
      → (accept throws p m s).1
        ≡ record s { arenas = put p (record a { eager_winner = some m }) s.arenas }
  unfolding accept
  accept_early a m f opened undecided here = ground arith

  -- sweep gives the pointer to the member that was added first, tells every other one, and ends the
  -- arena, whatever the callbacks throw.
  pub sweep_first :
      (a : ArenaState) (m : ℕ) (ms : List ℕ)
      → Inv s
      → find p s.arenas ≡ some a
      → a.members ≡ m ∷ ms
      → (sweep throws p s).1 ≡ record s {
        arenas = erase p s.arenas;
        notices = s.notices ++ accepted p m ∷ map (rejected p) ms;
      }
  unfolding sweep sweep_members
  sweep_first a m ms v f e =
      let one : count m (m ∷ ms) ≤ 1 =
        subst (λ xs. count m xs ≤ 1) e ((contest throws p s free a v f).single m) in
      let others : without m a.members ≡ ms = rw e (without_head m ms one) in
      rw (free, f, e, sweep) (resolve_winner_lem throws p s free m a f ∙ rw others refl)

module _ (throws : Notice → Option Error) (p : ℕ) (s : Arena)
    (free : contains p s.resolving ≡ false) where
  -- From any state that keeps the invariant of run-Inv, with the pointer not being resolved: the
  -- first member to accept while members may still join wins when the arena closes, whatever is
  -- called in between that neither ends the arena nor withdraws that member: members that join,
  -- others that accept after it or withdraw, and anything on other pointers, whichever callbacks
  -- throw. Every other member that still competes when it closes is told.
  pub accept-close :
      (a : ArenaState) (m : ℕ) (cs : List Call)
      → Inv s
      → find p s.arenas ≡ some a
      → a.closed ≡ false
      → a.eager_winner ≡ none
      → contains m a.members ≡ true
      → all_leave p m cs ≡ true
      → (close throws p (run throws (accept throws p m s).1 cs)).1
        ≡ record (run throws (accept throws p m s).1 cs) {
          arenas = erase p (run throws (accept throws p m s).1 cs).arenas;
          notices =
              (run throws (accept throws p m s).1 cs).notices
              ++ accepted p m
                ∷ map
                    (rejected p)
                    (without m (competing p (run throws (accept throws p m s).1 cs)));
        }
  accept-close a m cs v f opened undecided here h =
      let b = record a { eager_winner = some m } in
      let t = (accept throws p m s).1 in
      let led : IsLed p m t =
        rw (accept_early throws p s free a m f opened undecided here)
          (b, ground (arith, find-put p p b s.arenas), opened, refl, free) in
      let kept : Inv t = unfold perform in perform-Inv throws (accepts p m) s v in
      let (c, g, shut, first, idle) = run-IsLed throws p m t cs kept h led in
      rw g (close_early throws p (run throws t cs) idle m c g first)
