-- ===== src/Raster/Thread/Kept.antt =====
-- What holds of the thread between two steps: the invariant, and the steps of clients.
use dui.Base.{
  ℕ, ◌+◌, ◌≤◌, ◌<◌, ◌≡◌, refl, ap, ◌⊎◌, inl, inr, Bool, true, false, none, List, [], ◌∷◌, ◌++◌,
  arith, is_some, u64_max,
}
use dui.Base.Outcome.{Result, ok}
use mathlib.Core.List.{append_assoc}
use dui.Base.Assoc.{count, count-append}
use dui.Raster.Thread.{
  FrameOutcome, Worker, starting, waiting, returned_it, drawing, Thread, init, set_all, submit,
  request_stop,
}

abbrev pub drawn : Worker → List ℕ
drawn starting = []
drawn waiting = []
drawn returned_it = []
drawn (drawing id) = id ∷ []

abbrev pub is_drawing : Worker → Bool
is_drawing starting = false
is_drawing waiting = false
is_drawing returned_it = false
is_drawing (drawing id) = true

abbrev pub ids : List (ℕ × Result FrameOutcome) → List ℕ
ids [] = []
ids ((id, r) ∷ cs) = id ∷ ids cs

pub record Inv (s : Thread) : Type 0 where
  pub busy : s.rendering ≡ is_drawing s.worker
  pub stopped : s.stopping ≡ true → s.pending ≡ []
  pub failed : is_some s.failure ≡ true → (s.stopping ≡ true) × (s.worker ≡ returned_it)
  pub ended : s.worker ≡ returned_it → s.stopping ≡ true
  pub counted :
      (id : ℕ)
      → count id (ids s.completions) + count id (drawn s.worker) + count id s.pending
        ≡ count id s.tickets
  pub in_order : s.stopping ≡ false → ids s.completions ++ (drawn s.worker ++ s.pending) ≡ s.tickets
  pub positive : 0 < s.next_frame
  pub below : (id : ℕ) → s.next_frame ≤ id → count id s.tickets ≡ 0
  pub once : (id : ℕ) → count id s.tickets ≤ 1

pub ids-append : (cs ds : List (ℕ × Result FrameOutcome)) → ids (cs ++ ds) ≡ ids cs ++ ids ds
ids-append [] ds = refl
ids-append ((id, r) ∷ cs) ds = ap (λ xs. id ∷ xs) (ids-append cs ds)

pub ids-set_all : (r : Result FrameOutcome) (xs : List ℕ) → ids (set_all r xs) ≡ xs
unfolding set_all
ids-set_all r [] = refl
ids-set_all r (x ∷ xs) = ap (λ ys. x ∷ ys) (ids-set_all r xs)

pub init-Inv : Inv init
unfolding init
init-Inv = ground arith

submit_cases :
    (acceptable : Bool) (s : Thread)
    → Inv s
    → s.next_frame < u64_max
    → ((submit acceptable s).1 ≡ s)
      ⊎ ((s.stopping ≡ false)
          × (s.failure ≡ none)
          × ((submit acceptable s).1 ≡ record s {
            next_frame = s.next_frame + 1;
            pending = s.pending ++ s.next_frame ∷ [];
            tickets = s.tickets ++ s.next_frame ∷ [];
          }))
unfolding submit
submit_cases acceptable s v lt = ground (arith, v.positive)

pub submit-Inv :
    (acceptable : Bool) (s : Thread) → s.next_frame < u64_max → Inv s → Inv (submit acceptable s).1
submit-Inv acceptable s lt v = elim (submit_cases acceptable s v lt) [
  | inl same ↦ rw same v
  | inr (going, sound, e) ↦ rw e (record {
    busy = v.busy;
    stopped = λ h. cc;
    failed = λ h. cc;
    ended = v.ended;
    counted = λ id. omega (
      arith,
      v.counted id,
      count-append id s.pending (s.next_frame ∷ []),
      count-append id s.tickets (s.next_frame ∷ []),
    );
    in_order = λ h. simp append_assoc at (ap (λ xs. xs ++ s.next_frame ∷ []) (v.in_order going));
    positive = omega arith;
    below = λ id h. ground (arith, v.below id, count-append id s.tickets (s.next_frame ∷ []));
    once =
        λ id. ground (arith, v.below id, v.once id, count-append id s.tickets (s.next_frame ∷ []));
  })
]

-- All that waits is completed: what is counted moves over.
pub complete_counted :
    (r : Result FrameOutcome) (s : Thread) (id : ℕ)
    → count id (ids (s.completions ++ set_all r s.pending))
      ≡ count id (ids s.completions) + count id s.pending
complete_counted r s id =
    rw (ids-append s.completions (set_all r s.pending), ids-set_all r s.pending)
      (count-append id (ids s.completions) s.pending)

pub request_stop-Inv : (s : Thread) → Inv s → Inv (request_stop s)
unfolding request_stop
request_stop-Inv s v = record {
  busy = v.busy;
  stopped = λ h. refl;
  failed = λ h. (refl, (v.failed h).1);
  ended = λ h. refl;
  counted = λ id. omega (arith, v.counted id, complete_counted (ok FrameOutcome.canceled) s id);
  in_order = λ h. cc;
  positive = v.positive;
  below = v.below;
  once = v.once;
}
