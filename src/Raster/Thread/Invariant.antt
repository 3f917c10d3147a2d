-- ===== src/Raster/Thread/Invariant.antt =====
-- The steps of the worker keep the invariant.
use dui.Raster.Thread.Kept.{Inv, complete_counted, drawn, ids, ids-append}
use dui.Base.{
  ◌∙◌, some, ℕ, ◌+◌, ◌≡◌, refl, ap, subst, ◌⊎◌, inl, inr, true, false, none, List, [], ◌∷◌, ◌++◌,
  arith,
}
use dui.Base.Outcome.{Error, Result, ok, throw}
use mathlib.Core.List.{append_assoc}
use dui.Base.Assoc.{count, count-append}
use dui.Raster.Thread.{
  first_failure, work, finish, take_next, FrameOutcome, Worker, starting, waiting, returned_it,
  drawing, Thread, start,
}

start-Inv : (r : Result (Unit {0})) (s : Thread) → s.worker ≡ starting → Inv s → Inv (start r s)
unfolding start
start-Inv (ok u) s w v = record {
  busy = ground (arith, v.busy);
  stopped = v.stopped;
  failed = λ h. ground (arith, v.failed h);
  ended = λ h. cc;
  counted = λ id. ground (arith, v.counted id);
  in_order =
      λ h. subst (λ x. ids s.completions ++ (drawn x ++ s.pending) ≡ s.tickets) w (v.in_order h);
  positive = v.positive;
  below = v.below;
  once = v.once;
}
start-Inv (throw e) s w v = record {
  busy = ground (arith, v.busy);
  stopped = λ h. refl;
  failed = λ h. (refl, refl);
  ended = λ h. refl;
  counted = λ id. ground (arith, v.counted id, complete_counted (throw e) s id);
  in_order = λ h. cc;
  positive = v.positive;
  below = v.below;
  once = v.once;
}

list_cases : (xs : List ℕ) → (xs ≡ []) ⊎ ((x : ℕ) × (ys : List ℕ) × (xs ≡ x ∷ ys))
list_cases [] = inl refl
list_cases (x ∷ ys) = inr (x, ys, refl)

-- The worker leaves its wait, with a submission or for good.
waits_over :
    (s : Thread)
    → s.worker ≡ waiting
    → ((take_next s ≡ none) × (s.pending ≡ []) × (s.stopping ≡ false))
      ⊎ ((s.pending ≡ [])
          × (s.stopping ≡ true)
          × (take_next s ≡ some (record s { worker = returned_it })))
      ⊎ ((id : ℕ) × (rest : List ℕ) × (s.pending ≡ id ∷ rest)
          × (take_next s
              ≡ some (record s { pending = rest; rendering = true; worker = drawing id })))
unfolding take_next
waits_over s w = elim (list_cases s.pending) [
  | inl e ↦ ground (arith, e)
  | inr (id, rest, e) ↦ inr (inr (id, rest, e, ground (arith, e)))
]

returned-Inv :
    (s : Thread)
    → s.worker ≡ waiting
    → s.stopping ≡ true
    → Inv s
    → Inv (record s { worker = returned_it })
returned-Inv s w h v = record {
  busy = ground (arith, v.busy);
  stopped = v.stopped;
  failed = λ f. (h, refl);
  ended = λ f. h;
  counted = λ id. ground (arith, v.counted id);
  in_order = λ f. cc;
  positive = v.positive;
  below = v.below;
  once = v.once;
}

drawing-Inv :
    (s : Thread) (id : ℕ) (rest : List ℕ)
    → s.worker ≡ waiting
    → s.pending ≡ id ∷ rest
    → Inv s
    → Inv (record s { pending = rest; rendering = true; worker = drawing id })
drawing-Inv s id rest w e v = record {
  busy = refl;
  stopped = λ h. ground (arith, v.stopped h);
  failed = λ h. ground (arith, v.failed h);
  ended = λ h. cc;
  counted = λ k. ground (arith, v.counted k);
  in_order = λ h. subst (λ xs. ids s.completions ++ xs ≡ s.tickets) (rw (w, e) refl) (v.in_order h);
  positive = v.positive;
  below = v.below;
  once = v.once;
}

finished_counted :
    (id : ℕ) (e : Error) (s : Thread) (k : ℕ)
    → s.worker ≡ drawing id
    → count k (ids s.completions) + count k (drawn s.worker) + count k s.pending ≡ count k s.tickets
    → count k (ids (finish id (throw e) s).completions) + 0 + 0 ≡ count k s.tickets
unfolding finish
finished_counted id e s k w h =
    let r : Result FrameOutcome = throw (first_failure s.failure e) in
    let t = record s { completions = s.completions ++ (id, r) ∷ [] } in
    let d : count k (drawn s.worker) ≡ count k (id ∷ []) = ap (λ x. count k (drawn x)) w in
    let c : count k (ids t.completions) ≡ count k (ids s.completions) + count k (id ∷ []) =
      rw (ids-append s.completions ((id, r) ∷ [])) (count-append k (ids s.completions) (id ∷ [])) in
    omega (arith, complete_counted r t k, h, d, c)

finish-Inv :
    (id : ℕ) (r : Result FrameOutcome) (s : Thread)
    → s.worker ≡ drawing id
    → Inv s
    → Inv (finish id r s)
unfolding finish
finish-Inv id (ok outcome) s w v = record {
  busy = refl;
  stopped = v.stopped;
  failed = λ h. ground (arith, v.failed h);
  ended = λ h. cc;
  counted = λ k.
      rw (ids-append s.completions ((id, ok outcome) ∷ []))
        (ground (arith, v.counted k, count-append k (ids s.completions) (id ∷ [])));
  in_order = λ h. rw (ids-append s.completions ((id, ok outcome) ∷ [])) (
      append_assoc (ids s.completions) (id ∷ []) s.pending
      ∙ subst (λ x. ids s.completions ++ (drawn x ++ s.pending) ≡ s.tickets) w (v.in_order h));
  positive = v.positive;
  below = v.below;
  once = v.once;
}
finish-Inv id (throw e) s w v = record {
  busy = refl;
  stopped = λ h. refl;
  failed = λ h. (refl, refl);
  ended = λ h. refl;
  counted = λ k. finished_counted id e s k w (v.counted k);
  in_order = λ h. cc;
  positive = v.positive;
  below = v.below;
  once = v.once;
}

pub worker_cases :
    (w : Worker)
    → (w ≡ starting) ⊎ (w ≡ waiting) ⊎ (w ≡ returned_it) ⊎ ((id : ℕ) × (w ≡ drawing id))
worker_cases starting = inl refl
worker_cases waiting = inr (inl refl)
worker_cases returned_it = inr (inr (inl refl))
worker_cases (drawing id) = inr (inr (inr (id, refl)))

module _ (built : Result (Unit {0})) (drawn_it : Result FrameOutcome) (s : Thread) where
  pub work_starting : s.worker ≡ starting → work built drawn_it s ≡ start built s
  unfolding work
  work_starting w = ground (arith, w)

  pub work_drawing : (id : ℕ) → s.worker ≡ drawing id → work built drawn_it s ≡ finish id drawn_it s
  unfolding work
  work_drawing id w = ground (arith, w)

  pub work_returned : s.worker ≡ returned_it → work built drawn_it s ≡ s
  unfolding work
  work_returned w = ground (arith, w)

  pub work_asleep : s.worker ≡ waiting → take_next s ≡ none → work built drawn_it s ≡ s
  unfolding work
  work_asleep w e = ground (arith, w, e)

  pub work_awake :
      (t : Thread) → s.worker ≡ waiting → take_next s ≡ some t → work built drawn_it s ≡ t
  unfolding work
  work_awake t w e = ground (arith, w, e)

  pub work-Inv : Inv s → Inv (work built drawn_it s)
  work-Inv v = elim (worker_cases s.worker) [
    | inl w ↦ rw (work_starting w) (start-Inv built s w v)
    | inr (inl w) ↦ elim (waits_over s w) [
      | inl (asleep, p, going) ↦ rw (work_asleep w asleep) v
      | inr (inl (p, stop, e)) ↦ rw (work_awake _ w e) (returned-Inv s w stop v)
      | inr (inr (id, rest, p, e)) ↦ rw (work_awake _ w e) (drawing-Inv s id rest w p v)
    ]
    | inr (inr (inl w)) ↦ rw (work_returned w) v
    | inr (inr (inr (id, w))) ↦ rw (work_drawing id w) (finish-Inv id drawn_it s w v)
  ]
