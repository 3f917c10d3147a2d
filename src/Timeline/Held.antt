-- ===== src/Timeline/Held.antt =====
-- What the ring holds, before and after one more event.
use dui.Base.{
  ℕ, zero, suc, ◌+◌, ◌-◌, ◌%◌, ◌≤◌, ◌<◌, ◌≡◌, refl, sym, ap, subst, ◌∙◌, ◌≢◌, inl, inr, false, some,
  List, [], ◌∷◌, ◌++◌, arith, ltb, Bool-cases, u64_max, u64, length, get_elem?, set, length-append,
  get_or,
}
use dui.Base.{length-set}
use native.Mathlib.Nat.{mod-lt}
use dui.Timeline.{TimelineEvent, Recorder, blank, capacity}
use dui.Timeline.Slots.{first_ne, get_or-set_ne, get_or-set_self, slot_last, slot_ne, slot_next}

-- The log is of all events that finished, with the first one at position 1. The ring holds the last
-- ones, in order, each with its position.
pub record Holds (s : Recorder) (log : List TimelineEvent) : Type 0 where
  pub sizes : length s.completion_positions ≡ capacity s
  pub room : s.first_event < capacity s
  pub bounded : s.event_count ≤ capacity s
  pub floors : s.retention_floor + s.event_count ≡ s.next_completion_position
  pub positive : 1 ≤ s.retention_floor
  pub logged : length log + 1 ≡ s.next_completion_position
  pub word : s.next_completion_position ≤ u64_max
  pub going : s.completion_positions_exhausted ≡ false
  pub kept :
      (i : ℕ)
      → i < s.event_count
      → (get_or s.completion_positions ((s.first_event + i) % capacity s) 0 ≡ s.retention_floor + i)
        × (get_elem? log (s.retention_floor + i - 1)
            ≡ some (get_or s.events ((s.first_event + i) % capacity s) blank))

get_elem?-append_left :
    {A : Type 0} (xs ys : List A) (i : ℕ) → i < length xs → get_elem? (xs ++ ys) i ≡ get_elem? xs i
get_elem?-append_left [] ys i h = absurd (omega (arith, h))
get_elem?-append_left (x ∷ xs) ys zero h = refl
get_elem?-append_left (x ∷ xs) ys (suc i) h = get_elem?-append_left xs ys i (omega (arith, h))

get_elem?-append_last :
    {A : Type 0} (xs : List A) (y : A) (i : ℕ) → i ≡ length xs → get_elem? (xs ++ y ∷ []) i ≡ some y
get_elem?-append_last [] y zero h = refl
get_elem?-append_last [] y (suc i) h = absurd (omega (arith, h))
get_elem?-append_last (x ∷ xs) y zero h = absurd (omega (arith, h))
get_elem?-append_last (x ∷ xs) y (suc i) h = get_elem?-append_last xs y i (omega (arith, h))

-- The ring after an event, while there is room, and after one that takes the oldest's place.
abbrev pub after_room : TimelineEvent → Recorder → Recorder
after_room v s =
    let slot = (s.first_event + s.event_count) % capacity s in
    record s {
      events = set s.events slot v;
      completion_positions = set s.completion_positions slot s.next_completion_position;
      event_count = s.event_count + 1;
      next_completion_position = s.next_completion_position + 1;
    }

abbrev pub after_full : TimelineEvent → Recorder → Recorder
after_full v s = record s {
  events = set s.events s.first_event v;
  completion_positions = set s.completion_positions s.first_event s.next_completion_position;
  first_event = (s.first_event + 1) % capacity s;
  retention_floor = s.retention_floor + 1;
  dropped_event_count = u64 (s.dropped_event_count + 1);
  next_completion_position = s.next_completion_position + 1;
}

module _ (s : Recorder) (log : List TimelineEvent) (h : Holds s log) (v : TimelineEvent) where
  -- A slot that is not written keeps its event, which has the same position in the longer log.
  other_slot :
      (slot i : ℕ)
      → i < s.event_count
      → slot ≢ (s.first_event + i) % capacity s
      → (get_or
            (set s.completion_positions slot s.next_completion_position)
            ((s.first_event + i) % capacity s)
            0
          ≡ s.retention_floor + i)
        × (get_elem? (log ++ v ∷ []) (s.retention_floor + i - 1)
            ≡ some (get_or (set s.events slot v) ((s.first_event + i) % capacity s) blank))
  other_slot slot i l ne =
      let (at, held) = h.kept i l in
      (
        get_or-set_ne s.completion_positions slot ((s.first_event + i) % capacity s)
              s.next_completion_position 0 ne
            ∙ at,
        get_elem?-append_left log (v ∷ []) (s.retention_floor + i - 1)
              (omega (arith, l, h.floors, h.logged, h.positive))
            ∙ held
            ∙ ap some
                (sym (get_or-set_ne s.events slot ((s.first_event + i) % capacity s) v blank ne)),
      )

  -- The slot that is written holds the last event.
  this_slot :
      (slot i : ℕ)
      → slot < capacity s
      → i ≡ s.event_count
      → (get_or (set s.completion_positions slot s.next_completion_position) slot 0
          ≡ s.retention_floor + i)
        × (get_elem? (log ++ v ∷ []) (s.retention_floor + i - 1)
            ≡ some (get_or (set s.events slot v) slot blank))
  this_slot slot i l e = (
    get_or-set_self s.completion_positions slot s.next_completion_position 0
          (omega (arith, l, h.sizes))
        ∙ omega (arith, h.floors, e),
    get_elem?-append_last log v (s.retention_floor + i - 1)
          (omega (arith, h.floors, h.logged, h.positive, e))
        ∙ ap some (sym (get_or-set_self s.events slot v blank l)),
  )

  pub after_room-Holds :
      s.next_completion_position < u64_max
      → s.event_count < capacity s
      → Holds (after_room v s) (log ++ v ∷ [])
  after_room-Holds below lt =
      let slot = (s.first_event + s.event_count) % capacity s in
      let inside : slot < capacity s = mod-lt (s.first_event + s.event_count) (omega (arith, lt)) in
      let same : capacity (after_room v s) ≡ capacity s = length-set s.events slot v in
      record {
        sizes = omega (
          arith,
          length-set s.completion_positions slot s.next_completion_position,
          same,
          h.sizes,
        );
        room = omega (arith, same, h.room);
        bounded = omega (arith, same, lt);
        floors = omega (arith, h.floors);
        positive = h.positive;
        logged = omega (arith, length-append log (v ∷ []), h.logged);
        word = omega (arith, below);
        going = h.going;
        kept = λ i l. rw same (elim (Bool-cases (ltb i s.event_count)) [
          | inl old ↦
              let earlier : i < s.event_count = ground (arith, old) in
              other_slot slot i earlier (
                slot_ne s.first_event s.event_count i (capacity s) h.room lt
                  (omega (arith, earlier, lt)) (λ e. omega (arith, e, earlier)))
          | inr new ↦
              let e : i ≡ s.event_count = ground (arith, new, l) in
              subst
                (λ n.
                  (get_or (set s.completion_positions slot s.next_completion_position)
                      ((s.first_event + n) % capacity s) 0
                    ≡ s.retention_floor + i)
                  × (get_elem? (log ++ v ∷ []) (s.retention_floor + i - 1)
                      ≡ some
                          (get_or (set s.events slot v) ((s.first_event + n) % capacity s) blank)))
                (sym e) (this_slot slot i inside e)
        ]);
      }

  pub after_full-Holds :
      s.next_completion_position < u64_max
      → s.event_count ≡ capacity s
      → Holds (after_full v s) (log ++ v ∷ [])
  after_full-Holds below full =
      let same : capacity (after_full v s) ≡ capacity s = length-set s.events s.first_event v in
      record {
        sizes = omega (
          arith,
          length-set s.completion_positions s.first_event s.next_completion_position,
          same,
          h.sizes,
        );
        room = rw same (mod-lt (s.first_event + 1) (omega (arith, h.room)));
        bounded = omega (arith, same, full);
        floors = omega (arith, h.floors);
        positive = omega arith;
        logged = omega (arith, length-append log (v ∷ []), h.logged);
        word = omega (arith, below);
        going = h.going;
        kept = λ i l.
            let shift : s.retention_floor + 1 + i ≡ s.retention_floor + (i + 1) = omega arith in
            rw (same, slot_next s.first_event i (capacity s), shift)
              (elim (Bool-cases (ltb (i + 1) s.event_count)) [
                | inl old ↦
                    let earlier : i + 1 < s.event_count = ground (arith, old) in
                    other_slot s.first_event (i + 1) earlier (
                      first_ne s.first_event (i + 1) (capacity s) h.room
                        (omega (arith, earlier, full)) (omega arith))
                | inr new ↦
                    let e : i + 1 ≡ s.event_count = ground (arith, new, l) in
                    rw (slot_last s.first_event i (capacity s) h.room (omega (arith, e, full)))
                      (this_slot s.first_event (i + 1) h.room e)
              ]);
      }
