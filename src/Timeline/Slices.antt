-- ===== src/Timeline/Slices.antt =====
-- What the loop of read_completed adds: a slice of the log.
use dui.Base.{
  ℕ, zero, suc, ◌+◌, ◌-◌, ◌%◌, ◌≤◌, ◌<◌, max, ◌≡◌, refl, sym, ap, subst, ◌∙◌, inl, inr, some, List,
  [], ◌∷◌, ◌++◌, arith, ltb, Bool-cases, u64, length, get_elem?, length-append, get_or, take, drop,
}
use mathlib.Core.List.{append-nil, append_assoc}
use dui.Timeline.{TimelineEvent, Recorder, blank, capacity}
use dui.Timeline.Cursor.{CompletedRead, scan}
use dui.Timeline.Held.{Holds}

drop-get_elem? :
    {A : Type 0} (k : ℕ) (xs : List A) (x : A)
    → get_elem? xs k ≡ some x
    → drop k xs ≡ x ∷ drop (suc k) xs
drop-get_elem? k [] x h = ground (arith, h)
drop-get_elem? zero (y ∷ ys) x h = ground (arith, h)
drop-get_elem? (suc k) (y ∷ ys) x h = drop-get_elem? k ys x h

drop_all : {A : Type 0} (k : ℕ) (xs : List A) → length xs ≤ k → drop k xs ≡ []
drop_all zero [] h = refl
drop_all zero (x ∷ xs) h = absurd (omega (arith, h))
drop_all (suc k) [] h = refl
drop_all (suc k) (x ∷ xs) h = drop_all k xs (omega (arith, h))

take-nil : {A : Type 0} (n : ℕ) (xs : List A) → xs ≡ [] → take n xs ≡ []
take-nil zero xs e = refl
take-nil (suc n) xs e = rw e refl

-- What the loop adds, from a position on.
abbrev pub slice : ℕ → ℕ → List TimelineEvent → List TimelineEvent
slice n position log = take n (drop (position - 1) log)

module _ (s : Recorder) (log : List TimelineEvent) (h : Holds s log)
    (max_events available : ℕ) where
  -- The result of the loop that is at a position.
  abbrev Adds : ℕ → CompletedRead → CompletedRead → Type 0
  Adds position result out = out ≡ record result {
    events = result.events ++ slice (max_events - length result.events) position log;
    next_position = position + length (slice (max_events - length result.events) position log);
  }

  Adds-nothing :
      (position : ℕ) (result : CompletedRead)
      → slice (max_events - length result.events) position log ≡ []
      → result.next_position ≡ position
      → Adds position result result
  Adds-nothing position result none_left at =
      rw (none_left, append-nil result.events)
        (ap (λ (n : ℕ). record result { next_position = n }) (omega (arith, at)))

  Adds-one :
      (position p : ℕ) (x : TimelineEvent) (result out : CompletedRead)
      → slice (max_events - length result.events) position log
        ≡ x ∷ slice (max_events - (length result.events + 1)) (position + 1) log
      → Adds
          (position + 1)
          (record result { events = result.events ++ x ∷ []; next_position = p })
          out
      → Adds position result out
  Adds-one position p x result out e a =
      let rest = slice (max_events - (length result.events + 1)) (position + 1) log in
      let count : length (result.events ++ x ∷ []) ≡ length result.events + 1 =
        omega (arith, length-append result.events (x ∷ [])) in
      a
      ∙ rw (count, e, append_assoc result.events (x ∷ []) rest)
          (ap (λ (n : ℕ). record result { events = result.events ++ (x ∷ rest); next_position = n })
            (omega arith))

  slice_past : (n position : ℕ) → s.next_completion_position ≤ position → slice n position log ≡ []
  slice_past n position le =
      take-nil n (drop (position - 1) log)
        (drop_all (position - 1) log (omega (arith, le, h.logged)))

  pub slice_next :
      (n index : ℕ)
      → index < s.event_count
      → 0 < n
      → slice n (s.retention_floor + index) log
        ≡ get_or s.events ((s.first_event + index) % capacity s) blank
          ∷ slice (n - 1) (s.retention_floor + index + 1) log
  slice_next n index lt pos =
      let k = s.retention_floor + index - 1 in
      let x = get_or s.events ((s.first_event + index) % capacity s) blank in
      let now : suc k ≡ s.retention_floor + index + 1 - 1 = omega (arith, h.positive) in
      let m : n ≡ suc (n - 1) = omega (arith, pos) in
      ap (λ (xs : List TimelineEvent). take n xs) (drop-get_elem? k log x (h.kept index lt).1)
      ∙ ap (λ (j : ℕ). take j (x ∷ drop (suc k) log)) m
      ∙ ap (λ (j : ℕ). x ∷ take (n - 1) (drop j log)) now

  pub scan-Adds :
      (rounds index : ℕ) (result : CompletedRead)
      → index + rounds ≡ s.event_count
      → available ≤ s.next_completion_position
      → result.next_position ≡ max available (s.retention_floor + index)
      → Adds
          (max available (s.retention_floor + index))
          result
          (scan s max_events available rounds index result)
  unfolding scan
  scan-Adds zero index result e le at =
      Adds-nothing (max available (s.retention_floor + index)) result
        (slice_past (max_events - length result.events) (max available (s.retention_floor + index))
          (omega (arith, e, h.floors)))
        at
  scan-Adds (suc rounds) index result e le at =
      let lo = max available (s.retention_floor + index) in
      let slot = (s.first_event + index) % capacity s in
      let x = get_or s.events slot blank in
      let lt : index < s.event_count = omega (arith, e) in
      elim (Bool-cases (ltb (length result.events) max_events)) [
        | inr full ↦
            let none_left : max_events - length result.events ≡ 0 = ground (arith, full) in
            rw full (Adds-nothing lo result (rw none_left refl) at)
        | inl room ↦
            rw (room, (h.kept index lt).0)
              (elim (Bool-cases (ltb (s.retention_floor + index) available)) [
                | inl before ↦
                    let b : s.retention_floor + index < available = ground (arith, before) in
                    rw before (
                      subst
                        (λ (p : ℕ).
                          Adds p result (scan s max_events available rounds (index + 1) result))
                        (omega (arith, b))
                        (scan-Adds rounds (index + 1) result (omega (arith, e)) le
                          (omega (arith, at, b))))
                | inr there ↦
                    let b : available ≤ s.retention_floor + index = ground (arith, there) in
                    let m : 0 < max_events - length result.events = ground (arith, room) in
                    let p = u64 (s.retention_floor + index + 1) in
                    let more = record result {
                      events = result.events ++ x ∷ [];
                      next_position = p;
                    } in
                    let lo_is : lo ≡ s.retention_floor + index = omega (arith, b) in
                    let fewer : max_events - length result.events - 1
                        ≡ max_events - (length result.events + 1) =
                      omega arith in
                    rw there (
                      Adds-one lo p x result (scan s max_events available rounds (index + 1) more)
                        (rw (lo_is, sym fewer)
                          (slice_next (max_events - length result.events) index lt m))
                        (subst
                          (λ (q : ℕ).
                            Adds q more (scan s max_events available rounds (index + 1) more))
                          (omega (arith, b))
                          (scan-Adds rounds (index + 1) more (omega (arith, e)) le
                            (omega (arith, b, lt, h.floors, h.word)))))
              ])
      ]
