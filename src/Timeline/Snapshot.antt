-- ===== src/Timeline/Snapshot.antt =====
-- What a snapshot shows: the events that the ring holds, by their sequence numbers.
use dui.Base.{
  ℕ, zero, suc, ◌+◌, ◌-◌, ◌%◌, ◌≤◌, ◌≡◌, refl, sym, ap, ◌∙◌, inl, inr, Bool, true, ◌&&◌, List, [],
  ◌∷◌, arith, leb, Bool-cases, get_or,
}
use dui.Base.Assoc.{count}
use dui.Timeline.{TimelineEvent, Recorder, capacity, blank}
use dui.Timeline.Sorted.{copy_events, insert, sort, snapshot}
use dui.Timeline.Held.{Holds}
use dui.Timeline.Records.{Records, Records-Holds}
use dui.Timeline.Slices.{slice, slice_next}

abbrev pub sequences : List TimelineEvent → List ℕ
sequences [] = []
sequences (e ∷ es) = e.sequence ∷ sequences es

-- No sequence number is greater than the next.
abbrev pub above : ℕ → List TimelineEvent → Bool
above n [] = true
above n (e ∷ es) = leb n e.sequence

abbrev pub is_sorted : List TimelineEvent → Bool
is_sorted [] = true
is_sorted (e ∷ es) = above e.sequence es && is_sorted es

insert-above :
    (n : ℕ) (e : TimelineEvent) (es : List TimelineEvent)
    → n ≤ e.sequence
    → above n es ≡ true
    → above n (insert e es) ≡ true
insert-above n e [] h k = ground (arith, h)
insert-above n e (x ∷ xs) h k = ground (arith, h, k)

insert-is_sorted :
    (e : TimelineEvent) (es : List TimelineEvent)
    → is_sorted es ≡ true
    → is_sorted (insert e es) ≡ true
insert-is_sorted e [] h = refl
insert-is_sorted e (x ∷ xs) h = elim (Bool-cases (leb e.sequence x.sequence)) [
  | inl y ↦ rw y (ground (arith, y, h))
  | inr n ↦ rw n (
      let le : x.sequence ≤ e.sequence = ground (arith, n) in
      ground (
        arith,
        insert-above x.sequence e xs le (ground (arith, h)),
        insert-is_sorted e xs (ground (arith, h)),
      ))
]

sort-is_sorted : (es : List TimelineEvent) → is_sorted (sort es) ≡ true
sort-is_sorted [] = refl
sort-is_sorted (e ∷ es) = insert-is_sorted e (sort es) (sort-is_sorted es)

count-insert :
    (q : ℕ) (e : TimelineEvent) (es : List TimelineEvent)
    → count q (sequences (insert e es)) ≡ count q (e.sequence ∷ sequences es)
count-insert q e [] = refl
count-insert q e (x ∷ xs) = elim (Bool-cases (leb e.sequence x.sequence)) [
  | inl y ↦ rw y refl
  | inr n ↦ rw n (omega (arith, count-insert q e xs))
]

count-sort :
    (q : ℕ) (es : List TimelineEvent) → count q (sequences (sort es)) ≡ count q (sequences es)
count-sort q [] = refl
count-sort q (e ∷ es) = omega (arith, count-insert q e (sort es), count-sort q es)

copy_events-slice :
    (s : Recorder) (log : List TimelineEvent)
    → Holds s log
    → (rounds index : ℕ) → index + rounds ≡ s.event_count
    → copy_events s rounds index ≡ slice rounds (s.retention_floor + index) log
unfolding copy_events
copy_events-slice s log h zero index e = refl
copy_events-slice s log h (suc rounds) index e =
    let x = get_or s.events ((s.first_event + index) % capacity s) blank in
    let next : s.retention_floor + (index + 1) ≡ s.retention_floor + index + 1 = omega arith in
    let fewer : rounds ≡ suc rounds - 1 = omega arith in
    ap (λ xs. x ∷ xs)
      (copy_events-slice s log h rounds (index + 1) (omega (arith, e))
        ∙ ap (λ p. slice rounds p log) next
        ∙ ap (λ n. slice n (s.retention_floor + index + 1) log) fewer)
    ∙ sym (slice_next s log h 0 0 (suc rounds) index (omega (arith, e)) (omega arith))

-- Whatever was recorded and cleared before, a snapshot has the events that the ring holds, which
-- are the last ones to finish, in the order of their sequence numbers, each as often as there.
-- Fewer than 2^64 - 1 events finished.
pub snapshot_sorts :
    (s : Recorder) (log : List TimelineEvent)
    → Records s log
    → (is_sorted (snapshot s).events ≡ true)
      × ((q : ℕ)
          → count q (sequences (snapshot s).events)
            ≡ count q (sequences (slice s.event_count s.retention_floor log)))
unfolding snapshot
snapshot_sorts s log r = (
  sort-is_sorted (copy_events s s.event_count 0),
  λ q.
      let h = Records-Holds s log r in
      let here : s.retention_floor + 0 ≡ s.retention_floor = omega arith in
      count-sort q (copy_events s s.event_count 0)
      ∙ ap (λ es. count q (sequences es))
          (copy_events-slice s log h s.event_count 0 (omega arith)
            ∙ ap (λ p. slice s.event_count p log) here),
)
