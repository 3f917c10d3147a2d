-- ===== src/Timeline/Ring.antt =====
-- What the ring holds after any calls: the last events to finish.
use dui.Timeline.Held.{Holds, after_full, after_full-Holds, after_room, after_room-Holds}
use dui.Base.{
  ℕ, ◌+◌, ◌-◌, ◌^◌, ◌<◌, ◌≡◌, refl, inl, inr, false, List, [], ◌∷◌, ◌++◌, arith, ltb, ◌==◌,
  Bool-cases, u64_max, u64, length-replicate,
}
use dui.Timeline.{
  TimelineOutcome, TimelineEvent, Recorder, blank, empty_recorder, ended, capacity, take_position,
  put, finish, clear,
}

pub finish_room :
    (event : TimelineEvent) (outcome : TimelineOutcome) (now : ℕ) (s : Recorder)
    → s.next_completion_position < u64_max
    → s.event_count < capacity s
    → finish event outcome now s ≡ after_room (ended event outcome now) s
unfolding finish take_position put
finish_room event outcome now s below lt =
    let going : (s.next_completion_position == u64_max) ≡ false = ground (arith, below) in
    rw going (ground (arith, lt))

pub finish_full :
    (event : TimelineEvent) (outcome : TimelineOutcome) (now : ℕ) (s : Recorder)
    → s.next_completion_position < u64_max
    → s.event_count ≡ capacity s
    → s.retention_floor + s.event_count ≡ s.next_completion_position
    → finish event outcome now s ≡ after_full (ended event outcome now) s
unfolding finish take_position put
finish_full event outcome now s below full floors =
    let going : (s.next_completion_position == u64_max) ≡ false = ground (arith, below) in
    let floor : u64 (u64 (s.next_completion_position + (2 ^ 64 - s.event_count)) + 1)
        ≡ s.retention_floor + 1 =
      omega (arith, below, floors) in
    rw (going, floor) (ground (arith, full))

pub finish-Holds :
    (event : TimelineEvent) (outcome : TimelineOutcome) (now : ℕ) (s : Recorder)
    (log : List TimelineEvent)
    → Holds s log
    → s.next_completion_position < u64_max
    → Holds (finish event outcome now s) (log ++ ended event outcome now ∷ [])
finish-Holds event outcome now s log h below = elim (Bool-cases (ltb s.event_count (capacity s))) [
  | inl room ↦
      let lt : s.event_count < capacity s = ground (arith, room) in
      rw (finish_room event outcome now s below lt)
        (after_room-Holds s log h (ended event outcome now) below lt)
  | inr none_left ↦
      let full : s.event_count ≡ capacity s = ground (arith, none_left, h.bounded) in
      rw (finish_full event outcome now s below full h.floors)
        (after_full-Holds s log h (ended event outcome now) below full)
]

pub clear-Holds : (s : Recorder) (log : List TimelineEvent) → Holds s log → Holds (clear s) log
unfolding clear
clear-Holds s log h = record {
  sizes = h.sizes;
  room = omega (arith, h.room);
  bounded = omega arith;
  floors = omega arith;
  positive = omega (arith, h.floors, h.positive);
  logged = h.logged;
  word = h.word;
  going = h.going;
  kept = λ i l. absurd (omega (arith, l));
}

pub empty-Holds : (n token : ℕ) → 0 < n → Holds (empty_recorder n token) []
empty-Holds n token pos = record {
  sizes = omega (arith, length-replicate n blank, length-replicate {A = ℕ} n 0);
  room = omega (arith, length-replicate n blank, pos);
  bounded = omega arith;
  floors = omega arith;
  positive = omega arith;
  logged = omega arith;
  word = omega arith;
  going = refl;
  kept = λ i l. absurd (omega (arith, l));
}
