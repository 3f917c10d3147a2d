-- ===== src/Timeline/Sorted.antt =====
-- TimelineSnapshot and Impl::snapshot.
use dui.Timeline.{TimelineEvent, Recorder, capacity, blank}
use dui.Base.{ℕ, zero, suc, ◌+◌, ◌%◌, List, [], ◌∷◌, leb, if◌then◌else◌, get_or}

-- TimelineSnapshot.
pub record TimelineSnapshot : Type 0 where
  pub events : List TimelineEvent
  pub dropped_event_count : ℕ

-- The loop of Impl::snapshot, for as many rounds as are left, from an index on.
unfoldable pub copy_events : Recorder → ℕ → ℕ → List TimelineEvent
copy_events s zero index = []
copy_events s (suc rounds) index =
    get_or s.events ((s.first_event + index) % capacity s) blank ∷ copy_events s rounds (index + 1)

abbrev pub insert : TimelineEvent → List TimelineEvent → List TimelineEvent
insert e [] = e ∷ []
insert e (x ∷ xs) = if leb e.sequence x.sequence then e ∷ x ∷ xs else x ∷ insert e xs

-- The sort by sequence.
abbrev pub sort : List TimelineEvent → List TimelineEvent
sort [] = []
sort (e ∷ es) = insert e (sort es)

-- Impl::snapshot.
unfoldable pub snapshot : Recorder → TimelineSnapshot
unfolding copy_events
snapshot s = record {
  events = sort (copy_events s s.event_count 0);
  dropped_event_count = s.dropped_event_count;
}
