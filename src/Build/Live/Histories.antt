-- ===== src/Build/Live/Histories.antt =====
-- The owner's books after any sequence of its calls, from a fresh owner to its destructor.
use dui.Build.{unmount_slot, Element, Owner, mark_dirty, notify_dependents}
use dui.Base.{
  if_holds_when, refl, ap, length, some, ◌≤◌, ap, ◌<◌, ◌≡◌, ℕ, suc, ◌+◌, ◌||◌, Option, none, List,
  [], ◌∷◌, arith,
}
use dui.Base.Outcome.{Error}
use dui.Base.Assoc.{count}
use dui.Build.Live.{Live, subscriptions_of, copies_slot, copies_slot, cost}
use dui.Build.Live.Unmounts.{unmount-Live}
use dui.Build.Live.Calls.{init-Live, Live-cong, Live-spend, take_dirty-Live}
use dui.Build.Live.Shapes.{ShapedSlot}
use dui.Build.Live.Updates.{reconcile_with-Sound}
use dui.Build.Live.Children.{throws_holds}
use dui.Build.Live.Reconciles.{update_view-Sound}
use dui.Build.Views.{View, type_token, reconcile_child, update_view}
use dui.Build.Root.{
  destroy, fresh, BuildOwner, render, Build, sort_by_depth, round, Ending, flush_loop, flush,
  is_empty,
}
use dui.Build.Live.Calls.{mark_dirty-Live, notify_dependents-Live}
use dui.Build.Live.Rounds.{SoundRoot, cost_pending, rebuild_pending-Sound}

-- How many elements a flush can ask for.
unfoldable pub cost_flush : List (ℕ → Build) → Option Element → Owner → ℕ
cost_flush [] root s = 0
cost_flush (builds ∷ later) root s =
    let r = round builds root s in
    cost_pending builds (sort_by_depth root s.dirty) + cost_flush later r.1.0 r.1.1

flush_loop-Sound :
    (rounds : List (ℕ → Build)) (root : Option Element) (s : Owner) (n : ℕ)
    → SoundRoot (cost_flush rounds root s + n) root s
    → SoundRoot n (flush_loop rounds root s).1.0 (flush_loop rounds root s).1.1
unfolding flush_loop cost_flush round
flush_loop-Sound [] root s n h = (Live-spend n (omega arith) h.0, h.1)
flush_loop-Sound (builds ∷ later) root s n h =
    let due = sort_by_depth root s.dirty in
    let r = round builds root s in
    let later_cost = cost_flush later r.1.0 r.1.1 in
    let h_r =
      rebuild_pending-Sound builds due root (record s { dirty = [] }) (later_cost + n)
        (Live-spend _ (omega arith) (take_dirty-Live h.0), h.1) in
    if_holds_when SoundLoop (is_empty s.dirty) (λ empty. (Live-spend n (omega arith) h.0, h.1))
      (λ some_due.
        throws_holds SoundLoop r.0 (λ e. (Live-spend n (omega arith) h_r.0, h_r.1))
          (flush_loop-Sound later r.1.0 r.1.1 n h_r))
  where
    SoundLoop : Ending × (Option Element × Owner) → Type 0
    SoundLoop l = SoundRoot n l.1.0 l.1.1

-- The calls from outside.
pub data Call : Type 0 where
  rendering : View → Call
  marking : ℕ → ℕ → Call
  notifying : ℕ → Call
  flushing : List (ℕ → Build) → Call

unfoldable pub perform : Call → BuildOwner → BuildOwner
perform (rendering v) b = (render v b).1
perform (marking id generation) b = record b { owner = mark_dirty id generation b.owner }
perform (notifying source) b = record b { owner = notify_dependents source b.owner }
perform (flushing rounds) b = (flush rounds b).1

unfoldable pub run : List Call → BuildOwner → BuildOwner
run [] b = b
run (call ∷ calls) b = run calls (perform call b)

unfoldable pub cost_call : Call → BuildOwner → ℕ
cost_call (rendering v) b = suc (cost v)
cost_call (marking id generation) b = 0
cost_call (notifying source) b = 0
cost_call (flushing rounds) b = cost_flush rounds b.root b.owner

-- How many elements these calls can ask for.
unfoldable pub cost_run : List Call → BuildOwner → ℕ
cost_run [] b = 0
cost_run (call ∷ calls) b = cost_call call b + cost_run calls (perform call b)

abbrev SoundOwner : ℕ → BuildOwner → Type 0
SoundOwner n b = SoundRoot n b.root b.owner

render-Sound :
    (v : View) (b : BuildOwner) (n : ℕ)
    → SoundOwner (suc (cost v) + n) b
    → SoundOwner n (render v b).1
unfolding render reconcile_child copies_slot ShapedSlot
render-Sound v b n h =
    let k =
      reconcile_with-Sound (λ i. 0) (cost v) n (update_view v) b.root (type_token v) none none
        b.owner (update_view-Sound v) (λ i. omega arith) (Live-spend _ (omega arith) h.0) h.1 in
    if_holds_when (λ (r : Option Error × BuildOwner). SoundOwner n r.1)
      (b.reconciling || b.formatting_state) (λ busy. (Live-spend n (omega arith) h.0, h.1))
      (λ free. (Live-cong (λ i. omega arith) k.0, k.1))

flush-Sound :
    (rounds : List (ℕ → Build)) (b : BuildOwner) (n : ℕ)
    → SoundOwner (cost_flush rounds b.root b.owner + n) b
    → SoundOwner n (flush rounds b).1
unfolding flush
flush-Sound rounds b n h =
    if_holds_when (λ (r : Ending × BuildOwner). SoundOwner n r.1)
      (b.reconciling || b.formatting_state) (λ busy. (Live-spend n (omega arith) h.0, h.1))
      (λ free. flush_loop-Sound rounds b.root b.owner n h)

perform-Sound :
    (call : Call) (b : BuildOwner) (n : ℕ)
    → SoundOwner (cost_call call b + n) b
    → SoundOwner n (perform call b)
unfolding perform cost_call
perform-Sound (rendering v) b n h = render-Sound v b n h
perform-Sound (marking id generation) b n h =
    (mark_dirty-Live id generation (Live-spend n (omega arith) h.0), h.1)
perform-Sound (notifying source) b n h =
    (notify_dependents-Live source b.owner (Live-spend n (omega arith) h.0), h.1)
perform-Sound (flushing rounds) b n h = flush-Sound rounds b n h

run-Sound :
    (calls : List Call) (b : BuildOwner) (n : ℕ)
    → SoundOwner (cost_run calls b + n) b
    → SoundOwner n (run calls b)
unfolding run cost_run
run-Sound [] b n h = (Live-spend n (omega arith) h.0, h.1)
run-Sound (call ∷ calls) b n h = run-Sound calls (perform call b) n (
    perform-Sound call b (cost_run calls (perform call b) + n)
      (Live-spend _ (omega arith) h.0, h.1))

run-fresh-Sound :
    (calls : List Call)
    → cost_run calls fresh < 18446744073709551615
    → SoundOwner 0 (run calls fresh)
unfolding copies_slot ShapedSlot
run-fresh-Sound calls h = run-Sound calls fresh 0 (
  record {
    known = λ i. init-Live.known i;
    counted = refl;
    numbered = refl;
    room = ground (arith, h);
  },
  tt,
)

-- After any calls from outside, as long as they ask for fewer than 2^64 - 1 elements and whatever
-- they throw: every id stands in the registry as often as in the tree under the root, which is once
-- at most; only ids in the tree are in the dirty set, have `dirty_` or `rebuild_` set, or are
-- subscribed to a source; and the elements mounted are those unmounted and those registered.
pub run-registered :
    (calls : List Call)
    → cost_run calls fresh < 18446744073709551615
    → ((i : ℕ)
        → (count i (run calls fresh).owner.registry ≡ copies_slot i (run calls fresh).root)
          × (copies_slot i (run calls fresh).root ≤ 1)
          × (count i (run calls fresh).owner.dirty ≤ copies_slot i (run calls fresh).root)
          × (count i (run calls fresh).owner.dirty_flags ≤ copies_slot i (run calls fresh).root)
          × (count i (run calls fresh).owner.rebuilds ≤ copies_slot i (run calls fresh).root)
          × (copies_slot i (run calls fresh).root ≡ 0
              → subscriptions_of i (run calls fresh).owner.subscriptions ≡ 0))
      × ((run calls fresh).owner.mount_count
          ≡ (run calls fresh).owner.unmount_count + length (run calls fresh).owner.registry)
run-registered calls h =
    let k = (run-fresh-Sound calls h).0 in
    (λ i. let f = k.known i in (f.0, f.1, f.3, f.4, f.5, f.6), k.counted)

unmount_slot-Live :
    (slot : Option Element) (s : Owner)
    → Live (λ i. copies_slot i slot) 0 s
    → Live (λ i. 0) 0 (unmount_slot slot s)
unfolding unmount_slot copies_slot
unmount_slot-Live none s h = h
unmount_slot-Live (some e) s h = unmount-Live e s (λ i. omega arith) h

none_counted : (xs : List ℕ) → ((i : ℕ) → count i xs ≡ 0) → xs ≡ []
none_counted [] h = refl
none_counted (x ∷ xs) h = absurd (ground (arith, h x))

none_subscribed : (ss : List (ℕ × ℕ)) → ((i : ℕ) → subscriptions_of i ss ≡ 0) → ss ≡ []
unfolding subscriptions_of
none_subscribed [] h = refl
none_subscribed ((a, b) ∷ ss) h = absurd (ground (arith, h b))

-- After any calls that ask for fewer than 2^64 - 1 elements, the destructor unmounts every element
-- once: the registry, the dirty set and the subscriptions are empty, and as many elements have been
-- unmounted as were mounted.
pub destroy-run :
    (calls : List Call)
    → cost_run calls fresh < 18446744073709551615
    → ((destroy (run calls fresh)).owner.registry ≡ [])
      × ((destroy (run calls fresh)).owner.dirty ≡ [])
      × ((destroy (run calls fresh)).owner.subscriptions ≡ [])
      × ((destroy (run calls fresh)).owner.unmount_count
          ≡ (destroy (run calls fresh)).owner.mount_count)
unfolding destroy
destroy-run calls h =
    let b = run calls fresh in
    let s = unmount_slot b.root b.owner in
    let k = unmount_slot-Live b.root b.owner (run-fresh-Sound calls h).0 in
    let empty = none_counted s.registry (λ i. (k.known i).0) in
    (
      empty,
      none_counted s.dirty (λ i. omega (arith, k.known i)),
      none_subscribed s.subscriptions (λ i. (k.known i).6 refl),
      omega (arith, k.counted, ap length empty),
    )
