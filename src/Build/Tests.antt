-- ===== src/Build/Tests.antt =====
-- Two letters in a ForEach become two others, of which one stays; a component is rebuilt; and a lazy
-- list of two items mounts one.
use dui.Base.Assoc.{contains, without}
use dui.Build.Views.{
  reconcile_with, begin_update, place, reusable, pending, has_key, with_children, take_match,
  append, update_static_children, abandon, only_first, put_first, equivalent,
}
use dui.Build.Root.{
  flush_loop, is_empty, round, rebuild_pending, rebuild_root, rebuild_at, rebuild, sort_by_depth,
  insert_by_depth, depth_of, depth_at,
}
use dui.Build.{
  same_type, same_key, Element, element, Elements, nil, cons, Owner, init, info_of, children_of,
  kept_of, insert, make_element, unsubscribe, clear_dependencies, forget, unmount, unmount_all,
  unmount_back, resolve, mark_dirty, subscribed, subscribe, subscribe_all, notify,
  notify_dependents,
}
use dui.Base.{
  ℕ, ◌+◌, ◌≤◌, ◌≡◌, refl, ◌⊎◌, true, false, Option, none, some, List, [], ◌∷◌, arith, if◌then◌else◌,
  u64, length,
}
use dui.Base.Outcome.{ok, Error, logic_error, runtime_error}
use dui.Base.Assoc.{count}
use dui.Build.Views.{
  View, Items, leaf, for_each, component, done, item, type_token, size, update_view,
  reconcile_child,
}
use dui.Build.Root.{Build, fresh, destroy, flush, render}
use dui.Build.Live.{Live, Shaped, copies, copies_slot, cost, subscriptions_of, is_limited}
use dui.Build.Live.Histories.{
  Call, rendering, notifying, flushing, run, cost_run, perform, cost_call, cost_flush,
  run-registered, destroy-run,
}
use dui.Build.Live.Rounds.{cost_pending}
use dui.Build.Identity.{slot_reusable, slot_id, slot_updates, reconcile_child-reuses}
use dui.Build.Keyed.{Reuses}
use dui.Build.Keyed.Outcomes.{
  for_each-Reuses, for_each-duplicate, for_each-abandons, item_keys, distinct,
}
use dui.Build.Lazy.{realize_lazy_fixed_extent_range}
use dui.Build.Lazy.Kept.{realize-Keeps, cost_range}

abbrev letter : View
letter = leaf 7 none

abbrev letters : ℕ → ℕ → Items
letters a b = item (some a) letter (item (some b) letter done)

abbrev both : ℕ → ℕ → View
both a b = for_each 0 (letters a b) none

abbrev shown : Option Error × (Element × Owner)
shown = reconcile_child none (both 1 2) none none init

abbrev turned : Option Error × (Element × Owner)
turned = reconcile_child (some shown.1.0) (both 2 3) none none shown.1.1

-- What the runs below unfold.
program : Unit {0}
unfolding reconcile_child reconcile_with update_view begin_update place reusable same_type
    make_element pending has_key same_key with_children type_token take_match append unmount_back
    unmount_all unmount forget contains without clear_dependencies insert unsubscribe
    update_static_children abandon only_first put_first equivalent subscribe_all subscribe
    subscribed distinct item_keys run perform render flush flush_loop is_empty round rebuild_pending
    rebuild_root rebuild_at rebuild sort_by_depth insert_by_depth depth_of depth_at
    notify_dependents notify mark_dirty resolve cost_run cost_call cost cost_flush cost_pending
program = tt

abbrev ids : Elements → List ℕ
ids nil = []
ids (cons e es) = (info_of e).id ∷ ids es

-- The letter 2 keeps its element, 3; the letter 3 gets a new one; the letter 1 is unmounted.
turned_ids : (ids (children_of turned.1.0) ≡ 3 ∷ 4 ∷ []) × (turned.1.1.unmount_count ≡ 1)
unfolding program
turned_ids = (refl, refl)

for_each-Reuses_example :
    Reuses
      (letters 2 3)
      (children_of shown.1.0)
      (children_of (update_view (both 2 3) shown.1.0 false shown.1.1).1.0)
unfolding program
for_each-Reuses_example = for_each-Reuses 0 (letters 2 3) none shown.1.0 false shown.1.1 refl

for_each-duplicate_example :
    update_view (both 2 2) shown.1.0 false shown.1.1 ≡ (some logic_error, (shown.1.0, shown.1.1))
unfolding program
for_each-duplicate_example = for_each-duplicate 0 (letters 2 2) none shown.1.0 false shown.1.1 refl

abbrev broken : View
broken = for_each 0 (item (some 1) letter (item (some 5) (leaf 7 (some runtime_error)) done)) none

for_each-abandons_example :
    ((update_view broken shown.1.0 false shown.1.1).1 ≡ (shown.1.0, shown.1.1))
    ⊎ (children_of (update_view broken shown.1.0 false shown.1.1).1.0 ≡ nil)
unfolding program
for_each-abandons_example =
    for_each-abandons 0 (item (some 1) letter (item (some 5) (leaf 7 (some runtime_error)) done))
      none shown.1.0 false shown.1.1 runtime_error refl

reconcile_child-reuses_example :
    let i = info_of (reconcile_child (some shown.1.0) (both 2 3) none none shown.1.1).1.0 in
    (same_type i.view_type (type_token (both 2 3)) ≡ true)
    × (same_key i.key none ≡ true)
    × (i.id ≡ (
        if slot_reusable (some shown.1.0) (type_token (both 2 3)) none
        then slot_id (some shown.1.0)
        else shown.1.1.next_id))
    × (i.update_count ≡ (
        if slot_reusable (some shown.1.0) (type_token (both 2 3)) none
        then u64 (slot_updates (some shown.1.0) + 1)
        else 1))
reconcile_child-reuses_example =
    reconcile_child-reuses (some shown.1.0) (both 2 3) none none shown.1.1

-- A component that reads the source 9; then the source changes and the component is built again.
abbrev rebuilt : ℕ → Build
rebuilt id = record { reads = 9 ∷ []; failure = none; view = both 3 4 }

abbrev calls : List Call
calls =
    rendering (component 0 1 true (9 ∷ []) none (both 1 2))
    ∷ notifying 9
    ∷ flushing (rebuilt ∷ rebuilt ∷ [])
    ∷ []

calls_run : (run calls fresh).owner.registry ≡ 6 ∷ 5 ∷ 2 ∷ 1 ∷ []
unfolding program
calls_run = refl

run-registered_example :
    ((i : ℕ)
      → (count i (run calls fresh).owner.registry ≡ copies_slot i (run calls fresh).root)
        × (copies_slot i (run calls fresh).root ≤ 1)
        × (count i (run calls fresh).owner.dirty ≤ copies_slot i (run calls fresh).root)
        × (count i (run calls fresh).owner.dirty_flags ≤ copies_slot i (run calls fresh).root)
        × (count i (run calls fresh).owner.rebuilds ≤ copies_slot i (run calls fresh).root)
        × (copies_slot i (run calls fresh).root ≡ 0
            → subscriptions_of i (run calls fresh).owner.subscriptions ≡ 0))
    × ((run calls fresh).owner.mount_count
        ≡ (run calls fresh).owner.unmount_count + length (run calls fresh).owner.registry)
unfolding program
run-registered_example = run-registered calls (omega arith)

destroy-run_example :
    ((destroy (run calls fresh)).owner.registry ≡ [])
    × ((destroy (run calls fresh)).owner.dirty ≡ [])
    × ((destroy (run calls fresh)).owner.subscriptions ≡ [])
    × ((destroy (run calls fresh)).owner.unmount_count
        ≡ (destroy (run calls fresh)).owner.mount_count)
unfolding program
destroy-run_example = destroy-run calls (omega arith)

-- The element of a lazy list of the keys 1 and 2, which keeps one child alive.
abbrev listed : Element × Owner
listed = (
  element
      (record {
        id = 1;
        depth = 0;
        view_type = record { template = 7; arguments = 0 };
        key = none;
        update_count = 1;
        active_branch = none;
        descriptor = none;
        lazy_keys = some 1 ∷ some 2 ∷ [];
        lazy_keep_alive_keys = some 1 ∷ [];
        lazy_keep_alive_limit = some 1;
        lazy_revision = 1;
      })
      nil nil,
  record init { registry = 1 ∷ []; next_id = 2; mount_count = 1 },
)

listed-Live : Live (λ i. copies i listed.0 + 0) (cost_range (ok letter ∷ []) + 0) listed.1
unfolding copies cost_range cost subscriptions_of
listed-Live = record {
  known = λ i. ground arith;
  counted = refl;
  numbered = refl;
  room = omega arith;
}

realize-Keeps_example :
    let r = realize_lazy_fixed_extent_range (ok letter ∷ ok letter ∷ []) 1 2 listed.0 listed.1 in
    Live (λ i. copies i r.1.0 + 0) 0 r.1.1
    × Shaped r.1.0
    × ((l : ℕ)
        → (info_of listed.0).lazy_keep_alive_limit ≡ some l
        → r.0 ≡ none
        → size (kept_of r.1.0) ≤ l)
unfolding is_limited Shaped size
realize-Keeps_example =
    realize-Keeps (ok letter ∷ ok letter ∷ []) 1 2 listed.0 listed.1 (λ i. 0) 0 refl listed-Live
      (λ l. omega arith, (tt, tt))
