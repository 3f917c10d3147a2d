-- ===== src/Semantics/Bridge/Tests.antt =====
-- Two trees in turn: one is published at once, the other as a publication that is rejected, sent
-- again and acknowledged.
use dui.Base.{ℕ, ◌<◌, ◌≡◌, refl, Bool, true, false, none, List, [], ◌∷◌, ◌==◌}
use dui.Semantics.Tree.{
  text, Head, node, Nodes, nil, cons, Entry, list_entries, walk, push_nodes, visit, size_all,
  supports_focus,
}
use dui.Semantics.Differ as Differ
use dui.Semantics.Differ.{
  added, SemanticsChange, find_entry, collect, is_new, is_changed, entry_eq, diff,
}
use dui.Semantics.Differ.Equal.{==-Chains}
use dui.Semantics.Differ.Views.{View, apply, apply_all}
use dui.Semantics.Bridge.{
  ok, Apply, destroy, AccessibilityPublication, AccessibilityBridge, init, publish, prepare, retry,
  acknowledge, reject, begin_with, begin_transaction, next_publication_generation, deliver,
  delivered,
}
use dui.Semantics.Bridge.History.{
  Call, publishes, prepares, retries, acknowledges, rejects, adapter, taken, fresh, call, calls,
}
use dui.Semantics.Bridge.History.Kept.{Kept, Delivers}
use dui.Semantics.Bridge.History.Answers.{bridge_mirrors, publish-Delivers}
use dui.Semantics.Bridge.Publications.{sent, stale_refused}

abbrev label : ℕ → Head ℕ
label id = record {
  id = id;
  role = text;
  label = [];
  value = [];
  enabled = true;
  bounds = 7;
  actions = [];
  focusable = false;
  focused = false;
}

abbrev tree : ℕ → Nodes ℕ
tree id = cons (node (label id) nil) nil

abbrev listed : ℕ → List (Entry ℕ)
listed id = record { head = label id; parent_id = none; child_index = 0 } ∷ []

abbrev eq : ℕ → ℕ → Bool
eq a b = a == b

abbrev history : List (Call ℕ)
history =
    publishes (tree 3) true
    ∷ prepares (tree 4)
    ∷ rejects 1
    ∷ retries
    ∷ acknowledges 1
    ∷ acknowledges 2
    ∷ []

bridge_mirrors_example : Kept eq (calls eq history fresh)
bridge_mirrors_example = bridge_mirrors eq ==-Chains history

publish-Delivers_example :
    Delivers eq
      (calls eq history fresh)
      (publish eq (adapter true) (tree 5) (calls eq history fresh))
      (listed 5)
unfolding calls call fresh init adapter taken publish prepare reject retry acknowledge begin_with
    begin_transaction next_publication_generation deliver delivered apply apply_all Differ.update
    list_entries walk push_nodes visit size_all supports_focus diff collect is_new is_changed
    entry_eq find_entry
publish-Delivers_example = publish-Delivers eq ==-Chains history (tree 5) (listed 5) refl refl

abbrev sending : ℕ → AccessibilityPublication ℕ
sending g = record {
  generation = g;
  changes =
      record { kind = added; entry = record { head = label 4; parent_id = none; child_index = 0 } }
      ∷ [];
}

abbrev last : AccessibilityBridge ℕ
last =
    (calls eq (retries ∷ [])
      (call eq retries (calls eq (rejects 1 ∷ []) (call eq (prepares (tree 4)) fresh)))).bridge

stale_refused_example :
    (1 < 2) × ((acknowledge 1 last ≡ (false, last)) × (reject 1 last ≡ (false, last)))
unfolding sent calls call fresh init prepare reject retry begin_with begin_transaction
    next_publication_generation Differ.update list_entries walk push_nodes visit size_all
    supports_focus diff collect is_new is_changed entry_eq find_entry
stale_refused_example =
    stale_refused eq fresh (prepares (tree 4)) retries (rejects 1 ∷ []) (retries ∷ []) (sending 1)
      (sending 2) refl refl

-- An adapter that destroys the bridge: publish returns, and leaves the entries alone.
abbrev destroys : Apply (View ℕ) ℕ
destroys changes s = (ok tt, record s { bridge = destroy s.bridge })

destroyed_inside :
    publish eq destroys (tree 4) fresh ≡ (ok true, record fresh { bridge = destroy init })
unfolding publish deliver delivered destroy fresh init Differ.update list_entries walk push_nodes
    visit size_all supports_focus diff collect is_new is_changed entry_eq find_entry
destroyed_inside = refl
