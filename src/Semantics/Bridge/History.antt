-- ===== src/Semantics/Bridge/History.antt =====
-- Calls of a bridge, with an adapter that takes or refuses what it is given, and what the adapter
-- holds after each.
pub mod Kept
pub mod Calls
pub mod Answers
use dui.Base.{ℕ, Bool, true, false, none, some, List, [], ◌∷◌, if◌then◌else◌}
use dui.Base.Outcome.{ok, throw, runtime_error}
use dui.Semantics.Tree.{Nodes, Entry}
use dui.Semantics.Differ.{SemanticsChange, SemanticsDiffer}
use dui.Semantics.Differ.Views.{View, apply_all}
use dui.Semantics.Bridge.{
  Transaction, AccessibilityBridge, Shared, init, Apply, is_awaited, prepare, prepare_clear, retry,
  acknowledge, reject, reset_acknowledged, publish, clear,
}

-- One call. A flag is whether the adapter takes the changes that it is given during the call.
pub data Call (B : Type 0) : Type 0 where
  publishes : Nodes B → Bool → Call B
  clears : Bool → Call B
  prepares : Nodes B → Call B
  prepares_clear retries resets : Call B
  acknowledges rejects : ℕ → Call B

module _ {B : Type 0} where
  -- An adapter that holds a view and does not take changes that do not fit it.
  unfoldable pub adapter : Bool → Apply (View B) B
  adapter false changes s = (throw runtime_error, s)
  adapter true changes s = elim (apply_all changes s.adapter) [
    | none ↦ (throw runtime_error, s)
    | some w ↦ (ok tt, record s { adapter = w })
  ]

  -- What an adapter holds that has taken the publication that it acknowledges.
  unfoldable pub taken : ℕ → AccessibilityBridge B → View B → View B
  taken generation b v = elim b.transaction [
    | none ↦ v
    | some t ↦
        if is_awaited generation t
        then elim (apply_all t.changes v) [ none ↦ v | some w ↦ w ]
        else v
  ]

  unfoldable pub fresh : Shared (View B) B
  unfolding init
  fresh = record { bridge = init; adapter = λ k. none }

  abbrev on_bridge : AccessibilityBridge B → Shared (View B) B → Shared (View B) B
  on_bridge b s = record s { bridge = b }

module _ {B : Type 0} (bounds_eq : B → B → Bool) where
  -- The state after a call. An adapter acknowledges what it has taken, and starts anew when the
  -- bridge is reset.
  unfoldable pub call : Call B → Shared (View B) B → Shared (View B) B
  unfolding adapter taken prepare prepare_clear retry acknowledge reject reset_acknowledged publish
      clear
  call (publishes roots takes) s = (publish bounds_eq (adapter takes) roots s).1
  call (clears takes) s = (clear (adapter takes) s).1
  call (prepares roots) s = on_bridge (prepare bounds_eq roots s.bridge).1 s
  call prepares_clear s = on_bridge (prepare_clear s.bridge).1 s
  call retries s = on_bridge (retry s.bridge).1 s
  call (acknowledges g) s = record {
    bridge = (acknowledge g s.bridge).1;
    adapter = taken g s.bridge s.adapter;
  }
  call (rejects g) s = on_bridge (reject g s.bridge).1 s
  call resets s = record { bridge = (reset_acknowledged s.bridge).1; adapter = λ k. none }

  unfoldable pub calls : List (Call B) → Shared (View B) B → Shared (View B) B
  unfolding call
  calls [] s = s
  calls (c ∷ cs) s = calls cs (call c s)
