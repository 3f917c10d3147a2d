-- ===== src/Semantics/Bridge.antt =====
-- AccessibilityBridge: it gives an adapter the changes of each tree, at once (publish) or as a
-- publication that is acknowledged or rejected later, and keeps the entries that the adapter has.
-- The object and its adapter are one state, since the adapter may call the bridge back, or destroy
-- it.
pub mod History
pub mod Generations
pub mod Publications
mod Tests
use dui.Base.{
  ℕ, ◌+◌, Bool, true, false, ◌&&◌, ◌||◌, not, Option, none, some, List, [], ◌∷◌, ◌==◌,
  if◌then◌else◌, is_some, u64_max,
}
use dui.Base.Outcome.{M, Result, ok, throw, logic_error, overflow_error}
use dui.Semantics.Tree.{Nodes}
use dui.Semantics.Differ.{SemanticsChange, SemanticsDiffer}
use dui.Semantics.Differ as Differ

-- AccessibilityPublication.
pub record AccessibilityPublication (B : Type 0) : Type 0 where
  pub generation : ℕ
  pub changes : List (SemanticsChange B)

-- AccessibilityBridge::Transaction.
pub record Transaction (B : Type 0) : Type 0 where
  pub generation : ℕ
  pub candidate : SemanticsDiffer B
  pub changes : List (SemanticsChange B)
  pub in_flight : Bool

-- AccessibilityBridge, with the fields of its DeliveryState.
pub record AccessibilityBridge (B : Type 0) : Type 0 where
  pub differ : SemanticsDiffer B
  pub alive : Bool
  pub delivering : Bool
  pub transaction : Option (Transaction B)
  pub next_generation : ℕ

pub record Shared (A B : Type 0) : Type 0 where
  pub bridge : AccessibilityBridge B
  pub adapter : A

unfoldable pub init : {B : Type 0} → AccessibilityBridge B
init = record {
  differ = record { entries = [] };
  alive = true;
  delivering = false;
  transaction = none;
  next_generation = 1;
}

-- AccessibilityBridge::~AccessibilityBridge.
unfoldable pub destroy : {B : Type 0} → AccessibilityBridge B → AccessibilityBridge B
destroy b = record b { alive = false }

-- AccessibilityAdapter::apply.
abbrev pub Apply : Type 0 → Type 0 → Type 0
Apply A B = List (SemanticsChange B) → M (Shared A B) (Unit {0})

module _ {B : Type 0} where
  abbrev pub is_active : AccessibilityBridge B → Bool
  is_active b = b.delivering || is_some b.transaction

  -- AccessibilityBridge::next_publication_generation.
  unfoldable pub next_publication_generation : M (AccessibilityBridge B) ℕ
  next_publication_generation b =
      if b.next_generation == u64_max
      then (throw overflow_error, b)
      else (ok b.next_generation, record b { next_generation = b.next_generation + 1 })

  -- AccessibilityBridge::begin_transaction, for what the candidate's update or clear gave.
  unfoldable pub begin_transaction :
      SemanticsDiffer B
      → List (SemanticsChange B)
      → M (AccessibilityBridge B) (Option (AccessibilityPublication B))
  unfolding next_publication_generation
  begin_transaction candidate [] b = (ok none, b)
  begin_transaction candidate (c ∷ cs) b = elim (next_publication_generation b).0 [
    | throw e ↦ (throw e, (next_publication_generation b).1)
    | ok g ↦ (
      ok (some (record { generation = g; changes = c ∷ cs })),
      record (next_publication_generation b).1 {
        transaction =
            some (record {
              generation = g;
              candidate = candidate;
              changes = c ∷ cs;
              in_flight = true;
            });
      },
    )
  ]

  -- What follows the candidate's call, which may have thrown.
  unfoldable pub begin_with :
      Result (List (SemanticsChange B)) × SemanticsDiffer B
      → M (AccessibilityBridge B) (Option (AccessibilityPublication B))
  unfolding begin_transaction
  begin_with (throw e, candidate) b = (throw e, b)
  begin_with (ok changes, candidate) b = begin_transaction candidate changes b

  -- AccessibilityBridge::prepare_clear.
  unfoldable pub prepare_clear : M (AccessibilityBridge B) (Option (AccessibilityPublication B))
  unfolding begin_with Differ.clear
  prepare_clear b =
      if is_active b then (throw logic_error, b) else begin_with (Differ.clear b.differ) b

  -- AccessibilityBridge::retry.
  unfoldable pub retry : M (AccessibilityBridge B) (Option (AccessibilityPublication B))
  unfolding next_publication_generation
  retry b = elim b.transaction [
    | none ↦ (ok none, b)
    | some t ↦ if t.in_flight then (ok none, b) else elim (next_publication_generation b).0 [
      | throw e ↦ (throw e, (next_publication_generation b).1)
      | ok g ↦ (
        ok (some (record { generation = g; changes = t.changes })),
        record (next_publication_generation b).1 {
          transaction = some (record t { generation = g; in_flight = true });
        },
      )
    ]
  ]

  abbrev pub is_awaited : ℕ → Transaction B → Bool
  is_awaited generation t = t.in_flight && t.generation == generation

  -- AccessibilityBridge::acknowledge.
  unfoldable pub acknowledge : ℕ → AccessibilityBridge B → Bool × AccessibilityBridge B
  acknowledge generation b = elim b.transaction [
    | none ↦ (false, b)
    | some t ↦
        if is_awaited generation t
        then (true, record b { differ = t.candidate; transaction = none })
        else (false, b)
  ]

  -- AccessibilityBridge::reject.
  unfoldable pub reject : ℕ → AccessibilityBridge B → Bool × AccessibilityBridge B
  reject generation b = elim b.transaction [
    | none ↦ (false, b)
    | some t ↦
        if is_awaited generation t
        then (true, record b { transaction = some (record t { in_flight = false }) })
        else (false, b)
  ]

  -- AccessibilityBridge::reset_acknowledged.
  unfoldable pub reset_acknowledged : M (AccessibilityBridge B) (Unit {0})
  reset_acknowledged b =
      if b.delivering
      then (throw logic_error, b)
      else (ok tt, record b { differ = record { entries = [] }; transaction = none })

module _ {A B : Type 0} where
  abbrev pub set_delivering : Bool → Shared A B → Shared A B
  set_delivering d s = record s { bridge = record s.bridge { delivering = d } }

  -- After the adapter's call, for what it gave.
  unfoldable pub delivered : Result (Unit {0}) → SemanticsDiffer B → M (Shared A B) Bool
  delivered (throw e) next s = (throw e, s)
  delivered (ok u) next s =
      if not s.bridge.alive
      then (ok true, s)
      else (ok true, record s { bridge = record s.bridge { differ = next } })

  -- What publish and clear do with the copy of the differ, for what its call gave.
  unfoldable pub deliver :
      Apply A B → Result (List (SemanticsChange B)) × SemanticsDiffer B → M (Shared A B) Bool
  unfolding delivered
  deliver apply (throw e, next) s = (throw e, s)
  deliver apply (ok [], next) s = (ok false, s)
  deliver apply (ok (c ∷ cs), next) s =
      let called = apply (c ∷ cs) (set_delivering true s) in
      delivered called.0 next (set_delivering false called.1)

  -- AccessibilityBridge::clear.
  unfoldable pub clear : Apply A B → M (Shared A B) Bool
  unfolding deliver Differ.clear
  clear apply s =
      if is_active s.bridge
      then (throw logic_error, s)
      else deliver apply (Differ.clear s.bridge.differ) s

module _ {B : Type 0} (bounds_eq : B → B → Bool) where
  -- AccessibilityBridge::prepare.
  unfoldable pub prepare : Nodes B → M (AccessibilityBridge B) (Option (AccessibilityPublication B))
  unfolding begin_with Differ.update
  prepare roots b =
      if is_active b
      then (throw logic_error, b)
      else begin_with (Differ.update bounds_eq roots b.differ) b

  -- AccessibilityBridge::publish.
  unfoldable pub publish : {A : Type 0} → Apply A B → Nodes B → M (Shared A B) Bool
  unfolding deliver Differ.update
  publish apply roots s =
      if is_active s.bridge
      then (throw logic_error, s)
      else deliver apply (Differ.update bounds_eq roots s.bridge.differ) s
