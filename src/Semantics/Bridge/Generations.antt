-- ===== src/Semantics/Bridge/Generations.antt =====
-- What each call of a bridge does to the generation that it awaits.
use dui.Base.{
  ℕ, ◌+◌, ◌≡◌, refl, ◌⊎◌, inl, inr, Bool, true, false, ◌||◌, Option, none, some, List, [], ◌∷◌,
  arith, ◌==◌, if◌then◌else◌, Bool-cases, Option-cases, u64_max,
}
use dui.Base.Outcome.{Result, ok, throw}
use dui.Semantics.Differ.{SemanticsChange, SemanticsDiffer}
use dui.Semantics.Differ as Differ
use dui.Semantics.Differ.Views.{View, apply_all}
use dui.Semantics.Bridge.{
  AccessibilityPublication, AccessibilityBridge, Shared, is_awaited, next_publication_generation,
  begin_transaction, begin_with, prepare_clear, retry, acknowledge, reject, reset_acknowledged,
  is_active, deliver, delivered,
}
use dui.Semantics.Bridge.History.{adapter}

module _ {B : Type 0} where
  abbrev pub published :
      Result (Option (AccessibilityPublication B)) → Option (AccessibilityPublication B)
  published (ok o) = o
  published (throw e) = none

  -- The generation that an answer is awaited for.
  pub awaited : AccessibilityBridge B → Option ℕ
  awaited b = elim b.transaction [
    | none ↦ none
    | some t ↦ if t.in_flight then some t.generation else none
  ]

  -- What a call does to the generations: at most it ends the wait, or it takes the next one, which
  -- is awaited then.
  abbrev pub Sends : AccessibilityBridge B → AccessibilityBridge B → Type 0
  Sends b c = (c.next_generation ≡ b.next_generation + 1) × (awaited c ≡ some b.next_generation)

  abbrev pub Waits : AccessibilityBridge B → AccessibilityBridge B → Type 0
  Waits b c =
      (c.next_generation ≡ b.next_generation) × ((awaited c ≡ awaited b) ⊎ (awaited c ≡ none))

  -- The outcome of a call that may give a publication.
  abbrev pub Gives :
      AccessibilityBridge B → Option (AccessibilityPublication B) → AccessibilityBridge B → Type 0
  Gives b o c =
      ((o ≡ none) × Waits b c)
      ⊎ ((p : AccessibilityPublication B) × ((o ≡ some p)
            × ((p.generation ≡ b.next_generation) × Sends b c)))

  pub begin-Gives :
      (b : AccessibilityBridge B) (r : Result (List (SemanticsChange B)) × SemanticsDiffer B)
      → Gives b (published (begin_with r b).0) (begin_with r b).1
  unfolding begin_with begin_transaction next_publication_generation awaited
  begin-Gives b (throw e, t) = inl (refl, (refl, inl refl))
  begin-Gives b (ok [], t) = inl (refl, (refl, inl refl))
  begin-Gives b (ok (c ∷ cs), t) = elim (Bool-cases (b.next_generation == u64_max)) [
    | inl last ↦ inl (ground (arith, last), (ground (arith, last), inl (ground (arith, last))))
    | inr going ↦ inr (
      record { generation = b.next_generation; changes = c ∷ cs },
      (ground (arith, going), (refl, (ground (arith, going), ground (arith, going)))),
    )
  ]

  pub prepare_clear-Gives :
      (b : AccessibilityBridge B) → Gives b (published (prepare_clear b).0) (prepare_clear b).1
  unfolding prepare_clear
  prepare_clear-Gives b = elim (Bool-cases (is_active b)) [
    | inl active ↦ rw active (inl (refl, (refl, inl refl)))
    | inr free ↦ rw free (begin-Gives b (Differ.clear b.differ))
  ]

  pub retry-Gives : (b : AccessibilityBridge B) → Gives b (published (retry b).0) (retry b).1
  unfolding retry next_publication_generation awaited
  retry-Gives b = elim (Option-cases b.transaction) [
    | inl e ↦ inl (ground (arith, e), (ground (arith, e), inl (ground (arith, e))))
    | inr (t, e) ↦ elim (Bool-cases (t.in_flight || b.next_generation == u64_max)) [
      | inl y ↦ inl (ground (arith, e, y), (ground (arith, e, y), inl (ground (arith, e, y))))
      | inr n ↦ inr (
        record { generation = b.next_generation; changes = t.changes },
        (ground (arith, e, n), (refl, (ground (arith, e, n), ground (arith, e, n)))),
      )
    ]
  ]

  pub acknowledge-Waits : (g : ℕ) (b : AccessibilityBridge B) → Waits b (acknowledge g b).1
  unfolding acknowledge awaited
  acknowledge-Waits g b = elim (Option-cases b.transaction) [
    | inl e ↦ ground (arith, e)
    | inr (t, e) ↦ elim (Bool-cases (is_awaited g t)) [
      | inl y ↦ (ground (arith, e, y), inr (ground (arith, e, y)))
      | inr n ↦ (ground (arith, e, n), inl (ground (arith, e, n)))
    ]
  ]

  pub reject-Waits : (g : ℕ) (b : AccessibilityBridge B) → Waits b (reject g b).1
  unfolding reject awaited
  reject-Waits g b = elim (Option-cases b.transaction) [
    | inl e ↦ ground (arith, e)
    | inr (t, e) ↦ elim (Bool-cases (is_awaited g t)) [
      | inl y ↦ (ground (arith, e, y), inr (ground (arith, e, y)))
      | inr n ↦ (ground (arith, e, n), inl (ground (arith, e, n)))
    ]
  ]

  pub reset-Waits : (b : AccessibilityBridge B) → Waits b (reset_acknowledged b).1
  unfolding reset_acknowledged awaited
  reset-Waits b = elim (Bool-cases b.delivering) [
    | inl y ↦ (ground (arith, y), inl (ground (arith, y)))
    | inr n ↦ (ground (arith, n), inr (ground (arith, n)))
  ]

  pub deliver-Waits :
      (takes : Bool) (r : Result (List (SemanticsChange B)) × SemanticsDiffer B)
      (s : Shared (View B) B)
      → Waits s.bridge (deliver (adapter takes) r s).1.bridge
  unfolding deliver delivered adapter awaited
  deliver-Waits takes (throw e, t) s = (refl, inl refl)
  deliver-Waits takes (ok [], t) s = (refl, inl refl)
  deliver-Waits false (ok (c ∷ cs), t) s = (refl, inl refl)
  deliver-Waits true (ok (c ∷ cs), t) s = elim (Option-cases (apply_all (c ∷ cs) s.adapter)) [
    | inl e ↦ (ground (arith, e), inl (ground (arith, e)))
    | inr (w, e) ↦ elim (Bool-cases s.bridge.alive) [
      | inl y ↦ (ground (arith, e, y), inl (ground (arith, e, y)))
      | inr n ↦ (ground (arith, e, n), inl (ground (arith, e, n)))
    ]
  ]

  -- An answer that is not awaited does nothing.
  pub answer_idle :
      (g : ℕ) (b : AccessibilityBridge B)
      → ¬ (awaited b ≡ some g)
      → (acknowledge g b ≡ (false, b)) × (reject g b ≡ (false, b))
  unfolding acknowledge reject awaited
  answer_idle g b h = elim (Option-cases b.transaction) [
    | inl e ↦ (ground (arith, e), ground (arith, e))
    | inr (t, e) ↦ elim (Bool-cases (is_awaited g t)) [
      | inl y ↦ absurd (h (ground (arith, e, y)))
      | inr n ↦ (ground (arith, e, n), ground (arith, e, n))
    ]
  ]
