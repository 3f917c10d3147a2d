-- ===== src/Semantics/Bridge/History/Kept.antt =====
-- The bridge's entries are those that the adapter holds.
use dui.Base.{
  ℕ, ◌+◌, ◌≡◌, refl, sym, ap, subst, ◌∙◌, ◌⊎◌, inl, inr, Bool, true, false, none, some, List, [],
  ◌∷◌, arith, ◌==◌, Bool-cases, u64_max,
}
use dui.Base.Outcome.{Result, ok, throw}
use mathlib.Core.Option.{some_inj, none-ne-some}
use dui.Semantics.Bridge.{set_delivering}
use dui.Semantics.Tree.{Entry}
use dui.Semantics.Differ.{SemanticsChange, SemanticsDiffer}
use dui.Semantics.Differ.Views.{View, Distinct, apply_all}
use dui.Semantics.Differ.Applied.{Agrees}
use dui.Semantics.Differ.Mirror.{Mirrors, unchanged}
use dui.Semantics.Bridge.{
  Transaction, AccessibilityBridge, Shared, begin_transaction, begin_with,
  next_publication_generation, deliver, delivered,
}
use dui.Semantics.Bridge.History.{adapter}

module _ {B : Type 0} (bounds_eq : B → B → Bool) where
  -- Between calls: the bridge is there and delivers nothing, the adapter holds its entries, and
  -- would take the changes of a transaction and hold those of its candidate then.
  pub record Kept (s : Shared (View B) B) : Type 0 where
    pub agrees : Agrees bounds_eq s.adapter s.bridge.differ.entries
    pub distinct : Distinct s.bridge.differ.entries
    pub alive : s.bridge.alive ≡ true
    pub idle : s.bridge.delivering ≡ false
    pub open_one :
        (t : Transaction B)
        → s.bridge.transaction ≡ some t
        → Mirrors bounds_eq s.adapter t.changes t.candidate t.candidate.entries

  -- What a call of publish or clear does, when the adapter takes the changes.
  pub record Delivers (s : Shared (View B) B) (outcome : Result Bool × Shared (View B) B)
      (next : List (Entry B)) : Type 0 where
    pub changed : Bool
    pub returns : outcome.0 ≡ ok changed
    pub shown : Agrees bounds_eq outcome.1.adapter next
    pub kept : Kept outcome.1

  -- The state after a delivery of changes.
  abbrev told : SemanticsDiffer B → View B → Shared (View B) B → Shared (View B) B
  told t w s = record { bridge = record s.bridge { differ = t; delivering = false }; adapter = w }

  deliver_told :
      (s : Shared (View B) B) (c : SemanticsChange B) (cs : List (SemanticsChange B))
      (t : SemanticsDiffer B) (w : View B)
      → apply_all (c ∷ cs) s.adapter ≡ some w
      → s.bridge.alive ≡ true
      → deliver (adapter true) (ok (c ∷ cs), t) s ≡ (ok true, told t w s)
  unfolding deliver delivered adapter
  deliver_told s c cs t w h alive = ground (arith, h, alive)

  told-Kept :
      (s : Shared (View B) B) (changes : List (SemanticsChange B)) (t : SemanticsDiffer B)
      (next : List (Entry B))
      → Kept s
      → s.bridge.transaction ≡ none
      → (m : Mirrors bounds_eq s.adapter changes t next) → Kept (told t m.after s)
  told-Kept s changes t next k none_open m = record {
    agrees = m.told;
    distinct = m.distinct;
    alive = k.alive;
    idle = refl;
    open_one = λ u h. absurd (none-ne-some u (sym none_open ∙ h));
  }

  pub deliver_taking :
      (s : Shared (View B) B) (changes : List (SemanticsChange B)) (t : SemanticsDiffer B)
      (next : List (Entry B))
      → Kept s
      → s.bridge.transaction ≡ none
      → Mirrors bounds_eq s.adapter changes t next
      → Delivers s (deliver (adapter true) (ok changes, t) s) next
  unfolding deliver
  deliver_taking s [] t next k none_open m = record {
    changed = false;
    returns = refl;
    shown =
        subst (λ v. Agrees bounds_eq v next) (sym (unchanged bounds_eq s.adapter m.after m.taken))
          m.shown;
    kept = k;
  }
  deliver_taking s (c ∷ cs) t next k none_open m =
      subst (λ o. Delivers s o next) (sym (deliver_told s c cs t m.after m.taken k.alive))
        (record {
          changed = true;
          returns = refl;
          shown = m.shown;
          kept = told-Kept s (c ∷ cs) t next k none_open m;
        })

  deliver_refusing :
      (s : Shared (View B) B) (r : Result (List (SemanticsChange B)) × SemanticsDiffer B)
      → Kept s
      → (deliver (adapter false) r s).1 ≡ s
  unfolding deliver delivered adapter
  deliver_refusing s (throw e, t) k = refl
  deliver_refusing s (ok [], t) k = refl
  deliver_refusing s (ok (c ∷ cs), t) k = ap (λ d. set_delivering d s) (sym k.idle)

  -- A publish or clear that is not refused as one too many.
  pub deliver-Kept :
      (takes : Bool) (s : Shared (View B) B)
      (r : Result (List (SemanticsChange B)) × SemanticsDiffer B) (next : List (Entry B))
      → Kept s
      → s.bridge.transaction ≡ none
      → ((changes : List (SemanticsChange B))
          → r.0 ≡ ok changes
          → Mirrors bounds_eq s.adapter changes r.1 next)
      → Kept (deliver (adapter takes) r s).1
  unfolding deliver
  deliver-Kept false s r next k none_open m = subst Kept (sym (deliver_refusing s r k)) k
  deliver-Kept true s (throw e, t) next k none_open m = k
  deliver-Kept true s (ok changes, t) next k none_open m =
      (deliver_taking s changes t next k none_open (m changes refl)).kept

  -- The bridge with an open transaction.
  abbrev opened :
      ℕ
      → SemanticsDiffer B
      → List (SemanticsChange B)
      → AccessibilityBridge B
      → AccessibilityBridge B
  opened g t changes b = record b {
    transaction =
        some (record { generation = g; candidate = t; changes = changes; in_flight = true });
    next_generation = g + 1;
  }

  begin_cases :
      (b : AccessibilityBridge B) (t : SemanticsDiffer B) (changes : List (SemanticsChange B))
      → ((begin_transaction t changes b).1 ≡ b)
        ⊎ ((begin_transaction t changes b).1 ≡ opened b.next_generation t changes b)
  unfolding begin_transaction next_publication_generation
  begin_cases b t [] = inl refl
  begin_cases b t (c ∷ cs) = elim (Bool-cases (b.next_generation == u64_max)) [
    | inl last ↦ inl (ground (arith, last))
    | inr going ↦ inr (ground (arith, going))
  ]

  opened-Kept :
      (s : Shared (View B) B) (g : ℕ) (changes : List (SemanticsChange B)) (t : SemanticsDiffer B)
      (next : List (Entry B))
      → Kept s
      → Mirrors bounds_eq s.adapter changes t next
      → Kept (record s { bridge = opened g t changes s.bridge })
  opened-Kept s g changes t next k m = record {
    agrees = k.agrees;
    distinct = k.distinct;
    alive = k.alive;
    idle = k.idle;
    open_one = λ u h.
        subst (λ x. Mirrors bounds_eq s.adapter x.changes x.candidate x.candidate.entries)
          (some_inj.0 h)
          (record {
            after = m.after;
            taken = m.taken;
            told = m.told;
            shown = m.told;
            distinct = m.distinct;
          });
  }

  -- A copy of the differ, for what its call gave, becomes a transaction.
  pub begin-Kept :
      (s : Shared (View B) B) (r : Result (List (SemanticsChange B)) × SemanticsDiffer B)
      (next : List (Entry B))
      → Kept s
      → ((changes : List (SemanticsChange B))
          → r.0 ≡ ok changes
          → Mirrors bounds_eq s.adapter changes r.1 next)
      → Kept (record s { bridge = (begin_with r s.bridge).1 })
  unfolding begin_with
  begin-Kept s (throw e, t) next k m = k
  begin-Kept s (ok changes, t) next k m = elim (begin_cases s.bridge t changes) [
    | inl same ↦ subst (λ b. Kept (record s { bridge = b })) (sym same) k
    | inr opens ↦
        subst (λ b. Kept (record s { bridge = b })) (sym opens)
          (opened-Kept s s.bridge.next_generation changes t next k (m changes refl))
  ]
