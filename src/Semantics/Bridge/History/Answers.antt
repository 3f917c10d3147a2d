-- ===== src/Semantics/Bridge/History/Answers.antt =====
-- The calls on an open transaction, and every history of calls.
use dui.Base.{
  ℕ, ◌+◌, ◌≡◌, refl, sym, subst, ◌⊎◌, inl, inr, Bool, true, false, ◌||◌, none, some, List, [], ◌∷◌,
  arith, ◌==◌, Bool-cases, Option-cases, u64_max,
}
use dui.Base.Outcome.{ok}
use mathlib.Core.Option.{some_inj, none-ne-some}
use dui.Semantics.Tree.{Nodes, Entry, list_entries}
use dui.Semantics.Tree.Entries.{entries_all}
use dui.Semantics.Tree.Preorder.{list_entries_iff}
use dui.Semantics.Differ.{find_entry}
use dui.Semantics.Differ.Equal.{Chains}
use dui.Semantics.Differ.Views.{View}
use dui.Semantics.Differ.Mirror.{Mirrors, update_mirrors}
use dui.Semantics.Bridge.{
  Transaction, AccessibilityBridge, Shared, init, is_awaited, next_publication_generation, retry,
  acknowledge, reject, reset_acknowledged, publish, is_active,
}
use dui.Semantics.Bridge.History.{
  Call, publishes, clears, prepares, prepares_clear, retries, resets, acknowledges, rejects,
  adapter, taken, fresh, call, calls,
}
use dui.Semantics.Bridge.History.Kept.{Kept, Delivers, deliver_taking}
use dui.Semantics.Bridge.History.Calls.{publish-Kept, clear-Kept, prepare-Kept, prepare_clear-Kept}

module _ {B : Type 0} where
  -- The bridge with the open transaction sent or rejected.
  abbrev retagged : Transaction B → ℕ → Bool → ℕ → AccessibilityBridge B → AccessibilityBridge B
  retagged t g f n b = record b {
    transaction = some (record t { generation = g; in_flight = f });
    next_generation = n;
  }

  -- What a call on a transaction leaves: the same bridge, or the same transaction, sent again or
  -- rejected.
  abbrev Retags : AccessibilityBridge B → AccessibilityBridge B → Type 0
  Retags b c =
      (c ≡ b)
      ⊎ ((t : Transaction B) × ((g : ℕ) × ((f : Bool) × ((n : ℕ) × ((b.transaction ≡ some t)
                  × (c ≡ retagged t g f n b))))))

  retry_cases : (b : AccessibilityBridge B) → Retags b (retry b).1
  unfolding retry next_publication_generation
  retry_cases b = elim (Option-cases b.transaction) [
    | inl e ↦ inl (ground (arith, e))
    | inr (t, e) ↦ elim (Bool-cases (t.in_flight || b.next_generation == u64_max)) [
      | inl stays ↦ inl (ground (arith, e, stays))
      | inr sent ↦
          inr
            (t, (b.next_generation, (true, (b.next_generation + 1, (e, ground (arith, e, sent))))))
    ]
  ]

  reject_cases : (g : ℕ) (b : AccessibilityBridge B) → Retags b (reject g b).1
  unfolding reject
  reject_cases g b = elim (Option-cases b.transaction) [
    | inl e ↦ inl (ground (arith, e))
    | inr (t, e) ↦ elim (Bool-cases (is_awaited g t)) [
      | inl awaited ↦
          inr (t, (t.generation, (false, (b.next_generation, (e, ground (arith, e, awaited))))))
      | inr other ↦ inl (ground (arith, e, other))
    ]
  ]

module _ {B : Type 0} (bounds_eq : B → B → Bool) where
  retags-Kept :
      (s : Shared (View B) B) (c : AccessibilityBridge B)
      → Kept bounds_eq s
      → Retags s.bridge c
      → Kept bounds_eq (record s { bridge = c })
  retags-Kept s c k (inl same) = subst (λ b. Kept bounds_eq (record s { bridge = b })) (sym same) k
  retags-Kept s c k (inr (t, (g, (f, (n, (open_it, eq)))))) =
      subst (λ b. Kept bounds_eq (record s { bridge = b })) (sym eq)
        (record {
          agrees = k.agrees;
          distinct = k.distinct;
          alive = k.alive;
          idle = k.idle;
          open_one = λ u h.
              subst (λ x. Mirrors bounds_eq s.adapter x.changes x.candidate x.candidate.entries)
                (some_inj.0 h) (k.open_one t open_it);
        })

  Kept-along :
      (b c : AccessibilityBridge B) (v w : View B)
      → b ≡ c
      → v ≡ w
      → Kept bounds_eq (record { bridge = c; adapter = w })
      → Kept bounds_eq (record { bridge = b; adapter = v })
  Kept-along b c v w p q k = rw (p, q) k

  acknowledge-Kept :
      (g : ℕ) (s : Shared (View B) B)
      → Kept bounds_eq s
      → Kept bounds_eq
          (record { bridge = (acknowledge g s.bridge).1; adapter = taken g s.bridge s.adapter })
  unfolding acknowledge taken
  acknowledge-Kept g s k = elim (Option-cases s.bridge.transaction) [
    | inl e ↦
        Kept-along (acknowledge g s.bridge).1 s.bridge (taken g s.bridge s.adapter) s.adapter
          (ground (arith, e)) (ground (arith, e)) k
    | inr (t, e) ↦ elim (Bool-cases (is_awaited g t)) [
      | inl awaited ↦
          let m = k.open_one t e in
          Kept-along (acknowledge g s.bridge).1
            (record s.bridge { differ = t.candidate; transaction = none })
            (taken g s.bridge s.adapter) m.after (ground (arith, e, awaited))
            (ground (arith, e, awaited, m.taken))
            (record {
              agrees = m.told;
              distinct = m.distinct;
              alive = k.alive;
              idle = k.idle;
              open_one = λ u h. absurd (none-ne-some u h);
            })
      | inr other ↦
          Kept-along (acknowledge g s.bridge).1 s.bridge (taken g s.bridge s.adapter) s.adapter
            (ground (arith, e, other)) (ground (arith, e, other)) k
    ]
  ]

  fresh-Kept : Kept bounds_eq fresh
  unfolding fresh init find_entry
  fresh-Kept = record {
    agrees = λ k. tt;
    distinct = λ k. omega arith;
    alive = refl;
    idle = refl;
    open_one = λ u h. absurd (none-ne-some u h);
  }

  reset-Kept :
      (s : Shared (View B) B)
      → Kept bounds_eq s
      → Kept bounds_eq (record { bridge = (reset_acknowledged s.bridge).1; adapter = λ k. none })
  unfolding reset_acknowledged find_entry
  reset-Kept s k =
      Kept-along (reset_acknowledged s.bridge).1
        (record s.bridge { differ = record { entries = [] }; transaction = none }) (λ j. none)
        (λ j. none) (ground (arith, k.idle)) refl
        (record {
          agrees = λ j. tt;
          distinct = λ j. omega arith;
          alive = k.alive;
          idle = k.idle;
          open_one = λ u h. absurd (none-ne-some u h);
        })

  pub call-Kept :
      (c : Call B) (s : Shared (View B) B)
      → Chains bounds_eq
      → Kept bounds_eq s
      → Kept bounds_eq (call bounds_eq c s)
  unfolding call
  call-Kept (publishes roots takes) s chains k = publish-Kept bounds_eq takes roots s chains k
  call-Kept (clears takes) s chains k = clear-Kept bounds_eq takes s k
  call-Kept (prepares roots) s chains k = prepare-Kept bounds_eq roots s chains k
  call-Kept prepares_clear s chains k = prepare_clear-Kept bounds_eq s k
  call-Kept retries s chains k = retags-Kept s (retry s.bridge).1 k (retry_cases s.bridge)
  call-Kept (acknowledges g) s chains k = acknowledge-Kept g s k
  call-Kept (rejects g) s chains k = retags-Kept s (reject g s.bridge).1 k (reject_cases g s.bridge)
  call-Kept resets s chains k = reset-Kept s k

  calls-Kept :
      (cs : List (Call B)) (s : Shared (View B) B)
      → Chains bounds_eq
      → Kept bounds_eq s
      → Kept bounds_eq (calls bounds_eq cs s)
  unfolding calls
  calls-Kept [] s chains k = k
  calls-Kept (c ∷ cs) s chains k =
      calls-Kept cs (call bounds_eq c s) chains (call-Kept c s chains k)

  -- After any history of calls the adapter holds the bridge's entries, in each of which the id is
  -- another, and it would take the changes of an open transaction and then hold the candidate's
  -- entries. Equality of bounds chains.
  pub bridge_mirrors :
      Chains bounds_eq → (cs : List (Call B)) → Kept bounds_eq (calls bounds_eq cs fresh)
  bridge_mirrors chains cs = calls-Kept cs fresh chains fresh-Kept

  publish_taken :
      (s : Shared (View B) B) (roots : Nodes B)
      → Chains bounds_eq
      → Kept bounds_eq s
      → s.bridge.transaction ≡ none
      → (next : List (Entry B)) → list_entries roots ≡ ok next
      → Delivers bounds_eq s (publish bounds_eq (adapter true) roots s) next
  unfolding publish
  publish_taken s roots chains k no_open next h =
      let same = ((list_entries_iff roots next).0 h).0 in
      let free : is_active s.bridge ≡ false = ground (arith, k.idle, no_open) in
      rw free
        (elim (update_mirrors bounds_eq s.adapter roots s.bridge.differ chains k.agrees
          k.distinct) [
            | inl (x, (e, u)) ↦ cc (e, h)
            | inr (changes, (t, (u, m))) ↦
                rw (u, same)
                  (deliver_taking bounds_eq s changes t (entries_all none 0 roots) k no_open m)
          ])

  -- After any history of calls that leaves no transaction open, publishing a valid tree to an
  -- adapter that takes what fits it returns, and the adapter holds the tree's entries. Equality of
  -- bounds chains.
  pub publish-Delivers :
      Chains bounds_eq
      → (cs : List (Call B)) (roots : Nodes B) (next : List (Entry B))
      → (calls bounds_eq cs fresh).bridge.transaction ≡ none
      → list_entries roots ≡ ok next
      → Delivers bounds_eq
          (calls bounds_eq cs fresh)
          (publish bounds_eq (adapter true) roots (calls bounds_eq cs fresh))
          next
  publish-Delivers chains cs roots next no_open h =
      publish_taken (calls bounds_eq cs fresh) roots chains (bridge_mirrors chains cs) no_open next
        h
