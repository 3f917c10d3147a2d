-- ===== src/Semantics/Differ/Views.antt =====
-- What an adapter makes of changes: a view of the entries by id. It takes an addition only of an id
-- that it has not, and an update or a removal only of one that it has.
use dui.Base.{
  if_pos, bool_eq, ℕ, ◌≤◌, ◌≡◌, refl, sym, ap, subst, ◌∙◌, inl, inr, Bool, true, false, Option,
  none, some, List, [], ◌∷◌, ◌++◌, arith, ltb, ◌==◌, if◌then◌else◌, Bool-cases, is_some,
}
use dui.Base.Assoc.{count}
use dui.Semantics.Tree.{Entry}
use dui.Semantics.Tree.Entries.{ids_of}
use dui.Semantics.Differ.{
  SemanticsChangeKind, added, updated, removed, SemanticsChange, find_entry, collect,
}

abbrev pub View : Type 0 → Type 0
View B = ℕ → Option (Entry B)

-- Whether the id is there before the change, and what is there after it.
abbrev pub expects : SemanticsChangeKind → Bool
expects added = false
expects updated = true
expects removed = true

bool_eq_refl : (b : Bool) → bool_eq b b ≡ true
bool_eq_refl true = refl
bool_eq_refl false = refl

abbrev pub Distinct : {B : Type 0} → List (Entry B) → Type 0
Distinct es = (k : ℕ) → count k (ids_of es) ≤ 1

module _ {B : Type 0} where
  abbrev pub written : SemanticsChangeKind → Entry B → Option (Entry B)
  written added e = some e
  written updated e = some e
  written removed e = none

  abbrev pub write : View B → ℕ → Option (Entry B) → View B
  write v id o k = if k == id then o else v k

  unfoldable pub apply : SemanticsChange B → View B → Option (View B)
  apply c v =
      let id = c.entry.head.id in
      if bool_eq (is_some (v id)) (expects c.kind)
      then some (write v id (written c.kind c.entry))
      else none

  unfoldable pub apply_all : List (SemanticsChange B) → View B → Option (View B)
  apply_all [] v = some v
  apply_all (c ∷ cs) v = elim (apply c v) [ none ↦ none | some w ↦ apply_all cs w ]

  abbrev pub view_of : List (Entry B) → View B
  view_of es k = find_entry k es

  -- The view after the changes that a loop makes.
  pub collected : (Entry B → Bool) → SemanticsChangeKind → List (Entry B) → View B → View B
  collected test kind [] v = v
  collected test kind (e ∷ es) v =
      collected test kind es (if test e then write v e.head.id (written kind e) else v)

  pub find_entry-count :
      (k : ℕ) (es : List (Entry B)) → is_some (find_entry k es) ≡ ltb 0 (count k (ids_of es))
  unfolding find_entry
  find_entry-count k [] = refl
  find_entry-count k (e ∷ es) = ground (arith, find_entry-count k es)

  pub find_entry_id :
      (k : ℕ) (es : List (Entry B)) {e : Entry B} → find_entry k es ≡ some e → e.head.id ≡ k
  unfolding find_entry
  find_entry_id k [] {e} h = cc
  find_entry_id k (x ∷ es) {e} h = ground (arith, find_entry_id k es {e = e})

  pub collected_lem :
      (test : Entry B → Bool) (kind : SemanticsChangeKind) (es : List (Entry B)) (v : View B)
      (k : ℕ)
      → Distinct es
      → collected test kind es v k
        ≡ (elim (find_entry k es) [ none ↦ v k | some e ↦ if test e then written kind e else v k ])
  unfolding collected find_entry
  collected_lem test kind [] v k d = refl
  collected_lem test kind (e ∷ es) v k d = elim (Bool-cases (test e)) [
    | inl yes_it_is ↦ rw yes_it_is (
        ground (
          arith,
          collected_lem test kind es (write v e.head.id (written kind e)) k
              (λ j. omega (arith, d j)),
          find_entry-count k es,
          d k,
        ))
    | inr not_it ↦ rw not_it (
        ground (
          arith,
          collected_lem test kind es v k (λ j. omega (arith, d j)),
          find_entry-count k es,
          d k,
        ))
  ]

  apply_one :
      (kind : SemanticsChangeKind) (e : Entry B) (cs : List (SemanticsChange B)) (v : View B)
      → is_some (v e.head.id) ≡ expects kind
      → apply_all (record { kind = kind; entry = e } ∷ cs) v
        ≡ apply_all cs (write v e.head.id (written kind e))
  unfolding apply_all apply
  apply_one kind e cs v h =
      let passes : bool_eq (is_some (v e.head.id)) (expects kind) ≡ true =
        subst (λ b. bool_eq b (expects kind) ≡ true) (sym h) (bool_eq_refl (expects kind)) in
      ap (λ (o : Option (View B)). elim o [ none ↦ none | some w ↦ apply_all cs w ])
        (if_pos (bool_eq (is_some (v e.head.id)) (expects kind))
          (some (write v e.head.id (written kind e))) none passes)

  -- The adapter takes the changes that a loop makes.
  pub apply_all-collect :
      (test : Entry B → Bool) (kind : SemanticsChangeKind) (es : List (Entry B))
      (cs : List (SemanticsChange B)) (v : View B)
      → Distinct es
      → ((k : ℕ) (e : Entry B)
          → find_entry k es ≡ some e
          → test e ≡ true
          → is_some (v k) ≡ expects kind)
      → apply_all (collect test kind es ++ cs) v ≡ apply_all cs (collected test kind es v)
  unfolding collect collected find_entry
  apply_all-collect test kind [] cs v d h = refl
  apply_all-collect test kind (e ∷ es) cs v d h = elim (Bool-cases (test e)) [
    | inl taken ↦ rw taken (
        apply_one kind e (collect test kind es ++ cs) v (h e.head.id e (ground arith) taken)
        ∙ apply_all-collect test kind es cs (write v e.head.id (written kind e))
            (λ j. omega (arith, d j))
            (λ k x f t. ground (arith, h k x, d k, find_entry-count k es)))
    | inr passed ↦ rw passed (
        apply_all-collect test kind es cs v (λ j. omega (arith, d j))
          (λ k x f t. ground (arith, h k x, d k, find_entry-count k es)))
  ]
