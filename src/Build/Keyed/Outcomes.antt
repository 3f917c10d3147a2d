-- ===== src/Build/Keyed/Outcomes.antt =====
-- How the update of a ForEach ends: with its items' elements, unchanged, or with no child.
use dui.Build.{Key, same_key, Element, element, Elements, nil, cons, Owner, children_of}
use dui.Base.{
  if_pos, if_neg, ℕ, ◌≡◌, refl, sym, ap, subst, ◌∙◌, ◌⊎◌, inl, inr, Bool, true, false, ◌&&◌, ◌||◌,
  not, Option, none, some, List, [], ◌∷◌, arith, Bool-cases, Option-cases,
}
use dui.Base.Outcome.{Error, logic_error}
use dui.Build.Live.Children.{throws_holds}
use mathlib.Core.Option.{none-ne-some}
use dui.Build.Keyed.{Reuses, on_none, on_some}
use dui.Build.Views.{
  Items, for_each, done, item, type_token, has_key, append, take_match, Step, with_children,
  abandon, pending, update_view, update_items, reconcile_child,
}
use dui.Build.Keyed.Children.{update_items-Reuses}

-- A ForEach that was updated without an exception has one child for each item, in their order, each
-- of its item's type and key; where the children before it had one of that key and type, it is the
-- first such element.
pub for_each-Reuses :
    (a : ℕ) (is : Items) (failure : Option Error) (x : Element) (dirty : Bool) (s : Owner)
    → (update_view (for_each a is failure) x dirty s).0 ≡ none
    → Reuses is (children_of x) (children_of (update_view (for_each a is failure) x dirty s).1.0)
unfolding update_view with_children append
for_each-Reuses a is failure (element i cs ks) dirty s h =
    elim (Option-cases (pending [] is failure)) [
      | inl fine ↦
          let e =
            on_none (pending [] is failure) (λ e. (some e, (element i cs ks, s)))
              (with_children i ks (update_items is i.depth cs nil s)) fine in
          let r =
            update_items-Reuses is i.depth cs nil s cs [] failure fine (λ key type new. refl)
              (ap (λ x. x.0) (sym e) ∙ h) in
          subst (Reuses is cs) (sym (ap (λ x. children_of x.1.0) e ∙ r.1)) r.2
      | inr (error, thrown) ↦ absurd (
          none-ne-some error (
            sym h
            ∙ ap (λ x. x.0)
                (on_some (pending [] is failure) (λ e. (some e, (element i cs ks, s)))
                  (with_children i ks (update_items is i.depth cs nil s)) error thrown)))
    ]

unfoldable pub item_keys : Items → List Key
item_keys done = []
item_keys (item key v is) = key ∷ item_keys is

-- No key stands in the list again after itself.
unfoldable pub distinct : List Key → Bool
distinct [] = true
distinct (key ∷ keys) = not (has_key key keys) && distinct keys

unfoldable any_seen : List Key → List Key → Bool
any_seen [] seen = false
any_seen (key ∷ keys) seen = has_key key seen || any_seen keys seen

same_key_comm : (a b : Key) → same_key a b ≡ same_key b a
unfolding same_key
same_key_comm none none = refl
same_key_comm (some a) none = refl
same_key_comm none (some b) = refl
same_key_comm (some a) (some b) = ground arith

any_seen-cons :
    (keys : List Key) (key : Key) (seen : List Key)
    → any_seen keys (key ∷ seen) ≡ (has_key key keys || any_seen keys seen)
unfolding any_seen has_key
any_seen-cons [] key seen = refl
any_seen-cons (k ∷ keys) key seen = ground (arith, any_seen-cons keys key seen, same_key_comm key k)

pending-duplicate :
    (is : Items) (seen : List Key) (failure : Option Error)
    → (any_seen (item_keys is) seen || not (distinct (item_keys is))) ≡ true
    → pending seen is failure ≡ some logic_error
unfolding pending item_keys distinct any_seen
pending-duplicate done seen failure h = absurd (ground (arith, h))
pending-duplicate (item key v is) seen failure h = elim (Bool-cases (has_key key seen)) [
  | inl found ↦ if_pos _ _ _ found
  | inr new ↦
      if_neg _ _ _ new
      ∙ pending-duplicate is (key ∷ seen) failure
          (ground (arith, h, new, any_seen-cons (item_keys is) key seen))
]

-- A ForEach whose items have a key twice throws logic_error, and neither its element nor the owner
-- is changed.
pub for_each-duplicate :
    (a : ℕ) (is : Items) (failure : Option Error) (x : Element) (dirty : Bool) (s : Owner)
    → distinct (item_keys is) ≡ false
    → update_view (for_each a is failure) x dirty s ≡ (some logic_error, (x, s))
unfolding update_view
for_each-duplicate a is failure (element i cs ks) dirty s h =
    on_some (pending [] is failure) (λ e. (some e, (element i cs ks, s)))
      (with_children i ks (update_items is i.depth cs nil s)) logic_error
      (pending-duplicate is [] failure (ground (arith, h)))

update_items-abandons :
    (is : Items) (depth : ℕ) (left next : Elements) (s : Owner) (e : Error)
    → (update_items is depth left next s).0 ≡ some e
    → (update_items is depth left next s).1.0 ≡ nil
unfolding update_items abandon reconcile_child
update_items-abandons done depth left next s e = λ h. absurd (none-ne-some e h)
update_items-abandons (item key v is) depth left next s e =
    let m = take_match key (type_token v) left in
    let r = reconcile_child m.0 v (some depth) key s in
    throws_holds (λ (q : Step Elements). q.0 ≡ some e → q.1.0 ≡ nil) r.0 (λ f h. refl)
      (update_items-abandons is depth m.1 (append next (cons r.1.0 nil)) r.1.1 e)

-- A ForEach that throws leaves its element and the owner as they were, or leaves the element with no
-- child.
pub for_each-abandons :
    (a : ℕ) (is : Items) (failure : Option Error) (x : Element) (dirty : Bool) (s : Owner)
    (e : Error)
    → (update_view (for_each a is failure) x dirty s).0 ≡ some e
    → ((update_view (for_each a is failure) x dirty s).1 ≡ (x, s))
      ⊎ (children_of (update_view (for_each a is failure) x dirty s).1.0 ≡ nil)
unfolding update_view with_children
for_each-abandons a is failure (element i cs ks) dirty s e =
    throws_holds
      (λ (r : Step Element).
        r.0 ≡ some e → (r.1 ≡ (element i cs ks, s)) ⊎ (children_of r.1.0 ≡ nil))
      (pending [] is failure) (λ f h. inl refl)
      (λ h. inr (update_items-abandons is i.depth cs nil s e h))
