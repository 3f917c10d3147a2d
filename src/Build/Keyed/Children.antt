-- ===== src/Build/Keyed/Children.antt =====
-- The loop of a ForEach over its items: each child is the previous one of its key and type.
use dui.Build.{TypeToken, same_type, Key, same_key, Element, Elements, nil, cons, Owner, info_of}
use dui.Base.{
  if_pos, ℕ, ◌≡◌, sym, ap, ◌∙◌, inl, inr, true, false, Option, none, some, List, ◌∷◌, if◌then◌else◌,
  Option-cases,
}
use dui.Base.Outcome.{Error}
use dui.Build.Identity.{reconcile_child-reuses, slot_reusable, slot_id}
use mathlib.Core.Option.{none-ne-some}
use dui.Build.Keyed.{
  find_match, Reuses, find_match-take_match, find_match-reusable, take_match-found, on_none,
  on_some, append-cons, append-nil, pending-item, has_key-cons,
}
use dui.Build.Views.{
  View, Items, done, item, type_token, has_key, append, take_match, abandon, pending, update_items,
  reconcile_child,
}

-- The previous children that are left have the same matches for the keys not seen yet.
abbrev Agrees : List Key → Elements → Elements → Type 0
Agrees seen left previous =
    (key : Key) (type : TypeToken)
    → has_key key seen ≡ false
    → find_match key type left ≡ find_match key type previous

Agrees-take_match :
    (seen : List Key) (key : Key) (type : TypeToken) (left previous : Elements)
    → Agrees seen left previous
    → Agrees (key ∷ seen) (take_match key type left).1 previous
Agrees-take_match seen key type left previous agrees other kind h =
    let apart = has_key-cons other key seen h in
    find_match-take_match key other type kind left apart.0 ∙ agrees other kind apart.1

-- The child of one item.
child-Reuses :
    (key : Key) (v : View) (parent : Option ℕ) (left previous : Elements) (s : Owner)
    → find_match key (type_token v) left ≡ find_match key (type_token v) previous
    → let i = info_of (reconcile_child (take_match key (type_token v) left).0 v parent key s).1.0 in
      (same_type i.view_type (type_token v) ≡ true)
      × (same_key i.key key ≡ true)
      × ((old : Element)
          → find_match key (type_token v) previous ≡ some old
          → i.id ≡ (info_of old).id)
child-Reuses key v parent left previous s agrees =
    let type = type_token v in
    let slot = (take_match key type left).0 in
    let h = reconcile_child-reuses slot v parent key s in
    (
      h.0,
      h.1,
      λ old found.
          let e = take_match-found key type left ∙ agrees ∙ found in
          h.2
          ∙ ap (λ x. if slot_reusable x type key then slot_id x else s.next_id) e
          ∙ if_pos _ _ _ (find_match-reusable key type previous old found),
    )

pub update_items-Reuses :
    (is : Items) (depth : ℕ) (left next : Elements) (s : Owner) (previous : Elements)
    (seen : List Key) (failure : Option Error)
    → pending seen is failure ≡ none
    → Agrees seen left previous
    → (update_items is depth left next s).0 ≡ none
    → (es : Elements) × ((update_items is depth left next s).1.0 ≡ append next es)
      × Reuses is previous es
unfolding update_items Reuses reconcile_child abandon
update_items-Reuses done depth left next s previous seen failure p agrees h =
    (nil, sym (append-nil next), tt)
update_items-Reuses (item key v is) depth left next s previous seen failure p agrees h =
    let type = type_token v in
    let m = take_match key type left in
    let r = reconcile_child m.0 v (some depth) key s in
    let q = pending-item seen key v is failure p in
    elim (Option-cases r.0) [
      | inl fine ↦
          let e =
            on_none r.0 (λ e. abandon m.1 next e r.1.0 r.1.1)
              (update_items is depth m.1 (append next (cons r.1.0 nil)) r.1.1) fine in
          let tail =
            update_items-Reuses is depth m.1 (append next (cons r.1.0 nil)) r.1.1 previous
              (key ∷ seen) failure q.1 (Agrees-take_match seen key type left previous agrees)
              (ap (λ x. x.0) (sym e) ∙ h) in
          let own = child-Reuses key v (some depth) left previous s (agrees key type q.0) in
          (
            cons r.1.0 tail.0,
            ap (λ x. x.1.0) e ∙ tail.1 ∙ append-cons next r.1.0 tail.0,
            (own.0, own.1, own.2, tail.2),
          )
      | inr (error, thrown) ↦ absurd (
          none-ne-some error (
            sym h
            ∙ ap (λ x. x.0)
                (on_some r.0 (λ e. abandon m.1 next e r.1.0 r.1.1)
                  (update_items is depth m.1 (append next (cons r.1.0 nil)) r.1.1) error thrown)))
    ]
