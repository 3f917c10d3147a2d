-- ===== src/Build/Identity.antt =====
-- Which element a reconciliation leaves in a slot: the one that was there, or a new one.
use dui.Build.{
  TypeToken, same_type, Key, same_key, Info, Element, element, Elements, nil, cons, Owner, info_of,
  make_element, clear_dependencies, forget, unmount, unmount_all,
}
use dui.Base.{
  ℕ, ◌+◌, ◌≡◌, refl, ap, ◌∙◌, inl, inr, Bool, true, false, ◌&&◌, not, Option, none, some, [], arith,
  if◌then◌else◌, Bool-cases, u64,
}
use dui.Build.Live.Children.{throws_holds}
use dui.Build.Views.{
  View, leaf, stack, single, environment, absent, present, choice, for_each, lazy, component,
  type_token, begin_update, place, reusable, Step, reconcile_with, install_lazy_model, update_lazy,
  equivalent, with_children, pending, update_view, reconcile_child,
}

bool_holds :
    {A : Type 0} (P : A → Type 0) (b : Bool) {x y : A}
    → P x
    → P y
    → P (elim b [ true ↦ x | false ↦ y ])
bool_holds P true p q = p
bool_holds P false p q = q

-- What stays with an element as long as it is mounted.
abbrev pub Same : Info → Info → Type 0
Same i j =
    (i.id ≡ j.id)
    × (i.key ≡ j.key)
    × (i.view_type ≡ j.view_type)
    × (i.depth ≡ j.depth)
    × (i.update_count ≡ j.update_count)

pub update_view-Same :
    (v : View) (x : Element) (dirty : Bool) (s : Owner)
    → Same (info_of (update_view v x dirty s).1.0) (info_of x)
unfolding update_view with_children update_lazy install_lazy_model
update_view-Same (leaf a (some e)) x dirty s = (refl, refl, refl, refl, refl)
update_view-Same (leaf a none) (element i cs ks) dirty s = (refl, refl, refl, refl, refl)
update_view-Same (stack a (some e) vs) x dirty s = (refl, refl, refl, refl, refl)
update_view-Same (stack a none vs) (element i cs ks) dirty s = (refl, refl, refl, refl, refl)
update_view-Same (single a (some e) v) x dirty s = (refl, refl, refl, refl, refl)
update_view-Same (single a none v) (element i cs ks) dirty s = (refl, refl, refl, refl, refl)
update_view-Same (environment a ns v) (element i cs ks) dirty s = (refl, refl, refl, refl, refl)
update_view-Same (absent a) (element i cs ks) dirty s = (refl, refl, refl, refl, refl)
update_view-Same (present a v) (element i cs ks) dirty s = (refl, refl, refl, refl, refl)
update_view-Same (choice a index v) (element i cs ks) dirty s = (refl, refl, refl, refl, refl)
update_view-Same (for_each a is failure) (element i cs ks) dirty s =
    throws_holds (λ (r : Step Element). Same (info_of r.1.0) i) (pending [] is failure)
      (λ e. (refl, refl, refl, refl, refl)) (refl, refl, refl, refl, refl)
update_view-Same (lazy a (some e) keys keep limit) x dirty s = (refl, refl, refl, refl, refl)
update_view-Same (lazy a none keys keep limit) (element i cs ks) dirty s =
    (refl, refl, refl, refl, refl)
update_view-Same (component a value comparable reads (some e) v) (element i cs ks) dirty s =
    bool_holds (λ (r : Step Element). Same (info_of r.1.0) i)
      (equivalent comparable i.descriptor value && not dirty) (refl, refl, refl, refl, refl)
      (refl, refl, refl, refl, refl)
update_view-Same (component a value comparable reads none v) (element i cs ks) dirty s =
    bool_holds (λ (r : Step Element). Same (info_of r.1.0) i)
      (equivalent comparable i.descriptor value && not dirty) (refl, refl, refl, refl, refl)
      (refl, refl, refl, refl, refl)

mutual
  unfolding unmount forget clear_dependencies

  unmount-next_id : (e : Element) (s : Owner) → (unmount e s).next_id ≡ s.next_id
  unmount-next_id (element i cs ks) s =
      unmount_all-next_id ks (unmount_all cs s) ∙ unmount_all-next_id cs s

  unmount_all-next_id : (es : Elements) (s : Owner) → (unmount_all es s).next_id ≡ s.next_id
  unmount_all-next_id nil s = refl
  unmount_all-next_id (cons e es) s = unmount_all-next_id es (unmount e s) ∙ unmount-next_id e s

abbrev pub slot_id : Option Element → ℕ
slot_id none = 0
slot_id (some e) = (info_of e).id

abbrev pub slot_updates : Option Element → ℕ
slot_updates none = 0
slot_updates (some e) = (info_of e).update_count

-- The test of `reconcile_child` on its slot.
abbrev pub slot_reusable : Option Element → TypeToken → Key → Bool
slot_reusable none type key = false
slot_reusable (some e) type key = reusable e type key

pub same_key_refl : (k : Key) → same_key k k ≡ true
unfolding same_key
same_key_refl none = refl
same_key_refl (some n) = ground arith

pub same_type_refl : (t : TypeToken) → same_type t t ≡ true
unfolding same_type
same_type_refl t = ground arith

-- The element that `update_view` gets.
abbrev Placed : Option Element → TypeToken → Key → Owner → Info → Type 0
Placed slot type key s i =
    (same_type i.view_type type ≡ true)
    × (same_key i.key key ≡ true)
    × (i.id ≡ (if slot_reusable slot type key then slot_id slot else s.next_id))
    × (i.update_count ≡ (if slot_reusable slot type key then u64 (slot_updates slot + 1) else 1))

begin_update-Placed :
    (slot : Option Element) (type : TypeToken) (parent : Option ℕ) (key : Key) (s : Owner)
    → let p = place slot type parent key s in
      Placed slot type key s (info_of (begin_update p.0 p.1).0)
unfolding place make_element begin_update reusable
begin_update-Placed none type parent key s = (same_type_refl type, same_key_refl key, refl, refl)
begin_update-Placed (some (element i cs ks)) type parent key s =
    elim (Bool-cases (reusable (element i cs ks) type key)) [
      | inl same ↦ ground (arith, same)
      | inr not_so ↦ ground (
        arith,
        not_so,
        same_type_refl type,
        same_key_refl key,
        unmount-next_id (element i cs ks) s,
      )
    ]

-- The element in a slot after it was reconciled with a view under a key, whether or not the view
-- threw: it has the view's type and the key; it is the slot's own element, updated once more, if
-- that one had this type and key, and else a new one with the next id, updated once.
pub reconcile_child-reuses :
    (slot : Option Element) (v : View) (parent : Option ℕ) (key : Key) (s : Owner)
    → let i = info_of (reconcile_child slot v parent key s).1.0 in
      (same_type i.view_type (type_token v) ≡ true)
      × (same_key i.key key ≡ true)
      × (i.id ≡ (if slot_reusable slot (type_token v) key then slot_id slot else s.next_id))
      × (i.update_count
          ≡ (if slot_reusable slot (type_token v) key then u64 (slot_updates slot + 1) else 1))
unfolding reconcile_child reconcile_with
reconcile_child-reuses slot v parent key s =
    let p = place slot (type_token v) parent key s in
    let b = begin_update p.0 p.1 in
    let h = begin_update-Placed slot (type_token v) parent key s in
    let same = update_view-Same v b.0 b.1.0 b.1.1 in
    (
      ap (λ t. same_type t (type_token v)) same.2 ∙ h.0,
      ap (λ k. same_key k key) same.1 ∙ h.1,
      same.0 ∙ h.2,
      same.4 ∙ h.3,
    )
