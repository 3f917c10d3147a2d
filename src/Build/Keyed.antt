-- ===== src/Build/Keyed.antt =====
-- ForEach: which elements its children are after it was updated.
pub mod Children
pub mod Outcomes
use dui.Build.{TypeToken, same_type, Key, same_key, Element, Elements, nil, cons, info_of}
use dui.Base.{
  if_holds_when, if_pos, if_neg, ◌≡◌, refl, sym, ap, subst, ◌∙◌, inl, inr, true, false, ◌&&◌,
  Option, none, some, List, ◌∷◌, arith, if◌then◌else◌, Bool-cases,
}
use dui.Base.Outcome.{Error}
use mathlib.Core.Option.{none-ne-some, some_inj}
use mathlib.Core.Option.{some_inj, none-ne-some}
use dui.Build.Views.{
  View, Items, done, item, type_token, reusable, has_key, append, take_match, pending,
}

-- The first of these elements that has the key and the type.
unfoldable pub find_match : Key → TypeToken → Elements → Option Element
find_match key type nil = none
find_match key type (cons e es) =
    let r = find_match key type es in
    if same_key (info_of e).key key && same_type (info_of e).view_type type then some e else r

-- The children of a ForEach, one for each item: of the item's type and key, and the same element as
-- before if the previous children had one of that key and type.
unfoldable pub Reuses : Items → Elements → Elements → Type 0
Reuses done previous nil = Unit
Reuses done previous (cons e es) = ⊥
Reuses (item key v is) previous nil = ⊥
Reuses (item key v is) previous (cons e es) =
    (same_type (info_of e).view_type (type_token v) ≡ true)
    × (same_key (info_of e).key key ≡ true)
    × ((old : Element)
        → find_match key (type_token v) previous ≡ some old
        → (info_of e).id ≡ (info_of old).id)
    × Reuses is previous es

same_key_eq : (a b : Key) → same_key a b ≡ true → a ≡ b
unfolding same_key
same_key_eq none none h = refl
same_key_eq (some a) (some b) h = ap some (ground (arith, h))
same_key_eq none (some b) h = absurd (ground (arith, h))
same_key_eq (some a) none h = absurd (ground (arith, h))

pub take_match-found :
    (key : Key) (type : TypeToken) (es : Elements)
    → (take_match key type es).0 ≡ find_match key type es
unfolding take_match find_match
take_match-found key type nil = refl
take_match-found key type (cons e es) = ground (arith, take_match-found key type es)

pub same_key_apart :
    (a key other : Key)
    → same_key a key ≡ true
    → same_key key other ≡ false
    → same_key a other ≡ false
same_key_apart a key other h apart = ap (λ k. same_key k other) (same_key_eq a key h) ∙ apart

-- Only an element of the key is taken.
pub find_match-take_match :
    (key other : Key) (type kind : TypeToken) (es : Elements)
    → same_key key other ≡ false
    → find_match other kind (take_match key type es).1 ≡ find_match other kind es
unfolding take_match find_match
find_match-take_match key other type kind nil apart = refl
find_match-take_match key other type kind (cons e es) apart =
    if_holds_when
      (λ (r : Option Element × Elements).
        find_match other kind r.1 ≡ find_match other kind (cons e es))
      (same_key (info_of e).key key && same_type (info_of e).view_type type)
      (λ taken. ground (arith, taken, same_key_apart (info_of e).key key other, apart))
      (λ left. ground (arith, find_match-take_match key other type kind es apart))

pub find_match-reusable :
    (key : Key) (type : TypeToken) (es : Elements) (old : Element)
    → find_match key type es ≡ some old
    → reusable old type key ≡ true
unfolding find_match reusable
find_match-reusable key type nil old h = absurd (none-ne-some old h)
find_match-reusable key type (cons e es) old h =
    elim (Bool-cases (same_key (info_of e).key key && same_type (info_of e).view_type type)) [
      | inl this ↦
          subst (λ x. same_type (info_of x).view_type type && same_key (info_of x).key key ≡ true)
            (some_inj.0 (sym (if_pos _ _ _ this) ∙ h)) (ground (arith, this))
      | inr later ↦ find_match-reusable key type es old (sym (if_neg _ _ _ later) ∙ h)
    ]

pub on_none :
    {A : Type 0} (o : Option Error) (f : Error → A) (y : A)
    → o ≡ none
    → elim o [ some e ↦ f e | none ↦ y ] ≡ y
on_none none f y h = refl
on_none (some e) f y h = absurd (none-ne-some e (sym h))

pub on_some :
    {A : Type 0} (o : Option Error) (f : Error → A) (y : A) (e : Error)
    → o ≡ some e
    → elim o [ some e ↦ f e | none ↦ y ] ≡ f e
on_some none f y e h = absurd (none-ne-some e h)
on_some (some c) f y e h = ap f (some_inj.0 h)

pub append-cons :
    (xs : Elements) (e : Element) (ys : Elements)
    → append (append xs (cons e nil)) ys ≡ append xs (cons e ys)
unfolding append
append-cons nil e ys = refl
append-cons (cons x xs) e ys = ap (cons x) (append-cons xs e ys)

pub append-nil : (xs : Elements) → append xs nil ≡ xs
unfolding append
append-nil nil = refl
append-nil (cons x xs) = ap (cons x) (append-nil xs)

pub pending-item :
    (seen : List Key) (key : Key) (v : View) (is : Items) (failure : Option Error)
    → pending seen (item key v is) failure ≡ none
    → (has_key key seen ≡ false) × (pending (key ∷ seen) is failure ≡ none)
unfolding pending
pending-item seen key v is failure h = elim (Bool-cases (has_key key seen)) [
  | inl found ↦ absurd (none-ne-some _ (sym h ∙ if_pos _ _ _ found))
  | inr new ↦ (new, sym (if_neg _ _ _ new) ∙ h)
]

pub has_key-cons :
    (other key : Key) (seen : List Key)
    → has_key other (key ∷ seen) ≡ false
    → (same_key key other ≡ false) × (has_key other seen ≡ false)
unfolding has_key
has_key-cons other key seen h = ground (arith, h)
