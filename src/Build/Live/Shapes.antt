-- ===== src/Build/Live/Shapes.antt =====
-- The steps of a reconciliation keep an Optional and a Choice at one child.
use dui.Build.{
  TypeToken, same_type, Key, same_key, Element, element, Elements, nil, cons, Owner, info_of,
  make_element, unmount,
}
use dui.Base.{if_holds, ℕ, zero, suc, ◌-◌, ◌≡◌, refl, ◌&&◌, Option, none, some, List, arith, leb}
use dui.Build.Live.{Shaped, ShapedAll, is_limited}
use dui.Build.Views.{
  begin_update, place, reusable, size, evict, keep_only, enforce_lazy_keep_alive_limit, has_key,
  first, rest, append, take_match,
}

unfoldable pub ShapedSlot : Option Element → Type 0
ShapedSlot none = Unit
ShapedSlot (some e) = Shaped e

pub Shaped-place :
    (slot : Option Element) (type : TypeToken) (parent : Option ℕ) (key : Key) (s : Owner)
    → ShapedSlot slot
    → Shaped (place slot type parent key s).0
unfolding place make_element Shaped size ShapedSlot
Shaped-place none type parent key s h = (λ l. omega arith, (tt, tt))
Shaped-place (some e) type parent key s h =
    if_holds (λ (p : Element × Owner). Shaped p.0) (reusable e type key) h
      (λ l. omega arith, (tt, tt))

pub template-place :
    (slot : Option Element) (type : TypeToken) (parent : Option ℕ) (key : Key) (s : Owner)
    → (info_of (place slot type parent key s).0).view_type.template ≡ type.template
unfolding place make_element reusable same_type
template-place none type parent key s = refl
template-place (some e) type parent key s = ground arith

pub Shaped-begin_update : (e : Element) (s : Owner) → Shaped e → Shaped (begin_update e s).0
unfolding begin_update Shaped is_limited
Shaped-begin_update (element i cs ks) s h = h

pub template-begin_update :
    (e : Element) (s : Owner)
    → (info_of (begin_update e s).0).view_type.template ≡ (info_of e).view_type.template
unfolding begin_update
template-begin_update (element i cs ks) s = refl

pub Shaped-take_match :
    (key : Key) (type : TypeToken) (es : Elements)
    → ShapedAll es
    → ShapedSlot (take_match key type es).0 × ShapedAll (take_match key type es).1
unfolding take_match Shaped ShapedSlot
Shaped-take_match key type nil h = (tt, tt)
Shaped-take_match key type (cons e es) h =
    let r = Shaped-take_match key type es h.1 in
    if_holds (λ (p : Option Element × Elements). ShapedSlot p.0 × ShapedAll p.1)
      (same_key (info_of e).key key && same_type (info_of e).view_type type) (h.0, h.1)
      (r.0, (h.0, r.1))

pub Shaped-append : (xs ys : Elements) → ShapedAll xs → ShapedAll ys → ShapedAll (append xs ys)
unfolding append Shaped
Shaped-append nil ys h k = k
Shaped-append (cons e es) ys h k = (h.0, Shaped-append es ys h.1 k)

pub Shaped-first : (es : Elements) → ShapedAll es → ShapedSlot (first es)
unfolding Shaped ShapedSlot
Shaped-first nil h = tt
Shaped-first (cons e es) h = h.0

pub Shaped-rest : (es : Elements) → ShapedAll es → ShapedAll (rest es)
unfolding Shaped
Shaped-rest nil h = tt
Shaped-rest (cons e es) h = h.1

pub Shaped-evict : (k : ℕ) (es : Elements) (s : Owner) → ShapedAll es → ShapedAll (evict k es s).0
unfolding evict Shaped
Shaped-evict zero es s h = h
Shaped-evict (suc k) nil s h = tt
Shaped-evict (suc k) (cons e es) s h = Shaped-evict k es (unmount e s) h.1

pub Shaped-keep_only :
    (keys : List Key) (es : Elements) (s : Owner) → ShapedAll es → ShapedAll (keep_only keys es s).0
unfolding keep_only Shaped
Shaped-keep_only keys nil s h = tt
Shaped-keep_only keys (cons e es) s h =
    if_holds (λ (p : Elements × Owner). ShapedAll p.0) (has_key (info_of e).key keys)
      (h.0, Shaped-keep_only keys es s h.1) (Shaped-keep_only keys es (unmount e s) h.1)

pub Shaped-enforce_lazy_keep_alive_limit :
    (limit : Option ℕ) (es : Elements) (s : Owner)
    → ShapedAll es
    → ShapedAll (enforce_lazy_keep_alive_limit limit es s).0
unfolding enforce_lazy_keep_alive_limit
Shaped-enforce_lazy_keep_alive_limit none es s h = h
Shaped-enforce_lazy_keep_alive_limit (some limit) es s h =
    if_holds (λ (p : Elements × Owner). ShapedAll p.0) (leb (size es) limit) h
      (Shaped-evict (size es - limit) es s h)
