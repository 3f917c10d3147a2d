-- ===== src/Build/Lazy.antt =====
-- A lazy list: `realize_lazy_fixed_extent_range`, which mounts the children of a range of its items
-- and keeps some of the others alive. What the builder returns or throws for each item is given.
pub mod Books
pub mod Kept
use dui.Build.{
  TypeToken, same_type, Key, same_key, Info, Element, element, Elements, nil, cons, Owner, info_of,
  unmount, unmount_all,
}
use dui.Base.{
  ℕ, ◌-◌, ◌||◌, Option, none, some, List, [], ◌∷◌, ltb, if◌then◌else◌, is_some, length, take, drop,
}
use dui.Base.Outcome.{Result, ok, throw, Error, logic_error}
use dui.Build.Views.{
  View, Items, done, item, type_token, keep_only, enforce_lazy_keep_alive_limit, append, Step,
  reconcile_child,
}

-- The pending children: a key and a view for each index of the range.
unfoldable pub pending_children : List Key → List (Result View) → Result Items
pending_children [] views = ok done
pending_children (key ∷ keys) [] = ok done
pending_children (key ∷ keys) (throw e ∷ views) = throw e
pending_children (key ∷ keys) (ok v ∷ views) = elim (pending_children keys views) [
  | ok is ↦ ok (item key v is)
  | throw e ↦ throw e
]

-- The first element of the key, which `emplace` put into the index, if it has the type. The keys of
-- a list are distinct, so it is not asked for again after it was moved out.
unfoldable pub take_key : Key → TypeToken → Elements → Option Element × Elements
take_key key type nil = (none, nil)
take_key key type (cons e es) =
    let r = take_key key type es in
    if same_key (info_of e).key key
    then (if same_type (info_of e).view_type type then (some e, es) else (none, cons e es))
    else (r.0, cons e r.1)

-- From the children, else from those kept alive.
unfoldable pub take_lazy :
    Key → TypeToken → Elements → Elements → Option Element × (Elements × Elements)
take_lazy key type previous kept =
    let a = take_key key type previous in
    let b = take_key key type kept in
    if is_some a.0 then (a.0, (a.1, kept)) else (b.0, (previous, b.1))

abbrev pub Lists : Type 0
Lists = Elements × Elements

unfoldable pub abandon_lazy : Elements → Elements → Elements → Error → Element → Owner → Step Lists
abandon_lazy previous kept next e c s =
    (some e, ((nil, nil), unmount_all next (unmount_all kept (unmount_all previous (unmount c s)))))

-- The loop over the pending children, and `retain_or_unmount` of what is left, those kept alive
-- before the others.
unfoldable pub realize_items :
    Items → ℕ → List Key → Elements → Elements → Elements → Owner → Step Lists
realize_items done depth keep previous kept next s =
    let r = keep_only keep (append kept previous) s in (none, ((next, r.0), r.1))
realize_items (item key v is) depth keep previous kept next s =
    let m = take_lazy key (type_token v) previous kept in
    let r = reconcile_child m.0 v (some depth) key s in
    elim r.0 [
      | some e ↦ abandon_lazy m.1.0 m.1.1 next e r.1.0 r.1.1
      | none ↦ realize_items is depth keep m.1.0 m.1.1 (append next (cons r.1.0 nil)) r.1.1
    ]

abbrev pub with_lists : Info → Option ℕ → Step Lists → Step Element
with_lists i limit (some e, ((cs, ks), s)) = (some e, (element i cs ks, s))
with_lists i limit (none, ((cs, ks), s)) =
    let r = enforce_lazy_keep_alive_limit limit ks s in (none, (element i cs r.0, r.1))

unfoldable pub realize_lazy_fixed_extent_range :
    List (Result View) → ℕ → ℕ → Element → Owner → Step Element
realize_lazy_fixed_extent_range views from until (element i cs ks) s =
    if ltb (length i.lazy_keys) until || ltb until from
    then (some logic_error, (element i cs ks, s))
    else elim (pending_children (take (until - from) (drop from i.lazy_keys)) (drop from views)) [
      | throw e ↦ (some e, (element i cs ks, s))
      | ok is ↦
          with_lists i i.lazy_keep_alive_limit
            (realize_items is i.depth i.lazy_keep_alive_keys cs ks nil s)
    ]
