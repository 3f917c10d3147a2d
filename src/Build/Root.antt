-- ===== src/Build/Root.antt =====
-- BuildOwner's own entry points: `render`, `flush` and the destructor, with the flag that refuses
-- them while one of them runs. What the components return from `build` is a parameter of a flush:
-- one function of the element's id for each round of its loop.
use dui.Build.{
  Element, element, Elements, nil, cons, Owner, init, clear_dependencies, unmount_slot,
  subscribe_all,
}
use dui.Base.{
  true, ℕ, Bool, false, ◌&&◌, ◌||◌, Option, none, some, List, [], ◌∷◌, leb, ◌==◌, if◌then◌else◌,
  is_some,
}
use dui.Base.Outcome.{Error, logic_error}
use dui.Base.Assoc.{contains, without}
use dui.Build.Views.{
  View, Step, type_token, first, rest, reconcile_with, reconcile_child, update_view, only_first,
  with_children,
}

pub record BuildOwner : Type 0 where
  pub root : Option Element
  pub owner : Owner
  pub reconciling : Bool
  pub formatting_state : Bool

abbrev pub fresh : BuildOwner
fresh = record { root = none; owner = init; reconciling = false; formatting_state = false }

-- BuildOwner::render.
unfoldable pub render : View → BuildOwner → Option Error × BuildOwner
render v b =
    let r = reconcile_child b.root v none none b.owner in
    if b.reconciling || b.formatting_state
    then (some logic_error, b)
    else (r.0, record b { root = some r.1.0; owner = r.1.1 })

-- BuildOwner::~BuildOwner.
unfoldable pub destroy : BuildOwner → BuildOwner
destroy b = record b { root = none; owner = unmount_slot b.root b.owner }

-- What `build` of a component does when it is called again.
pub record Build : Type 0 where
  pub reads : List ℕ
  pub failure : Option Error
  pub view : View

-- The `rebuild_` that a component's update_view installs.
unfoldable pub rebuild : Build → Element → Owner → Step Element
rebuild b (element i cs ks) t =
    let s = subscribe_all b.reads i.id (clear_dependencies i.id t) in
    elim b.failure [
      | some e ↦ (some e, (element i cs ks, s))
      | none ↦ with_children i ks (
          only_first (rest cs) (
            reconcile_with (update_view b.view) (first cs) (type_token b.view) (some i.depth) none
              s))
    ]

abbrev pub first_error : Option Error → Option Error → Option Error
first_error (some e) other = some e
first_error none other = other

-- The call through the registry's pointer: it reaches the element wherever it stands in the tree.
unfoldable mutual
  pub rebuild_at : Build → ℕ → Element → Owner → Step Element
  rebuild_at b id (element i cs ks) s =
      let r = rebuild_among b id cs s in
      let q = rebuild_among b id ks r.1.1 in
      if i.id == id
      then rebuild b (element i cs ks) s
      else (first_error r.0 q.0, (element i r.1.0 q.1.0, q.1.1))

  pub rebuild_among : Build → ℕ → Elements → Owner → Step Elements
  rebuild_among b id nil s = (none, (nil, s))
  rebuild_among b id (cons e es) s =
      let r = rebuild_at b id e s in
      let q = rebuild_among b id es r.1.1 in (first_error r.0 q.0, (cons r.1.0 q.1.0, q.1.1))

unfoldable pub rebuild_root : Build → ℕ → Option Element → Owner → Step (Option Element)
rebuild_root b id none s = (none, (none, s))
rebuild_root b id (some e) s = let r = rebuild_at b id e s in (r.0, (some r.1.0, r.1.1))

-- `registry_.find(id)->second->depth_`.
unfoldable mutual
  pub depth_at : ℕ → Element → Option ℕ
  depth_at id (element i cs ks) =
      let r = depth_among id cs in
      let q = depth_among id ks in if i.id == id then some i.depth else (if is_some r then r else q)

  pub depth_among : ℕ → Elements → Option ℕ
  depth_among id nil = none
  depth_among id (cons e es) = let r = depth_at id e in if is_some r then r else depth_among id es

unfoldable pub depth_of : ℕ → Option Element → ℕ
depth_of id none = 0
depth_of id (some e) = elim (depth_at id e) [ none ↦ 0 | some d ↦ d ]

unfoldable pub insert_by_depth : Option Element → ℕ → List ℕ → List ℕ
insert_by_depth root id [] = id ∷ []
insert_by_depth root id (j ∷ ids) =
    if leb (depth_of id root) (depth_of j root)
    then id ∷ j ∷ ids
    else j ∷ insert_by_depth root id ids

-- `std::ranges::sort` of the pending ids by the depths of their elements. The ids come from an
-- unordered set and the sort is not stable: of ids of the same depth the source may take any first,
-- and here the order is the one that insertion into the list of pending ids gives.
unfoldable pub sort_by_depth : Option Element → List ℕ → List ℕ
sort_by_depth root [] = []
sort_by_depth root (id ∷ ids) = insert_by_depth root id (sort_by_depth root ids)

abbrev pub is_due : ℕ → Owner → Bool
is_due id s = contains id s.registry && (contains id s.dirty_flags && contains id s.rebuilds)

-- One round of the loop: the pending elements, each if it is still there and still dirty.
unfoldable pub rebuild_pending :
    (ℕ → Build) → List ℕ → Option Element → Owner → Step (Option Element)
rebuild_pending builds [] root s = (none, (root, s))
rebuild_pending builds (id ∷ ids) root s =
    let r =
      rebuild_root (builds id) id root (record s { dirty_flags = without id s.dirty_flags }) in
    if is_due id s
    then (elim r.0 [ some e ↦ r | none ↦ rebuild_pending builds ids r.1.0 r.1.1 ])
    else rebuild_pending builds ids root s

unfoldable pub round : (ℕ → Build) → Option Element → Owner → Step (Option Element)
round builds root s =
    rebuild_pending builds (sort_by_depth root s.dirty) root (record s { dirty = [] })

-- How a flush ends: with an exception or without, or it still runs after these rounds.
pub data Ending : Type 0 where
  finished running : Ending
  threw : Error → Ending

unfoldable pub is_empty : List ℕ → Bool
is_empty [] = true
is_empty (x ∷ xs) = false

unfoldable pub flush_loop :
    List (ℕ → Build) → Option Element → Owner → Ending × (Option Element × Owner)
flush_loop [] root s = ((if is_empty s.dirty then finished else running), (root, s))
flush_loop (builds ∷ later) root s =
    let r = round builds root s in
    let next = flush_loop later r.1.0 r.1.1 in
    if is_empty s.dirty
    then (finished, (root, s))
    else (elim r.0 [ some e ↦ (threw e, r.1) | none ↦ next ])

unfoldable pub flush : List (ℕ → Build) → BuildOwner → Ending × BuildOwner
flush rounds b =
    let r = flush_loop rounds b.root b.owner in
    if b.reconciling || b.formatting_state
    then (threw logic_error, b)
    else (r.0, record b { root = r.1.0; owner = r.1.1 })
