-- ===== src/Build/Views.antt =====
-- Reconciliation: `update_view` of every kind of view, `reconcile_child` and `BuildOwner::render`.
-- A view is what the caller built: a component carries what its `build` returns or throws.
-- A failure of a view is what its work on the render object throws, before any child is touched.
use dui.Build.{
  TypeToken, same_type, Key, same_key, Info, Element, element, Elements, nil, cons, Owner, info_of,
  insert, make_element, clear_dependencies, unmount, unmount_all, unmount_back, subscribe_all,
  notify_dependents,
}
use dui.Base.{
  ℕ, zero, suc, ◌+◌, ◌-◌, Bool, true, false, ◌&&◌, ◌||◌, not, Option, none, some, List, [], ◌∷◌,
  leb, ◌==◌, if◌then◌else◌, u64,
}
use dui.Base.Outcome.{Error, logic_error}
use dui.Base.Assoc.{contains, without}

mutual
  pub data View : Type 0 where
    -- Text and Image.
    leaf : ℕ → Option Error → View
    -- VStack, HStack, Stack, Viewport, Fragment and SliverFixedExtentList.
    stack : ℕ → Option Error → Views → View
    -- Padding, ColoredBox, RepaintBoundary, GestureDetector, FocusView, Semantics and
    -- SliverToBoxAdapter.
    single : ℕ → Option Error → View → View
    -- EnvironmentScope, with the sources whose values it changes.
    environment : ℕ → List ℕ → View → View
    absent : ℕ → View
    present : ℕ → View → View
    choice : ℕ → ℕ → View → View
    -- With what the key function or the builder throws after these items.
    for_each : ℕ → Items → Option Error → View
    -- SliverFixedExtentList of a LazyForEach.
    lazy : ℕ → Option Error → List Key → List Key → Option ℕ → View
    -- Its value, whether such values are compared, the sources that `build` reads, and what it
    -- throws or returns.
    component : ℕ → ℕ → Bool → List ℕ → Option Error → View → View

  pub data Views : Type 0 where
    end : Views
    child : View → Views → Views

  pub data Items : Type 0 where
    done : Items
    item : Key → View → Items → Items

abbrev pub optional_template : ℕ
optional_template = 4

abbrev pub choice_template : ℕ
choice_template = 5

unfoldable pub type_token : View → TypeToken
type_token (leaf a f) = record { template = 0; arguments = a }
type_token (stack a f vs) = record { template = 1; arguments = a }
type_token (single a f v) = record { template = 2; arguments = a }
type_token (environment a ns v) = record { template = 3; arguments = a }
type_token (absent a) = record { template = optional_template; arguments = a }
type_token (present a v) = record { template = optional_template; arguments = a }
type_token (choice a b v) = record { template = choice_template; arguments = a }
type_token (for_each a is f) = record { template = 6; arguments = a }
type_token (lazy a f ks keep limit) = record { template = 7; arguments = a }
type_token (component a x c rs f v) = record { template = 8; arguments = a }

-- An object after a step, and what the step threw.
abbrev pub Step : Type 0 → Type 0
Step A = Option Error × (A × Owner)

unfoldable pub reusable : Element → TypeToken → Key → Bool
reusable e type key = same_type (info_of e).view_type type && same_key (info_of e).key key

-- `++slot->update_count_` to `slot->dirty_ = false`: with the value of `rebuilding_dirty_`.
unfoldable pub begin_update : Element → Owner → Element × (Bool × Owner)
begin_update (element i cs ks) s = (
  element (record i { update_count = u64 (i.update_count + 1) }) cs ks,
  (
    contains i.id s.dirty_flags,
    record s { dirty = without i.id s.dirty; dirty_flags = without i.id s.dirty_flags },
  ),
)

-- The element that `reconcile_child` updates: the slot's own, or a new one.
unfoldable pub place : Option Element → TypeToken → Option ℕ → Key → Owner → Element × Owner
place none type parent key s = make_element type key parent s
place (some e) type parent key s =
    if reusable e type key then (e, s) else make_element type key parent (unmount e s)

unfoldable pub reconcile_with :
    (Element → Bool → Owner → Step Element)
    → Option Element
    → TypeToken
    → Option ℕ
    → Key
    → Owner
    → Step Element
reconcile_with update slot type parent key s =
    let p = place slot type parent key s in let b = begin_update p.0 p.1 in update b.0 b.1.0 b.1.1

abbrev pub first : Elements → Option Element
first nil = none
first (cons e es) = some e

abbrev pub rest : Elements → Elements
rest nil = nil
rest (cons e es) = es

unfoldable pub append : Elements → Elements → Elements
append nil ys = ys
append (cons e es) ys = cons e (append es ys)

-- The first candidate of that key and type, moved out of `previous`; a moved-from slot is left out.
unfoldable pub take_match : Key → TypeToken → Elements → Option Element × Elements
take_match key type nil = (none, nil)
take_match key type (cons e es) =
    let r = take_match key type es in
    if same_key (info_of e).key key && same_type (info_of e).view_type type
    then (some e, es)
    else (r.0, cons e r.1)

unfoldable pub has_key : Key → List Key → Bool
has_key key [] = false
has_key key (k ∷ ks) = same_key k key || has_key key ks

-- The first loop of a ForEach: what it throws, before anything is changed.
unfoldable pub pending : List Key → Items → Option Error → Option Error
pending seen done failure = failure
pending seen (item key v is) failure =
    let r = pending (key ∷ seen) is failure in if has_key key seen then some logic_error else r

abbrev pub with_info : Info → Element → Element
with_info i (element j cs ks) = element i cs ks

-- `std::erase_if` of the kept-alive children whose keys are not to be kept.
unfoldable pub keep_only : List Key → Elements → Owner → Elements × Owner
keep_only keys nil s = (nil, s)
keep_only keys (cons e es) s =
    if has_key (info_of e).key keys
    then (let r = keep_only keys es s in (cons e r.0, r.1))
    else keep_only keys es (unmount e s)

unfoldable pub size : Elements → ℕ
size nil = 0
size (cons e es) = suc (size es)

-- The first `excess` of them are unmounted and erased.
unfoldable pub evict : ℕ → Elements → Owner → Elements × Owner
evict zero es s = (es, s)
evict (suc n) nil s = (nil, s)
evict (suc n) (cons e es) s = evict n es (unmount e s)

unfoldable pub enforce_lazy_keep_alive_limit : Option ℕ → Elements → Owner → Elements × Owner
enforce_lazy_keep_alive_limit none kept s = (kept, s)
enforce_lazy_keep_alive_limit (some limit) kept s =
    if leb (size kept) limit then (kept, s) else evict (size kept - limit) kept s

-- `++lazy_revision_`, and again at 0.
unfoldable pub next_revision : ℕ → ℕ
next_revision r = let n = u64 (r + 1) in if n == 0 then 1 else n

unfoldable pub install_lazy_model : List Key → List Key → Option ℕ → Info → Info
install_lazy_model keys keep limit i = record i {
  lazy_keys = keys;
  lazy_keep_alive_keys = keep;
  lazy_keep_alive_limit = limit;
  lazy_revision = next_revision i.lazy_revision;
}

unfoldable pub update_lazy : List Key → List Key → Option ℕ → Element → Owner → Step Element
update_lazy keys keep limit (element i cs ks) s =
    let kept = keep_only keep ks s in
    let r = enforce_lazy_keep_alive_limit limit kept.0 kept.1 in
    (none, (element (install_lazy_model keys keep limit i) cs r.0, r.1))

-- `if (active_branch.has_value() && *active_branch != index && !children.empty())` of a Choice.
unfoldable pub branch_changed : Option ℕ → ℕ → Bool
branch_changed none index = false
branch_changed (some b) index = not (b == index)

unfoldable pub unmount_first : Elements → Owner → Owner
unmount_first nil s = s
unmount_first (cons e es) s = unmount e s

-- The test of an equality-comparable component.
unfoldable pub equivalent : Bool → Option ℕ → ℕ → Bool
equivalent comparable none value = false
equivalent comparable (some old) value = comparable && (old == value)

unfoldable pub notify_each : List ℕ → Owner → Owner
notify_each [] s = s
notify_each (source ∷ sources) s = notify_each sources (notify_dependents source s)

-- A child that failed stays in its slot; the other slots keep their elements.
unfoldable pub put_first : Elements → Step Element → Step Elements
put_first others r = (r.0, (cons r.1.0 others, r.1.1))

-- `while (children.size() > 1)`, when the child did not fail.
unfoldable pub only_first : Elements → Step Element → Step Elements
only_first others (some e, (c, s)) = (some e, (cons c others, s))
only_first others (none, (c, s)) = (none, (cons c nil, unmount_back others s))

unfoldable pub with_children : Info → Elements → Step Elements → Step Element
with_children i ks r = (r.0, (element i r.1.0 ks, r.1.1))

-- The children after a ForEach's failure: all of them are unmounted, and none is left.
unfoldable pub abandon : Elements → Elements → Error → Element → Owner → Step Elements
abandon previous next e c s = (some e, (nil, unmount_all next (unmount_all previous (unmount c s))))

unfoldable mutual
  pub update_view : View → Element → Bool → Owner → Step Element
  update_view (leaf a (some e)) x dirty s = (some e, (x, s))
  update_view (leaf a none) (element i cs ks) dirty s =
      (none, (element i nil ks, unmount_back cs s))
  update_view (stack a (some e) vs) x dirty s = (some e, (x, s))
  update_view (stack a none vs) (element i cs ks) dirty s =
      with_children i ks (update_static_children vs i.depth cs s)
  update_view (single a (some e) v) x dirty s = (some e, (x, s))
  update_view (single a none v) (element i cs ks) dirty s = with_children i ks (
      put_first (rest cs)
        (reconcile_with (update_view v) (first cs) (type_token v) (some i.depth) none s))
  update_view (environment a ns v) (element i cs ks) dirty s = with_children i ks (
      only_first (rest cs) (
        reconcile_with (update_view v) (first cs) (type_token v) (some i.depth) none
          (notify_each ns s)))
  update_view (absent a) (element i cs ks) dirty s = (none, (element i nil ks, unmount_first cs s))
  update_view (present a v) (element i cs ks) dirty s = with_children i ks (
      put_first (rest cs)
        (reconcile_with (update_view v) (first cs) (type_token v) (some i.depth) none s))
  update_view (choice a index v) (element i cs ks) dirty s =
      let stale = branch_changed i.active_branch index in
      let old = if stale then nil else cs in
      with_children (record i { active_branch = some index }) ks
        (put_first (rest old) (
          reconcile_with (update_view v) (first old) (type_token v) (some i.depth) none
            (if stale then unmount_first cs s else s)))
  update_view (for_each a is failure) (element i cs ks) dirty s = elim (pending [] is failure) [
    | some e ↦ (some e, (element i cs ks, s))
    | none ↦ with_children i ks (update_items is i.depth cs nil s)
  ]
  update_view (lazy a (some e) keys keep limit) x dirty s = (some e, (x, s))
  update_view (lazy a none keys keep limit) x dirty s = update_lazy keys keep limit x s
  update_view (component a value comparable reads failure v) (element j cs ks) dirty t =
      let i = record j { descriptor = some value } in
      let s =
        subscribe_all reads i.id
          (clear_dependencies i.id (record t { rebuilds = insert i.id t.rebuilds })) in
      elim (equivalent comparable j.descriptor value && not dirty) [
        | true ↦ (none, (element i cs ks, t))
        | false ↦ elim failure [
          | some e ↦ (some e, (element i cs ks, s))
          | none ↦ with_children i ks (
              only_first (rest cs)
                (reconcile_with (update_view v) (first cs) (type_token v) (some i.depth) none s))
        ]
      ]

  pub update_static_children : Views → ℕ → Elements → Owner → Step Elements
  update_static_children end depth cs s = (none, (nil, unmount_back cs s))
  update_static_children (child v vs) depth cs s =
      let r = reconcile_with (update_view v) (first cs) (type_token v) (some depth) none s in
      elim r.0 [
        | some e ↦ (some e, (cons r.1.0 (rest cs), r.1.1))
        | none ↦
            let q = update_static_children vs depth (rest cs) r.1.1 in
            (q.0, (cons r.1.0 q.1.0, q.1.1))
      ]

  pub update_items : Items → ℕ → Elements → Elements → Owner → Step Elements
  update_items done depth previous next s = (none, (next, unmount_all previous s))
  update_items (item key v is) depth previous next s =
      let m = take_match key (type_token v) previous in
      let r = reconcile_with (update_view v) m.0 (type_token v) (some depth) key s in
      elim r.0 [
        | some e ↦ abandon m.1 next e r.1.0 r.1.1
        | none ↦ update_items is depth m.1 (append next (cons r.1.0 nil)) r.1.1
      ]

unfoldable pub reconcile_child : Option Element → View → Option ℕ → Key → Owner → Step Element
reconcile_child slot v parent key s =
    reconcile_with (update_view v) slot (type_token v) parent key s
