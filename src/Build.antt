-- ===== src/Build.antt =====
-- BuildOwner's elements: their tree, the registry that finds one by id, and the calls that make,
-- unmount and mark them. An element's `dirty_` and `rebuild_` are kept with the owner, as the ids
-- whose field is set, since the registry's pointers reach them from outside of the tree. An id is
-- its own generation. States, resources and render objects are left out. So is the destructor of a
-- dependency source: where an unmounted element owned one (an environment), the subscriptions of
-- others to it stay until those are cleared or unmounted.
pub mod Live
pub mod Root
pub mod Identity
pub mod Keyed
pub mod Lazy
pub mod Views
mod Tests
use dui.Base.{
  ℕ, ◌+◌, Bool, true, false, ◌&&◌, ◌||◌, not, Option, none, some, List, [], ◌∷◌, ◌++◌, ◌==◌,
  if◌then◌else◌, u64,
}
use dui.Base.Assoc.{contains, without}

-- TypeToken of a view: the number of its template, and that of the arguments.
pub record TypeToken : Type 0 where
  pub template : ℕ
  pub arguments : ℕ

unfoldable pub same_type : TypeToken → TypeToken → Bool
same_type a b = (a.template == b.template) && (a.arguments == b.arguments)

-- A key: `none` is the empty one, and the others are numbered.
abbrev pub Key : Type 0
Key = Option ℕ

unfoldable pub same_key : Key → Key → Bool
same_key none none = true
same_key (some a) (some b) = a == b
same_key none (some b) = false
same_key (some a) none = false

pub record Info : Type 0 where
  pub id : ℕ
  pub depth : ℕ
  pub view_type : TypeToken
  pub key : Key
  pub update_count : ℕ
  pub active_branch : Option ℕ
  pub descriptor : Option ℕ
  pub lazy_keys : List Key
  pub lazy_keep_alive_keys : List Key
  pub lazy_keep_alive_limit : Option ℕ
  pub lazy_revision : ℕ

-- An Element with its children_ and its lazy_kept_alive_children_.
mutual
  pub data Element : Type 0 where
    element : Info → Elements → Elements → Element

  pub data Elements : Type 0 where
    nil : Elements
    cons : Element → Elements → Elements

-- BuildOwner. A subscription is a DependencySource with the id of an element in `subscribers_`.
pub record Owner : Type 0 where
  pub registry : List ℕ
  pub dirty : List ℕ
  pub dirty_flags : List ℕ
  pub rebuilds : List ℕ
  pub subscriptions : List (ℕ × ℕ)
  pub next_id : ℕ
  pub mount_count : ℕ
  pub unmount_count : ℕ

abbrev pub init : Owner
init = record {
  registry = [];
  dirty = [];
  dirty_flags = [];
  rebuilds = [];
  subscriptions = [];
  next_id = 1;
  mount_count = 0;
  unmount_count = 0;
}

abbrev pub info_of : Element → Info
info_of (element i cs ks) = i

abbrev pub children_of : Element → Elements
children_of (element i cs ks) = cs

abbrev pub kept_of : Element → Elements
kept_of (element i cs ks) = ks

-- `unordered_set::insert`, and `unordered_map::emplace` of a key.
unfoldable pub insert : ℕ → List ℕ → List ℕ
insert x xs = if contains x xs then xs else x ∷ xs

-- `parent == nullptr ? 0 : parent->depth_ + 1`.
abbrev depth_under : Option ℕ → ℕ
depth_under none = 0
depth_under (some d) = d + 1

-- make_element; the parent is given by its depth.
unfoldable pub make_element : TypeToken → Key → Option ℕ → Owner → Element × Owner
make_element type key parent s = (
  element
      (record {
        id = s.next_id;
        depth = depth_under parent;
        view_type = type;
        key = key;
        update_count = 0;
        active_branch = none;
        descriptor = none;
        lazy_keys = [];
        lazy_keep_alive_keys = [];
        lazy_keep_alive_limit = none;
        lazy_revision = 0;
      })
      nil nil,
  record s {
    next_id = u64 (s.next_id + 1);
    registry = insert s.next_id s.registry;
    mount_count = u64 (s.mount_count + 1);
  },
)

-- DependencySource::unsubscribe, of every source that the element reads.
unfoldable pub unsubscribe : ℕ → List (ℕ × ℕ) → List (ℕ × ℕ)
unsubscribe id [] = []
unsubscribe id ((source, subscriber) ∷ rest) =
    if subscriber == id then unsubscribe id rest else (source, subscriber) ∷ unsubscribe id rest

unfoldable pub clear_dependencies : ℕ → Owner → Owner
clear_dependencies id s = record s { subscriptions = unsubscribe id s.subscriptions }

-- The last lines of `unmount`, with the end of the object's fields.
unfoldable pub forget : ℕ → Owner → Owner
forget id t =
    let s = clear_dependencies id t in
    record s {
      dirty = without id s.dirty;
      registry = without id s.registry;
      unmount_count = u64 (s.unmount_count + 1);
      dirty_flags = without id s.dirty_flags;
      rebuilds = without id s.rebuilds;
    }

unfoldable mutual
  pub unmount : Element → Owner → Owner
  unmount (element i cs ks) s = forget i.id (unmount_all ks (unmount_all cs s))

  pub unmount_all : Elements → Owner → Owner
  unmount_all nil s = s
  unmount_all (cons e es) s = unmount_all es (unmount e s)

unfoldable pub unmount_slot : Option Element → Owner → Owner
unmount_slot none s = s
unmount_slot (some e) s = unmount e s

-- `while (!children.empty()) { unmount(children.back()); children.pop_back(); }`.
unfoldable pub unmount_back : Elements → Owner → Owner
unmount_back nil s = s
unmount_back (cons e es) s = unmount e (unmount_back es s)

-- `resolve(id, generation) != nullptr`.
unfoldable pub resolve : ℕ → ℕ → Owner → Bool
resolve id generation s = contains id s.registry && (generation == id)

unfoldable pub mark_dirty : ℕ → ℕ → Owner → Owner
mark_dirty id generation s =
    if not (resolve id generation s) || not (contains id s.rebuilds)
    then s
    else record s { dirty = insert id s.dirty; dirty_flags = insert id s.dirty_flags }

-- DependencySource::subscribe.
unfoldable pub subscribed : ℕ → ℕ → List (ℕ × ℕ) → Bool
subscribed source id [] = false
subscribed source id ((a, b) ∷ rest) = ((a == source) && (b == id)) || subscribed source id rest

unfoldable pub subscribe : ℕ → ℕ → Owner → Owner
subscribe source id s =
    if subscribed source id s.subscriptions
    then s
    else record s { subscriptions = s.subscriptions ++ (source, id) ∷ [] }

unfoldable pub subscribe_all : List ℕ → ℕ → Owner → Owner
subscribe_all [] id s = s
subscribe_all (source ∷ sources) id s = subscribe_all sources id (subscribe source id s)

-- notify_dependents: a subscriber that is gone is erased, the others are marked.
unfoldable pub notify : ℕ → List (ℕ × ℕ) → Owner → List (ℕ × ℕ) × Owner
notify source [] s = ([], s)
notify source ((a, id) ∷ rest) s =
    let stays = not (a == source) || resolve id id s in
    let r = notify source rest (if a == source then mark_dirty id id s else s) in
    ((if stays then (a, id) ∷ r.0 else r.0), r.1)

unfoldable pub notify_dependents : ℕ → Owner → Owner
notify_dependents source s =
    let r = notify source s.subscriptions s in record r.1 { subscriptions = r.0 }
