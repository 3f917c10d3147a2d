-- ===== src/Build/Live.antt =====
-- The owner's books: what the registry, the counters, the dirty set and the subscriptions say of the
-- elements in existence.
pub mod Calls
pub mod Children
pub mod Histories
pub mod Reconciles
pub mod Rounds
pub mod Shapes
pub mod Updates
pub mod Unmounts
use dui.Build.{Info, Element, element, Elements, nil, cons, Owner}
use dui.Base.{
  ℕ, suc, ◌+◌, ◌≤◌, ◌<◌, ◌≡◌, Bool, true, ◌||◌, Option, none, some, List, [], ◌∷◌, ◌==◌,
  if◌then◌else◌, length,
}
use dui.Base.Assoc.{count}
use dui.Build.Views.{
  size, View, Views, Items, leaf, stack, single, environment, absent, present, choice, for_each,
  lazy, component, end, child, done, item, optional_template, choice_template,
}

-- How often an id stands in a tree.
unfoldable mutual
  pub copies : ℕ → Element → ℕ
  copies i (element info cs ks) =
      (if info.id == i then 1 else 0) + (copies_all i cs + copies_all i ks)

  pub copies_all : ℕ → Elements → ℕ
  copies_all i nil = 0
  copies_all i (cons e es) = copies i e + copies_all i es

unfoldable pub copies_slot : ℕ → Option Element → ℕ
copies_slot i none = 0
copies_slot i (some e) = copies i e

unfoldable pub subscriptions_of : ℕ → List (ℕ × ℕ) → ℕ
subscriptions_of i [] = 0
subscriptions_of i ((source, id) ∷ rest) = (if id == i then 1 else 0) + subscriptions_of i rest

-- What the owner holds of the id `i`, when `c` elements have it.
abbrev pub Known : ℕ → ℕ → Owner → Type 0
Known i c s =
    (count i s.registry ≡ c)
    × (c ≤ 1)
    × (s.next_id ≤ i → c ≡ 0)
    × (count i s.dirty ≤ c)
    × (count i s.dirty_flags ≤ c)
    × (count i s.rebuilds ≤ c)
    × (c ≡ 0 → subscriptions_of i s.subscriptions ≡ 0)

-- `c i` elements have the id `i`, and `n` more can be made before the ids run out.
pub record Live (c : ℕ → ℕ) (n : ℕ) (s : Owner) : Type 0 where
  pub known : (i : ℕ) → Known i (c i) s
  pub counted : s.mount_count ≡ s.unmount_count + length s.registry
  pub numbered : s.next_id ≡ suc s.mount_count
  pub room : s.next_id + n < 18446744073709551616

-- How many elements a view can ask for.
unfoldable mutual
  pub cost : View → ℕ
  cost (leaf a f) = 0
  cost (stack a f vs) = cost_views vs
  cost (single a f v) = suc (cost v)
  cost (environment a ns v) = suc (cost v)
  cost (absent a) = 0
  cost (present a v) = suc (cost v)
  cost (choice a b v) = suc (cost v)
  cost (for_each a is f) = cost_items is
  cost (lazy a f ks keep limit) = 0
  cost (component a x c rs f v) = suc (cost v)

  pub cost_views : Views → ℕ
  cost_views end = 0
  cost_views (child v vs) = suc (cost v) + cost_views vs

  pub cost_items : Items → ℕ
  cost_items done = 0
  cost_items (item k v is) = suc (cost v) + cost_items is

-- An Optional and a Choice have one child at most.
unfoldable pub is_limited : Info → Bool
is_limited i =
    (i.view_type.template == optional_template) || (i.view_type.template == choice_template)

unfoldable mutual
  pub Shaped : Element → Type 0
  Shaped (element i cs ks) = (is_limited i ≡ true → size cs ≤ 1) × (ShapedAll cs × ShapedAll ks)

  pub ShapedAll : Elements → Type 0
  ShapedAll nil = Unit
  ShapedAll (cons e es) = Shaped e × ShapedAll es
