-- ===== src/Build/Lazy/Kept.antt =====
-- A lazy list keeps the owner's books, and no more elements alive than its limit.
use dui.Build.{Key, Info, Element, element, Elements, nil, cons, Owner, info_of, kept_of, unmount}
use dui.Base.{
  if_holds, ℕ, zero, suc, ◌+◌, ◌-◌, ◌≤◌, ◌≡◌, sym, subst, false, ◌||◌, Option, none, some, List, [],
  ◌∷◌, arith, ltb, ◌==◌, if◌then◌else◌, length, take, drop,
}
use dui.Base.Outcome.{Result, ok, throw, Error}
use mathlib.Core.Option.{none-ne-some}
use dui.Base.{[], sym, ◌∷◌, length, none, subst}
use dui.Build.Lazy.{
  pending_children, Lists, realize_items, with_lists, realize_lazy_fixed_extent_range,
}
use dui.Build.Live.{copies, copies_all, Live, Shaped, is_limited, cost, cost_items}
use dui.Build.Live.Calls.{Live-cong, Live-spend}
use dui.Build.Live.Unmounts.{enforce_lazy_keep_alive_limit-Live}
use dui.Build.Live.Shapes.{Shaped-enforce_lazy_keep_alive_limit}
use dui.Build.Views.{View, Items, item, size, evict, enforce_lazy_keep_alive_limit, Step}
use dui.Build.Lazy.Books.{SoundLists, realize_items-Sound}

-- The views that the builder returns for these items.
unfoldable pub cost_range : List (Result View) → ℕ
cost_range [] = 0
cost_range (ok v ∷ views) = suc (cost v) + cost_range views
cost_range (throw e ∷ views) = cost_range views

abbrev Costs : ℕ → Result Items → Type 0
Costs n (ok is) = cost_items is ≤ n
Costs n (throw e) = Unit

item-Costs :
    (n : ℕ) (key : Key) (v : View) (r : Result Items)
    → Costs n r
    → Costs (suc (cost v) + n) (elim r [ ok is ↦ ok (item key v is) | throw e ↦ throw e ])
unfolding cost
item-Costs n key v (ok is) h = omega (arith, h)
item-Costs n key v (throw e) h = tt

pending_children-Costs :
    (keys : List Key) (views : List (Result View))
    → Costs (cost_range views) (pending_children keys views)
unfolding pending_children cost_range cost
pending_children-Costs [] views = omega arith
pending_children-Costs (key ∷ keys) [] = omega arith
pending_children-Costs (key ∷ keys) (throw e ∷ views) = tt
pending_children-Costs (key ∷ keys) (ok v ∷ views) =
    item-Costs (cost_range views) key v (pending_children keys views)
      (pending_children-Costs keys views)

pending_holds :
    (P : Step Element → Type 0) (n : ℕ) (r : Result Items) {f : Error → Step Element}
    {g : Items → Step Element}
    → Costs n r
    → ((e : Error) → P (f e))
    → ((is : Items) → cost_items is ≤ n → P (g is))
    → P (elim r [ throw e ↦ f e | ok is ↦ g is ])
pending_holds P n (ok is) c p q = q is c
pending_holds P n (throw e) c p q = p e

size-evict : (k : ℕ) (es : Elements) (s : Owner) → size (evict k es s).0 ≡ size es - k
unfolding evict size
size-evict zero es s = omega arith
size-evict (suc k) nil s = omega arith
size-evict (suc k) (cons e es) s = omega (arith, size-evict k es (unmount e s))

size-enforce_lazy_keep_alive_limit :
    (limit : ℕ) (es : Elements) (s : Owner)
    → size (enforce_lazy_keep_alive_limit (some limit) es s).0 ≤ limit
unfolding enforce_lazy_keep_alive_limit
size-enforce_lazy_keep_alive_limit limit es s = ground (arith, size-evict (size es - limit) es s)

-- What the call leaves: the books, and the limit of the kept-alive children.
abbrev Keeps : (ℕ → ℕ) → ℕ → Option ℕ → Step Element → Type 0
Keeps d n limit r =
    Live (λ i. copies i r.1.0 + d i) n r.1.1
    × Shaped r.1.0
    × ((l : ℕ) → limit ≡ some l → r.0 ≡ none → size (kept_of r.1.0) ≤ l)

with_lists-Keeps :
    (d : ℕ → ℕ) (n : ℕ) (info : Info) (limit : Option ℕ) (r : Step Lists)
    → is_limited info ≡ false
    → SoundLists (λ i. (if info.id == i then 1 else 0) + d i) n r
    → Keeps d n limit (with_lists info limit r)
unfolding copies Shaped
with_lists-Keeps d n info limit (some e, ((cs, ks), s)) free h = (
  Live-cong (λ i. omega arith) h.0,
  (λ l. ground (arith, l, free), (h.1, h.2)),
  λ l e f. absurd (none-ne-some _ (sym f)),
)
with_lists-Keeps d n info limit (none, ((cs, ks), s)) free h =
    let own = λ (i : ℕ). (if info.id == i then 1 else 0) + d i in
    (
      Live-cong (λ i. omega arith)
          (enforce_lazy_keep_alive_limit-Live
            (λ i. copies_all i cs + ((if info.id == i then 1 else 0) + d i)) limit ks s
            (λ i. omega arith) h.0),
      (λ l. ground (arith, l, free), (h.1, Shaped-enforce_lazy_keep_alive_limit limit ks s h.2)),
      λ l e f.
          subst (λ o. size (enforce_lazy_keep_alive_limit o ks s).0 ≤ l) (sym e)
            (size-enforce_lazy_keep_alive_limit l ks s),
    )

-- A lazy list's element that mounts the children of a range, whether it returns or throws, keeps the
-- owner's books: the registry has the ids of the elements that the tree still holds, the children
-- and those kept alive, and of no other. If it returns and has a limit, no more than that many
-- children are kept alive.
pub realize-Keeps :
    (views : List (Result View)) (from until : ℕ) (x : Element) (s : Owner) (d : ℕ → ℕ) (n : ℕ)
    → is_limited (info_of x) ≡ false
    → Live (λ i. copies i x + d i) (cost_range (drop from views) + n) s
    → Shaped x
    → let r = realize_lazy_fixed_extent_range views from until x s in
      Live (λ i. copies i r.1.0 + d i) n r.1.1
      × Shaped r.1.0
      × ((l : ℕ)
          → (info_of x).lazy_keep_alive_limit ≡ some l
          → r.0 ≡ none
          → size (kept_of r.1.0) ≤ l)
unfolding realize_lazy_fixed_extent_range copies Shaped
realize-Keeps views from until (element i cs ks) s d n free h shape =
    if_holds (Keeps d n i.lazy_keep_alive_limit) (ltb (length i.lazy_keys) until || ltb until from)
      (Live-spend n (omega arith) h, shape, λ l e f. absurd (none-ne-some _ (sym f)))
      (pending_holds (Keeps d n i.lazy_keep_alive_limit) (cost_range (drop from views))
        (pending_children (take (until - from) (drop from i.lazy_keys)) (drop from views))
        (pending_children-Costs (take (until - from) (drop from i.lazy_keys)) (drop from views))
        (λ e. (Live-spend n (omega arith) h, shape, λ l e f. absurd (none-ne-some _ (sym f))))
        (λ is cheap.
          with_lists-Keeps d n i i.lazy_keep_alive_limit
            (realize_items is i.depth i.lazy_keep_alive_keys cs ks nil s) free
            (realize_items-Sound is i.depth i.lazy_keep_alive_keys cs ks nil s
              (λ j. (if i.id == j then 1 else 0) + d j) n
              (Live-spend _ (omega (arith, cheap)) (Live-cong (λ j. omega arith) h)) shape.1.0
              shape.1.1 tt)))
