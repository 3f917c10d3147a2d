-- ===== src/Build/Live/Children.antt =====
-- The children of one element: a child in the first slot, an only child, a component's and a
-- choice's child.
use dui.Build.{
  TypeToken, Key, Info, Element, element, Elements, nil, cons, Owner, insert, clear_dependencies,
  subscribe_all,
}
use dui.Base.{
  ℕ, suc, ◌+◌, ◌≤◌, ◌<◌, ◌≡◌, refl, Bool, true, false, Option, none, some, List, arith, ◌==◌,
  if◌then◌else◌,
}
use dui.Base.Outcome.{Error}
use dui.Build.Live.{copies, copies_all, Live, Shaped, ShapedAll, is_limited}
use dui.Build.Live.Calls.{
  Live-cong, Live-spend, rebuilds-Live, clear_dependencies-Live, subscribe_all-Live,
}
use dui.Build.Live.Unmounts.{unmount_first-Live, copies-first-rest}
use dui.Build.Live.Shapes.{Shaped-first, Shaped-rest}
use dui.Build.Live.Updates.{
  Sound, Updates, reconcile_with-Sound, with_children-Sound, put_first-Sound, only_first-Sound,
}
use dui.Build.Views.{
  size, unmount_first, first, rest, Step, reconcile_with, put_first, only_first, with_children,
}

-- The element's own id, its kept-alive children and the elements outside.
abbrev pub around : Info → Elements → (ℕ → ℕ) → ℕ → ℕ
around info ks d i = (if info.id == i then 1 else 0) + (copies_all i ks + d i)

pub child-Sound :
    (d : ℕ → ℕ) (k n : ℕ) (update : Element → Bool → Owner → Step Element) (cs : Elements)
    (type : TypeToken) (parent : Option ℕ) (key : Key) (s : Owner)
    → Updates k update type
    → Live (λ i. copies_all i cs + d i) (suc (k + n)) s
    → ShapedAll cs
    → Sound
        (λ i. copies_all i (rest cs) + d i)
        n
        (reconcile_with update (first cs) type parent key s)
child-Sound d k n update cs type parent key s u h shape =
    reconcile_with-Sound (λ i. copies_all i (rest cs) + d i) k n update (first cs) type parent key s
      u (λ i. omega (arith, copies-first-rest i cs)) h (Shaped-first cs shape)

-- A child in the first slot, and the slots after it.
pub first_child-Sound :
    (d : ℕ → ℕ) (k n : ℕ) (update : Element → Bool → Owner → Step Element) (info : Info)
    (cs ks : Elements) (type : TypeToken) (s : Owner)
    → Updates k update type
    → (is_limited info ≡ true → size cs ≤ 1)
    → Live (λ i. copies_all i cs + around info ks d i) (suc (k + n)) s
    → ShapedAll cs
    → ShapedAll ks
    → Sound d n (
        with_children info ks
          (put_first (rest cs) (reconcile_with update (first cs) type (some info.depth) none s)))
unfolding put_first size
first_child-Sound d k n update info cs ks type s u one h shape shape_kept =
    let r = reconcile_with update (first cs) type (some info.depth) none s in
    with_children-Sound d n info ks (put_first (rest cs) r) (λ l. slot-size cs (one l)) shape_kept
      (put_first-Sound (around info ks d) n (rest cs) r (Shaped-rest cs shape)
        (child-Sound (around info ks d) k n update cs type (some info.depth) none s u h shape))
  where
    slot-size : (es : Elements) → size es ≤ 1 → suc (size (rest es)) ≤ 1
    slot-size nil le = omega arith
    slot-size (cons e es) le = le

-- The only child of a view that drops the others.
pub size-only_first :
    (cs : Elements) (r : Step Element) → size cs ≤ 1 → size (only_first (rest cs) r).1.0 ≤ 1
unfolding only_first size
size-only_first nil (none, (c, s)) le = omega arith
size-only_first (cons e es) (none, (c, s)) le = omega arith
size-only_first nil (some f, (c, s)) le = omega arith
size-only_first (cons e es) (some f, (c, s)) le = le

pub only_child-Sound :
    (d : ℕ → ℕ) (k n : ℕ) (update : Element → Bool → Owner → Step Element) (info : Info)
    (cs ks : Elements) (type : TypeToken) (s : Owner)
    → Updates k update type
    → (is_limited info ≡ true → size cs ≤ 1)
    → Live (λ i. copies_all i cs + around info ks d i) (suc (k + n)) s
    → ShapedAll cs
    → ShapedAll ks
    → Sound d n (
        with_children info ks
          (only_first (rest cs) (reconcile_with update (first cs) type (some info.depth) none s)))
only_child-Sound d k n update info cs ks type s u one h shape shape_kept =
    let r = reconcile_with update (first cs) type (some info.depth) none s in
    with_children-Sound d n info ks (only_first (rest cs) r) (λ l. size-only_first cs r (one l))
      shape_kept
      (only_first-Sound (around info ks d) n (rest cs) r (Shaped-rest cs shape)
        (child-Sound (around info ks d) k n update cs type (some info.depth) none s u h shape))

pub throws_holds :
    {A : Type 0} (P : A → Type 0) (o : Option Error) {f : Error → A} {y : A}
    → ((e : Error) → P (f e))
    → P y
    → P (elim o [ some e ↦ f e | none ↦ y ])
throws_holds P none p q = q
throws_holds P (some e) p q = p e

pub component-Live :
    {c : ℕ → ℕ} {n : ℕ} {t : Owner} (info : Info) (reads : List ℕ)
    → 0 < c info.id
    → Live c n t
    → Live c n (
        subscribe_all reads info.id
          (clear_dependencies info.id (record t { rebuilds = insert info.id t.rebuilds })))
component-Live {t = t} info reads own h =
    subscribe_all-Live reads info.id
      (clear_dependencies info.id (record t { rebuilds = insert info.id t.rebuilds })) own
      (clear_dependencies-Live info.id (rebuilds-Live info.id own h))

pub component-Sound :
    (d : ℕ → ℕ) (k n : ℕ) (update : Element → Bool → Owner → Step Element) (info : Info)
    (cs ks : Elements) (type : TypeToken) (reads : List ℕ) (failure : Option Error) (same : Bool)
    (t : Owner)
    → Updates k update type
    → (is_limited info ≡ true → size cs ≤ 1)
    → Live (λ i. copies_all i cs + around info ks d i) (suc (k + n)) t
    → ShapedAll cs
    → ShapedAll ks
    → Sound d n (
        let s =
          subscribe_all reads info.id
            (clear_dependencies info.id (record t { rebuilds = insert info.id t.rebuilds })) in
        elim same [
          | true ↦ (none, (element info cs ks, t))
          | false ↦ elim failure [
            | some e ↦ (some e, (element info cs ks, s))
            | none ↦ with_children info ks (
                only_first
                  (rest cs)
                  (reconcile_with update (first cs) type (some info.depth) none s))
          ]
        ])
unfolding copies Shaped
component-Sound d k n update info cs ks type reads failure true t u one h shape shape_kept =
    (Live-spend n (omega arith) (Live-cong (λ i. omega arith) h), (one, (shape, shape_kept)))
component-Sound d k n update info cs ks type reads (some e) false t u one h shape shape_kept = (
  Live-spend n (omega arith)
      (Live-cong (λ i. omega arith) (component-Live info reads (ground arith) h)),
  (one, (shape, shape_kept)),
)
component-Sound d k n update info cs ks type reads none false t u one h shape shape_kept =
    only_child-Sound d k n update info cs ks type _ u one
      (component-Live info reads (ground arith) h) shape shape_kept

pub choice-Sound :
    (d : ℕ → ℕ) (k n : ℕ) (update : Element → Bool → Owner → Step Element) (info : Info)
    (cs ks : Elements) (type : TypeToken) (s : Owner) (stale : Bool)
    → Updates k update type
    → size cs ≤ 1
    → Live (λ i. copies_all i cs + around info ks d i) (suc (k + n)) s
    → ShapedAll cs
    → ShapedAll ks
    → Sound d n (
        with_children info ks (
          put_first (rest (if stale then nil else cs)) (
            reconcile_with update
              (first (if stale then nil else cs))
              type
              (some info.depth)
              none
              (if stale then unmount_first cs s else s))))
unfolding size copies Shaped
choice-Sound d k n update info cs ks type s true u one h shape shape_kept =
    first_child-Sound d k n update info nil ks type (unmount_first cs s) u (λ l. omega arith)
      (Live-cong {c = around info ks d} (λ i. omega arith)
        (unmount_first-Live cs s one (λ i. refl) h))
      tt shape_kept
choice-Sound d k n update info cs ks type s false u one h shape shape_kept =
    first_child-Sound d k n update info cs ks type s u (λ l. one) h shape shape_kept
