-- ===== src/Build/Live/Updates.antt =====
-- A reconciliation keeps the books, whether it returns or throws: the elements in existence are
-- those of the tree that it leaves.
use dui.Build.{
  TypeToken, Key, Info, Element, element, Elements, Owner, info_of, unmount, unmount_all,
  notify_dependents,
}
use dui.Base.{
  ℕ, suc, ◌+◌, ◌≤◌, ◌≡◌, refl, ◌∙◌, Bool, true, Option, none, some, List, [], ◌∷◌, arith, ◌==◌,
  if◌then◌else◌,
}
use dui.Base.Outcome.{Error}
use dui.Build.Live.{copies, copies_all, copies_slot, Live, Shaped, ShapedAll, is_limited}
use dui.Build.Live.Calls.{Live-cong, notify_dependents-Live}
use dui.Build.Live.Unmounts.{
  unmount-Live, unmount_all-Live, unmount_back-Live, place-Live, begin_update-Live, keep_only-Live,
  enforce_lazy_keep_alive_limit-Live,
}
use dui.Build.Live.Shapes.{
  ShapedSlot, Shaped-place, template-place, Shaped-begin_update, template-begin_update,
  Shaped-keep_only, Shaped-enforce_lazy_keep_alive_limit,
}
use dui.Build.Views.{
  begin_update, place, size, keep_only, Step, reconcile_with, install_lazy_model, update_lazy,
  notify_each, put_first, only_first, with_children, abandon,
}

-- After a step on one element, `d i` other elements have the id `i`.
abbrev pub Sound : (ℕ → ℕ) → ℕ → Step Element → Type 0
Sound d n r = Live (λ i. copies i r.1.0 + d i) n r.1.1 × Shaped r.1.0

abbrev pub SoundAll : (ℕ → ℕ) → ℕ → Step Elements → Type 0
SoundAll d n r = Live (λ i. copies_all i r.1.0 + d i) n r.1.1 × ShapedAll r.1.0

-- What a step on an element of a type promises.
abbrev pub Updates : ℕ → (Element → Bool → Owner → Step Element) → TypeToken → Type 0
Updates k update type =
    (x : Element) (dirty : Bool) (s : Owner) (d : ℕ → ℕ) (n : ℕ)
    → (info_of x).view_type.template ≡ type.template
    → Live (λ i. copies i x + d i) (k + n) s
    → Shaped x
    → Sound d n (update x dirty s)

pub reconcile_with-Sound :
    {c : ℕ → ℕ} (d : ℕ → ℕ) (k n : ℕ) (update : Element → Bool → Owner → Step Element)
    (slot : Option Element) (type : TypeToken) (parent : Option ℕ) (key : Key) (s : Owner)
    → Updates k update type
    → ((i : ℕ) → c i ≡ copies_slot i slot + d i)
    → Live c (suc (k + n)) s
    → ShapedSlot slot
    → Sound d n (reconcile_with update slot type parent key s)
unfolding reconcile_with
reconcile_with-Sound d k n update slot type parent key s u split h shape =
    let p = place slot type parent key s in
    let b = begin_update p.0 p.1 in
    u b.0 b.1.0 b.1.1 d n (template-begin_update p.0 p.1 ∙ template-place slot type parent key s)
      (begin_update-Live d p.0 p.1 (place-Live d slot type parent key s split h))
      (Shaped-begin_update p.0 p.1 (Shaped-place slot type parent key s shape))

pub with_children-Sound :
    (d : ℕ → ℕ) (n : ℕ) (info : Info) (ks : Elements) (r : Step Elements)
    → (is_limited info ≡ true → size r.1.0 ≤ 1)
    → ShapedAll ks
    → SoundAll (λ i. (if info.id == i then 1 else 0) + (copies_all i ks + d i)) n r
    → Sound d n (with_children info ks r)
unfolding with_children copies Shaped
with_children-Sound d n info ks r one shape h =
    (Live-cong (λ i. omega arith) h.0, (one, (h.1, shape)))

pub put_first-Sound :
    (d : ℕ → ℕ) (n : ℕ) (others : Elements) (r : Step Element)
    → ShapedAll others
    → Sound (λ i. copies_all i others + d i) n r
    → SoundAll d n (put_first others r)
unfolding put_first copies Shaped
put_first-Sound d n others r shape h = (Live-cong (λ i. omega arith) h.0, (h.1, shape))

pub only_first-Sound :
    (d : ℕ → ℕ) (n : ℕ) (others : Elements) (r : Step Element)
    → ShapedAll others
    → Sound (λ i. copies_all i others + d i) n r
    → SoundAll d n (only_first others r)
unfolding only_first copies Shaped
only_first-Sound d n others (some e, (c, s)) shape h =
    (Live-cong (λ i. omega arith) h.0, (h.1, shape))
only_first-Sound d n others (none, (c, s)) shape h = (
  Live-cong (λ i. omega arith)
      (unmount_back-Live others s {d = λ i. copies i c + d i} (λ i. omega arith) h.0),
  (h.1, tt),
)

pub abandon-Sound :
    (d : ℕ → ℕ) (n : ℕ) (previous next : Elements) (e : Error) (r : Step Element)
    → Sound (λ i. copies_all i previous + (copies_all i next + d i)) n r
    → SoundAll d n (abandon previous next e r.1.0 r.1.1)
unfolding abandon copies Shaped
abandon-Sound d n previous next e r h = (
  Live-cong {c = d} (λ i. omega arith)
      (unmount_all-Live {c = λ i. copies_all i next + d i} next
        (unmount_all previous (unmount r.1.0 r.1.1)) (λ i. refl)
        (unmount_all-Live {c = λ i. copies_all i previous + (copies_all i next + d i)} previous
          (unmount r.1.0 r.1.1) (λ i. refl) (unmount-Live r.1.0 r.1.1 (λ i. refl) h.0))),
  tt,
)

pub notify_each-Live :
    {c : ℕ → ℕ} {n : ℕ} (sources : List ℕ) (s : Owner)
    → Live c n s
    → Live c n (notify_each sources s)
unfolding notify_each
notify_each-Live [] s h = h
notify_each-Live (source ∷ sources) s h =
    notify_each-Live sources (notify_dependents source s) (notify_dependents-Live source s h)

pub update_lazy-Sound :
    (d : ℕ → ℕ) (n : ℕ) (keys keep : List Key) (limit : Option ℕ) (x : Element) (s : Owner)
    → Live (λ i. copies i x + d i) n s
    → Shaped x
    → Sound d n (update_lazy keys keep limit x s)
unfolding update_lazy copies Shaped install_lazy_model is_limited
update_lazy-Sound d n keys keep limit (element info cs ks) s h shape =
    let e = λ (i : ℕ). (if info.id == i then 1 else 0) + (copies_all i cs + d i) in
    let kept = keep_only keep ks s in
    (
      Live-cong (λ i. omega arith)
          (enforce_lazy_keep_alive_limit-Live e limit kept.0 kept.1 (λ i. refl)
            (keep_only-Live e keep ks s (λ i. omega arith) h)),
      (
        shape.0,
        (
          shape.1.0,
          Shaped-enforce_lazy_keep_alive_limit limit kept.0 kept.1
              (Shaped-keep_only keep ks s shape.1.1),
        ),
      ),
    )
