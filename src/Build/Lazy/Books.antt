-- ===== src/Build/Lazy/Books.antt =====
-- The loop of a lazy list over its pending children keeps the owner's books.
use dui.Build.{
  TypeToken, same_type, Key, same_key, Element, Elements, nil, cons, Owner, info_of, unmount,
  unmount_all,
}
use dui.Base.{if_holds, ℕ, ◌+◌, ◌≡◌, refl, Option, some, List, arith, is_some}
use dui.Base.Outcome.{Error}
use dui.Build.Lazy.{take_key, take_lazy, Lists, abandon_lazy, realize_items}
use dui.Build.Live.{copies, copies_all, copies_slot, Live, Shaped, ShapedAll, cost, cost_items}
use dui.Build.Live.Calls.{Live-cong, Live-spend}
use dui.Build.Live.Unmounts.{unmount-Live, unmount_all-Live, keep_only-Live, copies_all-append}
use dui.Build.Live.Shapes.{ShapedSlot, Shaped-append, Shaped-keep_only}
use dui.Build.Live.Updates.{reconcile_with-Sound}
use dui.Build.Live.Children.{throws_holds}
use dui.Build.Live.Reconciles.{update_view-Sound}
use dui.Build.Views.{Items, done, item, type_token, append, Step, update_view, reconcile_child}

pub copies-take_key :
    (i : ℕ) (key : Key) (type : TypeToken) (es : Elements)
    → copies_all i es
      ≡ copies_slot i (take_key key type es).0 + copies_all i (take_key key type es).1
unfolding take_key copies_all copies_slot
copies-take_key i key type nil = refl
copies-take_key i key type (cons e es) = ground (arith, copies-take_key i key type es)

pub copies-take_lazy :
    (i : ℕ) (key : Key) (type : TypeToken) (cs ks : Elements)
    → let m = take_lazy key type cs ks in
      copies_all i cs + copies_all i ks
      ≡ copies_slot i m.0 + (copies_all i m.1.0 + copies_all i m.1.1)
unfolding take_lazy
copies-take_lazy i key type cs ks =
    if_holds
      (λ (m : Option Element × Lists).
        copies_all i cs + copies_all i ks
        ≡ copies_slot i m.0 + (copies_all i m.1.0 + copies_all i m.1.1))
      (is_some (take_key key type cs).0) (omega (arith, copies-take_key i key type cs))
      (omega (arith, copies-take_key i key type ks))

abbrev pub SoundLists : (ℕ → ℕ) → ℕ → Step Lists → Type 0
SoundLists d n r =
    Live (λ i. copies_all i r.1.0.0 + (copies_all i r.1.0.1 + d i)) n r.1.1
    × ShapedAll r.1.0.0
    × ShapedAll r.1.0.1

pub Shaped-take_key :
    (key : Key) (type : TypeToken) (es : Elements)
    → ShapedAll es
    → ShapedSlot (take_key key type es).0 × ShapedAll (take_key key type es).1
unfolding take_key Shaped ShapedSlot
Shaped-take_key key type nil h = (tt, tt)
Shaped-take_key key type (cons e es) h =
    let r = Shaped-take_key key type es h.1 in
    if_holds (λ (p : Option Element × Elements). ShapedSlot p.0 × ShapedAll p.1)
      (same_key (info_of e).key key)
      (if_holds (λ (p : Option Element × Elements). ShapedSlot p.0 × ShapedAll p.1)
        (same_type (info_of e).view_type type) (h.0, h.1) (tt, h))
      (r.0, (h.0, r.1))

pub Shaped-take_lazy :
    (key : Key) (type : TypeToken) (cs ks : Elements)
    → ShapedAll cs
    → ShapedAll ks
    → let m = take_lazy key type cs ks in ShapedSlot m.0 × ShapedAll m.1.0 × ShapedAll m.1.1
unfolding take_lazy
Shaped-take_lazy key type cs ks h k =
    let a = Shaped-take_key key type cs h in
    let b = Shaped-take_key key type ks k in
    if_holds (λ (m : Option Element × Lists). ShapedSlot m.0 × ShapedAll m.1.0 × ShapedAll m.1.1)
      (is_some (take_key key type cs).0) (a.0, a.1, k) (b.0, h, b.1)

pub abandon_lazy-Sound :
    (d : ℕ → ℕ) (n : ℕ) (cs ks next : Elements) (e : Error) (r : Step Element)
    → Live
        (λ i. copies i r.1.0 + (copies_all i cs + (copies_all i ks + (copies_all i next + d i))))
        n
        r.1.1
    → SoundLists d n (abandon_lazy cs ks next e r.1.0 r.1.1)
unfolding abandon_lazy copies Shaped
abandon_lazy-Sound d n cs ks next e r h =
    let a = unmount-Live r.1.0 r.1.1 (λ i. refl) h in
    let b =
      unmount_all-Live {c = λ i. copies_all i cs + (copies_all i ks + (copies_all i next + d i))} cs
        (unmount r.1.0 r.1.1) (λ i. refl) a in
    let c =
      unmount_all-Live {c = λ i. copies_all i ks + (copies_all i next + d i)} ks
        (unmount_all cs (unmount r.1.0 r.1.1)) (λ i. refl) b in
    let l =
      unmount_all-Live {c = λ i. copies_all i next + d i} next
        (unmount_all ks (unmount_all cs (unmount r.1.0 r.1.1))) (λ i. refl) c in
    (Live-cong {c = d} (λ i. omega arith) l, tt, tt)

pub realize_items-Sound :
    (is : Items) (depth : ℕ) (keep : List Key) (cs ks next : Elements) (s : Owner) (d : ℕ → ℕ)
    (n : ℕ)
    → Live
        (λ i. copies_all i cs + (copies_all i ks + (copies_all i next + d i)))
        (cost_items is + n)
        s
    → ShapedAll cs
    → ShapedAll ks
    → ShapedAll next
    → SoundLists d n (realize_items is depth keep cs ks next s)
unfolding realize_items cost reconcile_child copies Shaped
realize_items-Sound done depth keep cs ks next s d n h shape shape_kept shape_next = (
  Live-cong (λ i. omega arith)
      (keep_only-Live (λ i. copies_all i next + d i) keep (append ks cs) s
        (λ i. omega (arith, copies_all-append i ks cs)) (Live-spend n (omega arith) h)),
  shape_next,
  Shaped-keep_only keep (append ks cs) s (Shaped-append ks cs shape_kept shape),
)
realize_items-Sound (item key v is) depth keep cs ks next s d n h shape shape_kept shape_next =
    let type = type_token v in
    let m = take_lazy key type cs ks in
    let taken = Shaped-take_lazy key type cs ks shape shape_kept in
    let r = reconcile_child m.0 v (some depth) key s in
    let h_r =
      reconcile_with-Sound
        (λ i. copies_all i m.1.0 + (copies_all i m.1.1 + (copies_all i next + d i))) (cost v)
        (cost_items is + n) (update_view v) m.0 type (some depth) key s (update_view-Sound v)
        (λ i. omega (arith, copies-take_lazy i key type cs ks)) (Live-spend _ (omega arith) h)
        taken.0 in
    throws_holds (SoundLists d n) r.0
      (λ e. abandon_lazy-Sound d n m.1.0 m.1.1 next e r (Live-spend n (omega arith) h_r.0))
      (realize_items-Sound is depth keep m.1.0 m.1.1 (append next (cons r.1.0 nil)) r.1.1 d n
        (Live-cong (λ i. omega (arith, copies_all-append i next (cons r.1.0 nil))) h_r.0) taken.1
        taken.2 (Shaped-append next (cons r.1.0 nil) shape_next (h_r.1, tt)))
