-- ===== src/Build/Live/Reconciles.antt =====
-- The functions that call each other: `update_view` of every kind of view.
use dui.Build.{element, Elements, nil, cons, Owner}
use dui.Base.{ℕ, ◌+◌, refl, ◌&&◌, not, none, some, [], arith}
use dui.Build.Live.{
  copies, copies_all, Live, Shaped, ShapedAll, is_limited, cost, cost_views, cost_items,
}
use dui.Build.Live.Calls.{Live-cong, Live-spend}
use dui.Build.Live.Unmounts.{
  unmount_all-Live, unmount_back-Live, unmount_first-Live, copies_all-append, copies-take_match,
}
use dui.Build.Live.Shapes.{Shaped-take_match, Shaped-append, Shaped-rest}
use dui.Build.Live.Updates.{
  Sound, SoundAll, Updates, reconcile_with-Sound, with_children-Sound, abandon-Sound,
  notify_each-Live, update_lazy-Sound,
}
use dui.Build.Views.{
  View, Views, Items, leaf, stack, single, environment, absent, present, choice, for_each, lazy,
  component, end, child, done, item, type_token, size, unmount_first, first, rest, append,
  take_match, reconcile_with, branch_changed, equivalent, notify_each, pending, update_view,
  update_static_children, update_items,
}
use dui.Build.Live.Children.{
  around, child-Sound, first_child-Sound, component-Sound, choice-Sound, only_child-Sound,
  throws_holds,
}

mutual
  unfolding update_view cost copies Shaped type_token is_limited size unmount_first

  pub update_view-Sound : (v : View) → Updates (cost v) (update_view v) (type_token v)
  update_view-Sound (leaf a (some e)) x dirty s d n t h shape =
      (Live-spend n (omega arith) h, shape)
  update_view-Sound (leaf a none) (element info cs ks) dirty s d n t h shape = (
    Live-cong {c = around info ks d} (λ i. omega arith)
        (unmount_back-Live cs s {d = around info ks d} (λ i. omega arith)
          (Live-spend n (omega arith) h)),
    (λ l. omega arith, (tt, shape.1.1)),
  )
  update_view-Sound (stack a (some e) vs) x dirty s d n t h shape =
      (Live-spend n (omega arith) h, shape)
  update_view-Sound (stack a none vs) (element info cs ks) dirty s d n t h shape =
      with_children-Sound d n info ks (update_static_children vs info.depth cs s)
        (λ l. ground (arith, l, t)) shape.1.1
        (update_static_children-Sound vs info.depth cs s (around info ks d) n
          (Live-cong (λ i. omega arith) h) shape.1.0)
  update_view-Sound (single a (some e) v) x dirty s d n t h shape =
      (Live-spend n (omega arith) h, shape)
  update_view-Sound (single a none v) (element info cs ks) dirty s d n t h shape =
      first_child-Sound d (cost v) n (update_view v) info cs ks (type_token v) s
        (update_view-Sound v) shape.0 (Live-spend _ (omega arith) (Live-cong (λ i. omega arith) h))
        shape.1.0 shape.1.1
  update_view-Sound (environment a ns v) (element info cs ks) dirty s d n t h shape =
      only_child-Sound d (cost v) n (update_view v) info cs ks (type_token v) (notify_each ns s)
        (update_view-Sound v) (ground (arith, t))
        (notify_each-Live ns s (Live-spend _ (omega arith) (Live-cong (λ i. omega arith) h)))
        shape.1.0 shape.1.1
  update_view-Sound (absent a) (element info cs ks) dirty s d n t h shape = (
    Live-cong {c = around info ks d} (λ i. omega arith)
        (unmount_first-Live {d = around info ks d} cs s (shape.0 (ground (arith, t)))
          (λ i. omega arith) (Live-spend n (omega arith) h)),
    (λ l. omega arith, (tt, shape.1.1)),
  )
  update_view-Sound (present a v) (element info cs ks) dirty s d n t h shape =
      first_child-Sound d (cost v) n (update_view v) info cs ks (type_token v) s
        (update_view-Sound v) shape.0 (Live-spend _ (omega arith) (Live-cong (λ i. omega arith) h))
        shape.1.0 shape.1.1
  update_view-Sound (choice a index v) (element info cs ks) dirty s d n t h shape =
      choice-Sound d (cost v) n (update_view v) (record info { active_branch = some index }) cs ks
        (type_token v) s (branch_changed info.active_branch index) (update_view-Sound v)
        (shape.0 (ground (arith, t))) (Live-spend _ (omega arith) (Live-cong (λ i. omega arith) h))
        shape.1.0 shape.1.1
  update_view-Sound (for_each a is failure) (element info cs ks) dirty s d n t h shape =
      throws_holds (Sound d n) (pending [] is failure) (λ e. (Live-spend n (omega arith) h, shape))
        (with_children-Sound d n info ks (update_items is info.depth cs nil s)
          (λ l. ground (arith, l, t)) shape.1.1
          (update_items-Sound is info.depth cs nil s (around info ks d) n
            (Live-cong (λ i. omega arith) h) shape.1.0 tt))
  update_view-Sound (lazy a (some e) keys keep limit) x dirty s d n t h shape =
      (Live-spend n (omega arith) h, shape)
  update_view-Sound (lazy a none keys keep limit) x dirty s d n t h shape =
      update_lazy-Sound d n keys keep limit x s (Live-spend n (omega arith) h) shape
  update_view-Sound (component a value comparable reads failure v) (element j cs ks) dirty s d n t h
        shape =
      component-Sound d (cost v) n (update_view v) (record j { descriptor = some value }) cs ks
        (type_token v) reads failure (equivalent comparable j.descriptor value && not dirty) s
        (update_view-Sound v) (ground (arith, t))
        (Live-spend _ (omega arith) (Live-cong (λ i. omega arith) h)) shape.1.0 shape.1.1

  update_static_children-Sound :
      (vs : Views) (depth : ℕ) (cs : Elements) (s : Owner) (d : ℕ → ℕ) (n : ℕ)
      → Live (λ i. copies_all i cs + d i) (cost_views vs + n) s
      → ShapedAll cs
      → SoundAll d n (update_static_children vs depth cs s)
  update_static_children-Sound end depth cs s d n h shape = (
    Live-cong {c = d} (λ i. omega arith)
        (unmount_back-Live cs s {d = d} (λ i. refl) (Live-spend n (omega arith) h)),
    tt,
  )
  update_static_children-Sound (child v vs) depth cs s d n h shape =
      let r = reconcile_with (update_view v) (first cs) (type_token v) (some depth) none s in
      let h_r =
        child-Sound d (cost v) (cost_views vs + n) (update_view v) cs (type_token v) (some depth)
          none s (update_view-Sound v) (Live-spend _ (omega arith) h) shape in
      let h_q =
        update_static_children-Sound vs depth (rest cs) r.1.1 (λ i. copies i r.1.0 + d i) n
          (Live-cong (λ i. omega arith) h_r.0) (Shaped-rest cs shape) in
      throws_holds (SoundAll d n) r.0
        (λ e. (
          Live-cong (λ i. omega arith) (Live-spend n (omega arith) h_r.0),
          (h_r.1, Shaped-rest cs shape),
        ))
        (Live-cong (λ i. omega arith) h_q.0, (h_r.1, h_q.1))

  update_items-Sound :
      (is : Items) (depth : ℕ) (previous next : Elements) (s : Owner) (d : ℕ → ℕ) (n : ℕ)
      → Live (λ i. copies_all i previous + (copies_all i next + d i)) (cost_items is + n) s
      → ShapedAll previous
      → ShapedAll next
      → SoundAll d n (update_items is depth previous next s)
  update_items-Sound done depth previous next s d n h shape shape_next =
      (unmount_all-Live previous s (λ i. refl) (Live-spend n (omega arith) h), shape_next)
  update_items-Sound (item key v is) depth previous next s d n h shape shape_next =
      let m = take_match key (type_token v) previous in
      let others = λ (i : ℕ). copies_all i m.1 + (copies_all i next + d i) in
      let r = reconcile_with (update_view v) m.0 (type_token v) (some depth) key s in
      let taken = Shaped-take_match key (type_token v) previous shape in
      let h_r =
        reconcile_with-Sound others (cost v) (cost_items is + n) (update_view v) m.0 (type_token v)
          (some depth) key s (update_view-Sound v)
          (λ i. omega (arith, copies-take_match i key (type_token v) previous))
          (Live-spend _ (omega arith) h) taken.0 in
      throws_holds (SoundAll d n) r.0
        (λ e. abandon-Sound d n m.1 next e r (Live-spend n (omega arith) h_r.0, h_r.1))
        (update_items-Sound is depth m.1 (append next (cons r.1.0 nil)) r.1.1 d n
          (Live-cong (λ i. omega (arith, copies_all-append i next (cons r.1.0 nil))) h_r.0) taken.1
          (Shaped-append next (cons r.1.0 nil) shape_next (h_r.1, tt)))
