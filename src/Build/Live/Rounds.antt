-- ===== src/Build/Live/Rounds.antt =====
-- The owner's entry points keep the books: render, the rounds of a flush, and the destructor.
use dui.Build.{
  Info, Element, element, Elements, nil, cons, Owner, clear_dependencies, subscribe_all,
}
use dui.Base.{
  if_holds_when, ℕ, suc, ◌+◌, ◌≡◌, refl, ap, Option, none, some, List, [], ◌∷◌, arith, ◌==◌,
  if◌then◌else◌,
}
use dui.Base.Assoc.{without}
use dui.Build.Live.{copies, copies_all, copies_slot, Live, Shaped, ShapedAll, cost}
use dui.Build.Live.Calls.{
  Live-cong, Live-spend, clear_dependencies-Live, subscribe_all-Live, unflag-Live,
}
use dui.Build.Live.Shapes.{ShapedSlot}
use dui.Build.Live.Updates.{Sound, SoundAll}
use dui.Build.Live.Children.{throws_holds, only_child-Sound}
use dui.Build.Live.Reconciles.{update_view-Sound}
use dui.Build.Views.{size, Step, type_token, update_view}
use dui.Build.Root.{
  Build, rebuild, rebuild_at, rebuild_among, rebuild_root, is_due, rebuild_pending,
}

rebuild-Sound :
    (d : ℕ → ℕ) (n : ℕ) (b : Build) (x : Element) (s : Owner)
    → Live (λ i. copies i x + d i) (suc (cost b.view + n)) s
    → Shaped x
    → Sound d n (rebuild b x s)
unfolding rebuild copies Shaped
rebuild-Sound d n b (element info cs ks) t h shape =
    let s = subscribe_all b.reads info.id (clear_dependencies info.id t) in
    let l =
      subscribe_all-Live b.reads info.id (clear_dependencies info.id t) (ground arith)
        (clear_dependencies-Live info.id h) in
    throws_holds (Sound d n) b.failure (λ e. (Live-spend n (omega arith) l, shape))
      (only_child-Sound d (cost b.view) n (update_view b.view) info cs ks (type_token b.view) s
        (update_view-Sound b.view) shape.0 (Live-cong (λ i. omega arith) l) shape.1.0 shape.1.1)

-- How often the element itself has the id.
abbrev own : Info → ℕ → ℕ
own info i = if info.id == i then 1 else 0

-- The room that a rebuild of the element takes, where the element is.
abbrev charge : ℕ → ℕ → ℕ
charge c k = if c == 0 then 0 else k

mutual
  unfolding rebuild_at copies Shaped size

  rebuild_at-Sound :
      (b : Build) (id : ℕ) (x : Element) (s : Owner) (d : ℕ → ℕ) (n : ℕ)
      → Live (λ i. copies i x + d i) (charge (copies id x) (suc (cost b.view)) + n) s
      → Shaped x
      → Sound d n (rebuild_at b id x s)
  rebuild_at-Sound b id (element info cs ks) s d n h shape =
      let k = suc (cost b.view) in
      if_holds_when (Sound d n) (info.id == id)
        (λ same. rebuild-Sound d n b (element info cs ks) s (Live-spend _ (ground arith) h) shape)
        (λ other.
          let r = rebuild_among b id cs s in
          let h_r =
            rebuild_among-Sound b id cs s (λ i. own info i + (copies_all i ks + d i))
              (charge (copies_all id ks) k + n)
              (Live-spend _ (ground (arith, h.known id)) (Live-cong (λ i. omega arith) h))
              shape.1.0 in
          let q = rebuild_among b id ks r.1.1 in
          let h_q =
            rebuild_among-Sound b id ks r.1.1 (λ i. own info i + (copies_all i r.1.0 + d i)) n
              (Live-cong (λ i. omega arith) h_r.0.0) shape.1.1 in
          (
            Live-cong (λ i. omega arith) h_q.0.0,
            (λ l. omega (arith, h_r.1, shape.0 l), (h_r.0.1, h_q.0.1)),
          ))

  rebuild_among-Sound :
      (b : Build) (id : ℕ) (xs : Elements) (s : Owner) (d : ℕ → ℕ) (n : ℕ)
      → Live (λ i. copies_all i xs + d i) (charge (copies_all id xs) (suc (cost b.view)) + n) s
      → ShapedAll xs
      → SoundAll d n (rebuild_among b id xs s) × (size (rebuild_among b id xs s).1.0 ≡ size xs)
  rebuild_among-Sound b id nil s d n h shape = ((Live-spend n (omega arith) h, tt), refl)
  rebuild_among-Sound b id (cons x xs) s d n h shape =
      let k = suc (cost b.view) in
      let r = rebuild_at b id x s in
      let h_r =
        rebuild_at-Sound b id x s (λ i. copies_all i xs + d i) (charge (copies_all id xs) k + n)
          (Live-spend _ (ground (arith, h.known id)) (Live-cong (λ i. omega arith) h)) shape.0 in
      let h_q =
        rebuild_among-Sound b id xs r.1.1 (λ i. copies i r.1.0 + d i) n
          (Live-cong (λ i. omega arith) h_r.0) shape.1 in
      ((Live-cong (λ i. omega arith) h_q.0.0, (h_r.1, h_q.0.1)), ap suc h_q.1)

-- The tree under the root, and the owner's books of it.
abbrev pub SoundRoot : ℕ → Option Element → Owner → Type 0
SoundRoot n root s = Live (λ i. copies_slot i root) n s × ShapedSlot root

rebuild_root-Sound :
    (b : Build) (id : ℕ) (root : Option Element) (s : Owner) (n : ℕ)
    → SoundRoot (suc (cost b.view) + n) root s
    → SoundRoot n (rebuild_root b id root s).1.0 (rebuild_root b id root s).1.1
unfolding rebuild_root copies_slot ShapedSlot
rebuild_root-Sound b id none s n h = (Live-spend n (omega arith) h.0, tt)
rebuild_root-Sound b id (some e) s n h =
    let k =
      rebuild_at-Sound b id e s (λ i. 0) n
        (Live-spend _ (ground arith) (Live-cong (λ i. omega arith) h.0)) h.1 in
    (Live-cong (λ i. omega arith) k.0, k.1)

-- How many elements the builds of these ids can ask for.
unfoldable pub cost_pending : (ℕ → Build) → List ℕ → ℕ
cost_pending builds [] = 0
cost_pending builds (id ∷ ids) = suc (cost (builds id).view) + cost_pending builds ids

abbrev SoundStep : ℕ → Step (Option Element) → Type 0
SoundStep n r = SoundRoot n r.1.0 r.1.1

pub rebuild_pending-Sound :
    (builds : ℕ → Build) (ids : List ℕ) (root : Option Element) (s : Owner) (n : ℕ)
    → SoundRoot (cost_pending builds ids + n) root s
    → SoundStep n (rebuild_pending builds ids root s)
unfolding rebuild_pending cost_pending
rebuild_pending-Sound builds [] root s n h = (Live-spend n (omega arith) h.0, h.1)
rebuild_pending-Sound builds (id ∷ ids) root s n h =
    let t = record s { dirty_flags = without id s.dirty_flags } in
    let r = rebuild_root (builds id) id root t in
    let h_r =
      rebuild_root-Sound (builds id) id root t (cost_pending builds ids + n)
        (Live-spend _ (omega arith) (unflag-Live id h.0), h.1) in
    if_holds_when (SoundStep n) (is_due id s)
      (λ due.
        throws_holds (SoundStep n) r.0 (λ e. (Live-spend n (omega arith) h_r.0, h_r.1))
          (rebuild_pending-Sound builds ids r.1.0 r.1.1 n h_r))
      (λ skipped. rebuild_pending-Sound builds ids root s n (Live-spend _ (omega arith) h.0, h.1))
