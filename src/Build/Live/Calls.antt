-- ===== src/Build/Live/Calls.antt =====
-- The calls on the owner keep its books.
use dui.Build.{
  notify, notify_dependents, TypeToken, Key, Owner, init, insert, make_element, unsubscribe,
  clear_dependencies, forget, resolve, mark_dirty, subscribe, subscribe_all,
}
use dui.Base.{
  if_holds, ℕ, suc, ◌+◌, ◌≤◌, ◌<◌, max, ◌≡◌, refl, subst, Option, List, [], ◌∷◌, ◌++◌, arith, ◌==◌,
  if◌then◌else◌, length,
}
use dui.Base.Assoc.{without, count, count-without, length-without, contains-count}
use dui.Build.Live.{copies, subscriptions_of, Known, Live}

module _ {c d : ℕ → ℕ} {n : ℕ} {s : Owner} where
  pub Live-cong : ((i : ℕ) → c i ≡ d i) → Live c n s → Live d n s
  Live-cong same h = record {
    known = λ i. subst (λ k. Known i k s) (same i) (h.known i);
    counted = h.counted;
    numbered = h.numbered;
    room = h.room;
  }

module _ {c : ℕ → ℕ} {n : ℕ} {s : Owner} where
  pub Live-spend : (m : ℕ) → m ≤ n → Live c n s → Live c m s
  Live-spend m le h = record {
    known = h.known;
    counted = h.counted;
    numbered = h.numbered;
    room = omega (arith, h.room);
  }

pub init-Live : Live (λ i. 0) 0 init
unfolding subscriptions_of
init-Live = record {
  known = λ i. ground arith;
  counted = refl;
  numbered = refl;
  room = ground arith;
}

count-insert :
    (x i : ℕ) (xs : List ℕ) → count i (insert x xs) ≤ max (count i xs) (if x == i then 1 else 0)
unfolding insert
count-insert x i xs = ground (arith, contains-count x xs)

count-insert_new :
    (x i : ℕ) (xs : List ℕ)
    → count x xs ≡ 0
    → count i (insert x xs) ≡ (if x == i then 1 else 0) + count i xs
unfolding insert
count-insert_new x i xs h = ground (arith, contains-count x xs)

length-insert_new : (x : ℕ) (xs : List ℕ) → count x xs ≡ 0 → length (insert x xs) ≡ suc (length xs)
unfolding insert
length-insert_new x xs h = ground (arith, contains-count x xs)

subscriptions_of-unsubscribe :
    (id i : ℕ) (ss : List (ℕ × ℕ))
    → subscriptions_of i (unsubscribe id ss) ≡ (if id == i then 0 else subscriptions_of i ss)
unfolding subscriptions_of unsubscribe
subscriptions_of-unsubscribe id i [] = ground arith
subscriptions_of-unsubscribe id i ((a, b) ∷ ss) =
    ground (arith, subscriptions_of-unsubscribe id i ss)

module _ {c d : ℕ → ℕ} {n : ℕ} {s : Owner} where
  pub forget-Live :
      (id : ℕ)
      → ((i : ℕ) → c i ≡ (if id == i then 1 else 0) + d i)
      → Live c n s
      → Live d n (forget id s)
  unfolding forget clear_dependencies
  forget-Live id split h = record {
    known = λ i. ground (
      arith,
      split i,
      split id,
      h.known i,
      count-without id i s.registry,
      count-without id i s.dirty,
      count-without id i s.dirty_flags,
      count-without id i s.rebuilds,
      subscriptions_of-unsubscribe id i s.subscriptions,
    );
    counted =
        ground (
          arith,
          split id,
          h.known id,
          h.counted,
          h.numbered,
          h.room,
          length-without id s.registry,
        );
    numbered = h.numbered;
    room = h.room;
  }

module _ {c : ℕ → ℕ} {n : ℕ} {s : Owner} where
  pub make_element-Live :
      (type : TypeToken) (key : Key) (parent : Option ℕ)
      → Live c (suc n) s
      → Live
          (λ i. copies i (make_element type key parent s).0 + c i)
          n
          (make_element type key parent s).1
  unfolding make_element copies
  make_element-Live type key parent h = record {
    known = λ i.
        ground
          (arith, h.known i, h.known s.next_id, h.room, count-insert_new s.next_id i s.registry);
    counted = ground (
      arith,
      h.known s.next_id,
      h.counted,
      h.numbered,
      h.room,
      length-insert_new s.next_id s.registry,
    );
    numbered = ground (arith, h.numbered, h.room);
    room = ground (arith, h.numbered, h.room);
  }

  pub settle-Live :
      (id : ℕ)
      → Live c n s
      → Live c n (record s { dirty = without id s.dirty; dirty_flags = without id s.dirty_flags })
  settle-Live id h = record {
    known = λ i.
        ground (arith, h.known i, count-without id i s.dirty, count-without id i s.dirty_flags);
    counted = h.counted;
    numbered = h.numbered;
    room = h.room;
  }

  pub unflag-Live :
      (id : ℕ) → Live c n s → Live c n (record s { dirty_flags = without id s.dirty_flags })
  unflag-Live id h = record {
    known = λ i. ground (arith, h.known i, count-without id i s.dirty_flags);
    counted = h.counted;
    numbered = h.numbered;
    room = h.room;
  }

  pub take_dirty-Live : Live c n s → Live c n (record s { dirty = [] })
  take_dirty-Live h = record {
    known = λ i. ground (arith, h.known i);
    counted = h.counted;
    numbered = h.numbered;
    room = h.room;
  }

  pub mark_dirty-Live : (id generation : ℕ) → Live c n s → Live c n (mark_dirty id generation s)
  unfolding mark_dirty resolve
  mark_dirty-Live id generation h = record {
    known = λ i. ground (
      arith,
      h.known i,
      count-insert id i s.dirty,
      count-insert id i s.dirty_flags,
      contains-count id s.registry,
    );
    counted = ground (arith, h.counted);
    numbered = ground (arith, h.numbered);
    room = ground (arith, h.room);
  }

  pub clear_dependencies-Live : (id : ℕ) → Live c n s → Live c n (clear_dependencies id s)
  unfolding clear_dependencies
  clear_dependencies-Live id h = record {
    known = λ i. ground (arith, h.known i, subscriptions_of-unsubscribe id i s.subscriptions);
    counted = h.counted;
    numbered = h.numbered;
    room = h.room;
  }

  pub rebuilds-Live :
      (id : ℕ) → 0 < c id → Live c n s → Live c n (record s { rebuilds = insert id s.rebuilds })
  rebuilds-Live id some_id h = record {
    known = λ i. ground (arith, h.known i, h.known id, count-insert id i s.rebuilds);
    counted = h.counted;
    numbered = h.numbered;
    room = h.room;
  }

subscriptions_of-append :
    (i : ℕ) (xs ys : List (ℕ × ℕ))
    → subscriptions_of i (xs ++ ys) ≡ subscriptions_of i xs + subscriptions_of i ys
unfolding subscriptions_of
subscriptions_of-append i [] ys = omega arith
subscriptions_of-append i ((a, b) ∷ xs) ys = omega (arith, subscriptions_of-append i xs ys)

module _ {c : ℕ → ℕ} {n : ℕ} where
  subscribe-Live :
      (source id : ℕ) (s : Owner) → 0 < c id → Live c n s → Live c n (subscribe source id s)
  unfolding subscribe subscriptions_of
  subscribe-Live source id s some_id h = record {
    known = λ i.
        ground (arith, h.known i, subscriptions_of-append i s.subscriptions ((source, id) ∷ []));
    counted = ground (arith, h.counted);
    numbered = ground (arith, h.numbered);
    room = ground (arith, h.room);
  }

  pub subscribe_all-Live :
      (sources : List ℕ) (id : ℕ) (s : Owner)
      → 0 < c id
      → Live c n s
      → Live c n (subscribe_all sources id s)
  unfolding subscribe_all
  subscribe_all-Live [] id s some_id h = h
  subscribe_all-Live (source ∷ sources) id s some_id h =
      subscribe_all-Live sources id (subscribe source id s) some_id
        (subscribe-Live source id s some_id h)

mark_dirty-subscriptions :
    (id generation : ℕ) (s : Owner) → (mark_dirty id generation s).subscriptions ≡ s.subscriptions
unfolding mark_dirty
mark_dirty-subscriptions id generation s = ground arith

notify-subscriptions :
    (source : ℕ) (ss : List (ℕ × ℕ)) (s : Owner)
    → (notify source ss s).1.subscriptions ≡ s.subscriptions
unfolding notify
notify-subscriptions source [] s = refl
notify-subscriptions source ((a, id) ∷ ss) s = ground (
  arith,
  notify-subscriptions source ss s,
  notify-subscriptions source ss (mark_dirty id id s),
  mark_dirty-subscriptions id id s,
)

subscriptions_of-notify :
    (source i : ℕ) (ss : List (ℕ × ℕ)) (s : Owner)
    → subscriptions_of i (notify source ss s).0 ≤ subscriptions_of i ss
unfolding notify subscriptions_of
subscriptions_of-notify source i [] s = omega arith
subscriptions_of-notify source i ((a, id) ∷ ss) s = ground (
  arith,
  subscriptions_of-notify source i ss s,
  subscriptions_of-notify source i ss (mark_dirty id id s),
)

module _ {c : ℕ → ℕ} {n : ℕ} where
  notify-Live :
      (source : ℕ) (ss : List (ℕ × ℕ)) (s : Owner) → Live c n s → Live c n (notify source ss s).1
  unfolding notify
  notify-Live source [] s h = h
  notify-Live source ((a, id) ∷ ss) s h =
      notify-Live source ss (if a == source then mark_dirty id id s else s)
        (if_holds (Live c n) (a == source) (mark_dirty-Live id id h) h)

  pub notify_dependents-Live :
      (source : ℕ) (s : Owner) → Live c n s → Live c n (notify_dependents source s)
  unfolding notify_dependents
  notify_dependents-Live source s h =
      let k = notify-Live source s.subscriptions s h in
      record {
        known = λ i. ground (
          arith,
          k.known i,
          notify-subscriptions source s.subscriptions s,
          subscriptions_of-notify source i s.subscriptions s,
          h.known i,
        );
        counted = k.counted;
        numbered = k.numbered;
        room = k.room;
      }
