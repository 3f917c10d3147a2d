-- ===== src/Build/Live/Unmounts.antt =====
-- Unmounting takes a tree's elements out of the books, and placing one puts a new one in.
use dui.Build.{
  TypeToken, Key, Element, element, Elements, nil, cons, Owner, info_of, unmount, unmount_all,
  unmount_back,
}
use dui.Base.{
  if_holds, ℕ, zero, suc, ◌+◌, ◌-◌, ◌≤◌, ◌≡◌, refl, Option, none, some, List, arith, leb, ◌==◌,
  if◌then◌else◌,
}
use dui.Build.Live.{copies, copies_all, copies_slot, Live}
use dui.Build.Live.Calls.{Live-cong, Live-spend, forget-Live, make_element-Live, settle-Live}
use dui.Build.Views.{
  begin_update, place, reusable, size, evict, keep_only, enforce_lazy_keep_alive_limit, has_key,
  unmount_first, first, rest, append, take_match,
}

mutual
  unfolding unmount copies

  pub unmount-Live :
      {c d : ℕ → ℕ} {n : ℕ} (e : Element) (s : Owner)
      → ((i : ℕ) → c i ≡ copies i e + d i)
      → Live c n s
      → Live d n (unmount e s)
  unmount-Live {c} {d} {n} (element info cs ks) s split h =
      forget-Live {c = λ i. (if info.id == i then 1 else 0) + d i} info.id (λ i. refl)
        (unmount_all-Live {c = λ i. copies_all i ks + ((if info.id == i then 1 else 0) + d i)} ks
          (unmount_all cs s) (λ i. refl) (unmount_all-Live cs s (λ i. omega (arith, split i)) h))

  pub unmount_all-Live :
      {c d : ℕ → ℕ} {n : ℕ} (es : Elements) (s : Owner)
      → ((i : ℕ) → c i ≡ copies_all i es + d i)
      → Live c n s
      → Live d n (unmount_all es s)
  unmount_all-Live {c} {d} {n} nil s split h = Live-cong (λ i. omega (arith, split i)) h
  unmount_all-Live {c} {d} {n} (cons e es) s split h =
      unmount_all-Live {c = λ i. copies_all i es + d i} es (unmount e s) (λ i. refl)
        (unmount-Live e s (λ i. omega (arith, split i)) h)

pub unmount_back-Live :
    {c : ℕ → ℕ} {n : ℕ} (es : Elements) (s : Owner) {d : ℕ → ℕ}
    → ((i : ℕ) → c i ≡ copies_all i es + d i)
    → Live c n s
    → Live d n (unmount_back es s)
unfolding unmount_back copies_all
unmount_back-Live nil s split h = Live-cong (λ i. omega (arith, split i)) h
unmount_back-Live (cons e es) s {d} split h =
    unmount-Live {c = λ i. copies i e + d i} e (unmount_back es s) (λ i. refl)
      (unmount_back-Live es s {d = λ i. copies i e + d i} (λ i. omega (arith, split i)) h)

pub unmount_first-Live :
    {c d : ℕ → ℕ} {n : ℕ} (es : Elements) (s : Owner)
    → size es ≤ 1
    → ((i : ℕ) → c i ≡ copies_all i es + d i)
    → Live c n s
    → Live d n (unmount_first es s)
unfolding unmount_first copies_all size
unmount_first-Live nil s one split h = Live-cong (λ i. omega (arith, split i)) h
unmount_first-Live (cons e nil) s one split h = unmount-Live e s (λ i. omega (arith, split i)) h
unmount_first-Live (cons e (cons f es)) s one split h = absurd (omega arith)

pub place-Live :
    {c : ℕ → ℕ} (d : ℕ → ℕ) {n : ℕ} (slot : Option Element) (type : TypeToken) (parent : Option ℕ)
    (key : Key) (s : Owner)
    → ((i : ℕ) → c i ≡ copies_slot i slot + d i)
    → Live c (suc n) s
    → Live (λ i. copies i (place slot type parent key s).0 + d i) n (place slot type parent key s).1
unfolding place copies_slot
place-Live d none type parent key s split h =
    make_element-Live type key parent (Live-cong (λ i. omega (arith, split i)) h)
place-Live d {n} (some e) type parent key s split h =
    if_holds (λ (p : Element × Owner). Live (λ i. copies i p.0 + d i) n p.1) (reusable e type key)
      (Live-spend n (omega arith) (Live-cong split h))
      (make_element-Live type key parent (unmount-Live e s split h))

pub begin_update-Live :
    (c : ℕ → ℕ) {n : ℕ} (e : Element) (s : Owner)
    → Live (λ i. copies i e + c i) n s
    → Live (λ i. copies i (begin_update e s).0 + c i) n (begin_update e s).1.1
unfolding begin_update copies
begin_update-Live c (element info cs ks) s h = settle-Live info.id h

pub evict-Live :
    {c : ℕ → ℕ} (d : ℕ → ℕ) {n : ℕ} (k : ℕ) (es : Elements) (s : Owner)
    → ((i : ℕ) → c i ≡ copies_all i es + d i)
    → Live c n s
    → Live (λ i. copies_all i (evict k es s).0 + d i) n (evict k es s).1
unfolding evict copies_all
evict-Live d zero es s split h = Live-cong split h
evict-Live d (suc k) nil s split h = Live-cong split h
evict-Live {c = c} d (suc k) (cons e es) s split h =
    evict-Live {c = λ i. copies_all i es + d i} d k es (unmount e s) (λ i. refl)
      (unmount-Live e s (λ i. omega (arith, split i)) h)

pub keep_only-Live :
    {c : ℕ → ℕ} (d : ℕ → ℕ) {n : ℕ} (keys : List Key) (es : Elements) (s : Owner)
    → ((i : ℕ) → c i ≡ copies_all i es + d i)
    → Live c n s
    → Live (λ i. copies_all i (keep_only keys es s).0 + d i) n (keep_only keys es s).1
unfolding keep_only copies_all
keep_only-Live d keys nil s split h = Live-cong split h
keep_only-Live {c = c} d {n} keys (cons e es) s split h =
    if_holds (λ (p : Elements × Owner). Live (λ i. copies_all i p.0 + d i) n p.1)
      (has_key (info_of e).key keys)
      (Live-cong (λ i. omega arith)
        (keep_only-Live {c = c} (λ i. copies i e + d i) keys es s (λ i. omega (arith, split i)) h))
      (keep_only-Live {c = λ i. copies_all i es + d i} d keys es (unmount e s) (λ i. refl)
        (unmount-Live e s (λ i. omega (arith, split i)) h))

pub enforce_lazy_keep_alive_limit-Live :
    {c : ℕ → ℕ} (d : ℕ → ℕ) {n : ℕ} (limit : Option ℕ) (es : Elements) (s : Owner)
    → ((i : ℕ) → c i ≡ copies_all i es + d i)
    → Live c n s
    → Live
        (λ i. copies_all i (enforce_lazy_keep_alive_limit limit es s).0 + d i)
        n
        (enforce_lazy_keep_alive_limit limit es s).1
unfolding enforce_lazy_keep_alive_limit
enforce_lazy_keep_alive_limit-Live d none es s split h = Live-cong split h
enforce_lazy_keep_alive_limit-Live d {n} (some limit) es s split h =
    if_holds (λ (p : Elements × Owner). Live (λ i. copies_all i p.0 + d i) n p.1)
      (leb (size es) limit) (Live-cong split h) (evict-Live d (size es - limit) es s split h)

pub copies_all-append :
    (i : ℕ) (xs ys : Elements) → copies_all i (append xs ys) ≡ copies_all i xs + copies_all i ys
unfolding append copies_all
copies_all-append i nil ys = omega arith
copies_all-append i (cons e es) ys = omega (arith, copies_all-append i es ys)

-- What is taken and what is left.
pub copies-take_match :
    (i : ℕ) (key : Key) (type : TypeToken) (es : Elements)
    → copies_all i es
      ≡ copies_slot i (take_match key type es).0 + copies_all i (take_match key type es).1
unfolding take_match copies_all copies_slot
copies-take_match i key type nil = refl
copies-take_match i key type (cons e es) = ground (arith, copies-take_match i key type es)

pub copies-first-rest :
    (i : ℕ) (es : Elements) → copies_all i es ≡ copies_slot i (first es) + copies_all i (rest es)
unfolding copies_all copies_slot
copies-first-rest i nil = refl
copies-first-rest i (cons e es) = refl
