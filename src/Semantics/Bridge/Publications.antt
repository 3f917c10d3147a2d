-- ===== src/Semantics/Bridge/Publications.antt =====
-- Generations of publications: which acknowledgements a bridge takes.
use dui.Base.{
  ℕ, ◌≤◌, ◌<◌, ◌≡◌, refl, sym, ap, subst, ◌∙◌, ◌⊎◌, inl, inr, Bool, true, false, Option, none, some,
  List, [], ◌∷◌, arith, Bool-cases,
}
use mathlib.Core.Option.{some_inj, none-ne-some}
use dui.Semantics.Tree.{Nodes}
use dui.Semantics.Differ.{SemanticsChange, SemanticsDiffer}
use dui.Semantics.Differ as Differ
use dui.Semantics.Differ.Views.{View}
use dui.Semantics.Bridge.{
  AccessibilityPublication, AccessibilityBridge, Shared, prepare, prepare_clear, retry, acknowledge,
  reject, reset_acknowledged, publish, clear, is_active,
}
use dui.Semantics.Bridge.History.{
  Call, publishes, clears, prepares, prepares_clear, retries, resets, acknowledges, rejects,
  adapter, call, calls,
}
use dui.Semantics.Bridge.Generations.{
  Gives, Sends, Waits, acknowledge-Waits, answer_idle, awaited, begin-Gives, deliver-Waits,
  prepare_clear-Gives, published, reject-Waits, reset-Waits, retry-Gives,
}

module _ {B : Type 0} (bounds_eq : B → B → Bool) where
  -- The publication that a call gives.
  unfoldable pub sent : Call B → AccessibilityBridge B → Option (AccessibilityPublication B)
  unfolding prepare prepare_clear retry
  sent (prepares roots) b = published (prepare bounds_eq roots b).0
  sent prepares_clear b = published (prepare_clear b).0
  sent retries b = published (retry b).0
  sent _ b = none

  prepare-Gives :
      (roots : Nodes B) (b : AccessibilityBridge B)
      → Gives b (published (prepare bounds_eq roots b).0) (prepare bounds_eq roots b).1
  unfolding prepare
  prepare-Gives roots b = elim (Bool-cases (is_active b)) [
    | inl active ↦ rw active (inl (refl, (refl, inl refl)))
    | inr free ↦ rw free (begin-Gives b (Differ.update bounds_eq roots b.differ))
  ]

  publish-Waits :
      (takes : Bool) (roots : Nodes B) (s : Shared (View B) B)
      → Waits s.bridge (publish bounds_eq (adapter takes) roots s).1.bridge
  unfolding publish
  publish-Waits takes roots s = elim (Bool-cases (is_active s.bridge)) [
    | inl active ↦ rw active (refl, inl refl)
    | inr free ↦ rw free (deliver-Waits takes (Differ.update bounds_eq roots s.bridge.differ) s)
  ]

  clear-Waits :
      (takes : Bool) (s : Shared (View B) B) → Waits s.bridge (clear (adapter takes) s).1.bridge
  unfolding clear
  clear-Waits takes s = elim (Bool-cases (is_active s.bridge)) [
    | inl active ↦ rw active (refl, inl refl)
    | inr free ↦ rw free (deliver-Waits takes (Differ.clear s.bridge.differ) s)
  ]

  call-Gives :
      (c : Call B) (s : Shared (View B) B)
      → Gives s.bridge (sent c s.bridge) (call bounds_eq c s).bridge
  unfolding sent call
  call-Gives (publishes roots takes) s = inl (refl, publish-Waits takes roots s)
  call-Gives (clears takes) s = inl (refl, clear-Waits takes s)
  call-Gives (prepares roots) s = prepare-Gives roots s.bridge
  call-Gives prepares_clear s = prepare_clear-Gives s.bridge
  call-Gives retries s = retry-Gives s.bridge
  call-Gives (acknowledges g) s = inl (refl, acknowledge-Waits g s.bridge)
  call-Gives (rejects g) s = inl (refl, reject-Waits g s.bridge)
  call-Gives resets s = inl (refl, reset-Waits s.bridge)

  -- A generation that was given, and that no answer is awaited for.
  record Past (g : ℕ) (b : AccessibilityBridge B) : Type 0 where
    given : g < b.next_generation
    over : ¬ (awaited b ≡ some g)

  Gives-Past :
      (g : ℕ) (b : AccessibilityBridge B) (o : Option (AccessibilityPublication B))
      (c : AccessibilityBridge B)
      → Gives b o c
      → g < b.next_generation
      → (¬ (awaited b ≡ some g)) ⊎ ((p : AccessibilityPublication B) × (o ≡ some p))
      → Past g c
  Gives-Past g b o c (inl (quiet, (n, inl same))) lt (inl h) = record {
    given = omega arith;
    over = λ e. h (sym same ∙ e);
  }
  Gives-Past g b o c (inl (quiet, (n, inl same))) lt (inr (p, e)) = absurd (cc (quiet, e))
  Gives-Past g b o c (inl (quiet, (n, inr gone))) lt h = record {
    given = omega arith;
    over = λ e. none-ne-some g (sym gone ∙ e);
  }
  Gives-Past g b o c (inr (p, (e, (same, (n, a))))) lt h = record {
    given = omega arith;
    over = λ x. ground (arith, x, a, lt);
  }

  calls-Past :
      (g : ℕ) (cs : List (Call B)) (s : Shared (View B) B)
      → Past g s.bridge
      → Past g (calls bounds_eq cs s).bridge
  unfolding calls
  calls-Past g [] s h = h
  calls-Past g (c ∷ cs) s h = calls-Past g cs (call bounds_eq c s) (
      Gives-Past g s.bridge (sent c s.bridge) (call bounds_eq c s).bridge (call-Gives c s) h.given
        (inl h.over))

  Gives-next :
      (b c : AccessibilityBridge B) (o : Option (AccessibilityPublication B))
      → Gives b o c
      → b.next_generation ≤ c.next_generation
  Gives-next b c o (inl (quiet, (n, w))) = omega arith
  Gives-next b c o (inr (p, (e, (same, (n, a))))) = omega arith

  calls_next :
      (cs : List (Call B)) (s : Shared (View B) B)
      → s.bridge.next_generation ≤ (calls bounds_eq cs s).bridge.next_generation
  unfolding calls
  calls_next [] s = omega arith
  calls_next (c ∷ cs) s = omega (
    arith,
    calls_next cs (call bounds_eq c s),
    Gives-next s.bridge (call bounds_eq c s).bridge (sent c s.bridge) (call-Gives c s),
  )

  Gives-sent :
      (b c : AccessibilityBridge B) (p : AccessibilityPublication B)
      → Gives b (some p) c
      → (p.generation ≡ b.next_generation) × Sends b c
  Gives-sent b c p (inl (quiet, w)) = absurd (none-ne-some p (sym quiet))
  Gives-sent b c p (inr (q, (e, (same, sends)))) =
      (ap (λ (x : AccessibilityPublication B). x.generation) (some_inj.0 e) ∙ same, sends)

  -- Of two publications that a bridge gives, with any calls between them, the later one has the
  -- greater generation, and from then on, after any calls, the earlier one is neither acknowledged
  -- nor rejected: the answer returns false and changes nothing.
  pub stale_refused :
      (s : Shared (View B) B) (c d : Call B) (between after_it : List (Call B))
      (p q : AccessibilityPublication B)
      → sent c s.bridge ≡ some p
      → sent d (calls bounds_eq between (call bounds_eq c s)).bridge ≡ some q
      → let last =
          (calls bounds_eq after_it
            (call bounds_eq d (calls bounds_eq between (call bounds_eq c s)))).bridge in
        (p.generation < q.generation)
        × ((acknowledge p.generation last ≡ (false, last))
            × (reject p.generation last ≡ (false, last)))
  stale_refused s c d between after_it p q h k =
      let t = calls bounds_eq between (call bounds_eq c s) in
      let u = call bounds_eq d t in
      let (first, (up, w)) =
        Gives-sent s.bridge (call bounds_eq c s).bridge p
          (subst (λ o. Gives s.bridge o (call bounds_eq c s).bridge) h (call-Gives c s)) in
      let (second, sends) =
        Gives-sent t.bridge u.bridge q
          (subst (λ o. Gives t.bridge o u.bridge) k (call-Gives d t)) in
      let lt : p.generation < t.bridge.next_generation =
        omega (arith, calls_next between (call bounds_eq c s), first, up) in
      let past =
        Gives-Past p.generation t.bridge (sent d t.bridge) u.bridge (call-Gives d t) lt
          (inr (q, k)) in
      (
        omega (arith, lt, second),
        answer_idle p.generation (calls bounds_eq after_it u).bridge
            (calls-Past p.generation after_it u past).over,
      )

  -- While the adapter is called, whatever call it makes of the bridge does not change the bridge.
  pub delivering_refuses :
      (c : Call B) (s : Shared (View B) B)
      → s.bridge.delivering ≡ true
      → s.bridge.transaction ≡ none
      → ((call bounds_eq c s).bridge ≡ s.bridge) × (sent c s.bridge ≡ none)
  unfolding call sent publish clear prepare prepare_clear retry acknowledge reject
      reset_acknowledged
  delivering_refuses (publishes roots takes) s h k = (ground (arith, h), refl)
  delivering_refuses (clears takes) s h k = (ground (arith, h), refl)
  delivering_refuses (prepares roots) s h k = (ground (arith, h), ground (arith, h))
  delivering_refuses prepares_clear s h k = (ground (arith, h), ground (arith, h))
  delivering_refuses retries s h k = (ground (arith, k), ground (arith, k))
  delivering_refuses (acknowledges g) s h k = (ground (arith, k), refl)
  delivering_refuses (rejects g) s h k = (ground (arith, k), refl)
  delivering_refuses resets s h k = (ground (arith, h), refl)
