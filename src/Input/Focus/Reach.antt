-- ===== src/Input/Focus/Reach.antt =====
-- The managers that calls lead to.
use dui.Base.{
  ℕ, ◌+◌, ◌<◌, ◌≡◌, refl, ◌⊎◌, inl, inr, Bool, true, false, Option, none, some, List, arith,
  if◌then◌else◌, u64_max,
}
use dui.Base.Assoc.{find, put, find-put, find-nil}
use dui.Input.Focus.{
  FocusNode, Manager, Handle, KeyEventResult, is_id, emplace, create_node, init, request_focus,
  clear_focus, node_request_focus, set_can_focus, set_key_handler, drop_node, foreign, parent_id,
}
use dui.Input.Focus.Invariant.{Inv, IsParent, IsFocus, is_present, is_focusable}
use dui.Input.Focus.Changes.{next_free, IsForest-added, IsFocus-added, IsForest-put, IsFocus-same}
use dui.Input.Focus.Detach.{drop_node-Inv}

-- The focus after set_can_focus.
abbrev kept : ℕ → Bool → Option ℕ → Option ℕ
kept id value focus = if value then focus else if is_id focus id then none else focus

module _ {E : Type 0} where
  request_focus_cases :
      (node : Handle) (s : Manager E)
      → ((request_focus node s).1 ≡ s)
        ⊎ (((request_focus node s).1 ≡ record s { focused = some node.id })
            × (is_focusable s.nodes node.id ≡ true))
  unfolding request_focus
  request_focus_cases node s = ground arith

  set_can_focus_cases :
      (id : ℕ) (value : Bool) (s : Manager E)
      → s.alive ≡ true
      → ((set_can_focus id value s).1 ≡ s)
        ⊎ ((n : FocusNode E) × (find id s.nodes ≡ some n)
            × ((set_can_focus id value s).1 ≡ record s {
              nodes = put id (record n { can_focus = value }) s.nodes;
              focused = kept id value s.focused;
            }))
  unfolding set_can_focus clear_focus
  set_can_focus_cases id value s alive = ground (arith, alive)

  kept-IsFocus :
      (id : ℕ) (n : FocusNode E) (value : Bool) (nodes : List (ℕ × FocusNode E)) (o : Option ℕ)
      → IsFocus nodes o
      → IsFocus (put id (record n { can_focus = value }) nodes) (kept id value o)
  kept-IsFocus id n value nodes none h = ground arith
  kept-IsFocus id n value nodes (some f) h =
      ground (arith, find-put id f (record n { can_focus = value }) nodes)

  set_key_handler_cases :
      (id : ℕ) (handler : Option (E → KeyEventResult)) (s : Manager E)
      → (set_key_handler id handler s ≡ s)
        ⊎ ((n : FocusNode E) × (find id s.nodes ≡ some n)
            × (set_key_handler id handler s
                ≡ record s { nodes = put id (record n { handler = handler }) s.nodes }))
  unfolding set_key_handler
  set_key_handler_cases id handler s = ground arith

  create_node_cases :
      (parent : Option Handle) (handler : Option (E → KeyEventResult)) (can_focus : Bool)
      (s : Manager E)
      → s.next_id < u64_max
      → let node : FocusNode E = record {
        parent = parent_id parent;
        can_focus = can_focus;
        handler = handler;
      } in
        ((create_node parent handler can_focus s).1 ≡ s)
        ⊎ ((foreign s parent ≡ false)
            × ((create_node parent handler can_focus s).1
                ≡ record s { next_id = s.next_id + 1; nodes = emplace s.next_id node s.nodes }))
  unfolding create_node
  create_node_cases parent handler can_focus s lt = ground arith

  request_focus-Inv : (node : Handle) (s : Manager E) → Inv s → Inv (request_focus node s).1
  request_focus-Inv node s v = elim (request_focus_cases node s) [
    | inl same ↦ rw same v
    | inr (e, able) ↦ rw e (record { forest = v.forest; focus = able; alive = v.alive })
  ]

  node_request_focus_live :
      (id : ℕ) (s : Manager E)
      → s.alive ≡ true
      → node_request_focus id s ≡ request_focus (record { owner = s.lifetime; id = id }) s
  unfolding node_request_focus request_focus
  node_request_focus_live id s alive = ground (arith, alive)

  node_request_focus-Inv : (id : ℕ) (s : Manager E) → Inv s → Inv (node_request_focus id s).1
  node_request_focus-Inv id s v =
      rw (node_request_focus_live id s v.alive)
        (request_focus-Inv (record { owner = s.lifetime; id = id }) s v)

  clear_focus-Inv : (s : Manager E) → Inv s → Inv (clear_focus s)
  unfolding clear_focus
  clear_focus-Inv s v = record { forest = v.forest; focus = tt; alive = v.alive }

  set_can_focus-Inv :
      (id : ℕ) (value : Bool) (s : Manager E) → Inv s → Inv (set_can_focus id value s).1
  set_can_focus-Inv id value s v = elim (set_can_focus_cases id value s v.alive) [
    | inl same ↦ rw same v
    | inr (n, e, r) ↦ rw r (record {
      forest = IsForest-put id n _ s.nodes s.next_id e refl v.forest;
      focus = kept-IsFocus id n value s.nodes s.focused v.focus;
      alive = v.alive;
    })
  ]

  set_key_handler-Inv :
      (id : ℕ) (handler : Option (E → KeyEventResult)) (s : Manager E)
      → Inv s
      → Inv (set_key_handler id handler s)
  set_key_handler-Inv id handler s v = elim (set_key_handler_cases id handler s) [
    | inl same ↦ rw same v
    | inr (n, e, r) ↦ rw r (record {
      forest = IsForest-put id n _ s.nodes s.next_id e refl v.forest;
      focus = IsFocus-same id n _ s.nodes s.focused e refl v.focus;
      alive = v.alive;
    })
  ]

  -- The parent that a caller hands over is alive.
  abbrev pub IsLive : Manager E → Option Handle → Type 0
  IsLive s none = Unit
  IsLive s (some parent) = parent.owner ≡ s.lifetime → is_present s.nodes parent.id ≡ true

  live-IsParent :
      (s : Manager E) (parent : Option Handle)
      → Inv s
      → IsLive s parent
      → foreign s parent ≡ false
      → IsParent s.nodes s.next_id (parent_id parent)
  live-IsParent s none v h f = tt
  live-IsParent s (some p) v h f = ground (arith, h, v.forest p.id)

  create_node-Inv :
      (parent : Option Handle) (handler : Option (E → KeyEventResult)) (can_focus : Bool)
      (s : Manager E)
      → s.next_id < u64_max
      → IsLive s parent
      → Inv s
      → Inv (create_node parent handler can_focus s).1
  create_node-Inv parent handler can_focus s lt live v =
      elim (create_node_cases parent handler can_focus s lt) [
        | inl same ↦ rw same v
        | inr (ours, e) ↦ rw e (record {
          forest = IsForest-added _ s.nodes s.next_id v.forest (live-IsParent s parent v live ours);
          focus =
              IsFocus-added _ s.nodes s.next_id s.focused (next_free s.nodes s.next_id v.forest)
                v.focus;
          alive = v.alive;
        })
      ]

  init-Inv : (lifetime : ℕ) → Inv (init {E = E} lifetime)
  unfolding init
  init-Inv lifetime = record {
    forest = λ id. rw (find-nil (FocusNode E) id) tt;
    focus = tt;
    alive = refl;
  }

-- The states of a manager that calls lead to, in any order and number, up to 2^64 - 1 nodes. A call
-- that throws counts, with the state that it leaves.
pub data Reachable {E : Type 0} (lifetime : ℕ) : Manager E → Type 0 where
  starts : Reachable lifetime (init lifetime)
  creates :
      (s : Manager E) (parent : Option Handle) (handler : Option (E → KeyEventResult))
      (can_focus : Bool)
      → Reachable lifetime s
      → s.next_id < u64_max
      → IsLive s parent
      → Reachable lifetime (create_node parent handler can_focus s).1
  requests :
      (s : Manager E) (node : Handle)
      → Reachable lifetime s
      → Reachable lifetime (request_focus node s).1
  node_requests :
      (s : Manager E) (id : ℕ)
      → Reachable lifetime s
      → Reachable lifetime (node_request_focus id s).1
  clears : (s : Manager E) → Reachable lifetime s → Reachable lifetime (clear_focus s)
  sets_can_focus :
      (s : Manager E) (id : ℕ) (value : Bool)
      → Reachable lifetime s
      → Reachable lifetime (set_can_focus id value s).1
  sets_key_handler :
      (s : Manager E) (id : ℕ) (handler : Option (E → KeyEventResult))
      → Reachable lifetime s
      → Reachable lifetime (set_key_handler id handler s)
  drops : (s : Manager E) (id : ℕ) → Reachable lifetime s → Reachable lifetime (drop_node id s)

-- In every reachable state each parent is alive and older than its child, and the focus is on nobody
-- or on a node that is alive and can have it.
pub Reachable-Inv : {E : Type 0} {lifetime : ℕ} (s : Manager E) → Reachable lifetime s → Inv s
Reachable-Inv _ starts = init-Inv _
Reachable-Inv _ (creates s parent handler can_focus r lt live) =
    create_node-Inv parent handler can_focus s lt live (Reachable-Inv s r)
Reachable-Inv _ (requests s node r) = request_focus-Inv node s (Reachable-Inv s r)
Reachable-Inv _ (node_requests s id r) = node_request_focus-Inv id s (Reachable-Inv s r)
Reachable-Inv _ (clears s r) = clear_focus-Inv s (Reachable-Inv s r)
Reachable-Inv _ (sets_can_focus s id value r) = set_can_focus-Inv id value s (Reachable-Inv s r)
Reachable-Inv _ (sets_key_handler s id handler r) =
    set_key_handler-Inv id handler s (Reachable-Inv s r)
Reachable-Inv _ (drops s id r) = drop_node-Inv id s (Reachable-Inv s r)
