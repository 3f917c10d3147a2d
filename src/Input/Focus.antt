-- ===== src/Input/Focus.antt =====
-- FocusNode and FocusManager: a forest of nodes, one of which may have the focus, and the way of a
-- key event from it to its ancestors. A node is known by its id and the identity of its manager's
-- lifetime. `nodes` are the nodes that are alive: while the manager is, they are those of its table,
-- since a node leaves the table in its destructor. A handler is a function of the event; what else
-- it does is left out.
pub mod Invariant
pub mod Detach
pub mod Changes
pub mod Reach
pub mod Routes
mod Tests
use dui.Base.{
  ℕ, zero, suc, ◌+◌, Bool, true, false, not, Option, none, some, List, [], ◌∷◌, ◌==◌, if◌then◌else◌,
  is_some, u64,
}
use dui.Base.Outcome.{M, ok, throw, logic_error}
use dui.Base.Assoc.{find, erase, put}

pub data KeyEventResult : Type 0 where
  ignored handled : KeyEventResult

pub record FocusNode (E : Type 0) : Type 0 where
  pub parent : Option ℕ
  pub can_focus : Bool
  pub handler : Option (E → KeyEventResult)

-- A reference to a node: the manager that made it, and its id.
pub record Handle : Type 0 where
  pub owner : ℕ
  pub id : ℕ

pub record Manager (E : Type 0) : Type 0 where
  pub lifetime : ℕ
  pub alive : Bool
  pub nodes : List (ℕ × FocusNode E)
  pub next_id : ℕ
  pub focused : Option ℕ

-- The constructor.
unfoldable pub init : {E : Type 0} → ℕ → Manager E
init lifetime = record {
  lifetime = lifetime;
  alive = true;
  nodes = [];
  next_id = 1;
  focused = none;
}

abbrev pub is_id : Option ℕ → ℕ → Bool
is_id none id = false
is_id (some p) id = p == id

abbrev pub parent_id : Option Handle → Option ℕ
parent_id none = none
parent_id (some parent) = some parent.id

module _ {E : Type 0} where
  -- The destructor of the manager: its nodes stay with those who hold them.
  unfoldable pub destroy : Manager E → Manager E
  destroy s = record s { alive = false }

  -- std::unordered_map::emplace.
  unfoldable pub emplace : ℕ → FocusNode E → List (ℕ × FocusNode E) → List (ℕ × FocusNode E)
  emplace id node nodes = if is_some (find id nodes) then nodes else (id, node) ∷ nodes

  abbrev pub foreign : Manager E → Option Handle → Bool
  foreign s none = false
  foreign s (some parent) = not (parent.owner == s.lifetime)

  unfoldable pub create_node :
      Option Handle → Option (E → KeyEventResult) → Bool → M (Manager E) Handle
  unfolding emplace
  create_node parent handler can_focus s =
      if foreign s parent
      then (throw logic_error, s)
      else let node : FocusNode E = record {
        parent = parent_id parent;
        can_focus = can_focus;
        handler = handler;
      } in
        (
          ok (record { owner = s.lifetime; id = s.next_id }),
          record s { next_id = u64 (s.next_id + 1); nodes = emplace s.next_id node s.nodes },
        )

  -- FocusManager::request_focus, of a node that is alive.
  unfoldable pub request_focus : Handle → M (Manager E) (Unit {0})
  request_focus node s =
      if not (node.owner == s.lifetime)
      then (throw logic_error, s)
      else elim (find node.id s.nodes) [
        | none ↦ (ok tt, s)
        | some n ↦
            if not n.can_focus
            then (throw logic_error, s)
            else (ok tt, record s { focused = some node.id })
      ]

  unfoldable pub clear_focus : Manager E → Manager E
  clear_focus s = record s { focused = none }

  -- FocusNode::request_focus.
  unfoldable pub node_request_focus : ℕ → M (Manager E) (Unit {0})
  unfolding request_focus
  node_request_focus id s =
      if not s.alive
      then (throw logic_error, s)
      else request_focus (record { owner = s.lifetime; id = id }) s

  -- FocusNode::set_can_focus.
  unfoldable pub set_can_focus : ℕ → Bool → M (Manager E) (Unit {0})
  unfolding clear_focus
  set_can_focus id value s = elim (find id s.nodes) [
    | none ↦ (ok tt, s)
    | some n ↦
        let t = record s { nodes = put id (record n { can_focus = value }) s.nodes } in
        if value
        then (ok tt, t)
        else if not t.alive
        then (throw logic_error, t)
        else if is_id t.focused id
        then (ok tt, clear_focus t)
        else (ok tt, t)
  ]

  unfoldable pub set_key_handler : ℕ → Option (E → KeyEventResult) → Manager E → Manager E
  set_key_handler id handler s = elim (find id s.nodes) [
    | none ↦ s
    | some n ↦ record s { nodes = put id (record n { handler = handler }) s.nodes }
  ]

  -- The loop of detach over the nodes.
  abbrev pub adopted : ℕ → Option ℕ → FocusNode E → FocusNode E
  adopted id parent n = if is_id n.parent id then record n { parent = parent } else n

  unfoldable pub reparent : ℕ → Option ℕ → List (ℕ × FocusNode E) → List (ℕ × FocusNode E)
  reparent id parent [] = []
  reparent id parent ((k, n) ∷ nodes) = (k, adopted id parent n) ∷ reparent id parent nodes

  -- The loop of detach up the ancestors.
  unfoldable pub fall_back : ℕ → List (ℕ × FocusNode E) → Option ℕ → Option ℕ
  fall_back fuel nodes none = none
  fall_back zero nodes (some p) = none
  fall_back (suc fuel) nodes (some p) = elim (find p nodes) [
    | none ↦ none
    | some candidate ↦
        let above = fall_back fuel nodes candidate.parent in
        if candidate.can_focus then some p else above
  ]

  unfoldable pub detach : ℕ → Option ℕ → Manager E → Manager E
  unfolding reparent fall_back
  detach id parent s =
      let t = record s { nodes = reparent id parent (erase id s.nodes) } in
      if is_id s.focused id then record t { focused = fall_back s.next_id t.nodes parent } else t

  -- The destructor of a node, when the last reference to it goes away.
  unfoldable pub drop_node : ℕ → Manager E → Manager E
  unfolding detach
  drop_node id s = elim (find id s.nodes) [
    | none ↦ s
    | some n ↦ if s.alive then detach id n.parent s else record s { nodes = erase id s.nodes }
  ]

  -- The first loop of dispatch_key.
  unfoldable pub route : ℕ → List (ℕ × FocusNode E) → Option ℕ → List (ℕ × FocusNode E)
  route fuel nodes none = []
  route zero nodes (some p) = []
  route (suc fuel) nodes (some p) = elim (find p nodes) [
    | none ↦ []
    | some n ↦ (p, n) ∷ route fuel nodes n.parent
  ]

  -- The second loop, with the nodes whose handlers it called.
  unfoldable pub offer : E → List (ℕ × FocusNode E) → List ℕ × KeyEventResult
  offer event [] = ([], ignored)
  offer event ((p, n) ∷ nodes) =
      let rest = offer event nodes in
      elim n.handler [
        | none ↦ rest
        | some handler ↦ elim (handler event) [
          | handled ↦ (p ∷ [], handled)
          | ignored ↦ (p ∷ rest.0, rest.1)
        ]
      ]

  unfoldable pub dispatch_key : E → Manager E → List ℕ × KeyEventResult
  unfolding route offer
  dispatch_key event s = offer event (route s.next_id s.nodes s.focused)
