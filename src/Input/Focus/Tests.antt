-- ===== src/Input/Focus/Tests.antt =====
-- A parent that handles keys and a child that ignores them and has the focus; then the child goes.
use dui.Base.{ℕ, ◌≡◌, refl, true, none, some, [], ◌∷◌, arith}
use dui.Base.Outcome.{throw, logic_error}
use dui.Base.Assoc.{find, erase}
use dui.Input.Focus.{
  FocusNode, Manager, ignored, handled, reparent, emplace, create_node, init, request_focus,
  node_request_focus, drop_node, detach, destroy, fall_back, dispatch_key, route, offer,
}
use dui.Input.Focus.Invariant.{Inv}
use dui.Input.Focus.Routes.{Nearest, Bubbles, dispatch_key-Bubbles}
use dui.Input.Focus.Detach.{drop_node-Nearest}
use dui.Input.Focus.Reach.{Reachable, starts, creates, node_requests, Reachable-Inv}

abbrev parent : FocusNode ℕ
parent = record { parent = none; can_focus = true; handler = some (λ e. handled) }

abbrev child : FocusNode ℕ
child = record { parent = some 1; can_focus = true; handler = some (λ e. ignored) }

abbrev first : Manager ℕ
first = (create_node none parent.handler true (init 7)).1

abbrev second : Manager ℕ
second = (create_node (some (record { owner = 7; id = 1 })) child.handler true first).1

abbrev focused : Manager ℕ
focused = (node_request_focus 2 second).1

focused-Reachable : Reachable 7 focused
unfolding init create_node emplace find
focused-Reachable = node_requests second 2 (
    creates first (some (record { owner = 7; id = 1 })) child.handler true
      (creates (init 7) none parent.handler true starts (omega arith) tt) (omega arith) (λ e. refl))

Reachable-Inv_example : Inv focused
Reachable-Inv_example = Reachable-Inv focused focused-Reachable

offered : dispatch_key 0 focused ≡ (2 ∷ 1 ∷ [], handled)
unfolding init create_node emplace find node_request_focus request_focus dispatch_key route offer
offered = refl

dispatch_key-Bubbles_example : Bubbles focused.nodes 0 focused.focused (dispatch_key 0 focused)
dispatch_key-Bubbles_example =
    dispatch_key-Bubbles 0 focused (Reachable-Inv focused focused-Reachable)

fallen_back : (drop_node 2 focused).focused ≡ some 1
unfolding init create_node emplace find node_request_focus request_focus drop_node detach erase
    reparent fall_back
fallen_back = refl

drop_node-Nearest_example :
    (find 2 (drop_node 2 focused).nodes ≡ none)
    × Nearest (drop_node 2 focused).nodes (some 1) (drop_node 2 focused).focused
unfolding init create_node emplace find node_request_focus request_focus
drop_node-Nearest_example =
    drop_node-Nearest 2 child focused (Reachable-Inv focused focused-Reachable) refl refl

-- The nodes outlive the manager, and can no longer ask for the focus.
outlived : (node_request_focus 1 (destroy focused)).0 ≡ throw logic_error
unfolding init create_node node_request_focus request_focus destroy find emplace
outlived = refl
