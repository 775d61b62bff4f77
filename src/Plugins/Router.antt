-- ===== src/Plugins/Router.antt =====
-- `LabelRouter` of graph/plugins/routing.py, and the edge that it makes.
use perpetua_core.Prelude.{
  String, ◌≡◌, refl, true, false, Bool-cases, inl, inr, none, some, [], ◌==◌, if◌then◌else◌, Dict,
  lookup, assign, lookup-assign,
}
use perpetua_core.Value.{Value, text, is_hashable}
use perpetua_core.Errors.{key_error, type_error, Result, ok, err}
use perpetua_core.Exec.{lift, ◌>>=◌}
use perpetua_core.Graph.{EdgeFn, router}
use perpetua_core.Scheduler.{Invocation}
use perpetua_core.Scheduler.States.{check_target}
use perpetua_core.Scheduler.Loop.{edge_value, resolve_edge}

-- `LabelRouter`, with the labels at the time of a call of its edge
pub record LabelRouter (S W : Type 0) : Type 0 where
  pub policy : EdgeFn S W
  pub labels : Dict String

-- `self._labels[label]`, where the label may be any object
unfoldable pub node_of_label : Dict String → Value → Result Value
node_of_label labels (text label) = elim (lookup label labels) [
  | none ↦ err key_error
  | some node ↦ ok (text node)
]
node_of_label labels v = if is_hashable v then err key_error else err type_error

module _ (labels : Dict String) (label : String) where
  node_of_label-missing :
      lookup label labels ≡ none → node_of_label labels (text label) ≡ err key_error
  unfolding node_of_label
  node_of_label-missing e = rw (node_of_label, e) refl

  node_of_label-same :
      (other node : String)
      → (other == label) ≡ true
      → node_of_label (assign other node labels) (text label) ≡ ok (text node)
  unfolding node_of_label
  node_of_label-same other node e =
      rw (node_of_label, lookup-assign other label node labels, e) refl

  node_of_label-other :
      (other node : String)
      → (other == label) ≡ false
      → node_of_label (assign other node labels) (text label) ≡ node_of_label labels (text label)
  unfolding node_of_label
  node_of_label-other other node e =
      rw (node_of_label, lookup-assign other label node labels, e) refl

module _ {S W : Type 0} where
  unfoldable pub label_router : EdgeFn S W → LabelRouter S W
  label_router policy = record { policy = policy; labels = [] }

  unfoldable pub register : String → String → LabelRouter S W → LabelRouter S W
  register label node r = record r { labels = assign label node r.labels }

  unfoldable pub as_edge : LabelRouter S W → EdgeFn S W
  as_edge r s = do label ← r.policy s; lift (node_of_label r.labels label)

  -- What the scheduler makes of the node that was found, if one was.
  abbrev followed : Invocation S W → Result Value → Result String
  followed run (ok v) = check_target run.graph v
  followed run (err e) = err e

  resolve-found :
      (run : Invocation S W) (found : Result Value) (w : W)
      → (lift {S = W} found >>= λ value. lift (check_target run.graph value)) w
        ≡ (followed run found, w)
  unfolding ◌>>=◌
  resolve-found run (ok v) w = refl
  resolve-found run (err e) w = refl

  resolve-as_edge :
      (run : Invocation S W) (r : LabelRouter S W) (s : S) (v : Value) (w w' : W)
      → r.policy s w ≡ (ok v, w')
      → resolve_edge run (router (as_edge r)) s w ≡ (followed run (node_of_label r.labels v), w')
  unfolding resolve_edge edge_value as_edge ◌>>=◌
  resolve-as_edge run r s v w w' h = rw h (resolve-found run (node_of_label r.labels v) w')

  -- Where the policy gives a label, the scheduler resolves the edge of a router with one more label
  -- to the node registered under it, if it is that label, with the checks on any target; and otherwise
  -- as it resolves the edge of the router without it. A label that no one registered is a KeyError.
  pub as_edge_contract :
      (run : Invocation S W) (r : LabelRouter S W) (s : S) (w w' : W) (label other node : String)
      → r.policy s w ≡ (ok (text label), w')
      → (resolve_edge run (router (as_edge (register other node r))) s w ≡ (
        if other == label
            then check_target run.graph (text node)
            else (resolve_edge run (router (as_edge r)) s w).0,
        w',
      ))
        × (lookup label r.labels ≡ none
            → resolve_edge run (router (as_edge r)) s w ≡ (err key_error, w'))
  unfolding register
  as_edge_contract run r s w w' label other node h =
      let before = resolve-as_edge run r s (text label) w w' h in
      let after = resolve-as_edge run (register other node r) s (text label) w w' h in
      (
        elim (Bool-cases (other == label)) [
          | inl e ↦ rw (after, node_of_label-same r.labels label other node e, e) refl
          | inr e ↦ rw (after, node_of_label-other r.labels label other node e, e, before) refl
        ],
        λ missing. rw (before, node_of_label-missing r.labels label missing) refl,
      )
