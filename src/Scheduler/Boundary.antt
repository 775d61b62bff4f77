-- ===== src/Scheduler/Boundary.antt =====
-- graph/engine.py: the calls of the gate at the scheduler's boundaries.
use perpetua_core.Prelude.{ℕ, String, Bool, true, false, ◌&&◌, not, Option, none, some, List}
use perpetua_core.Value.{fields_json, to_fields}
use perpetua_core.Errors.{type_error, Result, ok, err}
use perpetua_core.Exec.{Exec, pure, raise, lift, ◌>>=◌}
use perpetua_core.Gate.{
  Gate, GateDecision, DispatchBoundary, CommitBoundary, DispatchRequest, CommitRequest, Hooked,
  awaited, not_awaitable, checked, enforce, dispatch_name, commit_name,
}
use perpetua_core.Graph.{Edge, router, conditional, NodeDelta}

-- `_delta_digest`: the values must be canonical JSON.
unfoldable pub delta_digest : (NodeDelta → String) → NodeDelta → Result String
delta_digest digest delta = elim (fields_json (to_fields delta)) [
  | true ↦ ok (digest delta)
  | false ↦ err type_error
]

abbrev pub is_router : DispatchBoundary → Bool
is_router DispatchBoundary.router = true
is_router _ = false

-- `isinstance(edge, ConditionalEdge) or callable(edge)`
abbrev pub runs_code : {S W : Type 0} → Option (Edge S W) → Bool
runs_code (some (router fn)) = true
runs_code (some (conditional fn targets)) = true
runs_code _ = false

unfoldable pub require_awaited : {W : Type 0} → Hooked → Exec W Unit
require_awaited awaited = pure tt
require_awaited not_awaitable = raise type_error

-- The stop decision, if there is one, and the request, if the gate was asked.
unfoldable pub ask :
    {W : Type 0} → Gate W → DispatchRequest → Exec W (Option GateDecision × Option DispatchRequest)
ask gate request = do
  answer ← gate.before_dispatch request
  decision ← lift (checked answer)
  stop ← lift (enforce decision (dispatch_name request.boundary) request.nodes)
  pure (stop, some request)

module _ {S W : Type 0} where
  -- `_dispatch`: a router is guarded only where its edge runs code.
  unfoldable pub dispatch :
      Option (Gate W)
      → Option (Edge S W)
      → DispatchRequest
      → Exec W (Option GateDecision × Option DispatchRequest)
  dispatch none edge request = pure (none, none)
  dispatch (some gate) edge request = elim (is_router request.boundary && not (runs_code edge)) [
    | true ↦ pure (none, none)
    | false ↦ ask gate request
  ]

module _ {W : Type 0} where
  unfoldable pub start_hook :
      Option (DispatchRequest → Exec W Hooked) → DispatchRequest → Exec W Unit
  start_hook none request = pure tt
  start_hook (some callback) request = do hooked ← callback request; require_awaited hooked

  -- `_before_start`
  unfoldable pub before_start : Option (Gate W) → Option DispatchRequest → Exec W Unit
  before_start none request = pure tt
  before_start (some gate) none = pure tt
  before_start (some gate) (some request) = start_hook gate.before_start request

  -- `_commit`: the digest is taken before the gate is asked.
  unfoldable pub commit :
      (NodeDelta → String)
      → Option (Gate W)
      → CommitBoundary
      → List String
      → ℕ
      → Option String
      → Option String
      → NodeDelta
      → Exec W (Option GateDecision × Option CommitRequest)
  commit digest none boundary nodes steps source batch_id delta = pure (none, none)
  commit digest (some gate) boundary nodes steps source batch_id delta = do
    result_digest ← lift (delta_digest digest delta)
    let request : CommitRequest = record {
      boundary = boundary;
      nodes = nodes;
      steps = steps;
      source = source;
      result_digest = result_digest;
      batch_id = batch_id;
    }
    answer ← gate.before_commit request
    decision ← lift (checked answer)
    stop ← lift (enforce decision (commit_name boundary) nodes)
    pure (stop, some request)

  unfoldable pub settle_hook : Option (CommitRequest → Exec W Hooked) → CommitRequest → Exec W Unit
  settle_hook none request = pure tt
  settle_hook (some callback) request = do hooked ← callback request; require_awaited hooked

  -- `_after_commit`
  unfoldable pub after_commit : Option (Gate W) → Option CommitRequest → Exec W Unit
  after_commit none request = pure tt
  after_commit (some gate) none = pure tt
  after_commit (some gate) (some request) = settle_hook gate.after_commit request
