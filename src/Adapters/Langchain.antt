-- ===== src/Adapters/Langchain.antt =====
-- graph/adapters/langchain_adapter.py: a compiled graph behind LangChain's Runnable interface.
pub mod Batch
pub mod Progress
pub mod Gathered
pub mod Contract
use perpetua_core.Prelude.{
  ℕ, zero, suc, String, Bool, true, false, Option, none, some, List, [], ◌∷◌, ◌==◌, map,
  if◌then◌else◌, Dict, lookup,
}
use perpetua_core.Value.{Value, null, int, pos}
use perpetua_core.Errors.{runtime_error, value_error, Result, ok, err, guard, ◌>>=◌, ◌>>◌}
use perpetua_core.Exec.{Exec, then_run}
use perpetua_core.State.{StateModel}
use perpetua_core.Graph.{Graph, EventKind, GraphObservation}
use perpetua_core.Scheduler.{Host, Invocation, Run}
use perpetua_core.Scheduler.Loop.{Finish, observe, invoke}
use perpetua_core.Adapters.Langchain.Batch.{gathered}

-- `PerpetuaState | dict[str, Any]`
pub data Input (S : Type 0) : Type 0 where
  state : S → Input S
  fields : Dict Value → Input S

-- `LangChainRunnableAdapter`; `make_state` is the pydantic constructor `PerpetuaState(**fields)`.
pub record LangChainRunnableAdapter (S W : Type 0) : Type 0 where
  pub graph : Graph S W
  pub name : String
  pub model : StateModel S
  pub host : Host S W
  pub make_state : Dict Value → Result S

abbrev pub default_name : String
default_name = "MiniGraphRunnable"

-- `name or "MiniGraphRunnable"`
unfoldable pub name_or_default : Option String → String
name_or_default none = default_name
name_or_default (some name) = if name == "" then default_name else name

-- `_reject_if_loop_running`, by whether `asyncio.get_running_loop()` finds a loop.
unfoldable pub reject_if_loop_running : Bool → Result (Unit {0})
reject_if_loop_running true = err runtime_error
reject_if_loop_running false = ok tt

-- `config["max_concurrency"]`: none for no bound.
unfoldable pub checked_bound : Option Value → Result (Option ℕ)
checked_bound none = ok none
checked_bound (some null) = ok none
checked_bound (some (int (pos (suc n)))) = ok (some (suc n))
checked_bound (some _) = err value_error

-- `kind in ("node.end", "interrupt")`
unfoldable pub is_snapshot : EventKind → Bool
is_snapshot EventKind.node_end = true
is_snapshot EventKind.interrupt = true
is_snapshot _ = false

module _ {S W : Type 0} (adapter : LangChainRunnableAdapter S W) where
  -- The graph is run without a gate.
  abbrev pub ungated_run : Invocation S W
  ungated_run = record {
    model = adapter.model;
    graph = adapter.graph;
    host = adapter.host;
    gate = none;
  }

  -- `_coerce_state`
  unfoldable pub coerce_state : Input S → Result S
  coerce_state (state s) = ok s
  coerce_state (fields d) = adapter.make_state d

  -- `ainvoke`
  unfoldable pub ainvoke : Input S → Exec W S
  ainvoke input w = elim (coerce_state input) [
    | err e ↦ (err e, w)
    | ok s ↦ (invoke ungated_run s w, (observe ungated_run s w).1.world)
  ]

  -- `abatch`: each input with the world that its run reads and changes, in the order of `schedule`.
  unfoldable pub abatch : List ℕ → List (Input S × W) → Option Value → Result (List S)
  abatch schedule inputs max_concurrency = do
    bound ← checked_bound max_concurrency
    gathered (λ item. (ainvoke item.0 item.1).0) schedule bound inputs

  unfoldable pub snapshots : List (GraphObservation S) → List S
  snapshots [] = []
  snapshots (o ∷ os) =
      let rest = snapshots os in if is_snapshot o.event.kind then o.state ∷ rest else rest

  -- `astream`: the states that it yields, and what the iteration raises after them, if it does.
  unfoldable pub astream : Input S → W → Result (List S × Result Finish)
  astream input w = do
    s ← coerce_state input
    let observed = observe ungated_run s w
    ok (snapshots observed.1.trace, observed.0)

  -- The synchronous `invoke`, `batch` and `stream`, outside or inside a running loop.
  unfoldable pub invoke_sync : Bool → Input S → Exec W S
  invoke_sync is_running input w = elim (reject_if_loop_running is_running) [
    | err e ↦ (err e, w)
    | ok u ↦ ainvoke input w
  ]

  unfoldable pub batch : Bool → List ℕ → List (Input S × W) → Option Value → Result (List S)
  batch is_running schedule inputs max_concurrency = do
    reject_if_loop_running is_running
    abatch schedule inputs max_concurrency

  -- `stream` first collects every snapshot.
  unfoldable pub stream : Bool → Input S → W → Result (List S)
  stream is_running input w = do
    reject_if_loop_running is_running
    streamed ← astream input w
    streamed.1
    ok streamed.0

-- `ChainedRunnable`: the `ainvoke` of its two parts.
pub record ChainedRunnable (A B C W : Type 0) : Type 0 where
  pub first : A → Exec W B
  pub second : B → Exec W C

-- `ChainedRunnable.ainvoke`
unfoldable pub chained_ainvoke : {A B C W : Type 0} → ChainedRunnable A B C W → A → Exec W C
chained_ainvoke chain input w = then_run chain.second (chain.first input w)

-- `|`
unfoldable pub pipe :
    {A B C D W : Type 0} → ChainedRunnable A B C W → (C → Exec W D) → ChainedRunnable A C D W
pipe chain other = record { first = chained_ainvoke chain; second = other }

-- `ChainedRunnable.invoke`
unfoldable pub chained_invoke : {A B C W : Type 0} → Bool → ChainedRunnable A B C W → A → Exec W C
chained_invoke is_running chain input w = elim (reject_if_loop_running is_running) [
  | err e ↦ (err e, w)
  | ok u ↦ chained_ainvoke chain input w
]
