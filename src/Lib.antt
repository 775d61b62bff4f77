-- ===== src/Lib.antt =====
-- perpetua-core: the kernel of a graph runtime. A graph of nodes over an immutable state is run by
-- one scheduler, which follows static, routed and fan-out edges, asks an optional gate before it
-- runs a callable or publishes a result, and reports every step as an observation.
--
-- The parts, and the files that model them:
--
-- src/perpetua_core/graph/engine.py
--   `CompiledGraph`, `FanOut`, `Join`, `GraphEvent`, `GraphObservation`: Graph.antt, with
--     `__post_init__` as make_join and make_fan_out; `MiniGraph`: Graph/Builder.antt
--   `_run`, `aobserve`, `asteps`, `ainvoke`, `_resolve_edge`: Scheduler/Loop.antt
--   `_run_region`: Scheduler/Region.antt, which uses `_settle_gated` (Scheduler/Settle.antt),
--     `_admit` (Scheduler/Admit.antt) and `_fold` (Scheduler/Fold.antt)
--   `_dispatch`, `_before_start`, `_commit`, `_after_commit`, `_delta_digest`:
--     Scheduler/Boundary.antt; `_stopped`, `_interrupted_state`, `_node_for`: Scheduler/States.antt
-- src/perpetua_core/graph/gate.py: Gate.antt
-- src/perpetua_core/graph/reducers.py: Reducers.antt
-- src/perpetua_core/graph/spec.py: Spec.antt, with the freezing of JSON in Spec/Json.antt, the four
--   records in Spec/Records.antt, `GraphSpec` and `create` in Spec/Canonical.antt, and `from_dict` and
--   `from_json` in Spec/Reading.antt
-- src/perpetua_core/graph/lint.py: Lint.antt, with `_issue` in Lint/Issue.antt, the checks of nodes
--   and edges in Lint/Elements.antt, `_lint_regions` in Lint/Regions.antt, the search from START in
--   Lint/Paths.antt, and `lint_graph_spec` in Lint/Report.antt
--   `_describe_topology`, `describe`, `validate`, `compile_validated` of engine.py: Describe.antt,
--     which takes the builder's graph, makes its description and gives it to the lint
-- src/perpetua_core/discovery/ (selector.py, backend.py, registry.py): Discovery.antt
-- src/perpetua_core/policy.py: Policy.antt, with the making of a resolver's store in Policy/Store.antt
-- src/perpetua_core/message.py: Message.antt
-- src/perpetua_core/graph/plugins/: interrupt_guard.py in Plugins/Resume.antt, routing.py in
--   Plugins/Router.antt, parallel.py in Plugins/Parallel.antt, observer.py in
--   Plugins/Observer.antt, checkpointer.py in Plugins/Checkpointer.antt, which is one of the
--   listeners that observer.py serves, structured_output.py in Plugins/Structured.antt,
--   subgraphs.py and streaming.py in Plugins/Subgraph.antt, and validator.py, tool_node.py,
--   interrupts.py and graph/delivery.py in Plugins/Nodes.antt
-- src/perpetua_core/gossip.py: Gossip.antt
-- src/perpetua_core/graph/adapters/: langgraph_adapter.py in Adapters/Langgraph.antt, and
--   langchain_adapter.py in Adapters/Langchain.antt, with the concurrent runs of `abatch` in
--   Adapters/Langchain/Batch.antt
-- src/perpetua_core/state.py: State.antt, where pydantic's `model_copy` is the interface StateModel
--
-- A computation that may raise and may change a store is an Exec (Exec.antt). The store of code
-- that the kernel calls is the world `W`, about which nothing is assumed; the scheduler's own
-- store is a Run: the world and the observations given out so far, where each one lets the
-- consumer of the iteration act on the world before the scheduler goes on. Exec/Triple.antt is a
-- logic of conditions before and after, for the returned value and for the exception;
-- Exec/Returns.antt is that of code that lets no exception out. Scheduler/Trace.antt says what a
-- trace of observations keeps, and Scheduler/Trace/ shows that each step keeps it.
--
-- Parameters, for code that is not the package's: the nodes, routers, custom joins and reducers;
-- the gate; the JSON text and the SHA-256 of a payload (Encoding, in Spec/Json.antt); the module
-- and name of a callable (Names, in Describe.antt); the policy store of the package agate, with
-- its verdicts (PolicyStore, in Policy.antt) and its constructors (Agate, in Policy/Store.antt); a
-- table of SQLite (Table, in Sqlite.antt) and pydantic's JSON (JsonModel, in
-- Plugins/Checkpointer.antt); the builder of LangGraph (StateGraph, in Adapters/Langgraph.antt);
-- the client of a model and the schema of its answers; the clock and the JSON of the gossip log;
-- the subprocess of a tool; the consumer of the observations; the digest of a delta, the random
-- token of a region, and the order in which the event loop resumes the tasks of a region, each of
-- them any function.
--
-- Bounds: the loop is on fuel. It has max_steps + 2: each pass but the last completes a node, one
-- pass may find the end, and one may find the steps used up. The search of the lint has two more
-- than there are arcs: each node but the first enters the frontier as the target of an arc, and
-- once. A batch has two turns for each input.
--
-- Simplifications: values are the immutable ones of Value.antt, so that a deep copy is the value
-- itself; floats are left out; an exception keeps its type and fields and no message; a node's
-- body is one step of the event loop; cancellation of a run, and a consumer that abandons one, are
-- left out; a negative max_steps acts as 0; a custom join gives back texts; a message of the lint
-- is left out; the lint's adjacency is a list of pairs; exceptions are those of Python's class
-- Exception, so that a CancelledError or another BaseException, which passes the handlers of the
-- engine, is left out; the listeners of observer.py keep a store apart from the world of the graph
-- and are served from the observations of a run, not while it is paused, so that what a listener or
-- its failure does to the graph or its gate is not expressed; asyncio.gather in parallel.py is any
-- function; the runs of a batch share no world, and each takes place between two turns
-- of its task; a reference, a target or a branch that is no text, which from_dict keeps against
-- the annotation of its field, is refused.
--
-- Not modelled: graph/plugins/tool.py, which makes a pydantic class of a signature, and llm.py, a
-- call of the package openai.
mod Prelude
pub mod Value
pub mod Errors
pub mod Exec
pub mod Gate
pub mod State
pub mod Sqlite
pub mod Gossip
pub mod Reducers
pub mod Graph
pub mod Discovery
pub mod Spec
pub mod Lint
pub mod Describe
pub mod Policy
pub mod Message
pub mod Plugins
pub mod Adapters
pub mod Scheduler
mod Samples
