-- ===== src/Graph.antt =====
-- graph/engine.py: the data of a graph (edges, joins, fan-out regions), its events and
-- observations, and the builder `MiniGraph`. `S` is the state's type; `W` is all that callables read
-- and change outside the state.
pub mod Builder
use perpetua_core.Prelude.{
  ℕ, zero, suc, String, Bool, true, false, ◌&&◌, Option, none, some, List, [], ◌∷◌, ◌==◌, ltb, leb,
  not, length, any, contains, if◌then◌else◌, Dict, assign, sorted,
}
use perpetua_core.Value.{Value}
use perpetua_core.Errors.{Exception, value_error, Result, ok, err, ◌>>=◌, ◌>>◌, guard}
use perpetua_core.Exec.{Exec}
use perpetua_core.Reducers.{Reducer, CustomReducerFn, make_reducer}

abbrev pub start_node : String
start_node = "__start__"

abbrev pub end_node : String
end_node = "__end__"

abbrev pub default_max_steps : ℕ
default_max_steps = 200

abbrev pub NodeDelta : Type 0
NodeDelta = Dict Value

-- What a node's call gives, once awaited: a dict, or some other object.
pub data Returned : Type 0 where
  delta : NodeDelta → Returned
  not_dict : Returned

abbrev pub NodeFn : Type 0 → Type 0 → Type 0
NodeFn S W = S → Exec W Returned

-- A router may give any object.
abbrev pub EdgeFn : Type 0 → Type 0 → Type 0
EdgeFn S W = S → Exec W Value

-- `BranchOutcome`
pub record BranchOutcome : Type 0 where
  pub name : String
  pub is_ok : Bool
  pub error_type : Option String

-- The names that a custom join admits, as the list that `list(...)` makes of them.
abbrev pub JoinAdmitFn : Type 0 → Type 0
JoinAdmitFn W = List BranchOutcome → Exec W (List String)

-- `Join`: what its `__post_init__` lets be built.
pub data Join (W : Type 0) : Type 0 where
  all any_ok first_success : Join W
  quorum : ℕ → Join W
  custom : JoinAdmitFn W → Join W

module _ {W : Type 0} where
  -- Kinds that take neither a quorum nor a function.
  plain_join : Join W → Option ℕ → Option (JoinAdmitFn W) → Result (Join W)
  plain_join j none none = ok j
  plain_join j none (some fn) = err value_error
  plain_join j (some q) fn = err value_error

  quorum_join : Option ℕ → Option (JoinAdmitFn W) → Result (Join W)
  quorum_join none fn = err value_error
  quorum_join (some zero) fn = err value_error
  quorum_join (some (suc q)) none = ok (quorum (suc q))
  quorum_join (some (suc q)) (some fn) = err value_error

  custom_join : Option ℕ → Option (JoinAdmitFn W) → Result (Join W)
  custom_join none (some fn) = ok (custom fn)
  custom_join none none = err value_error
  custom_join (some q) fn = err value_error

  -- `Join(kind, quorum, fn)` with its `__post_init__`; a quorum that is no integer is refused there
  -- as one below 1 is.
  unfoldable pub make_join : String → Option ℕ → Option (JoinAdmitFn W) → Result (Join W)
  unfolding plain_join quorum_join custom_join
  make_join kind q fn =
      if kind == "all"
      then plain_join all q fn
      else if kind == "any"
      then plain_join any_ok q fn
      else if kind == "first_success"
      then plain_join first_success q fn
      else if kind == "quorum"
      then quorum_join q fn
      else if kind == "custom"
      then custom_join q fn
      else err value_error

-- `FanOut`; its branches are in ascending order of their names.
pub record FanOut (W : Type 0) : Type 0 where
  pub branches : List String
  pub then_node : String
  pub join : Join W

-- `len(set(names)) != len(names)`
unfoldable pub has_repeats : List String → Bool
has_repeats [] = false
has_repeats (x ∷ xs) = let rest = has_repeats xs in if contains x xs then true else rest

module _ {W : Type 0} where
  quorum_fits : Join W → ℕ → Bool
  quorum_fits (quorum q) n = leb q n
  quorum_fits _ n = true

  -- `FanOut(branches, then, join)` with its `__post_init__`
  unfoldable pub make_fan_out : List String → String → Join W → Result (FanOut W)
  unfolding has_repeats quorum_fits sorted
  make_fan_out branches then_node join = do
    guard (leb 2 (length branches)) value_error
    guard (not (has_repeats branches)) value_error
    guard (not (contains "" branches)) value_error
    guard (not (then_node == "")) value_error
    guard (quorum_fits join (length branches)) value_error
    ok (record { branches = sorted branches; then_node = then_node; join = join })

-- `Edge`; `conditional` is a `ConditionalEdge` with its declared targets, which are metadata only.
pub data Edge (S W : Type 0) : Type 0 where
  static : String → Edge S W
  router : EdgeFn S W → Edge S W
  conditional : EdgeFn S W → List String → Edge S W
  fan_out : FanOut W → Edge S W

-- `CompiledGraph`. A negative `max_steps` allows as many steps as 0.
pub record Graph (S W : Type 0) : Type 0 where
  pub nodes : Dict (NodeFn S W)
  pub edges : Dict (Edge S W)
  pub max_steps : ℕ
  pub reducers : Dict (Reducer W)

pub data EventKind : Type 0 where
  node_start node_end edge_selected interrupt done superstep_start superstep_commit stopped :
      EventKind

pub data TerminalReason : Type 0 where
  done interrupted stopped : TerminalReason

pub record GraphEvent : Type 0 where
  pub kind : EventKind
  pub node : Option String
  pub target : Option String
  pub steps : ℕ
  pub terminal_reason : Option TerminalReason
  pub branches : List String

pub record GraphObservation (S : Type 0) : Type 0 where
  pub event : GraphEvent
  pub state : S
  pub delta : Option NodeDelta
  pub provenance : Option (Dict (List String))

-- `GraphEvent(kind, node=node, steps=steps)`
abbrev pub event_at : EventKind → String → ℕ → GraphEvent
event_at kind node steps = record {
  kind = kind;
  node = some node;
  target = none;
  steps = steps;
  terminal_reason = none;
  branches = [];
}

-- `GraphObservation(event, state)`
abbrev pub observation : {S : Type 0} → GraphEvent → S → GraphObservation S
observation event state = record { event = event; state = state; delta = none; provenance = none }
