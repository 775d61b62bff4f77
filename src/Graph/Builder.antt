-- ===== src/Graph/Builder.antt =====
-- `MiniGraph` of graph/engine.py: the mutable construction workspace and its detached snapshot.
pub mod Reachable
use perpetua_core.Prelude.{
  String, Bool, true, false, ◌&&◌, Option, [], ◌==◌, ℕ, if◌then◌else◌, Dict, assign,
}
use perpetua_core.Errors.{value_error, Result, ok, err, ◌>>=◌}
use perpetua_core.Reducers.{Reducer, CustomReducerFn, make_reducer}
use perpetua_core.Graph.{start_node, NodeFn, Edge, static, fan_out, Graph}

-- `MiniGraph`: the same four fields as its compiled snapshot.
pub record MiniGraph (S W : Type 0) : Type 0 where
  pub nodes : Dict (NodeFn S W)
  pub edges : Dict (Edge S W)
  pub reducers : Dict (Reducer W)
  pub max_steps : ℕ

-- The `kind` argument of `add_reducer`: the name of a kind, or a ready `Reducer`.
pub data KindOrReducer (W : Type 0) : Type 0 where
  named_kind : String → KindOrReducer W
  ready : Reducer W → KindOrReducer W

-- `kind if isinstance(kind, Reducer) else Reducer(kind, fn)`
unfoldable pub reducer_from :
    {W : Type 0} → KindOrReducer W → Option (CustomReducerFn W) → Result (Reducer W)
reducer_from (named_kind name) fn = make_reducer name fn
reducer_from (ready reducer) fn = ok reducer

module _ {S W : Type 0} where
  unfoldable pub mini_graph : ℕ → MiniGraph S W
  mini_graph max_steps = record { nodes = []; edges = []; reducers = []; max_steps = max_steps }

  unfoldable pub add_node : String → NodeFn S W → MiniGraph S W → MiniGraph S W
  add_node name fn g = record g { nodes = assign name fn g.nodes }

  abbrev pub is_fan_out : Edge S W → Bool
  is_fan_out (fan_out f) = true
  is_fan_out _ = false

  -- A region needs a source node: the start cannot fan out.
  unfoldable pub add_edge : String → Edge S W → MiniGraph S W → Result (MiniGraph S W)
  add_edge src dst g =
      if is_fan_out dst && src == start_node
      then err value_error
      else ok (record g { edges = assign src dst g.edges })

  -- `add_reducer(field_name, kind, fn)`
  unfoldable pub add_reducer :
      String → KindOrReducer W → Option (CustomReducerFn W) → MiniGraph S W → Result (MiniGraph S W)
  add_reducer field given fn g = do
    reducer ← reducer_from given fn
    ok (record g { reducers = assign field reducer g.reducers })

  unfoldable pub set_entry : String → MiniGraph S W → Result (MiniGraph S W)
  unfolding add_edge
  set_entry node g = add_edge start_node (static node) g

  unfoldable pub compile : MiniGraph S W → Graph S W
  compile g = record {
    nodes = g.nodes;
    edges = g.edges;
    max_steps = g.max_steps;
    reducers = g.reducers;
  }
