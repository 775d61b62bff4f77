-- ===== src/Adapters/Langgraph/Calls.antt =====
-- What the export of a graph tells LangGraph's builder, call by call.
use perpetua_core.Prelude.{
  String, ◌≡◌, refl, Option, none, some, List, [], ◌∷◌, ◌==◌, map, ◌⊎◌, inl, inr, Dict, lookup,
  eq_iff, Bool-cases, ap, ◌∙◌, sym, subst, arith, ◌≢◌, length, Member,
}
use perpetua_core.Value.{Value, text}
use perpetua_core.Errors.{ok, ok-injective}
use perpetua_core.Exec.{Exec, lift, then_run, ◌>>=◌, ◌>>◌}
use perpetua_core.Exec.Laws.{then_run-ok, perform}
use perpetua_core.Graph.{start_node, end_node, NodeFn, EdgeFn, Edge}
use perpetua_core.Scheduler.{Invocation}
use perpetua_core.Scheduler.Loop.{resolve_edge}
use perpetua_core.Adapters.Langgraph.{
  StateGraph, Exported, direct, branching, lg_target, exported, add_nodes, add_exported, add_edges,
  to_langgraph, lg_source, Result,
}
use perpetua_core.Adapters.Langgraph.Routes.{
  follow, Covers, text-injective, some-injective, resolve_edge-ok, exported-follow,
}

-- A call of the builder for an edge, as LangGraph takes it.
pub data EdgeCall (S W : Type 0) : Type 0 where
  edge_call : String → String → EdgeCall S W
  branch_call : String → EdgeFn S W → Option (Dict String) → EdgeCall S W

-- The reserved name becomes LangGraph's own, and any other name stays.
abbrev pub Renamed : String → String → String → String → Type 0
Renamed reserved own name name' =
    (name ≡ reserved) × (name' ≡ own) ⊎ (name ≢ reserved) × (name' ≡ name)

-- A path map, where there is one, sends a destination to itself.
abbrev pub Maps : Option (Dict String) → String → Type 0
Maps none name = Unit
Maps (some targets) name = lookup name targets ≡ some name

module _ {S W B C : Type 0} (lg : StateGraph S W B C) where
  abbrev pub apply : EdgeCall S W → Exec B Unit
  apply (edge_call source target) = lg.add_edge source target
  apply (branch_call source fn targets) = lg.add_conditional_edges source fn targets

  abbrev pub node_calls : Dict (NodeFn S W) → List (Exec B Unit)
  node_calls nodes = map (λ entry. lg.add_node entry.0 entry.1) nodes

  -- The call is for an edge from the source that leads, in the state and the world, to the name.
  abbrev pub Leads : String → String → S → W → W → EdgeCall S W → Type 0
  Leads source name s w w' (edge_call source' target) =
      Renamed start_node lg.lg_start source source'
      × Renamed end_node lg.lg_end name target
      × (w ≡ w')
  Leads source name s w w' (branch_call source' fn targets) =
      Renamed start_node lg.lg_start source source'
      × ((target : String) × Renamed end_node lg.lg_end name target
          × (fn s w ≡ (ok (text target), w'))
          × Maps targets target)

mapped :
    {S W : Type 0} (fn : EdgeFn S W) (targets : Option (Dict String)) (name : String)
    → Covers (branching fn targets) name
    → Maps targets name
mapped fn none name h = tt
mapped fn (some targets) name h = h

module _ {S W B C : Type 0} (lg : StateGraph S W B C) (run : Invocation S W) where
  -- The call that an exported edge becomes.
  unfoldable call_of : String → Exported S W → EdgeCall S W
  call_of source (direct target) = edge_call source target
  call_of source (branching fn targets) = branch_call source fn targets

  apply-call_of :
      (source : String) (x : Exported S W) → apply lg (call_of source x) ≡ add_exported lg source x
  unfolding call_of add_exported
  apply-call_of source (direct target) = refl
  apply-call_of source (branching fn targets) = refl

  add_nodes-perform :
      (nodes : Dict (NodeFn S W)) → add_nodes lg nodes ≡ perform (node_calls lg nodes)
  unfolding add_nodes perform
  add_nodes-perform [] = refl
  add_nodes-perform ((name, fn) ∷ nodes) =
      ap (λ m. lg.add_node name fn >> m) (add_nodes-perform nodes)

  -- The calls that were made for the edges: one for each.
  record Made (edges : Dict (Edge S W)) (b b' : B) : Type 0 where
    calls : List (EdgeCall S W)
    performed : perform (map (apply lg) calls) b ≡ (ok tt, b')
    one_each : length calls ≡ length edges
    given :
        (source : String) (edge : Edge S W)
        → lookup source edges ≡ some edge
        → (x : Exported S W) × (exported lg run.graph edge ≡ ok x)
          × Member (call_of (lg_source lg source) x) calls

  Made-cons :
      (name : String) (e : Edge S W) (edges : Dict (Edge S W)) (b b₁ b' : B) (x : Exported S W)
      → exported lg run.graph e ≡ ok x
      → add_exported lg (lg_source lg name) x b ≡ (ok tt, b₁)
      → Made edges b₁ b'
      → Made ((name, e) ∷ edges) b b'
  unfolding perform ◌>>=◌ lookup
  Made-cons name e edges b b₁ b' x made added rest = record {
    calls = call_of (lg_source lg name) x ∷ rest.calls;
    performed =
        ap (λ (m : Exec B Unit). (m >> perform (map (apply lg) rest.calls)) b)
          (apply-call_of (lg_source lg name) x)
        ∙ ap (then_run (λ u. perform (map (apply lg) rest.calls))) added
        ∙ rest.performed;
    one_each = omega (arith, rest.one_each);
    given = λ source edge found. elim (Bool-cases (name == source)) [
      | inl same ↦ (
        x,
        subst (λ y. exported lg run.graph y ≡ ok x) (some-injective (rw same at found)) made,
        inl (ap (λ n. call_of (lg_source lg n) x) ((eq_iff name source).0 same)),
      )
      | inr other ↦
          let (y, ok_y, m) = rest.given source edge (rw other at found) in (y, ok_y, inr m)
    ];
  }

  add_edges-Made :
      (edges : Dict (Edge S W)) (b b' : B)
      → add_edges lg run.graph edges b ≡ (ok tt, b')
      → Made edges b b'
  unfolding add_edges lookup ◌>>=◌ perform
  add_edges-Made [] b b' h = record {
    calls = [];
    performed = h;
    one_each = refl;
    given = λ source edge found. cc found;
  }
  add_edges-Made ((name, e) ∷ edges) b b' h =
      let (x, b₁, given, rest) = then_run-ok _ (lift (exported lg run.graph e) b) tt b' h in
      let (u, b₂, added, others) =
        then_run-ok _ (add_exported lg (lg_source lg name) x b₁) tt b' rest in
      Made-cons name e edges b b₂ b' x (ap (λ p. p.0) given)
        (subst (λ c. add_exported lg (lg_source lg name) x c ≡ (ok tt, b₂))
          (sym (ap (λ p. p.1) given)) added)
        (add_edges-Made edges b₂ b' others)

  lg_source-Renamed : (name : String) → Renamed start_node lg.lg_start name (lg_source lg name)
  unfolding lg_source
  lg_source-Renamed name = elim (Bool-cases (name == start_node)) [
    | inl e ↦ rw e (inl ((eq_iff name start_node).0 e, refl))
    | inr e ↦ rw e (inr (λ same. cc ((eq_iff name start_node).1 same, e), refl))
  ]

  lg_target-Renamed : (name : String) → Renamed end_node lg.lg_end name (lg_target lg name)
  unfolding lg_target
  lg_target-Renamed name = elim (Bool-cases (name == end_node)) [
    | inl e ↦ rw e (inl ((eq_iff name end_node).0 e, refl))
    | inr e ↦ rw e (inr (λ same. cc ((eq_iff name end_node).1 same, e), refl))
  ]

  text-ok :
      {m n : String} {w w' : W}
      → ◌≡◌ {A = Result Value × W} (ok (text m), w) (ok (text n), w')
      → (m ≡ n) × (w ≡ w')
  text-ok h = (text-injective (ok-injective (ap (λ x. x.0) h)), ap (λ x. x.1) h)

  call_of-Leads :
      (source name : String) (x : Exported S W) (s : S) (w w' : W)
      → follow x s w ≡ (ok (text (lg_target lg name)), w')
      → Covers x (lg_target lg name)
      → Leads lg source name s w w' (call_of (lg_source lg source) x)
  unfolding call_of
  call_of-Leads source name (direct target) s w w' follows covered =
      let (same, still) = text-ok follows in
      (
        lg_source-Renamed source,
        subst (Renamed end_node lg.lg_end name) (sym same) (lg_target-Renamed name),
        still,
      )
  call_of-Leads source name (branching fn targets) s w w' follows covered = (
    lg_source-Renamed source,
    (
      lg_target lg name,
      lg_target-Renamed name,
      follows,
      mapped fn targets (lg_target lg name) covered,
    ),
  )

  -- An export that succeeds adds every node of the graph to the builder under its name, in their order,
  -- then makes one call for each edge, and compiles. Where the scheduler resolves an edge to a name,
  -- the call that was made for it is from the edge's source (LangGraph's START for START) and leads to
  -- the same name (LangGraph's END for END): by `add_edge` directly, or by the value of the routing
  -- function given to `add_conditional_edges`, which its path map, if it has one, sends to itself.
  pub to_langgraph_contract :
      (b b' : B) (c : C) (source name : String) (edge : Edge S W) (s : S) (w w' : W)
      → to_langgraph lg run.graph b ≡ (ok c, b')
      → lookup source run.graph.edges ≡ some edge
      → resolve_edge run edge s w ≡ (ok name, w')
      → (calls : List (EdgeCall S W)) × (b₁ : B) × (b₂ : B) × (perform
            (node_calls lg run.graph.nodes)
            b
          ≡ (ok tt, b₁))
        × (perform (map (apply lg) calls) b₁ ≡ (ok tt, b₂))
        × (lg.compile b₂ ≡ (ok c, b'))
        × (length calls ≡ length run.graph.edges)
        × ((call : EdgeCall S W) × Member call calls × Leads lg source name s w w' call)
  unfolding to_langgraph ◌>>=◌
  to_langgraph_contract b b' c source name edge s w w' made found resolved =
      let (u, b₁, nodes, rest) = then_run-ok _ (add_nodes lg run.graph.nodes b) c b' made in
      let (v, b₂, edges, compiled) =
        then_run-ok _ (add_edges lg run.graph run.graph.edges b₁) c b' rest in
      let sent = add_edges-Made run.graph.edges b₁ b₂ edges in
      let (x, given, there) = sent.given source edge found in
      let (value, target) = resolve_edge-ok lg run edge s w w' name resolved in
      let (follows, covered) = exported-follow lg run edge x s w w' name given value target in
      (
        sent.calls,
        b₁,
        b₂,
        subst (λ (m : Exec B Unit). m b ≡ (ok tt, b₁)) (add_nodes-perform run.graph.nodes) nodes,
        sent.performed,
        compiled,
        sent.one_each,
        (_, there, call_of-Leads source name x s w w' follows covered),
      )
