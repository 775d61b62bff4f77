-- ===== src/Describe/Sound.antt =====
-- `compile_validated` with the scheduler: what it lets through, the scheduler can follow.
use perpetua_core.Prelude.{
  String, ◌≡◌, refl, ap, sym, subst, ◌∙◌, Bool, true, false, ◌||◌, List, [], ◌∷◌, All, any,
  contains, keys, Dict, map,
}
use perpetua_core.Value.{value_eq, to_fields, of_fields}
use perpetua_core.Errors.{ok, >>=-ok, ok-injective}
use perpetua_core.Graph.{NodeFn, Edge, Graph}
use perpetua_core.Spec.Json.{Encoding, as_dict, freeze_metadata, freeze_fields}
use perpetua_core.Spec.Records.{
  NodeSpec, EdgeSpec, edge_spec, node_spec, edge_kind, check_edge, fanout, JoinSpec,
}
use perpetua_core.Spec.Canonical.{GraphSpec}
use perpetua_core.Lint.Elements.{is_unknown}
use perpetua_core.Lint.Report.{node_names}
use perpetua_core.Lint.Report.Edges.{Leads}
use perpetua_core.Describe.{
  Names, describe, describe_nodes, describe_edge, describe_edges, describe_join, some, none,
  describe_reducers, pos, null,
}
use perpetua_core.Describe.Edges.{All-of_declared}
use perpetua_core.Describe.Create.{create-Keeps}

-- An edge leads to nodes of the graph, or to END.
abbrev pub Connects : {S W : Type 0} → List String → Edge S W → Type 0
Connects names (Edge.static target) = is_unknown names target ≡ false
Connects names (Edge.router fn) = Unit
Connects names (Edge.conditional fn declared) = All (λ t. is_unknown names t ≡ false) declared
Connects names (Edge.fan_out fan) =
    (is_unknown names fan.then_node ≡ false) × All (λ b. contains b names ≡ true) fan.branches

pub any-map :
    {A B : Type 0} (test : B → Bool) (f : A → B) (xs : List A)
    → any test (map f xs) ≡ any (λ x. test (f x)) xs
any-map test f [] = refl
any-map test f (x ∷ xs) = ap (λ b. test (f x) || b) (any-map test f xs)

module _ {S W : Type 0} (callables : Names S W) where
  describe_edge-Connects :
      (names : List String) (source : String) (edge : Edge S W) (e : EdgeSpec)
      → describe_edge callables source edge ≡ ok e
      → Leads names e.kind e
      → Connects names edge
  unfolding describe_edge edge_spec edge_kind value_eq check_edge as_dict freeze_metadata
      freeze_fields to_fields of_fields
  describe_edge-Connects names source (Edge.static target) e h k =
      (subst (λ e. Leads names e.kind e) (sym (ok-injective h)) k).1
  describe_edge-Connects names source (Edge.router fn) e h k = tt
  describe_edge-Connects names source (Edge.conditional fn declared) e h k =
      let leads = subst (λ e. Leads names e.kind e) (sym (ok-injective h)) k in
      All-of_declared (λ t. is_unknown names t ≡ false) declared leads.1
  describe_edge-Connects names source (Edge.fan_out fan) e h k =
      let (u, made, c) = >>=-ok (check_edge fanout (some fan.then_node) none fan.branches) h in
      let leads = subst (λ e. Leads names e.kind e) (sym (ok-injective made)) k in
      (leads.1, All-of_declared (λ b. contains b names ≡ true) fan.branches leads.2)

  describe_edges-Connects :
      (names : List String) (edges : Dict (Edge S W)) (r : List EdgeSpec × List JoinSpec)
      → describe_edges callables edges ≡ ok r
      → All (λ e. Leads names e.kind e) r.0
      → All (λ p. Connects names p.1) edges
  unfolding describe_edges
  describe_edges-Connects names [] r h k = tt
  describe_edges-Connects names ((source, edge) ∷ edges) r h k =
      let (e, one, described) = >>=-ok (describe_edge callables source edge) h in
      let (js, two, u) = >>=-ok (describe_join callables source edge) one in
      let (rest, made, later) = >>=-ok (describe_edges callables edges) two in
      let all = subst (λ r. All (λ e. Leads names e.kind e) r.0) (sym (ok-injective made)) k in
      (
        describe_edge-Connects names source edge e described all.0,
        describe_edges-Connects names edges rest later all.1,
      )

  describe_edge-source :
      (source : String) (edge : Edge S W) (e : EdgeSpec)
      → describe_edge callables source edge ≡ ok e
      → source ≡ e.source
  unfolding describe_edge edge_spec edge_kind value_eq check_edge as_dict freeze_metadata
      freeze_fields to_fields of_fields
  describe_edge-source source (Edge.static target) e h = ap (λ e. e.source) (ok-injective h)
  describe_edge-source source (Edge.router fn) e h = ap (λ e. e.source) (ok-injective h)
  describe_edge-source source (Edge.conditional fn declared) e h =
      ap (λ e. e.source) (ok-injective h)
  describe_edge-source source (Edge.fan_out fan) e h =
      let (u, made, c) = >>=-ok (check_edge fanout (some fan.then_node) none fan.branches) h in
      ap (λ e. e.source) (ok-injective made)

  describe_edges-any :
      (test : String → Bool) (edges : Dict (Edge S W)) (r : List EdgeSpec × List JoinSpec)
      → describe_edges callables edges ≡ ok r
      → any (λ e. test e.source) r.0 ≡ any test (keys edges)
  unfolding describe_edges
  describe_edges-any test [] r h = ap (λ r. any (λ e. test e.source) r.0) (sym (ok-injective h))
  describe_edges-any test ((source, edge) ∷ edges) r h =
      let (e, one, described) = >>=-ok (describe_edge callables source edge) h in
      let (js, two, u) = >>=-ok (describe_join callables source edge) one in
      let (rest, made, later) = >>=-ok (describe_edges callables edges) two in
      ap (λ r. any (λ e. test e.source) r.0) (sym (ok-injective made))
      ∙ rw (describe_edge-source source edge e described, describe_edges-any test edges rest later)
          refl

  -- The names of the described nodes are those of the graph.
  describe_nodes-any :
      (test : String → Bool) (nodes : Dict (NodeFn S W)) (ns : List NodeSpec)
      → describe_nodes callables nodes ≡ ok ns
      → any (λ n. test n.name) ns ≡ any test (keys nodes)
  unfolding describe_nodes node_spec as_dict freeze_metadata freeze_fields to_fields of_fields
  describe_nodes-any test [] ns h = ap (any (λ n. test n.name)) (sym (ok-injective h))
  describe_nodes-any test ((name, fn) ∷ nodes) ns h =
      let (rest, made, later) = >>=-ok (describe_nodes callables nodes) h in
      ap (any (λ n. test n.name)) (sym (ok-injective made))
      ∙ ap (λ b. test name || b) (describe_nodes-any test nodes rest later)

  -- What a description says of its graph.
  pub describe-tells :
      (enc : Encoding) (g : Graph S W) (spec : GraphSpec)
      → describe callables enc g ≡ ok spec
      → ((test : String → Bool) → any test (node_names spec) ≡ any test (keys g.nodes))
        × ((test : String → Bool) → any (λ e. test e.source) spec.edges ≡ any test (keys g.edges))
        × ((names : List String)
            → All (λ e. Leads names e.kind e) spec.edges
            → All (λ p. Connects names p.1) g.edges)
  unfolding describe
  describe-tells enc g spec h =
      let (nodes, one, n) = >>=-ok (describe_nodes callables g.nodes) h in
      let (edges, two, e) = >>=-ok (describe_edges callables g.edges) one in
      let (reducers, three, r) = >>=-ok (describe_reducers callables g.reducers) two in
      let kept =
        create-Keeps enc (pos g.max_steps) nodes edges.0 null none reducers edges.1 spec three in
      (
        λ test.
            any-map test (λ n. n.name) spec.nodes
            ∙ kept.0 (λ n. test n.name)
            ∙ describe_nodes-any test g.nodes nodes n,
        λ test. kept.1 (λ e. test e.source) ∙ describe_edges-any test g.edges edges e,
        λ names all.
            describe_edges-Connects names g.edges edges e (kept.2 (λ e. Leads names e.kind e) all),
      )
