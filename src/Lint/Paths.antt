-- ===== src/Lint/Paths.antt =====
-- The nodes that the declared edges reach from START.
pub mod Reachable
use perpetua_core.Prelude.{
  ℕ, zero, suc, String, Bool, true, false, ◌||◌, ◌&&◌, Option, none, some, List, [], ◌∷◌, ◌++◌,
  ◌==◌, not, map, if◌then◌else◌, contains, keep, any, length, sorted,
}
use perpetua_core.Graph.{start_node, end_node}
use perpetua_core.Spec.Records.{EdgeSpec, EdgeKind, static, conditional, fanout, distinct}
use perpetua_core.Lint.Issue.{GraphLintIssue, warning, issue_of_graph, issue_at}

abbrev pub Arc : Type 0
Arc = String × String

abbrev pub arcs_to : String → List String → List Arc
arcs_to source targets = map (λ t. (source, t)) targets

abbrev pub branch_arcs : List String → String → List Arc
branch_arcs branches target = map (λ b. (b, target)) branches

-- What one edge adds to `adjacency`.
unfoldable pub arcs_of : EdgeKind → Option String → EdgeSpec → List Arc
arcs_of static (some target) e = (e.source, target) ∷ []
arcs_of fanout (some target) e =
    arcs_to e.source e.declared_targets
    ++ ((e.source, target) ∷ branch_arcs e.declared_targets target)
arcs_of conditional target e = arcs_to e.source e.declared_targets
arcs_of _ none e = []

-- `adjacency`, as its pairs. The code keeps the targets of a node in a set; here one may stand twice,
-- and is then passed over.
unfoldable pub adjacency : List EdgeSpec → List Arc
adjacency [] = []
adjacency (e ∷ es) = arcs_of e.kind e.target e ++ adjacency es

abbrev pub is_opaque : EdgeKind → List String → Bool
is_opaque conditional [] = true
is_opaque _ _ = false

-- `opaque_conditional_sources`
unfoldable pub opaque_sources : List EdgeSpec → List String
opaque_sources edges = map (λ e. e.source) (keep (λ e. is_opaque e.kind e.declared_targets) edges)

-- `adjacency.get(current, ())`
unfoldable pub targets : String → List Arc → List String
targets current [] = []
targets current ((source, target) ∷ arcs) =
    let rest = targets current arcs in if source == current then target ∷ rest else rest

-- `reachable` and `frontier`, whose end is the head of the list here
pub record Search : Type 0 where
  pub reachable : List String
  pub frontier : List String

-- `reachable.add(target); frontier.append(target)`, for a target that is not in `reachable`
abbrev pub push_unless : Bool → String → Search → Search
push_unless true t s = s
push_unless false t s = record { reachable = t ∷ s.reachable; frontier = t ∷ s.frontier }

-- `for target in ...`
unfoldable pub push_new : List String → Search → Search
push_new [] s = s
push_new (t ∷ ts) s = push_new ts (push_unless (contains t s.reachable) t s)

abbrev pub next_search : String → List Arc → List String → List String → Search
next_search current arcs reachable rest =
    push_new (targets current arcs) (record { reachable = reachable; frontier = rest })

-- `while frontier`, on fuel
unfoldable pub explore : ℕ → List Arc → List String → List String → List String
explore zero arcs reachable frontier = reachable
explore (suc fuel) arcs reachable [] = reachable
explore (suc fuel) arcs reachable (current ∷ rest) =
    let s = next_search current arcs reachable rest in explore fuel arcs s.reachable s.frontier

-- Each node but the first is put on the frontier as the target of an arc, and once.
unfoldable pub reachable_from : String → List Arc → List String
reachable_from start arcs = explore (suc (suc (length arcs))) arcs (start ∷ []) (start ∷ [])

abbrev pub unreachable_issues : List String → List GraphLintIssue
unreachable_issues names = map (λ name. issue_at "GS101" warning name) names

-- The warnings GS101 and GS102.
unfoldable pub lint_paths : List String → List EdgeSpec → List GraphLintIssue
lint_paths names edges =
    let reachable = reachable_from start_node (adjacency edges) in
    if any (λ source. contains source reachable) (opaque_sources edges)
    then []
    else unreachable_issues (sorted (keep (λ name. not (contains name reachable)) (distinct names)))
      ++ (if contains end_node reachable then [] else issue_of_graph "GS102" warning ∷ [])
