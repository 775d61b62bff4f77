-- ===== src/Lint/Elements.antt =====
-- The checks of `lint_graph_spec` on the nodes, and on static and conditional edges.
use perpetua_core.Prelude.{
  ℕ, String, Bool, true, false, ◌||◌, ◌&&◌, Option, none, some, List, [], ◌∷◌, ◌++◌, ◌==◌, not, leb,
  eqb, contains,
}
use Prim.Native.Char.{code}
use perpetua_core.Graph.{start_node, end_node}
use perpetua_core.Spec.Records.{
  is_nil, NodeSpec, EdgeSpec, EdgeKind, static, conditional, fanout, is_given,
}
use perpetua_core.Lint.Issue.{
  GraphLintIssue, error, warning, issue_at, issue_from, issue_between, report_if,
}

-- What `str.strip` strips, by code point.
abbrev is_space : ℕ → Bool
is_space c =
    (leb 9 c && leb c 13)
    || (leb 28 c && leb c 32)
    || eqb c 133
    || eqb c 160
    || eqb c 5760
    || (leb 8192 c && leb c 8202)
    || eqb c 8232
    || eqb c 8233
    || eqb c 8239
    || eqb c 8287
    || eqb c 12288

-- `not name.strip()`
unfoldable pub is_blank : String → Bool
is_blank String.[] = true
is_blank (String.◌∷◌ c s) = is_space (code c) && is_blank s

-- One node, where `seen` are the names before it.
unfoldable pub lint_node : List String → NodeSpec → List GraphLintIssue
lint_node seen n =
    report_if (contains n.name seen) (issue_at "GS001" error n.name)
    ++ (report_if (is_blank n.name) (issue_at "GS002" error n.name)
        ++ (report_if (n.name == start_node || n.name == end_node) (issue_at "GS011" error n.name)
            ++ report_if (not (is_given n.implementation_ref)) (issue_at "GS104" warning n.name)))

unfoldable pub lint_nodes : List String → List NodeSpec → List GraphLintIssue
lint_nodes seen [] = []
lint_nodes seen (n ∷ ns) = lint_node seen n ++ lint_nodes (n.name ∷ seen) ns

-- `name != END and name not in node_set`
abbrev pub is_unknown : List String → String → Bool
is_unknown names name = not (name == end_node) && not (contains name names)

abbrev pub is_unknown_target : List String → Option String → Bool
is_unknown_target names none = false
is_unknown_target names (some name) = is_unknown names name

-- `source != START and source not in node_set`
abbrev pub is_no_source : List String → String → Bool
is_no_source names name = not (name == start_node) && not (contains name names)

-- `for target in edge.declared_targets`
unfoldable pub lint_targets : List String → String → List String → List GraphLintIssue
lint_targets names source [] = []
lint_targets names source (t ∷ ts) =
    report_if (is_unknown names t) (issue_between "GS007" error source (some t))
    ++ lint_targets names source ts

unfoldable pub lint_shape : List String → EdgeKind → EdgeSpec → List GraphLintIssue
lint_shape names static e =
    report_if (not (is_given e.target) || is_given e.router_ref || not (is_nil e.declared_targets))
      (issue_between "GS008" error e.source e.target)
    ++ (report_if (is_no_source names e.source) (issue_between "GS004" error e.source e.target)
        ++ report_if (is_unknown_target names e.target)
            (issue_between "GS005" error e.source e.target))
lint_shape names conditional e =
    report_if (is_given e.target) (issue_between "GS009" error e.source e.target)
    ++ (report_if (is_no_source names e.source) (issue_from "GS006" error e.source)
        ++ (lint_targets names e.source e.declared_targets
            ++ (report_if (is_nil e.declared_targets) (issue_from "GS103" warning e.source)
                ++ report_if (not (is_given e.router_ref)) (issue_from "GS105" warning e.source))))
lint_shape names fanout e = []

-- The edges, where `seen` are the sources before them.
unfoldable pub lint_edges : List String → List String → List EdgeSpec → List GraphLintIssue
lint_edges names seen [] = []
lint_edges names seen (e ∷ es) =
    report_if (contains e.source seen) (issue_from "GS012" error e.source)
    ++ (lint_shape names e.kind e ++ lint_edges names (e.source ∷ seen) es)
