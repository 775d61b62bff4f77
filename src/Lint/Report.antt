-- ===== src/Lint/Report.antt =====
-- `lint_graph_spec` and `validate_graph_spec`.
pub mod Edges
pub mod Nodes
pub mod Sound
use perpetua_core.Prelude.{
  ℕ, zero, suc, String, Bool, true, false, List, [], ◌∷◌, ◌++◌, ◌==◌, not, map, if◌then◌else◌, any,
  sort_by,
}
use perpetua_core.Value.{ℤ, pos, negsuc}
use perpetua_core.Errors.{value_error, Result, ok, err, guard}
use perpetua_core.Graph.{start_node}
use perpetua_core.Spec.Json.{Encoding}
use perpetua_core.Spec.Canonical.{GraphSpec, is_supported, canonical_payload, compute_graph_id}
use perpetua_core.Lint.Issue.{
  GraphLintIssue, GraphValidationReport, error, issue_of_graph, issue_from, report_if, issue_order,
  is_valid,
}
use perpetua_core.Lint.Elements.{lint_nodes, lint_edges}
use perpetua_core.Lint.Regions.{lint_regions}
use perpetua_core.Lint.Paths.{lint_paths}

abbrev pub is_positive : ℤ → Bool
is_positive (pos zero) = false
is_positive (pos (suc n)) = true
is_positive (negsuc n) = false

abbrev pub node_names : GraphSpec → List String
node_names spec = map (λ n. n.name) spec.nodes

module _ (enc : Encoding) where
  -- The checks on the description as a whole.
  unfoldable pub lint_header : GraphSpec → List GraphLintIssue
  lint_header spec =
      report_if (not (is_supported spec.schema_version)) (issue_of_graph "GS013" error)
      ++ report_if (not (spec.graph_id == compute_graph_id enc (canonical_payload enc spec)))
          (issue_of_graph "GS014" error)

  -- All the issues, as they are found.
  unfoldable pub found_issues : GraphSpec → List GraphLintIssue
  found_issues spec =
      lint_header spec
      ++ (lint_nodes [] spec.nodes
          ++ (report_if (not (is_positive spec.max_steps)) (issue_of_graph "GS010" error)
              ++ (report_if (not (any (λ e. e.source == start_node) spec.edges))
                    (issue_from "GS003" error start_node)
                  ++ (lint_edges (node_names spec) [] spec.edges
                      ++ (lint_regions spec (node_names spec)
                          ++ lint_paths (node_names spec) spec.edges)))))

  -- `lint_graph_spec`
  unfoldable pub lint_graph_spec : GraphSpec → GraphValidationReport
  lint_graph_spec spec = record {
    graph_id = spec.graph_id;
    issues = sort_by issue_order (found_issues spec);
  }

  -- `validate_graph_spec`; GraphSpecValidationError is a ValueError.
  unfoldable pub validate_graph_spec : GraphSpec → Result (Unit {0})
  validate_graph_spec spec = guard (is_valid (lint_graph_spec spec)) value_error
