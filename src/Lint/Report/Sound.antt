-- ===== src/Lint/Report/Sound.antt =====
-- A description with no error keeps what it promises.
use perpetua_core.Prelude.{
  ◌≡◌, sym, ◌∙◌, true, false, ◌||◌, [], ◌==◌, not, map, any, All, arith, any-sort_by, eq_iff,
}
use perpetua_core.Graph.{start_node}
use perpetua_core.Spec.Json.{Encoding}
use perpetua_core.Spec.Canonical.{GraphSpec, is_nonempty}
use perpetua_core.Lint.Issue.{
  error, has_error, is_valid, is_error, report_if, issue_order, issue_from, issue_of_graph,
}
use perpetua_core.Lint.Elements.{lint_edges, lint_nodes, is_blank}
use perpetua_core.Lint.Regions.{lint_regions, lint_fanouts, fanouts_of, lint_version}
use perpetua_core.Lint.Report.{
  node_names, found_issues, lint_graph_spec, lint_header, compute_graph_id, is_positive,
  is_supported, canonical_payload,
}
use perpetua_core.Lint.Report.Edges.{
  clean_parts, Leads, each_Leads, lint_edges-Leads, lint_fanouts-Leads,
}
use perpetua_core.Lint.Report.Nodes.{AreDistinct, lint_nodes-AreDistinct, lint_nodes-are_named}

-- What a description that has no error promises.
pub record IsSound (enc : Encoding) (spec : GraphSpec) : Type 0 where
  pub is_identified : spec.graph_id ≡ compute_graph_id enc (canonical_payload enc spec)
  pub is_version_known : is_supported spec.schema_version ≡ true
  pub is_bounded : is_positive spec.max_steps ≡ true
  pub has_entry : any (λ e. e.source == start_node) spec.edges ≡ true
  pub are_distinct : AreDistinct (node_names spec)
  pub are_named : any (λ n. is_blank n.name) spec.nodes ≡ false
  pub are_connected : All (λ e. Leads (node_names spec) e.kind e) spec.edges

module _ (enc : Encoding) (spec : GraphSpec) where
  clean_found :
      is_valid (lint_graph_spec enc spec) ≡ true → has_error (found_issues enc spec) ≡ false
  unfolding lint_graph_spec
  clean_found h =
      sym (any-sort_by issue_order (λ i. is_error i.severity) (found_issues enc spec))
      ∙ ground arith

  clean_header :
      has_error (lint_header enc spec) ≡ false
      → (is_supported spec.schema_version ≡ true)
        × (spec.graph_id == compute_graph_id enc (canonical_payload enc spec) ≡ true)
  unfolding lint_header
  clean_header h = (ground arith, ground arith)

  clean_regions :
      has_error (lint_regions spec (node_names spec)) ≡ false
      → has_error (
          lint_fanouts
            (node_names spec)
            (map (λ e. e.source) spec.edges)
            []
            (fanouts_of spec.edges))
        ≡ false
  unfolding lint_regions
  clean_regions h =
      let one =
        clean_parts
          (lint_version spec.schema_version (
            is_nonempty (fanouts_of spec.edges)
            || is_nonempty spec.reducers
            || is_nonempty spec.joins))
          _ h in
      (clean_parts
        (lint_fanouts (node_names spec) (map (λ e. e.source) spec.edges) [] (fanouts_of spec.edges))
        _ one.1).0

  clean_all : has_error (found_issues enc spec) ≡ false → IsSound enc spec
  unfolding found_issues
  clean_all h =
      let one = clean_parts (lint_header enc spec) _ h in
      let two = clean_parts (lint_nodes [] spec.nodes) _ one.1 in
      let three =
        clean_parts (report_if (not (is_positive spec.max_steps)) (issue_of_graph "GS010" error)) _
          two.1 in
      let four =
        clean_parts
          (report_if (not (any (λ e. e.source == start_node) spec.edges))
            (issue_from "GS003" error start_node))
          _ three.1 in
      let five = clean_parts (lint_edges (node_names spec) [] spec.edges) _ four.1 in
      let six = clean_parts (lint_regions spec (node_names spec)) _ five.1 in
      let header = clean_header one.0 in
      record {
        is_identified = (eq_iff spec.graph_id _).0 header.1;
        is_version_known = header.0;
        is_bounded = ground arith;
        has_entry = ground arith;
        are_distinct = lint_nodes-AreDistinct [] spec.nodes two.0;
        are_named = lint_nodes-are_named [] spec.nodes two.0;
        are_connected =
            each_Leads (node_names spec) spec.edges
              (lint_edges-Leads (node_names spec) [] spec.edges five.0)
              (lint_fanouts-Leads (node_names spec) (map (λ e. e.source) spec.edges) []
                (fanouts_of spec.edges) (clean_regions six.0));
      }

  -- A description that the lint finds valid keeps its identity, a known schema version, a positive
  -- number of steps and an edge from START; its nodes' names are distinct and not blank; a static edge has a
  -- target, and it is a node or END; a conditional edge declares nodes or END; a fan-out edge
  -- starts at a node, has nodes as branches, and its target is a node or END.
  pub lint_graph_spec-IsSound : is_valid (lint_graph_spec enc spec) ≡ true → IsSound enc spec
  lint_graph_spec-IsSound h = clean_all (clean_found h)
