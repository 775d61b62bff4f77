-- ===== src/Samples/Specs.antt =====
-- Descriptions of the sample graph, and what the lint says of them.
use perpetua_core.Prelude.{
  String, ◌≡◌, refl, true, Option, none, some, [], ◌∷◌, ◌==◌, if◌then◌else◌, contains, ◌↔◌, sort_by,
  insert_by, sorted, insert_sorted, lookup, assign, List, Dict, All,
}
use perpetua_core.Value.{
  Value, text, pos, ℤ, to_items, of_items, to_fields, of_fields, iterate, value_eq, tuple,
}
use perpetua_core.Errors.{Result, ok, err}
use perpetua_core.Graph.{has_repeats, end_node, start_node}
use perpetua_core.Graph.Builder.{MiniGraph, compile}
use perpetua_core.Spec.Json.{
  Encoding, sort_fields, as_dict, freeze_metadata, thaw_metadata, freeze, freeze_items,
  freeze_fields, thaw, thaw_items, thaw_fields,
}
use perpetua_core.Spec.Canonical.{
  GraphSpec, r3_payload, canonical_graph_payload, compute_graph_id, graph_spec, canonical_payload,
  to_dict, fanout_sources, join_count, declared_joins, check_version, create_frozen, create,
  is_supported,
}
use perpetua_core.Lint.Issue.{is_valid}
use perpetua_core.Lint.Report.{lint_graph_spec, lint_header, found_issues, validate_graph_spec}
use perpetua_core.Lint.Report.Sound.{IsSound, lint_graph_spec-IsSound}
use perpetua_core.Describe.{
  Names, describe, compile_validated, stable_callable_ref, describe_nodes, describe_edge,
  describe_join, describe_edges, describe_reducers, validate,
}
use perpetua_core.Describe.Runnable.{IsRunnable, compile_validated-IsRunnable}
use perpetua_core.Lint.Paths.{
  reachable_from, arcs_of, adjacency, opaque_sources, targets, push_new, explore, lint_paths,
}
use perpetua_core.Lint.Paths.Reachable.{Reaches, reachable_from-iff-Reaches}
use perpetua_core.Samples.{World, Fields, diamond, dict, list, int}
use perpetua_core.Spec.Records.{
  distinct, node_spec, node_dict, edge_kind, check_edge, edge_spec, edge_dict, reducer_kind,
  reducer_spec, reducer_dict, join_kind, check_quorum, join_spec, join_dict, check_no_quorum,
  NodeSpec, EdgeSpec, EdgeKind,
}
use perpetua_core.Lint.Elements.{
  is_blank, lint_node, lint_nodes, lint_targets, lint_shape, lint_edges,
}
use perpetua_core.Lint.Regions.{
  claim, claim_all, lint_branch, lint_branches, lint_fanouts, branch_count, lint_joins,
  lint_reducers, lint_version, lint_regions,
}
use perpetua_core.Spec.Reading.{
  item_at, item_or, as_object, as_list, as_text_or_none, check_record_fields, check_records,
  as_texts, as_names, each, read_node, read_edge, read_reducer, read_join, as_int, check_identity,
  from_fields, from_dict,
}
use perpetua_core.Spec.Canonical.Identity.{IsCanonical, create-IsCanonical}
use perpetua_core.Spec.Reading.Verified.{IsVerified, from_dict-IsVerified}
use perpetua_core.Spec.Reading.RoundTrip.{IsNode, IsEdge, from_dict-to_dict}
use perpetua_core.Spec.Canonical.Again.{create-again}

-- All that a description and its lint compute with.
describing : Unit {0}
unfolding sort_fields as_dict freeze_metadata thaw_metadata freeze freeze_items freeze_fields thaw
    thaw_items thaw_fields distinct node_spec node_dict edge_kind check_edge edge_spec edge_dict
    reducer_kind reducer_spec reducer_dict join_kind check_quorum join_spec join_dict r3_payload
    canonical_graph_payload compute_graph_id graph_spec canonical_payload to_dict fanout_sources
    join_count declared_joins check_version create_frozen create is_blank lint_node lint_nodes
    lint_targets lint_shape lint_edges claim claim_all lint_branch lint_branches lint_fanouts
    branch_count lint_joins lint_reducers lint_version lint_regions arcs_of adjacency opaque_sources
    targets push_new explore reachable_from lint_paths lint_header found_issues lint_graph_spec
    validate_graph_spec stable_callable_ref describe_nodes describe_edge describe_join
    describe_edges describe_reducers describe validate compile_validated to_items of_items to_fields
    of_fields iterate value_eq sort_by insert_by sorted insert_sorted lookup assign has_repeats
    compile item_at item_or as_object as_list as_text_or_none check_record_fields check_records
    as_texts as_names each read_node read_edge read_reducer read_join as_int check_identity
    from_fields from_dict check_no_quorum
describing = tt

abbrev some_text : Value → String
some_text (text s) = s
some_text _ = "?"

abbrev one : String → Option ℤ
one s = if s == "1" then some (pos 1) else none

abbrev encoding : Encoding
encoding = record {
  dumps = some_text;
  sha256 = λ s. s;
  show = some_text;
  show-text = λ s. refl;
  parse_int = one;
}

abbrev callables : Names Fields World
callables = record {
  of_node = λ fn. (text "app", text "node");
  of_edge = λ fn. (text "app", text "<lambda>");
  of_join = λ fn. (text "app", text "join");
  of_reducer = λ fn. (text "app", text "reducer");
}

abbrev built : MiniGraph Fields World
built = record {
  nodes = diamond.nodes;
  edges = diamond.edges;
  reducers = diamond.reducers;
  max_steps = diamond.max_steps;
}

compile_validated-built : compile_validated callables encoding built ≡ ok (compile built)
unfolding describing
compile_validated-built = refl

compile_validated-IsRunnable_example : (compile built ≡ compile built) × IsRunnable (compile built)
compile_validated-IsRunnable_example =
    compile_validated-IsRunnable callables encoding built (compile built) compile_validated-built

reachable_from-iff-Reaches_example :
    (contains "c" (reachable_from "a" (("a", "b") ∷ ("b", "c") ∷ ("c", "a") ∷ [])) ≡ true)
    ↔ Reaches (("a", "b") ∷ ("b", "c") ∷ ("c", "a") ∷ []) "a" "c"
reachable_from-iff-Reaches_example =
    reachable_from-iff-Reaches (("a", "b") ∷ ("b", "c") ∷ ("c", "a") ∷ []) "a" "c"

abbrev blank : GraphSpec
blank = record {
  schema_version = "";
  graph_id = "";
  max_steps = pos 0;
  nodes = [];
  edges = [];
  metadata = [];
  reducers = [];
  joins = [];
}

abbrev or_blank : Result GraphSpec → GraphSpec
or_blank (ok spec) = spec
or_blank (err e) = blank

abbrev described : GraphSpec
described = or_blank (describe callables encoding diamond)

described-is_valid : is_valid (lint_graph_spec encoding described) ≡ true
unfolding describing
described-is_valid = refl

lint_graph_spec-IsSound_example : IsSound encoding described
lint_graph_spec-IsSound_example = lint_graph_spec-IsSound encoding described described-is_valid

abbrev node_named : String → NodeSpec
node_named name = record { name = name; implementation_ref = none; metadata = [] }

abbrev edge_named : String → String → EdgeSpec
edge_named source target = record {
  source = source;
  kind = EdgeKind.static;
  target = some target;
  router_ref = none;
  declared_targets = [];
  metadata = [];
}

abbrev chain : List EdgeSpec
chain = edge_named "b" end_node ∷ edge_named "a" "b" ∷ edge_named start_node "a" ∷ []

abbrev notes : Value
notes = dict (to_fields (("z", list (to_items (int (pos 1) ∷ []))) ∷ ("a", text "x") ∷ []))

abbrev created : GraphSpec
created =
    or_blank (create encoding (pos 1) (node_named "b" ∷ node_named "a" ∷ []) chain notes none [] [])

create-created :
    create encoding (pos 1) (node_named "b" ∷ node_named "a" ∷ []) chain notes none [] []
    ≡ ok created
unfolding describing
create-created = refl

create-IsCanonical_example : IsCanonical encoding created
create-IsCanonical_example =
    create-IsCanonical encoding (pos 1) (node_named "b" ∷ node_named "a" ∷ []) chain notes none []
      [] created create-created

abbrev payload : Value
payload = dict (to_fields (to_dict encoding created))

from_dict-payload : from_dict encoding payload ≡ ok created
unfolding describing
from_dict-payload = refl

from_dict-IsVerified_example :
    (d : Dict Value) × (as_object payload ≡ ok d) × IsVerified encoding d created
from_dict-IsVerified_example = from_dict-IsVerified encoding payload created from_dict-payload

abbrev raw_notes : Dict Value
raw_notes = ("z", list (to_items (int (pos 1) ∷ []))) ∷ ("a", text "x") ∷ []

abbrev frozen_notes : Dict Value
frozen_notes = ("a", text "x") ∷ ("z", tuple (to_items (int (pos 1) ∷ []))) ∷ []

freeze_metadata-raw_notes : freeze_metadata raw_notes ≡ ok frozen_notes
unfolding describing
freeze_metadata-raw_notes = refl

nodes_are_made : All IsNode (node_named "b" ∷ node_named "a" ∷ [])
unfolding describing
nodes_are_made =
    (("b", none, dict (to_fields []), refl), (("a", none, dict (to_fields []), refl), tt))

edges_are_made : All IsEdge chain
unfolding describing
edges_are_made = (
  ("b", text "static", some end_node, none, [], dict (to_fields []), refl),
  (
    ("a", text "static", some "b", none, [], dict (to_fields []), refl),
    ((start_node, text "static", some "a", none, [], dict (to_fields []), refl), tt),
  ),
)

is_supported-created : is_supported created.schema_version ≡ true
unfolding describing
is_supported-created = refl

from_dict-to_dict_example : from_dict encoding payload ≡ ok created
from_dict-to_dict_example =
    from_dict-to_dict encoding (pos 1) (node_named "b" ∷ node_named "a" ∷ []) chain notes none [] []
      created nodes_are_made edges_are_made tt tt create-created is_supported-created

create-again_example :
    create encoding created.max_steps created.nodes created.edges
      (thaw_metadata created.metadata)
      (some created.schema_version)
      created.reducers
      created.joins
    ≡ ok created
create-again_example =
    create-again encoding (pos 1) (node_named "b" ∷ node_named "a" ∷ []) chain notes none [] []
      created create-created
