-- ===== src/Spec/Canonical.antt =====
-- `GraphSpec`, its canonical payload and identity, and `create`.
pub mod Identity
pub mod Joins
pub mod Again
pub mod Plain
pub mod Parts
use perpetua_core.Prelude.{
  ℕ, suc, String, Bool, true, false, ◌||◌, ◌&&◌, Option, none, some, List, [], ◌∷◌, ◌==◌, not, map,
  if◌then◌else◌, contains, any, keep, eqb, Dict, sort_by, by_key, lex,
}
use Prim.Native.Nat.{Ordering}
use Prim.Native.String.{compare}
use perpetua_core.Value.{Value, int, text, list, dict, ℤ, to_items, to_fields, is_truthy}
use perpetua_core.Errors.{value_error, Result, ok, err, ◌>>=◌}
use perpetua_core.Spec.Json.{Encoding, freeze_metadata, thaw_metadata, as_dict}
use perpetua_core.Spec.Records.{
  NodeSpec, EdgeSpec, ReducerSpec, JoinSpec, EdgeKind, fanout, edge_kind_name, join_kind_name,
  is_default, node_dict, edge_dict, reducer_dict, join_dict,
}

pub record GraphSpec : Type 0 where
  pub schema_version : String
  pub graph_id : String
  pub max_steps : ℤ
  pub nodes : List NodeSpec
  pub edges : List EdgeSpec
  pub metadata : Dict Value
  pub reducers : List ReducerSpec
  pub joins : List JoinSpec

-- `GRAPH_SPEC_SCHEMA_VERSION`
abbrev pub schema_version_1 : String
schema_version_1 = "1"

-- `GRAPH_SPEC_SCHEMA_VERSION_R3`
abbrev pub schema_version_r3 : String
schema_version_r3 = "2"

-- `version in SUPPORTED_GRAPH_SPEC_SCHEMA_VERSIONS`
abbrev pub is_supported : String → Bool
is_supported version = version == schema_version_1 || version == schema_version_r3

-- `s or ""`
abbrev pub or_empty : Option String → String
or_empty none = ""
or_empty (some s) = s

abbrev pub is_fanout : EdgeKind → Bool
is_fanout fanout = true
is_fanout _ = false

-- `_dumps` of a metadata, and the sort keys. A text of an edge's key stands as a list of one text.
module _ (enc : Encoding) where
  -- `_node_sort_key`
  abbrev pub node_sort_key : NodeSpec → List String
  node_sort_key n =
      n.name ∷ or_empty n.implementation_ref ∷ enc.dumps (thaw_metadata n.metadata) ∷ []

  -- `_edge_sort_key`
  abbrev pub edge_sort_key : EdgeSpec → List (List String)
  edge_sort_key e =
      (e.source ∷ [])
      ∷ (edge_kind_name e.kind ∷ [])
      ∷ (or_empty e.target ∷ [])
      ∷ (or_empty e.router_ref ∷ [])
      ∷ e.declared_targets
      ∷ (enc.dumps (thaw_metadata e.metadata) ∷ [])
      ∷ []

  abbrev pub node_order : NodeSpec → NodeSpec → Ordering
  node_order = by_key (lex compare) node_sort_key

  abbrev pub edge_order : EdgeSpec → EdgeSpec → Ordering
  edge_order = by_key (lex (lex compare)) edge_sort_key

abbrev pub reducer_order : ReducerSpec → ReducerSpec → Ordering
reducer_order = by_key compare (λ r. r.field)

abbrev pub source_order : JoinSpec → JoinSpec → Ordering
source_order = by_key compare (λ j. j.source)

-- `key=lambda j: (j.source, j.kind)`
abbrev pub join_order : JoinSpec → JoinSpec → Ordering
join_order = by_key (lex compare) (λ j. j.source ∷ join_kind_name j.kind ∷ [])

abbrev pub dicts : {A : Type 0} → (A → Dict Value) → List A → Value
dicts to_dict xs = list (to_items (map (λ x. dict (to_fields (to_dict x))) xs))

module _ (enc : Encoding) where
  -- What the schema "2" adds to the payload.
  unfoldable pub r3_payload : String → List ReducerSpec → List JoinSpec → Dict Value
  r3_payload version reducers joins =
      if version == schema_version_1
      then []
      else ("reducers", dicts reducer_dict (sort_by reducer_order reducers))
        ∷ ("joins", dicts join_dict (sort_by source_order joins))
        ∷ []

  -- `canonical_graph_payload`
  unfoldable pub canonical_graph_payload :
      String
      → ℤ
      → List NodeSpec
      → List EdgeSpec
      → Dict Value
      → List ReducerSpec
      → List JoinSpec
      → Dict Value
  canonical_graph_payload version max_steps nodes edges metadata reducers joins =
      ("schema_version", text version)
      ∷ ("max_steps", int max_steps)
      ∷ ("nodes", dicts node_dict (sort_by (node_order enc) nodes))
      ∷ ("edges", dicts edge_dict (sort_by (edge_order enc) edges))
      ∷ ("metadata", thaw_metadata metadata)
      ∷ r3_payload version reducers joins

  -- `compute_graph_id`, with `_canonical_json`
  unfoldable pub compute_graph_id : Dict Value → String
  compute_graph_id payload = enc.sha256 (enc.dumps (dict (to_fields payload)))

  -- `GraphSpec(...)` with its `__post_init__`
  unfoldable pub graph_spec :
      String
      → String
      → ℤ
      → List NodeSpec
      → List EdgeSpec
      → Dict Value
      → List ReducerSpec
      → List JoinSpec
      → Result GraphSpec
  graph_spec version graph_id max_steps nodes edges metadata reducers joins = do
    frozen ← freeze_metadata metadata
    ok (record {
      schema_version = version;
      graph_id = graph_id;
      max_steps = max_steps;
      nodes = sort_by (node_order enc) nodes;
      edges = sort_by (edge_order enc) edges;
      metadata = frozen;
      reducers = sort_by reducer_order reducers;
      joins = sort_by source_order joins;
    })

  -- `canonical_payload`
  unfoldable pub canonical_payload : GraphSpec → Dict Value
  canonical_payload s =
      canonical_graph_payload s.schema_version s.max_steps s.nodes s.edges s.metadata s.reducers
        s.joins

  -- `to_dict`
  unfoldable pub to_dict : GraphSpec → Dict Value
  to_dict s = ("graph_id", text s.graph_id) ∷ canonical_payload s

-- `e.source for e in edges if e.kind == "fanout"`
unfoldable pub fanout_sources : List EdgeSpec → List String
fanout_sources edges = map (λ e. e.source) (keep (λ e. is_fanout e.kind) edges)

-- `join_counts[source]`
unfoldable pub join_count : String → List JoinSpec → ℕ
join_count source [] = 0
join_count source (j ∷ js) =
    let rest = join_count source js in if j.source == source then suc rest else rest

-- A join that says only what is implied: the sole one, `all`, of a fan-out source.
abbrev pub is_implied : List String → List JoinSpec → JoinSpec → Bool
is_implied sources joins j =
    is_default j && contains j.source sources && eqb (join_count j.source joins) 1

unfoldable pub declared_joins : List String → List JoinSpec → List JoinSpec
declared_joins sources joins = keep (λ j. not (is_implied sources joins j)) joins

abbrev pub is_nonempty : {A : Type 0} → List A → Bool
is_nonempty [] = false
is_nonempty (x ∷ xs) = true

-- `uses_r3`
abbrev pub uses_r3 : List EdgeSpec → List ReducerSpec → List JoinSpec → Bool
uses_r3 edges reducers joins =
    is_nonempty reducers || is_nonempty joins || any (λ e. is_fanout e.kind) edges

-- The schema version that the features ask for, or the given one if it fits them.
unfoldable pub check_version : Option String → Bool → Result String
check_version none r3 = ok (if r3 then schema_version_r3 else schema_version_1)
check_version (some version) r3 =
    if version == schema_version_1 && r3
    then err value_error
    else if version == schema_version_r3 && not r3
    then err value_error
    else ok version

-- `metadata or {}`
abbrev pub given_metadata : Value → Value
given_metadata v = if is_truthy v then v else dict (to_fields [])

module _ (enc : Encoding) where
  -- `GraphSpec.create` after its metadata is frozen.
  unfoldable pub create_frozen :
      ℤ
      → List NodeSpec
      → List EdgeSpec
      → Dict Value
      → Option String
      → List ReducerSpec
      → List JoinSpec
      → Result GraphSpec
  create_frozen max_steps nodes edges metadata version reducers joins = do
    let nodes' = sort_by (node_order enc) nodes
    let edges' = sort_by (edge_order enc) edges
    let reducers' = sort_by reducer_order reducers
    let joins' = sort_by join_order (declared_joins (fanout_sources edges') joins)
    version' ← check_version version (uses_r3 edges' reducers' joins')
    graph_spec enc version'
        (compute_graph_id enc
          (canonical_graph_payload enc version' max_steps nodes' edges' metadata reducers' joins'))
        max_steps nodes' edges' metadata reducers' joins'

  -- `GraphSpec.create`
  unfoldable pub create :
      ℤ
      → List NodeSpec
      → List EdgeSpec
      → Value
      → Option String
      → List ReducerSpec
      → List JoinSpec
      → Result GraphSpec
  create max_steps nodes edges metadata version reducers joins = do
    d ← as_dict (given_metadata metadata)
    frozen ← freeze_metadata d
    create_frozen max_steps nodes edges frozen version reducers joins
