-- ===== src/Spec/Reading.antt =====
-- `GraphSpec.from_dict`: a description read back, with known fields alone and a verified identity.
pub mod Verified
pub mod Records
pub mod RoundTrip
use perpetua_core.Prelude.{
  String, Bool, true, false, ◌&&◌, Option, none, some, List, [], ◌∷◌, ◌==◌, contains, Dict, lookup,
  keys,
}
use perpetua_core.Value.{
  Value, null, boolean, int, text, list, tuple, dict, ℤ, pos, nil, end, of_items, of_fields,
  iterate, to_fields,
}
use perpetua_core.Errors.{key_error, type_error, value_error, Result, ok, err, guard, ◌>>=◌, ◌>>◌}
use perpetua_core.Spec.Json.{Encoding}
use perpetua_core.Spec.Records.{
  NodeSpec, EdgeSpec, ReducerSpec, JoinSpec, node_spec, edge_spec, reducer_spec, join_spec,
}
use perpetua_core.Spec.Canonical.{GraphSpec, is_supported, create, canonical_payload, to_dict}

-- `payload[key]`
unfoldable pub item_at : String → Dict Value → Result Value
item_at key d = elim (lookup key d) [ none ↦ err key_error | some v ↦ ok v ]

-- `payload.get(key, default)`
unfoldable pub item_or : String → Value → Dict Value → Value
item_or key default d = elim (lookup key d) [ none ↦ default | some v ↦ v ]

-- An object, as its fields.
unfoldable pub as_object : Value → Result (Dict Value)
as_object (dict d) = ok (of_fields d)
as_object _ = err type_error

-- A JSON list, as its items.
unfoldable pub as_list : Value → Result (List Value)
as_list (list xs) = ok (of_items xs)
as_list _ = err type_error

-- A reference or a target. A value that is no text is kept by the code, against the annotation of the
-- field; here it is refused.
unfoldable pub as_text_or_none : Value → Result (Option String)
as_text_or_none null = ok none
as_text_or_none (text s) = ok (some s)
as_text_or_none _ = err type_error

abbrev pub all_in : List String → List String → Bool
all_in allowed [] = true
all_in allowed (k ∷ ks) = contains k allowed && all_in allowed ks

-- `_check_record_fields`: an object whose fields are all known.
unfoldable pub check_record_fields : List String → Value → Result (Dict Value)
check_record_fields allowed v = do
  d ← as_object v
  guard (all_in allowed (keys d)) value_error
  ok d

unfoldable pub check_records : List String → List Value → Result (List (Dict Value))
check_records allowed [] = ok []
check_records allowed (v ∷ vs) = do
  d ← check_record_fields allowed v
  ds ← check_records allowed vs
  ok (d ∷ ds)

abbrev pub graph_fields : List String
graph_fields =
    "schema_version" ∷ "graph_id" ∷ "max_steps" ∷ "nodes" ∷ "edges" ∷ "metadata" ∷ "reducers"
    ∷ "joins" ∷ []

abbrev pub node_fields : List String
node_fields = "name" ∷ "implementation_ref" ∷ "metadata" ∷ []

abbrev pub edge_fields : List String
edge_fields = "source" ∷ "kind" ∷ "target" ∷ "router_ref" ∷ "declared_targets" ∷ "metadata" ∷ []

abbrev pub reducer_fields : List String
reducer_fields = "field" ∷ "kind" ∷ "ref" ∷ []

abbrev pub join_fields : List String
join_fields = "source" ∷ "kind" ∷ "quorum" ∷ "ref" ∷ []

-- The branches of an edge; as for a reference, one that is no text is refused.
unfoldable pub as_texts : List Value → Result (List String)
as_texts [] = ok []
as_texts (text s ∷ vs) = do ss ← as_texts vs; ok (s ∷ ss)
as_texts (v ∷ vs) = err type_error

-- `tuple(v)`
unfoldable pub as_names : Value → Result (List String)
as_names v = elim (iterate v) [ none ↦ err type_error | some items ↦ as_texts items ]

unfoldable pub each : {A : Type 0} → (Dict Value → Result A) → List (Dict Value) → Result (List A)
each read [] = ok []
each read (d ∷ ds) = do x ← read d; xs ← each read ds; ok (x ∷ xs)

module _ (enc : Encoding) where
  unfoldable pub read_node : Dict Value → Result NodeSpec
  read_node d = do
    name ← item_at "name" d
    ref ← as_text_or_none (item_or "implementation_ref" null d)
    node_spec (enc.show name) ref (item_or "metadata" (dict end) d)

  unfoldable pub read_edge : Dict Value → Result EdgeSpec
  read_edge d = do
    source ← item_at "source" d
    kind ← item_at "kind" d
    target ← as_text_or_none (item_or "target" null d)
    router_ref ← as_text_or_none (item_or "router_ref" null d)
    declared ← as_names (item_or "declared_targets" (tuple nil) d)
    edge_spec (enc.show source) kind target router_ref declared (item_or "metadata" (dict end) d)

  unfoldable pub read_reducer : Dict Value → Result ReducerSpec
  read_reducer d = do
    field ← item_at "field" d
    kind ← item_at "kind" d
    ref ← as_text_or_none (item_or "ref" null d)
    reducer_spec (enc.show field) kind ref

  unfoldable pub read_join : Dict Value → Result JoinSpec
  read_join d = do
    source ← item_at "source" d
    kind ← item_at "kind" d
    ref ← as_text_or_none (item_or "ref" null d)
    join_spec (enc.show source) kind (item_or "quorum" null d) ref

  -- `int(v)`
  unfoldable pub as_int : Value → Result ℤ
  as_int (boolean true) = ok (pos 1)
  as_int (boolean false) = ok (pos 0)
  as_int (int n) = ok n
  as_int (text s) = elim (enc.parse_int s) [ none ↦ err value_error | some n ↦ ok n ]
  as_int _ = err type_error

  -- The last check: the identity that the payload gives is that of its content.
  unfoldable pub check_identity : Option Value → GraphSpec → Result GraphSpec
  check_identity (some (text supplied)) spec = do
    guard (supplied == spec.graph_id) value_error
    ok spec
  check_identity _ spec = err value_error

  -- `from_dict`, of a payload whose fields are known
  unfoldable pub from_fields : Dict Value → Result GraphSpec
  from_fields d = do
    let version = enc.show (item_or "schema_version" (text "") d)
    guard (is_supported version) value_error
    raw_nodes ← as_list (item_or "nodes" (list nil) d)
    raw_edges ← as_list (item_or "edges" (list nil) d)
    node_dicts ← check_records node_fields raw_nodes
    edge_dicts ← check_records edge_fields raw_edges
    nodes ← each read_node node_dicts
    edges ← each read_edge edge_dicts
    raw_reducers ← as_list (item_or "reducers" (list nil) d)
    raw_joins ← as_list (item_or "joins" (list nil) d)
    reducer_dicts ← check_records reducer_fields raw_reducers
    join_dicts ← check_records join_fields raw_joins
    reducers ← each read_reducer reducer_dicts
    joins ← each read_join join_dicts
    raw_steps ← item_at "max_steps" d
    max_steps ← as_int raw_steps
    spec ←
        create enc max_steps nodes edges (item_or "metadata" (dict end) d) (some version) reducers
          joins
    check_identity (lookup "graph_id" d) spec

  -- `GraphSpec.from_dict`
  unfoldable pub from_dict : Value → Result GraphSpec
  from_dict payload = do d ← check_record_fields graph_fields payload; from_fields d

  -- `canonical_json` and `to_json`
  unfoldable pub canonical_json : GraphSpec → String
  canonical_json s = enc.dumps (dict (to_fields (canonical_payload enc s)))

  unfoldable pub to_json : GraphSpec → String
  to_json s = enc.dumps (dict (to_fields (to_dict enc s)))

  abbrev pub from_object : Value → Result GraphSpec
  from_object (dict d) = from_dict (dict d)
  from_object _ = err type_error

  -- `GraphSpec.from_json`, by `json.loads`
  unfoldable pub from_json : (String → Result Value) → String → Result GraphSpec
  from_json loads raw = do payload ← loads raw; from_object payload
