-- ===== src/Spec/Reading/Records.antt =====
-- The four records are read back from what their `to_dict` gives.
use perpetua_core.Prelude.{String, ◌≡◌, refl, Option, none, some, List, [], ◌∷◌, lookup, map}
use perpetua_core.Value.{Value, text, of_items-to_items, iterate}
use perpetua_core.Errors.{ok}
use perpetua_core.Spec.Json.{Encoding}
use perpetua_core.Spec.Records.{
  NodeSpec, EdgeSpec, ReducerSpec, JoinSpec, node_spec, edge_spec, reducer_spec, join_spec,
  node_dict, edge_dict, reducer_dict, join_dict, text_or_null, texts,
}
use perpetua_core.Spec.Records.Again.{
  node_spec-again, edge_spec-again, reducer_spec-again, join_spec-again,
}
use perpetua_core.Spec.Reading.{
  as_text_or_none, as_names, as_texts, item_at, item_or, read_node, read_edge, read_reducer,
  read_join,
}

as_text_or_none-text_or_null : (o : Option String) → as_text_or_none (text_or_null o) ≡ ok o
unfolding as_text_or_none
as_text_or_none-text_or_null none = refl
as_text_or_none-text_or_null (some s) = refl

as_texts-map : (xs : List String) → as_texts (map text xs) ≡ ok xs
unfolding as_texts
as_texts-map [] = refl
as_texts-map (x ∷ xs) = rw (as_texts-map xs) refl

as_names-texts : (xs : List String) → as_names (texts xs) ≡ ok xs
unfolding as_names iterate
as_names-texts xs = rw (of_items-to_items (map text xs)) (as_texts-map xs)

module _ (enc : Encoding) where
  pub read_node-node_dict :
      (name : String) (ref : Option String) (metadata : Value) (n : NodeSpec)
      → node_spec name ref metadata ≡ ok n
      → read_node enc (node_dict n) ≡ ok n
  unfolding read_node node_dict item_at item_or lookup
  read_node-node_dict name ref metadata n h =
      rw (enc.show-text n.name, as_text_or_none-text_or_null n.implementation_ref)
        (node_spec-again name ref metadata n h)

  -- An edge that `EdgeSpec` accepted, of whatever kind and from whatever targets and metadata, is what
  -- `from_dict` makes of its `to_dict`: its targets sorted and without repeats, its metadata frozen.
  pub read_edge-edge_dict :
      (source : String) (kind : Value) (target router : Option String) (declared : List String)
      (metadata : Value) (e : EdgeSpec)
      → edge_spec source kind target router declared metadata ≡ ok e
      → read_edge enc (edge_dict e) ≡ ok e
  unfolding read_edge edge_dict item_at item_or lookup
  read_edge-edge_dict source kind target router declared metadata e h =
      rw
        (
          enc.show-text e.source,
          as_text_or_none-text_or_null e.target,
          as_text_or_none-text_or_null e.router_ref,
          as_names-texts e.declared_targets,
        )
        (edge_spec-again source kind target router declared metadata e h)

  pub read_reducer-reducer_dict :
      (field : String) (kind : Value) (ref : Option String) (r : ReducerSpec)
      → reducer_spec field kind ref ≡ ok r
      → read_reducer enc (reducer_dict r) ≡ ok r
  unfolding read_reducer reducer_dict item_at item_or lookup
  read_reducer-reducer_dict field kind ref r h =
      rw (enc.show-text r.field, as_text_or_none-text_or_null r.ref)
        (reducer_spec-again field kind ref r h)

  pub read_join-join_dict :
      (source : String) (kind count : Value) (ref : Option String) (j : JoinSpec)
      → join_spec source kind count ref ≡ ok j
      → read_join enc (join_dict j) ≡ ok j
  unfolding read_join join_dict item_at item_or lookup
  read_join-join_dict source kind count ref j h =
      rw (enc.show-text j.source, as_text_or_none-text_or_null j.ref)
        (join_spec-again source kind count ref j h)
