-- ===== src/Spec/Records/Again.antt =====
-- A record is made again from its own fields.
use perpetua_core.Prelude.{
  String, ◌≡◌, refl, sym, subst, true, false, ◌||◌, not, ◌==◌, ℕ, zero, suc, Option, none, List, [],
  ◌∷◌, sorted, arith,
}
use perpetua_core.Value.{
  boolean, tuple, atom, Value, null, int, pos, text, list, dict, value_eq, negsuc,
}
use perpetua_core.Errors.{ok, value_error, guard, guard-ok, >>=-ok, ok-injective}
use perpetua_core.Graph.{has_repeats}
use perpetua_core.Spec.Json.{freeze_metadata, as_dict, thaw_metadata}
use perpetua_core.Spec.Json.RoundTrip.{thaw_metadata-freeze_metadata}
use perpetua_core.Spec.Records.{
  NodeSpec, EdgeSpec, ReducerSpec, JoinSpec, node_spec, edge_spec, reducer_spec, join_spec,
  ReducerKind, reducer_kind, reducer_kind_name, is_custom_reducer, JoinKind, join_kind,
  join_kind_name, is_custom_kind, check_quorum, quorum_or_null, EdgeKind, static, conditional,
  fanout, edge_kind, edge_kind_name, check_edge, distinct, is_given, check_no_quorum,
}
use perpetua_core.Spec.Records.Declared.{has_repeats-declared, declared-declared, length-declared}

-- A record whose metadata was frozen is made again from what it was thawed to.
pub node_spec-again :
    (name : String) (ref : Option String) (metadata : Value) (n : NodeSpec)
    → node_spec name ref metadata ≡ ok n
    → node_spec n.name n.implementation_ref (thaw_metadata n.metadata) ≡ ok n
unfolding node_spec
node_spec-again name ref metadata n h =
    let (d, one, f) = >>=-ok (as_dict metadata) h in
    let (frozen, made, g) = >>=-ok (freeze_metadata d) one in
    let (again, two, e) =
      >>=-ok (as_dict (thaw_metadata frozen)) (thaw_metadata-freeze_metadata d frozen g) in
    let same = ok-injective made in
    subst (λ n. node_spec n.name n.implementation_ref (thaw_metadata n.metadata) ≡ ok n) same
      (rw (e, two) refl)

no_repeats : (xs : List String) → not (has_repeats xs) ≡ true → has_repeats xs ≡ false
no_repeats xs h = ground arith

-- An edge's targets are checked again in the form that is stored.
check_edge-again :
    (k : EdgeKind) (target router : Option String) (declared : List String) (u : Unit {0})
    → check_edge k target router declared ≡ ok u
    → check_edge k target router (sorted (distinct declared)) ≡ ok u
unfolding check_edge sorted distinct
check_edge-again static target router [] u h = h
check_edge-again static target router (x ∷ xs) u h =
    let (v, rest, g) = >>=-ok (guard (is_given target) value_error) h in
    let plain = guard-ok (not (is_given router || true)) value_error u rest in ground (arith, plain)
check_edge-again conditional target router declared u h = h
check_edge-again fanout target router declared u h =
    let (a, one, given) = >>=-ok (guard (is_given target) value_error) h in
    let (b, two, plain) = >>=-ok (guard (not (is_given router)) value_error) one in
    let (c, three, unique) = >>=-ok (guard (not (has_repeats declared)) value_error) two in
    let distinct_names =
      no_repeats declared (guard-ok (not (has_repeats declared)) value_error c unique) in
    rw (given, plain, has_repeats-declared declared, length-declared declared distinct_names) three

edge_kind-edge_kind_name : (k : EdgeKind) → edge_kind (text (edge_kind_name k)) ≡ ok k
unfolding edge_kind value_eq
edge_kind-edge_kind_name static = refl
edge_kind-edge_kind_name conditional = refl
edge_kind-edge_kind_name fanout = refl

pub edge_spec-again :
    (source : String) (kind : Value) (target router : Option String) (declared : List String)
    (metadata : Value) (e : EdgeSpec)
    → edge_spec source kind target router declared metadata ≡ ok e
    → edge_spec e.source
        (text (edge_kind_name e.kind))
        e.target
        e.router_ref
        e.declared_targets
        (thaw_metadata e.metadata)
      ≡ ok e
unfolding edge_spec
edge_spec-again source kind target router declared metadata e h =
    let (k, one, named) = >>=-ok (edge_kind kind) h in
    let (u, two, checked) = >>=-ok (check_edge k target router declared) one in
    let (d, three, f) = >>=-ok (as_dict metadata) two in
    let (frozen, made, g) = >>=-ok (freeze_metadata d) three in
    let (again, four, read) =
      >>=-ok (as_dict (thaw_metadata frozen)) (thaw_metadata-freeze_metadata d frozen g) in
    subst
      (λ e.
        edge_spec e.source (text (edge_kind_name e.kind)) e.target e.router_ref e.declared_targets
          (thaw_metadata e.metadata)
        ≡ ok e)
      (ok-injective made)
      (rw
        (
          edge_kind-edge_kind_name k,
          check_edge-again k target router declared u checked,
          read,
          four,
          declared-declared declared,
        )
        refl)

reducer_kind-reducer_kind_name :
    (k : ReducerKind) → reducer_kind (text (reducer_kind_name k)) ≡ ok k
unfolding reducer_kind value_eq
reducer_kind-reducer_kind_name ReducerKind.reject_conflict = refl
reducer_kind-reducer_kind_name ReducerKind.first = refl
reducer_kind-reducer_kind_name ReducerKind.last = refl
reducer_kind-reducer_kind_name ReducerKind.concat = refl
reducer_kind-reducer_kind_name ReducerKind.union = refl
reducer_kind-reducer_kind_name ReducerKind.custom = refl

pub reducer_spec-again :
    (field : String) (kind : Value) (ref : Option String) (r : ReducerSpec)
    → reducer_spec field kind ref ≡ ok r
    → reducer_spec r.field (text (reducer_kind_name r.kind)) r.ref ≡ ok r
unfolding reducer_spec
reducer_spec-again field kind ref r h =
    let (u, one, named) = >>=-ok (guard (not (field == "")) value_error) h in
    let (k, two, known) = >>=-ok (reducer_kind kind) one in
    let (v, made, given) =
      >>=-ok (guard (is_custom_reducer k || not (is_given ref)) value_error) two in
    subst (λ r. reducer_spec r.field (text (reducer_kind_name r.kind)) r.ref ≡ ok r)
      (ok-injective made) (rw (named, reducer_kind-reducer_kind_name k, given) refl)

join_kind-join_kind_name : (k : JoinKind) → join_kind (text (join_kind_name k)) ≡ ok k
unfolding join_kind value_eq
join_kind-join_kind_name JoinKind.all = refl
join_kind-join_kind_name JoinKind.any_ok = refl
join_kind-join_kind_name JoinKind.first_success = refl
join_kind-join_kind_name JoinKind.quorum = refl
join_kind-join_kind_name JoinKind.custom = refl

check_no_quorum-none : (v : Value) (q : Option ℕ) → check_no_quorum v ≡ ok q → none ≡ q
unfolding check_no_quorum
check_no_quorum-none null q h = ok-injective h
check_no_quorum-none (boolean b) q h = cc
check_no_quorum-none (list xs) q h = cc
check_no_quorum-none (tuple xs) q h = cc
check_no_quorum-none (dict d) q h = cc
check_no_quorum-none (atom t i) q h = cc
check_no_quorum-none (text s) q h = cc
check_no_quorum-none (int n) q h = cc

check_quorum-some :
    (v : Value) (q : Option ℕ)
    → check_quorum JoinKind.quorum v ≡ ok q
    → check_quorum JoinKind.quorum (quorum_or_null q) ≡ ok q
unfolding check_quorum
check_quorum-some null q h = cc
check_quorum-some (int (pos (suc n))) q h = rw (sym (ok-injective h)) refl
check_quorum-some (boolean b) q h = cc
check_quorum-some (list xs) q h = cc
check_quorum-some (tuple xs) q h = cc
check_quorum-some (dict d) q h = cc
check_quorum-some (atom t i) q h = cc
check_quorum-some (text s) q h = cc
check_quorum-some (int (pos zero)) q h = cc
check_quorum-some (int (negsuc n)) q h = cc

check_quorum-again :
    (k : JoinKind) (v : Value) (q : Option ℕ)
    → check_quorum k v ≡ ok q
    → check_quorum k (quorum_or_null q) ≡ ok q
unfolding check_quorum check_no_quorum
check_quorum-again JoinKind.quorum v q h = check_quorum-some v q h
check_quorum-again JoinKind.all v q h = rw (sym (check_no_quorum-none v q h)) refl
check_quorum-again JoinKind.any_ok v q h = rw (sym (check_no_quorum-none v q h)) refl
check_quorum-again JoinKind.first_success v q h = rw (sym (check_no_quorum-none v q h)) refl
check_quorum-again JoinKind.custom v q h = rw (sym (check_no_quorum-none v q h)) refl

pub join_spec-again :
    (source : String) (kind count : Value) (ref : Option String) (j : JoinSpec)
    → join_spec source kind count ref ≡ ok j
    → join_spec j.source (text (join_kind_name j.kind)) (quorum_or_null j.quorum) j.ref ≡ ok j
unfolding join_spec
join_spec-again source kind count ref j h =
    let (k, one, known) = >>=-ok (join_kind kind) h in
    let (q, two, counted) = >>=-ok (check_quorum k count) one in
    let (v, made, given) =
      >>=-ok (guard (is_custom_kind k || not (is_given ref)) value_error) two in
    subst
      (λ j.
        join_spec j.source (text (join_kind_name j.kind)) (quorum_or_null j.quorum) j.ref ≡ ok j)
      (ok-injective made)
      (rw (join_kind-join_kind_name k, check_quorum-again k count q counted, given) refl)
