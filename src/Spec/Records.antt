-- ===== src/Spec/Records.antt =====
-- `NodeSpec`, `EdgeSpec`, `ReducerSpec` and `JoinSpec`: what their `__post_init__` accepts, and `to_dict`.
-- A reference and a target are a text or None, as the fields are annotated.
pub mod Declared
pub mod Again
use perpetua_core.Prelude.{
  ℕ, suc, String, Bool, true, false, ◌||◌, Option, none, some, List, [], ◌∷◌, ◌==◌, not, map,
  if◌then◌else◌, contains, leb, length, Dict, sorted,
}
use perpetua_core.Value.{Value, null, int, text, list, pos, to_items, value_eq}
use perpetua_core.Errors.{value_error, Result, ok, err, guard, ◌>>=◌, ◌>>◌}
use perpetua_core.Graph.{has_repeats}
use perpetua_core.Spec.Json.{freeze_metadata, thaw_metadata, as_dict}

abbrev pub text_or_null : Option String → Value
text_or_null none = null
text_or_null (some s) = text s

abbrev pub is_given : {A : Type 0} → Option A → Bool
is_given none = false
is_given (some a) = true

abbrev pub texts : List String → Value
texts xs = list (to_items (map text xs))

-- `sorted(set(xs))`
unfoldable pub distinct : List String → List String
distinct [] = []
distinct (x ∷ xs) = let rest = distinct xs in if contains x xs then rest else x ∷ rest

pub record NodeSpec : Type 0 where
  pub name : String
  pub implementation_ref : Option String
  pub metadata : Dict Value

-- `NodeSpec(...)`
unfoldable pub node_spec : String → Option String → Value → Result NodeSpec
node_spec name implementation_ref metadata = do
  d ← as_dict metadata
  frozen ← freeze_metadata d
  ok (record { name = name; implementation_ref = implementation_ref; metadata = frozen })

-- `NodeSpec.to_dict`
unfoldable pub node_dict : NodeSpec → Dict Value
node_dict n =
    ("name", text n.name)
    ∷ ("implementation_ref", text_or_null n.implementation_ref)
    ∷ ("metadata", thaw_metadata n.metadata)
    ∷ []

pub data EdgeKind : Type 0 where
  static conditional fanout : EdgeKind

abbrev pub edge_kind_name : EdgeKind → String
edge_kind_name static = "static"
edge_kind_name conditional = "conditional"
edge_kind_name fanout = "fanout"

unfoldable pub edge_kind : Value → Result EdgeKind
edge_kind v =
    if value_eq v (text "static")
    then ok static
    else if value_eq v (text "conditional")
    then ok conditional
    else if value_eq v (text "fanout")
    then ok fanout
    else err value_error

pub record EdgeSpec : Type 0 where
  pub source : String
  pub kind : EdgeKind
  pub target : Option String
  pub router_ref : Option String
  pub declared_targets : List String
  pub metadata : Dict Value

abbrev pub is_nil : List String → Bool
is_nil [] = true
is_nil (x ∷ xs) = false

-- The checks of `EdgeSpec.__post_init__` on the fields of each kind.
unfoldable pub check_edge :
    EdgeKind → Option String → Option String → List String → Result (Unit {0})
check_edge static target router_ref declared = do
  guard (is_given target) value_error
  guard (not (is_given router_ref || not (is_nil declared))) value_error
check_edge conditional target router_ref declared = guard (not (is_given target)) value_error
check_edge fanout target router_ref declared = do
  guard (is_given target) value_error
  guard (not (is_given router_ref)) value_error
  guard (not (has_repeats declared)) value_error
  guard (leb 2 (length declared)) value_error

-- `EdgeSpec(...)`
unfoldable pub edge_spec :
    String → Value → Option String → Option String → List String → Value → Result EdgeSpec
edge_spec source kind target router_ref declared metadata = do
  k ← edge_kind kind
  check_edge k target router_ref declared
  d ← as_dict metadata
  frozen ← freeze_metadata d
  ok (record {
    source = source;
    kind = k;
    target = target;
    router_ref = router_ref;
    declared_targets = sorted (distinct declared);
    metadata = frozen;
  })

-- `EdgeSpec.to_dict`
unfoldable pub edge_dict : EdgeSpec → Dict Value
edge_dict e =
    ("source", text e.source)
    ∷ ("kind", text (edge_kind_name e.kind))
    ∷ ("target", text_or_null e.target)
    ∷ ("router_ref", text_or_null e.router_ref)
    ∷ ("declared_targets", texts e.declared_targets)
    ∷ ("metadata", thaw_metadata e.metadata)
    ∷ []

-- `REDUCER_KINDS`
pub data ReducerKind : Type 0 where
  reject_conflict first last concat union custom : ReducerKind

abbrev pub reducer_kind_name : ReducerKind → String
reducer_kind_name reject_conflict = "reject_conflict"
reducer_kind_name ReducerKind.first = "first"
reducer_kind_name last = "last"
reducer_kind_name concat = "concat"
reducer_kind_name union = "union"
reducer_kind_name ReducerKind.custom = "custom"

unfoldable pub reducer_kind : Value → Result ReducerKind
reducer_kind v =
    if value_eq v (text "reject_conflict")
    then ok reject_conflict
    else if value_eq v (text "first")
    then ok ReducerKind.first
    else if value_eq v (text "last")
    then ok last
    else if value_eq v (text "concat")
    then ok concat
    else if value_eq v (text "union")
    then ok union
    else if value_eq v (text "custom")
    then ok ReducerKind.custom
    else err value_error

abbrev pub is_custom_reducer : ReducerKind → Bool
is_custom_reducer ReducerKind.custom = true
is_custom_reducer _ = false

pub record ReducerSpec : Type 0 where
  pub field : String
  pub kind : ReducerKind
  pub ref : Option String

-- `ReducerSpec(...)`
unfoldable pub reducer_spec : String → Value → Option String → Result ReducerSpec
reducer_spec field kind ref = do
  guard (not (field == "")) value_error
  k ← reducer_kind kind
  guard (is_custom_reducer k || not (is_given ref)) value_error
  ok (record { field = field; kind = k; ref = ref })

-- `ReducerSpec.to_dict`
unfoldable pub reducer_dict : ReducerSpec → Dict Value
reducer_dict r =
    ("field", text r.field)
    ∷ ("kind", text (reducer_kind_name r.kind))
    ∷ ("ref", text_or_null r.ref)
    ∷ []

-- `JOIN_KINDS`
pub data JoinKind : Type 0 where
  all any_ok first_success quorum custom : JoinKind

abbrev pub join_kind_name : JoinKind → String
join_kind_name all = "all"
join_kind_name any_ok = "any"
join_kind_name first_success = "first_success"
join_kind_name quorum = "quorum"
join_kind_name JoinKind.custom = "custom"

unfoldable pub join_kind : Value → Result JoinKind
join_kind v =
    if value_eq v (text "all")
    then ok all
    else if value_eq v (text "any")
    then ok any_ok
    else if value_eq v (text "first_success")
    then ok first_success
    else if value_eq v (text "quorum")
    then ok quorum
    else if value_eq v (text "custom")
    then ok JoinKind.custom
    else err value_error

-- A quorum that passed the checks is a positive integer.
pub record JoinSpec : Type 0 where
  pub source : String
  pub kind : JoinKind
  pub quorum : Option ℕ
  pub ref : Option String

-- Only a quorum join may set quorum.
unfoldable pub check_no_quorum : Value → Result (Option ℕ)
check_no_quorum null = ok none
check_no_quorum _ = err value_error

-- The check on the quorum, by kind.
unfoldable pub check_quorum : JoinKind → Value → Result (Option ℕ)
check_quorum JoinKind.quorum (int (pos (suc q))) = ok (some (suc q))
check_quorum JoinKind.quorum _ = err value_error
check_quorum _ v = check_no_quorum v

abbrev pub is_custom_kind : JoinKind → Bool
is_custom_kind JoinKind.custom = true
is_custom_kind _ = false

-- `JoinSpec(...)`
unfoldable pub join_spec : String → Value → Value → Option String → Result JoinSpec
join_spec source kind count ref = do
  k ← join_kind kind
  q ← check_quorum k count
  guard (is_custom_kind k || not (is_given ref)) value_error
  ok (record { source = source; kind = k; quorum = q; ref = ref })

abbrev pub is_all : JoinKind → Bool
is_all all = true
is_all _ = false

-- `is_default`
abbrev pub is_default : JoinSpec → Bool
is_default j = is_all j.kind

abbrev pub quorum_or_null : Option ℕ → Value
quorum_or_null none = null
quorum_or_null (some q) = int (pos q)

-- `JoinSpec.to_dict`
unfoldable pub join_dict : JoinSpec → Dict Value
join_dict j =
    ("source", text j.source)
    ∷ ("kind", text (join_kind_name j.kind))
    ∷ ("quorum", quorum_or_null j.quorum)
    ∷ ("ref", text_or_null j.ref)
    ∷ []
