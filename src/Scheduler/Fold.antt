-- ===== src/Scheduler/Fold.antt =====
-- `_fold` of graph/engine.py: admitted deltas into one delta with its provenance.
pub mod Provenance
pub mod Values
use perpetua_core.Prelude.{
  String, Bool, true, false, ◌&&◌, Option, none, some, List, [], ◌∷◌, ◌++◌, keys, Dict, lookup,
  assign, sorted,
}
use perpetua_core.Value.{Value, null}
use perpetua_core.Errors.{key_error, Result, ok, err}
use perpetua_core.Exec.{Exec, pure, lift, ◌>>=◌, ◌>>◌}
use perpetua_core.Gate.{GateDecision, DispatchBoundary, DispatchRequest}
use perpetua_core.Reducers.{Reducer, custom, default_reducer, Contribution, names, reduce_field}
use perpetua_core.Graph.{NodeDelta}
use perpetua_core.Scheduler.{Invocation}
use perpetua_core.Scheduler.Boundary.{dispatch, before_start}
use perpetua_core.Scheduler.Settle.{marks_start}
use perpetua_core.Scheduler.Admit.{Admitted}

-- `contributions.setdefault(key, []).append((name, value))`
unfoldable pub contribute :
    String → String → Value → Dict (List Contribution) → Dict (List Contribution)
contribute key name value cs = elim (lookup key cs) [
  | none ↦ assign key ((name, value) ∷ []) cs
  | some earlier ↦ assign key (earlier ++ (name, value) ∷ []) cs
]

unfoldable pub contribute_all :
    String → NodeDelta → Dict (List Contribution) → Dict (List Contribution)
contribute_all name [] cs = cs
contribute_all name ((key, value) ∷ delta) cs =
    contribute_all name delta (contribute key name value cs)

unfoldable pub gather : List Admitted → Dict (List Contribution) → Dict (List Contribution)
gather [] cs = cs
gather ((name, delta) ∷ admitted) cs = gather admitted (contribute_all name delta cs)

-- The first loop of `_fold`
unfoldable pub contributions : List Admitted → Dict (List Contribution)
contributions admitted = gather admitted []

-- `merged` and `provenance`
pub record Folded : Type 0 where
  pub merged : NodeDelta
  pub provenance : Dict (List String)

-- A fold that went through, or a stop of the gate before a custom reducer: `_BoundaryStopped`.
pub data FoldResult : Type 0 where
  folded : Folded → FoldResult
  boundary_stopped : GateDecision → FoldResult

abbrev pub declares_custom : {W : Type 0} → Option (Reducer W) → Bool
declares_custom (some (custom fn)) = true
declares_custom _ = false

abbrev pub or_null : Option Value → Value
or_null none = null
or_null (some v) = v

abbrev pub declared_or_default : {W : Type 0} → Option (Reducer W) → Reducer W
declared_or_default none = default_reducer
declared_or_default (some r) = r

module _ {S W : Type 0} (run : Invocation S W) (snapshot : S) where
  -- The gate before a custom reducer, if it marks starts: `(*request.nodes, key)` is about to run.
  unfoldable pub guard_reducer :
      String → Option (Reducer W) → Option DispatchRequest → Exec W (Option GateDecision)
  guard_reducer key declared none = pure none
  guard_reducer key declared (some request) =
      elim (declares_custom declared && marks_start run.gate) [
        | false ↦ pure none
        | true ↦ do
          asked ← dispatch {S = S} run.gate none (record request {
            boundary = DispatchBoundary.reducer;
            nodes = request.nodes ++ key ∷ [];
          })
          elim asked.0 [
            | some decision ↦ pure (some decision)
            | none ↦ do before_start run.gate asked.1; pure none
          ]
      ]

  -- `reduce_field` for one key, from the snapshot's value.
  unfoldable pub fold_field : String → List Contribution → Exec W Value
  fold_field key cs =
      reduce_field key (declared_or_default (lookup key run.graph.reducers))
        (or_null (run.model.get_attr snapshot key)) cs

  unfoldable pub contributions_of : String → Dict (List Contribution) → Result (List Contribution)
  contributions_of key cs = elim (lookup key cs) [ none ↦ err key_error | some c ↦ ok c ]

  -- The second loop of `_fold`, over the keys that are left.
  unfoldable pub fold_keys :
      List String → Dict (List Contribution) → Option DispatchRequest → Folded → Exec W FoldResult
  fold_keys [] cs request done = pure (folded done)
  fold_keys (key ∷ rest) cs request done = do
    stop ← guard_reducer key (lookup key run.graph.reducers) request
    elim stop [
      | some decision ↦ pure (boundary_stopped decision)
      | none ↦ do
        written ← lift (contributions_of key cs)
        value ← fold_field key written
        fold_keys rest cs request (record {
          merged = assign key value done.merged;
          provenance = assign key (names written) done.provenance;
        })
    ]

  -- `_fold`: the keys come in ascending order.
  unfoldable pub fold : List Admitted → Option DispatchRequest → Exec W FoldResult
  fold admitted request =
      let cs = contributions admitted in
      fold_keys (sorted (keys cs)) cs request (record { merged = []; provenance = [] })
