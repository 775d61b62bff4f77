-- ===== src/Scheduler/States/Terminal.antt =====
-- The state that a stop of the gate reports.
use perpetua_core.Prelude.{
  ℕ, String, ◌≡◌, refl, Option, none, some, [], ◌∷◌, ◌==◌, false, Dict, lookup, update,
  lookup-update, ap, sym, ◌∙◌, Option-cases, inl, inr,
}
use perpetua_core.Value.{Value, text, dict, mapping, to_fields}
use perpetua_core.Errors.{ok, >>=-ok, ok-injective}
use perpetua_core.State.{StateModel, merge, attr, get_attr-merge}
use perpetua_core.Gate.{GateDecision}
use perpetua_core.Graph.{GraphObservation}
use perpetua_core.Scheduler.States.{or_type_error, mark, stopped}

-- The metadata of `before` with a stop's two entries.
abbrev pub stop_entries : String → Value → Dict Value
stop_entries node reason = ("stop_node", text node) ∷ ("stop_reason", reason) ∷ []

pub attr-some :
    {S : Type 0} (model : StateModel S) (s : S) (k : String) (v : Value)
    → attr model s k ≡ ok v
    → model.get_attr s k ≡ some v
unfolding attr
attr-some model s k v h = elim (Option-cases (model.get_attr s k)) [
  | inl e ↦ cc (rw (attr, e) at h)
  | inr (w, e) ↦ e ∙ ap some (ok-injective (rw (attr, e) at h))
]

pub or_type_error-some : {A : Type 0} (o : Option A) (a : A) → or_type_error o ≡ ok a → o ≡ some a
unfolding or_type_error
or_type_error-some none a h = cc
or_type_error-some (some b) a h = ap some (ok-injective h)

-- A stop publishes nothing: the observation has no delta, and every field of the state but the status
-- and the metadata is as it was. The metadata gains the node and the reason, under keys of their
-- own, and every other entry is as it was.
pub stopped_contract :
    {S : Type 0} (model : StateModel S) (s : S) (node : String) (steps : ℕ)
    (decision : GateDecision) (o : GraphObservation S) (name key : String)
    → stopped model s node steps decision ≡ ok o
    → ("status" == name) ≡ false
    → ("metadata" == name) ≡ false
    → ("stop_node" == key) ≡ false
    → ("stop_reason" == key) ≡ false
    → (o.delta ≡ none)
      × (model.get_attr o.state name ≡ model.get_attr s name)
      × ((metadata : Value) × (before : Dict Value) × (after : Dict Value) × (model.get_attr s
              "metadata"
            ≡ some metadata)
          × (mapping metadata ≡ some before)
          × (model.get_attr o.state "metadata" ≡ some (dict (to_fields after)))
          × (lookup "stop_node" after ≡ some (text node))
          × (lookup "stop_reason" after ≡ some decision.reason)
          × (lookup key after ≡ lookup key before))
unfolding stopped mark
stopped_contract {S} model s node steps decision o name key h n₁ n₂ k₁ k₂ =
    let (s', built, is_marked) = >>=-ok (mark model s "stopped" _) h in
    let (metadata, h', e) = >>=-ok (attr model s "metadata") is_marked in
    let (before, merged, e') = >>=-ok (or_type_error (mapping metadata)) h' in
    let after : Dict Value = update before (stop_entries node decision.reason) in
    let delta : Dict Value =
      ("status", text "stopped") ∷ ("metadata", dict (to_fields after)) ∷ [] in
    let same : o.state ≡ merge model s delta =
      ap (λ p. p.state) (sym (ok-injective built)) ∙ sym (ok-injective merged) in
    (
      ap (λ p. p.delta) (sym (ok-injective built)),
      rw (same, get_attr-merge, n₁, n₂) refl,
      (
        metadata,
        before,
        after,
        attr-some model s "metadata" metadata e,
        or_type_error-some (mapping metadata) before e',
        rw (same, get_attr-merge) refl,
        lookup-update "stop_node" before _,
        lookup-update "stop_reason" before _,
        lookup-update key before _ ∙ rw (k₁, k₂) refl,
      ),
    )
