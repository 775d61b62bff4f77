-- ===== src/Scheduler/Loop/Routing.antt =====
-- `_resolve_edge`: where a run may go next.
use perpetua_core.Prelude.{String, ◌≡◌, refl, true, Bool-cases, inl, inr, ◌⊎◌, ◌==◌, eq_iff, ◌≢◌}
use perpetua_core.Value.{Value, null, boolean, int, text, list, tuple, dict, atom}
use perpetua_core.Errors.{type_error, value_error, ok, err}
use perpetua_core.Exec.{◌>>=◌}
use perpetua_core.Graph.{Edge, Graph, end_node}
use perpetua_core.Scheduler.{Invocation}
use perpetua_core.Scheduler.States.{is_node, check_target}
use perpetua_core.Scheduler.Loop.{edge_value, resolve_edge}

-- The name of END, or of a registered node.
abbrev pub IsTarget : {S W : Type 0} → Graph S W → String → Type 0
IsTarget graph name = (name ≢ "") × ((name ≡ end_node) ⊎ (is_node graph name ≡ true))

-- Text that is a target is taken; other text is a ValueError, and anything else a TypeError.
check_text-cases :
    {S W : Type 0} (graph : Graph S W) (name : String)
    → IsTarget graph name × (check_target graph (text name) ≡ ok name)
      ⊎ (¬ IsTarget graph name) × (check_target graph (text name) ≡ err value_error)
unfolding check_target
check_text-cases graph name = elim (Bool-cases (name == "")) [
  | inl e ↦ inr (λ t. t.0 ((eq_iff name "").0 e), rw e refl)
  | inr e ↦ elim (Bool-cases (name == end_node)) [
    | inl f ↦
        inl ((λ p. cc ((eq_iff name "").1 p, e), inl ((eq_iff name end_node).0 f)), rw (e, f) refl)
    | inr f ↦ elim (Bool-cases (is_node graph name)) [
      | inl g ↦ inl ((λ p. cc ((eq_iff name "").1 p, e), inr g), rw (e, f, g) refl)
      | inr g ↦ inr (
        λ t. elim t.1 [ inl p ↦ cc ((eq_iff name end_node).1 p, f) | inr h ↦ cc (h, g) ],
        rw (e, f, g) refl,
      )
    ]
  ]
]

abbrev pub IsText : Value → Type 0
IsText value = (name : String) × (value ≡ text name)

pub check_target-cases :
    {S W : Type 0} (graph : Graph S W) (value : Value)
    → ((name : String) × (value ≡ text name)
        × IsTarget graph name
        × (check_target graph value ≡ ok name))
      ⊎ ((name : String) × (value ≡ text name)
          × (¬ IsTarget graph name)
          × (check_target graph value ≡ err value_error))
      ⊎ (¬ IsText value) × (check_target graph value ≡ err type_error)
unfolding check_target
check_target-cases graph (text name) = elim (check_text-cases graph name) [
  | inl (t, e) ↦ inl (name, refl, t, e)
  | inr (t, e) ↦ inr (inl (name, refl, t, e))
]
check_target-cases graph null = inr (inr (λ t. cc t.1, refl))
check_target-cases graph (boolean b) = inr (inr (λ t. cc t.1, refl))
check_target-cases graph (int n) = inr (inr (λ t. cc t.1, refl))
check_target-cases graph (list xs) = inr (inr (λ t. cc t.1, refl))
check_target-cases graph (tuple xs) = inr (inr (λ t. cc t.1, refl))
check_target-cases graph (dict d) = inr (inr (λ t. cc t.1, refl))
check_target-cases graph (atom t i) = inr (inr (λ t. cc t.1, refl))

-- An edge whose call gives the name of END or of a registered node leads there. Other text is a
-- ValueError, and a value that is no text a TypeError.
pub resolve_edge_contract :
    {S W : Type 0} (run : Invocation S W) (edge : Edge S W) (s : S) (value : Value) (w w' : W)
    → edge_value edge s w ≡ (ok value, w')
    → ((name : String) × (value ≡ text name)
        × IsTarget run.graph name
        × (resolve_edge run edge s w ≡ (ok name, w')))
      ⊎ ((name : String) × (value ≡ text name)
          × (¬ IsTarget run.graph name)
          × (resolve_edge run edge s w ≡ (err value_error, w')))
      ⊎ (¬ IsText value) × (resolve_edge run edge s w ≡ (err type_error, w'))
unfolding resolve_edge ◌>>=◌
resolve_edge_contract run edge s value w w' h = elim (check_target-cases run.graph value) [
  | inl (name, e, t, found) ↦ inl (name, e, t, rw (h, found) refl)
  | inr (inl (name, e, t, found)) ↦ inr (inl (name, e, t, rw (h, found) refl))
  | inr (inr (t, found)) ↦ inr (inr (t, rw (h, found) refl))
]
