-- ===== src/Adapters/Langgraph/Routes.antt =====
-- Where an exported edge leads, against the scheduler's own routing.
use perpetua_core.Prelude.{
  String, ◌≡◌, refl, true, Option, none, some, List, [], ◌∷◌, ◌++◌, ◌==◌, map, ◌⊎◌, inl, inr,
  if◌then◌else◌, Dict, keys, lookup, last_write, lookup-update, contains, eq_iff, eq_refl,
  Bool-cases, ap, ◌∙◌, sym, subst, arith,
}
use perpetua_core.Value.{Value, text, value_eq}
use perpetua_core.Errors.{ok, ok-injective}
use perpetua_core.Exec.{Exec, pure, lift, then_run, ◌>>=◌}
use perpetua_core.Exec.Laws.{then_run-ok}
use perpetua_core.Graph.{end_node, EdgeFn, Edge, static, router, conditional, fan_out}
use perpetua_core.Scheduler.{Invocation}
use perpetua_core.Scheduler.States.{is_node, check_target}
use perpetua_core.Scheduler.Loop.{edge_value, resolve_edge}
use perpetua_core.Scheduler.Loop.Routing.{IsTarget, check_target-cases}
use perpetua_core.Adapters.Langgraph.{
  StateGraph, Exported, direct, branching, lg_target, routed, path_map, exported,
}

-- The destination that LangGraph computes for an exported edge.
abbrev pub follow : {S W : Type 0} → Exported S W → S → Exec W Value
follow (direct target) s = pure (text target)
follow (branching route targets) s = route s

-- A path map, where there is one, sends a destination to itself.
abbrev pub Covers : {S W : Type 0} → Exported S W → String → Type 0
Covers (direct target) name = Unit
Covers (branching route none) name = Unit
Covers (branching route (some targets)) name = lookup name targets ≡ some name

pub text-injective : {m n : String} → text m ≡ text n → m ≡ n
text-injective h = cc

pub some-injective : {A : Type 0} {a b : A} → some a ≡ some b → a ≡ b
some-injective h = cc

abbrev doubles : (String → String) → List String → Dict String
doubles f names = map (λ n. (f n, f n)) names

kept : (j k : String) → (if j == k then some j else some k) ≡ some k
kept j k = ground (arith, eq_iff j k)

last_write-kept :
    (f : String → String) (k : String) (names : List String)
    → last_write k (doubles f names) (some k) ≡ some k
last_write-kept f k [] = refl
last_write-kept f k (n ∷ names) =
    ap (last_write k (doubles f names)) (kept (f n) k) ∙ last_write-kept f k names

-- The first of the names is the one, or it is among the others.
contains-cases :
    (k n : String) (names : List String)
    → contains k (n ∷ names) ≡ true
    → (n ≡ k) ⊎ (contains k names ≡ true)
contains-cases k n names h = elim (Bool-cases (n == k)) [
  | inl e ↦ inl ((eq_iff n k).0 e)
  | inr e ↦ inr (rw e at h)
]

last_write-contains :
    (f : String → String) (k : String) (names : List String) (o : Option String)
    → contains k names ≡ true
    → last_write (f k) (doubles f names) o ≡ some (f k)
last_write-contains f k [] o h = cc
last_write-contains f k (n ∷ names) o h = elim (contains-cases k n names h) [
  | inl e ↦
      ap (λ x. last_write (f k) (doubles f names) (if f x == f k then some (f x) else o)) e
      ∙ ap (λ b. last_write (f k) (doubles f names) (if b then some (f k) else o)) (eq_refl (f k))
      ∙ last_write-kept f (f k) names
  | inr e ↦ last_write-contains f k names _ e
]

contains-tail :
    (k n : String) (names : List String) → contains k names ≡ true → contains k (n ∷ names) ≡ true
contains-tail k n names h = ground (arith, h)

contains-snoc :
    (k last : String) (names : List String)
    → (k ≡ last) ⊎ (contains k names ≡ true)
    → contains k (names ++ last ∷ []) ≡ true
contains-snoc k last [] h = ground (arith, eq_iff last k)
contains-snoc k last (n ∷ names) (inl e) = contains-tail k n _ (contains-snoc k last names (inl e))
contains-snoc k last (n ∷ names) (inr h) = elim (contains-cases k n names h) [
  | inl e ↦ rw ((eq_iff n k).1 e) refl
  | inr e ↦ contains-tail k n _ (contains-snoc k last names (inr e))
]

module _ {S W B C : Type 0} (lg : StateGraph S W B C) (run : Invocation S W) where
  path_map-IsTarget :
      (name : String)
      → IsTarget run.graph name
      → lookup (lg_target lg name) (path_map lg run.graph) ≡ some (lg_target lg name)
  unfolding path_map is_node lookup
  path_map-IsTarget name t =
      lookup-update (lg_target lg name) []
        (doubles (lg_target lg) (keys run.graph.nodes ++ end_node ∷ []))
      ∙ last_write-contains (lg_target lg) name (keys run.graph.nodes ++ end_node ∷ []) none
          (contains-snoc name end_node (keys run.graph.nodes) t.1)

  -- What the native edge gave, where it resolves.
  pub resolve_edge-ok :
      (edge : Edge S W) (s : S) (w w' : W) (name : String)
      → resolve_edge run edge s w ≡ (ok name, w')
      → (edge_value edge s w ≡ (ok (text name), w')) × IsTarget run.graph name
  unfolding resolve_edge ◌>>=◌
  resolve_edge-ok edge s w w' name h =
      let (value, w₁, given, checked) =
        then_run-ok (λ v. lift (check_target run.graph v)) (edge_value edge s w) name w' h in
      elim (check_target-cases run.graph value) [
        | inl (found, e, t, c) ↦
            let same : found ≡ name = ok-injective (sym c ∙ ap (λ x. x.0) checked) in
            (
              given
                  ∙ ap (λ v. (ok v, w₁)) (e ∙ ap (λ n. text n) same)
                  ∙ ap (λ x. (ok (text name), x.1)) checked,
              subst (IsTarget run.graph) same t,
            )
        | inr (inl (found, e, t, c)) ↦ cc (c, ap (λ x. x.0) checked)
        | inr (inr (t, c)) ↦ cc (c, ap (λ x. x.0) checked)
      ]

  routed-text :
      (edge : EdgeFn S W) (s : S) (w w' : W) (name : String)
      → edge s w ≡ (ok (text name), w')
      → routed lg edge s w ≡ (ok (text (lg_target lg name)), w')
  unfolding routed lg_target ◌>>=◌ value_eq
  routed-text edge s w w' name h =
      ap
        (then_run
          (λ target. pure (if value_eq target (text end_node) then text lg.lg_end else target)))
        h
      ∙ elim (Bool-cases (name == end_node)) [ inl e ↦ rw e refl | inr e ↦ rw e refl ]

  pub exported-follow :
      (edge : Edge S W) (x : Exported S W) (s : S) (w w' : W) (name : String)
      → exported lg run.graph edge ≡ ok x
      → edge_value edge s w ≡ (ok (text name), w')
      → IsTarget run.graph name
      → (follow x s w ≡ (ok (text (lg_target lg name)), w')) × Covers x (lg_target lg name)
  unfolding exported edge_value
  exported-follow (static target) x s w w' name h given t =
      subst
        (λ y. (follow y s w ≡ (ok (text (lg_target lg name)), w')) × Covers y (lg_target lg name))
        (ok-injective h)
        (
          ap (λ n. (ok (text (lg_target lg n)), w))
                (text-injective (ok-injective (ap (λ x. x.0) given)))
              ∙ ap (λ x. (ok (text (lg_target lg name)), x.1)) given,
          tt,
        )
  exported-follow (router fn) x s w w' name h given t =
      subst
        (λ y. (follow y s w ≡ (ok (text (lg_target lg name)), w')) × Covers y (lg_target lg name))
        (ok-injective h) (routed-text fn s w w' name given, tt)
  exported-follow (conditional fn []) x s w w' name h given t =
      subst
        (λ y. (follow y s w ≡ (ok (text (lg_target lg name)), w')) × Covers y (lg_target lg name))
        (ok-injective h) (routed-text fn s w w' name given, tt)
  exported-follow (conditional fn (n ∷ ns)) x s w w' name h given t =
      subst
        (λ y. (follow y s w ≡ (ok (text (lg_target lg name)), w')) × Covers y (lg_target lg name))
        (ok-injective h) (routed-text fn s w w' name given, path_map-IsTarget name t)
  exported-follow (fan_out fan) x s w w' name h given t = cc
