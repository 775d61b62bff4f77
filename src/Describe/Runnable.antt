-- ===== src/Describe/Runnable.antt =====
-- `compile_validated` with the scheduler: what it lets through, the scheduler can follow.
use perpetua_core.Prelude.{
  String, ◌≡◌, refl, ap, sym, subst, ◌∙◌, Bool, true, false, Bool-cases, ◌||◌, inl, inr, List, [],
  ◌∷◌, All, All-weaken, any, contains, keys, lookup, Dict, arith, eq_iff, ◌==◌,
}
use perpetua_core.Value.{text}
use perpetua_core.Errors.{ok, >>=-ok, ok-injective, guard-ok, value_error}
use perpetua_core.Graph.{start_node, NodeFn, Edge, Graph}
use perpetua_core.Graph.Builder.{MiniGraph, compile}
use perpetua_core.Spec.Json.{Encoding}
use perpetua_core.Spec.Canonical.{GraphSpec}
use perpetua_core.Scheduler.States.{check_target, node_for, is_node}
use perpetua_core.Lint.Elements.{is_unknown, is_blank}
use perpetua_core.Lint.Report.{node_names, lint_graph_spec, validate_graph_spec}
use perpetua_core.Lint.Issue.{is_valid}
use perpetua_core.Lint.Report.Sound.{IsSound, lint_graph_spec-IsSound}
use perpetua_core.Describe.{Names, describe, compile_validated, some}
use perpetua_core.Describe.Sound.{Connects, describe-tells, any-map}

-- The scheduler resolves what an edge declares, without an exception.
abbrev pub Resolves : {S W : Type 0} → Graph S W → Edge S W → Type 0
Resolves g (Edge.static target) = check_target g (text target) ≡ ok target
Resolves g (Edge.router fn) = Unit
Resolves g (Edge.conditional fn declared) = All (λ t. check_target g (text t) ≡ ok t) declared
Resolves {S} {W} g (Edge.fan_out fan) =
    (check_target g (text fan.then_node) ≡ ok fan.then_node)
    × All (λ b. (fn : NodeFn S W) × (node_for g b ≡ ok fn)) fan.branches

contains-any :
    (test : String → Bool) (k : String) (xs : List String)
    → contains k xs ≡ true
    → test k ≡ true
    → any test xs ≡ true
contains-any test k [] c h = c
contains-any test k (x ∷ xs) c h = elim (Bool-cases (x == k)) [
  | inl same ↦ rw (ap test ((eq_iff x k).0 same) ∙ h) refl
  | inr other ↦ let later = contains-any test k xs (ground arith) h in rw later (ground arith)
]

lookup-contains :
    {V : Type 0} (k : String) (d : Dict V)
    → contains k (keys d) ≡ true
    → (v : V) × (lookup k d ≡ some v)
unfolding lookup
lookup-contains k [] c = ground arith
lookup-contains k ((j, v) ∷ d) c = elim (Bool-cases (j == k)) [
  | inl same ↦ (v, rw same refl)
  | inr other ↦ let rest = lookup-contains k d (ground arith) in (rest.0, rw other rest.1)
]

Connects-same :
    {S W : Type 0} (names others : List String)
    → ((k : String) → contains k names ≡ contains k others)
    → (edge : Edge S W) → Connects names edge
    → Connects others edge
Connects-same names others same (Edge.static target) h = rw (sym (same target)) h
Connects-same names others same (Edge.router fn) h = tt
Connects-same names others same (Edge.conditional fn declared) h =
    All-weaken declared (λ t known. rw (sym (same t)) known) h
Connects-same names others same (Edge.fan_out fan) h = (
  rw (sym (same fan.then_node)) h.0,
  All-weaken fan.branches (λ b known. sym (same b) ∙ known) h.1,
)

module _ {S W : Type 0} (g : Graph S W) (named : any is_blank (keys g.nodes) ≡ false) where
  -- A text that is unknown to no one is END or a node's name, and not empty.
  check_target-known :
      (t : String) → is_unknown (keys g.nodes) t ≡ false → check_target g (text t) ≡ ok t
  unfolding check_target is_blank is_node
  check_target-known t known = elim (Bool-cases (t == "")) [
    | inl same ↦
        let known' : is_unknown (keys g.nodes) "" ≡ false =
          subst (λ t. is_unknown (keys g.nodes) t ≡ false) ((eq_iff t "").0 same) known in
        let blank = contains-any is_blank "" (keys g.nodes) (ground arith) refl in ground arith
    | inr other ↦ rw other (ground arith)
  ]

  node_for-found :
      (b : String) (fn : NodeFn S W) → lookup b g.nodes ≡ some fn → node_for g b ≡ ok fn
  unfolding node_for
  node_for-found b fn e = rw (node_for, e) refl

  node_for-known :
      (b : String) → contains b (keys g.nodes) ≡ true → (fn : NodeFn S W) × (node_for g b ≡ ok fn)
  node_for-known b c =
      let found = lookup-contains b g.nodes c in (found.0, node_for-found b found.0 found.1)

  Resolves-known : (edge : Edge S W) → Connects (keys g.nodes) edge → Resolves g edge
  Resolves-known (Edge.static target) h = check_target-known target h
  Resolves-known (Edge.router fn) h = tt
  Resolves-known (Edge.conditional fn declared) h = All-weaken declared check_target-known h
  Resolves-known (Edge.fan_out fan) h =
      (check_target-known fan.then_node h.0, All-weaken fan.branches node_for-known h.1)

-- What the scheduler relies on when it runs the graph.
pub record IsRunnable {S W : Type 0} (g : Graph S W) : Type 0 where
  pub has_entry : contains start_node (keys g.edges) ≡ true
  pub are_resolved : All (λ p. Resolves g p.1) g.edges

module _ {S W : Type 0} (callables : Names S W) (enc : Encoding) where
  contains-is_any : (k : String) (xs : List String) → any (λ x. x == k) xs ≡ contains k xs
  contains-is_any k [] = refl
  contains-is_any k (x ∷ xs) = ap (λ b. x == k || b) (contains-is_any k xs)

  described-IsRunnable :
      (g : Graph S W) (spec : GraphSpec)
      → describe callables enc g ≡ ok spec
      → IsSound enc spec
      → IsRunnable g
  described-IsRunnable g spec h sound =
      let tells = describe-tells callables enc g spec h in
      let same : (k : String) → contains k (node_names spec) ≡ contains k (keys g.nodes) = λ k.
        sym (contains-is_any k (node_names spec))
        ∙ tells.0 (λ x. x == k)
        ∙ contains-is_any k (keys g.nodes) in
      let named =
        sym (tells.0 is_blank) ∙ any-map is_blank (λ n. n.name) spec.nodes ∙ sound.are_named in
      record {
        has_entry =
            sym (contains-is_any start_node (keys g.edges))
            ∙ sym (tells.1 (λ x. x == start_node))
            ∙ sound.has_entry;
        are_resolved =
            All-weaken g.edges (λ p. Resolves-known g named p.1)
              (All-weaken g.edges (λ p. Connects-same (node_names spec) (keys g.nodes) same p.1)
                (tells.2 (node_names spec) sound.are_connected));
      }

  -- A graph that `compile_validated` gives is the one that `compile` gives; it has an edge from START;
  -- and on each of its edges the scheduler resolves what is declared without an exception: the target
  -- of a static edge, each declared target of a conditional one, and the target and the branches of a
  -- fan-out region.
  pub compile_validated-IsRunnable :
      (b : MiniGraph S W) (g : Graph S W)
      → compile_validated callables enc b ≡ ok g
      → (compile b ≡ g) × IsRunnable g
  unfolding compile_validated validate_graph_spec
  compile_validated-IsRunnable b g h =
      let (spec, one, described) = >>=-ok (describe callables enc (compile b)) h in
      let (u, made, valid) = >>=-ok (validate_graph_spec enc spec) one in
      let same = ok-injective made in
      let sound =
        lint_graph_spec-IsSound enc spec
          (guard-ok (is_valid (lint_graph_spec enc spec)) value_error u valid) in
      (same, subst IsRunnable same (described-IsRunnable (compile b) spec described sound))
