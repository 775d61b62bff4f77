-- ===== src/Lint/Regions.antt =====
-- `_lint_regions`: fan-out regions, joins and reducers.
use perpetua_core.Prelude.{
  ℕ, String, Bool, true, false, ◌||◌, ◌&&◌, Option, none, some, List, [], ◌∷◌, ◌++◌, ◌==◌, not, map,
  if◌then◌else◌, ltb, contains, keep, length, Dict, lookup,
}
use perpetua_core.Graph.{start_node, end_node}
use perpetua_core.Spec.Records.{
  EdgeSpec, ReducerSpec, JoinSpec, JoinKind, is_given, is_custom_kind, is_custom_reducer,
}
use perpetua_core.Spec.Canonical.{GraphSpec, is_fanout, is_supported, is_nonempty, schema_version_1}
use perpetua_core.Lint.Issue.{
  GraphLintIssue, error, warning, issue_of_graph, issue_at, issue_from, issue_between, report_if,
}
use perpetua_core.Lint.Elements.{is_unknown_target}

abbrev is_target : Option String → String → Bool
is_target none branch = false
is_target (some target) branch = branch == target

-- `branch in {edge.source, edge.target, START, END}`
abbrev pub is_taken : EdgeSpec → String → Bool
is_taken e branch =
    branch == e.source || is_target e.target branch || branch == start_node || branch == end_node

-- `branch in claimed and claimed[branch] != edge.source`
abbrev pub is_claimed : String → Option String → Bool
is_claimed source none = false
is_claimed source (some owner) = not (owner == source)

-- `claimed.setdefault(branch, source)`
unfoldable pub claim : String → String → Dict String → Dict String
claim branch source claimed = elim (lookup branch claimed) [
  | none ↦ claimed ++ (branch, source) ∷ []
  | some owner ↦ claimed
]

-- The branches of one region that are nodes, claimed.
unfoldable pub claim_all : List String → String → List String → Dict String → Dict String
claim_all names source [] claimed = claimed
claim_all names source (b ∷ bs) claimed =
    claim_all names source bs (if contains b names then claim b source claimed else claimed)

unfoldable pub lint_branch :
    List String → List String → EdgeSpec → Dict String → String → List GraphLintIssue
lint_branch names sources e claimed branch =
    if not (contains branch names)
    then issue_between "GS202" error e.source (some branch) ∷ []
    else report_if (is_taken e branch) (issue_between "GS203" error e.source (some branch))
      ++ (report_if (contains branch sources) (issue_between "GS204" error e.source (some branch))
          ++ report_if (is_claimed e.source (lookup branch claimed))
              (issue_between "GS206" error e.source (some branch)))

unfoldable pub lint_branches :
    List String → List String → EdgeSpec → Dict String → List String → List GraphLintIssue
lint_branches names sources e claimed [] = []
lint_branches names sources e claimed (b ∷ bs) =
    lint_branch names sources e claimed b
    ++ lint_branches names sources e
        (if contains b names then claim b e.source claimed else claimed) bs

unfoldable pub lint_fanouts :
    List String → List String → Dict String → List EdgeSpec → List GraphLintIssue
lint_fanouts names sources claimed [] = []
lint_fanouts names sources claimed (e ∷ es) =
    report_if (not (contains e.source names)) (issue_from "GS201" error e.source)
    ++ (report_if (is_unknown_target names e.target) (issue_between "GS205" error e.source e.target)
        ++ (lint_branches names sources e claimed e.declared_targets
            ++ lint_fanouts names sources (claim_all names e.source e.declared_targets claimed) es))

-- `branch_counts.get(source)`, where the last edge of a source counts
unfoldable pub branch_count : String → List EdgeSpec → Option ℕ
branch_count source [] = none
branch_count source (e ∷ es) = elim (branch_count source es) [
  | some n ↦ some n
  | none ↦ if e.source == source then some (length e.declared_targets) else none
]

-- `quorum > branch_counts[source]`, where both are there
abbrev pub is_exceeded : Option ℕ → Option ℕ → Bool
is_exceeded (some q) (some n) = ltb n q
is_exceeded _ _ = false

-- `join.kind == "quorum" and ...`
abbrev pub is_quorum : JoinKind → Bool
is_quorum JoinKind.quorum = true
is_quorum _ = false

unfoldable pub lint_joins : List EdgeSpec → List String → List JoinSpec → List GraphLintIssue
lint_joins fanouts seen [] = []
lint_joins fanouts seen (j ∷ js) =
    report_if (not (is_given (branch_count j.source fanouts))) (issue_from "GS207" error j.source)
    ++ (report_if (contains j.source seen) (issue_from "GS208" error j.source)
        ++ (report_if (is_quorum j.kind && is_exceeded j.quorum (branch_count j.source fanouts))
              (issue_from "GS209" error j.source)
            ++ (report_if (is_custom_kind j.kind && not (is_given j.ref))
                  (issue_from "GS213" warning j.source)
                ++ lint_joins fanouts (j.source ∷ seen) js)))

unfoldable pub lint_reducers : List String → List ReducerSpec → List GraphLintIssue
lint_reducers seen [] = []
lint_reducers seen (r ∷ rs) =
    report_if (contains r.field seen) (issue_at "GS210" error r.field)
    ++ (report_if (is_custom_reducer r.kind && not (is_given r.ref))
          (issue_at "GS213" warning r.field)
        ++ lint_reducers (r.field ∷ seen) rs)

abbrev pub fanouts_of : List EdgeSpec → List EdgeSpec
fanouts_of edges = keep (λ e. is_fanout e.kind) edges

-- The schema version against the features in use.
unfoldable pub lint_version : String → Bool → List GraphLintIssue
lint_version version r3 =
    report_if (r3 && version == schema_version_1) (issue_of_graph "GS211" error)
    ++ report_if (not r3 && is_supported version && not (version == schema_version_1))
        (issue_of_graph "GS212" error)

-- `_lint_regions`
unfoldable pub lint_regions : GraphSpec → List String → List GraphLintIssue
lint_regions spec names =
    let fanouts = fanouts_of spec.edges in
    lint_version spec.schema_version
      (is_nonempty fanouts || is_nonempty spec.reducers || is_nonempty spec.joins)
    ++ (lint_fanouts names (map (λ e. e.source) spec.edges) [] fanouts
        ++ (lint_joins fanouts [] spec.joins
            ++ (lint_reducers [] spec.reducers
                ++ report_if (is_nonempty spec.reducers && not (is_nonempty fanouts))
                    (issue_of_graph "GS214" warning))))
