-- ===== src/Lint/Report/Edges.antt =====
-- What the lint of the edges excludes: each leads to nodes.
use perpetua_core.Prelude.{
  String, ◌≡◌, refl, Bool, true, false, ◌||◌, some, List, [], ◌∷◌, ◌++◌, not, if◌then◌else◌,
  contains, any, All, Dict, arith, All-of_keep, All-weaken, All-both,
}
use perpetua_core.Spec.Records.{is_given, EdgeSpec, EdgeKind, static, conditional, fanout}
use perpetua_core.Spec.Canonical.{is_fanout}
use perpetua_core.Lint.Issue.{
  GraphLintIssue, error, has_error, is_error, report_if, issue_from, issue_between,
}
use perpetua_core.Lint.Elements.{
  lint_edges, lint_shape, is_unknown, is_unknown_target, is_no_source, lint_targets,
}
use perpetua_core.Lint.Regions.{
  lint_fanouts, lint_branches, lint_branch, claim, claim_all, fanouts_of,
}

pub any-append :
    {A : Type 0} (test : A → Bool) (xs ys : List A)
    → any test (xs ++ ys) ≡ (any test xs || any test ys)
any-append test [] ys = refl
any-append test (x ∷ xs) ys = ground (arith, any-append test xs ys)

-- Two parts with no error.
pub clean_parts :
    (xs ys : List GraphLintIssue)
    → has_error (xs ++ ys) ≡ false
    → (has_error xs ≡ false) × (has_error ys ≡ false)
clean_parts xs ys h = ground (arith, any-append (λ (i : GraphLintIssue). is_error i.severity) xs ys)

-- What an edge leads to is there.
abbrev pub Leads : List String → EdgeKind → EdgeSpec → Type 0
Leads names static e =
    (is_no_source names e.source ≡ false)
    × (is_unknown_target names e.target ≡ false)
    × (is_given e.target ≡ true)
Leads names conditional e =
    (is_no_source names e.source ≡ false) × All (λ t. is_unknown names t ≡ false) e.declared_targets
Leads names fanout e =
    (contains e.source names ≡ true)
    × (is_unknown_target names e.target ≡ false)
    × All (λ b. contains b names ≡ true) e.declared_targets

known_branch :
    (names sources : List String) (e : EdgeSpec) (claimed : Dict String) (b : String)
    → has_error (lint_branch names sources e claimed b) ≡ false
    → contains b names ≡ true
unfolding lint_branch
known_branch names sources e claimed b h = ground arith

lint_branches-known :
    (names sources : List String) (e : EdgeSpec) (claimed : Dict String) (bs : List String)
    → has_error (lint_branches names sources e claimed bs) ≡ false
    → All (λ b. contains b names ≡ true) bs
unfolding lint_branches
lint_branches-known names sources e claimed [] h = tt
lint_branches-known names sources e claimed (b ∷ bs) h =
    let parts = clean_parts (lint_branch names sources e claimed b) _ h in
    (
      known_branch names sources e claimed b parts.0,
      lint_branches-known names sources e
          (if contains b names then claim b e.source claimed else claimed) bs parts.1,
    )

lint_targets-known :
    (names : List String) (source : String) (ts : List String)
    → has_error (lint_targets names source ts) ≡ false
    → All (λ t. is_unknown names t ≡ false) ts
unfolding lint_targets
lint_targets-known names source [] h = tt
lint_targets-known names source (t ∷ ts) h =
    let parts =
      clean_parts (report_if (is_unknown names t) (issue_between "GS007" error source (some t)))
        (lint_targets names source ts) h in
    (ground arith, lint_targets-known names source ts parts.1)

-- The part of a conditional edge's issues that is about its targets.
clean_targets :
    (names : List String) (e : EdgeSpec)
    → has_error (lint_shape names conditional e) ≡ false
    → has_error (lint_targets names e.source e.declared_targets) ≡ false
unfolding lint_shape
clean_targets names e h =
    let one =
      clean_parts (report_if (is_given e.target) (issue_between "GS009" error e.source e.target)) _
        h in
    let two =
      clean_parts (report_if (is_no_source names e.source) (issue_from "GS006" error e.source)) _
        one.1 in
    (clean_parts (lint_targets names e.source e.declared_targets) _ two.1).0

pub lint_shape-Leads :
    (names : List String) (kind : EdgeKind) (e : EdgeSpec)
    → is_fanout kind ≡ false
    → has_error (lint_shape names kind e) ≡ false
    → Leads names kind e
unfolding lint_shape
lint_shape-Leads names static e k h = (ground arith, ground arith, ground arith)
lint_shape-Leads names conditional e k h =
    (ground arith, lint_targets-known names e.source e.declared_targets (clean_targets names e h))
lint_shape-Leads names fanout e k h = ground arith

unfoldable pub LeadsHere : List String → EdgeSpec → Type 0
LeadsHere names e = is_fanout e.kind ≡ false → Leads names e.kind e

pub lint_edges-Leads :
    (names seen : List String) (es : List EdgeSpec)
    → has_error (lint_edges names seen es) ≡ false
    → All (LeadsHere names) es
unfolding lint_edges LeadsHere
lint_edges-Leads names seen [] h = tt
lint_edges-Leads names seen (e ∷ es) h =
    let all =
      clean_parts (report_if (contains e.source seen) (issue_from "GS012" error e.source)) _ h in
    let rest =
      clean_parts (lint_shape names e.kind e) (lint_edges names (e.source ∷ seen) es) all.1 in
    (
      λ k. lint_shape-Leads names e.kind e k rest.0,
      lint_edges-Leads names (e.source ∷ seen) es rest.1,
    )

pub lint_fanouts-Leads :
    (names sources : List String) (claimed : Dict String) (es : List EdgeSpec)
    → has_error (lint_fanouts names sources claimed es) ≡ false
    → All (λ e. Leads names fanout e) es
unfolding lint_fanouts
lint_fanouts-Leads names sources claimed [] h = tt
lint_fanouts-Leads names sources claimed (e ∷ es) h =
    let one =
      clean_parts (report_if (not (contains e.source names)) (issue_from "GS201" error e.source)) _
        h in
    let two =
      clean_parts
        (report_if (is_unknown_target names e.target)
          (issue_between "GS205" error e.source e.target))
        _ one.1 in
    let three = clean_parts (lint_branches names sources e claimed e.declared_targets) _ two.1 in
    (
      (
        ground arith,
        ground arith,
        lint_branches-known names sources e claimed e.declared_targets three.0,
      ),
      lint_fanouts-Leads names sources (claim_all names e.source e.declared_targets claimed) es
          three.1,
    )

Leads-by_kind :
    (names : List String) (kind : EdgeKind) (e : EdgeSpec)
    → (is_fanout kind ≡ false → Leads names kind e)
    → (is_fanout kind ≡ true → Leads names fanout e)
    → Leads names kind e
Leads-by_kind names static e here region = here refl
Leads-by_kind names conditional e here region = here refl
Leads-by_kind names fanout e here region = region refl

-- Every edge leads, by the two passes over the edges.
pub each_Leads :
    (names : List String) (es : List EdgeSpec)
    → All (LeadsHere names) es
    → All (λ e. Leads names fanout e) (fanouts_of es)
    → All (λ e. Leads names e.kind e) es
unfolding LeadsHere
each_Leads names es h k =
    let regions = All-of_keep (λ e. Leads names fanout e) (λ e. is_fanout e.kind) es k in
    All-weaken es (λ e both. Leads-by_kind names e.kind e both.0 both.1)
      (All-both (LeadsHere names) (λ e. is_fanout e.kind ≡ true → Leads names fanout e) es h
        regions)
