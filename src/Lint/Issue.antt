-- ===== src/Lint/Issue.antt =====
-- `GraphLintIssue` and its order. A message is determined by the other fields, and left out.
use perpetua_core.Prelude.{
  String, Bool, true, false, Option, none, some, List, [], ◌∷◌, any, lex, by_key, if◌then◌else◌,
}
use perpetua_core.Spec.Canonical.{or_empty}
use Prim.Native.Nat.{Ordering}
use Prim.Native.String.{compare}

pub data LintSeverity : Type 0 where
  error warning info : LintSeverity

pub record GraphLintIssue : Type 0 where
  pub code : String
  pub severity : LintSeverity
  pub node : Option String
  pub source : Option String
  pub target : Option String

-- `_SEVERITY_RANK`, as texts in the same order
abbrev severity_rank : LintSeverity → String
severity_rank error = "0"
severity_rank warning = "1"
severity_rank info = "2"

-- `_sort_key`
abbrev pub issue_order : GraphLintIssue → GraphLintIssue → Ordering
issue_order = by_key (lex compare) (λ i.
    severity_rank i.severity
    ∷ i.code
    ∷ or_empty i.source
    ∷ or_empty i.node
    ∷ or_empty i.target
    ∷ [])

-- `_issue`, by the fields that are given
abbrev pub issue_of_graph : String → LintSeverity → GraphLintIssue
issue_of_graph code severity = record {
  code = code;
  severity = severity;
  node = none;
  source = none;
  target = none;
}

abbrev pub issue_at : String → LintSeverity → String → GraphLintIssue
issue_at code severity node = record (issue_of_graph code severity) { node = some node }

abbrev pub issue_from : String → LintSeverity → String → GraphLintIssue
issue_from code severity source = record (issue_of_graph code severity) { source = some source }

abbrev pub issue_between : String → LintSeverity → String → Option String → GraphLintIssue
issue_between code severity source target = record (issue_of_graph code severity) {
  source = some source;
  target = target;
}

-- `if test: issues.append(issue)`
abbrev pub report_if : Bool → GraphLintIssue → List GraphLintIssue
report_if test issue = if test then issue ∷ [] else []

abbrev pub is_error : LintSeverity → Bool
is_error error = true
is_error _ = false

abbrev pub has_error : List GraphLintIssue → Bool
has_error issues = any (λ i. is_error i.severity) issues

pub record GraphValidationReport : Type 0 where
  pub graph_id : String
  pub issues : List GraphLintIssue

-- `GraphValidationReport.valid`
abbrev pub is_valid : GraphValidationReport → Bool
is_valid report = if has_error report.issues then false else true
