-- ===== src/Plugins/Resume.antt =====
-- graph/plugins/interrupt_guard.py: how values given at a resume reach the scratchpad.
use perpetua_core.Prelude.{
  String, ◌≡◌, refl, sym, false, Bool-cases, inl, inr, Option, none, some, [], ◌∷◌, ◌==◌,
  if◌then◌else◌, Dict, lookup, update, last_write, lookup-update, Option-cases,
}
use perpetua_core.Value.{Value, dict, mapping, to_fields}
use perpetua_core.Errors.{value_error, Result, ok, err, ◌>>=◌, >>=-ok, ok-injective}
use perpetua_core.State.{StateModel, merge, attr, get_attr-merge}
use perpetua_core.Scheduler.States.{or_type_error}
use perpetua_core.Scheduler.States.Terminal.{attr-some, or_type_error-some}

-- `ResumeMode`
pub data ResumeMode : Type 0 where
  merging dropping : ResumeMode

-- What a mode takes of the resume value.
unfoldable pub resumed : ResumeMode → Option String → Dict Value → Result (Dict Value)
resumed merging drop_key value = ok value
resumed dropping none value = err value_error
resumed dropping (some key) value =
    if key == ""
    then err value_error
    else elim (lookup key value) [ none ↦ err value_error | some v ↦ ok ((key, v) ∷ []) ]

-- `resume_policy`
unfoldable pub resume_policy :
    {S : Type 0} → StateModel S → S → Dict Value → ResumeMode → Option String → Result S
unfolding resumed
resume_policy model s value mode drop_key = do
  extra ← resumed mode drop_key value
  scratchpad ← attr model s "scratchpad"
  before ← or_type_error (mapping scratchpad)
  ok (merge model s (("scratchpad", dict (to_fields (update before extra))) ∷ []))

-- What the scratchpad has under `j` after a resume: MERGE writes every entry of the value, the last
-- one under a key counting; DROP writes the entry of its key alone.
abbrev pub after_resume :
    ResumeMode → Option String → Dict Value → String → Option Value → Option Value
after_resume merging drop_key value j before = last_write j value before
after_resume dropping none value j before = before
after_resume dropping (some key) value j before = if key == j then lookup key value else before

resumed-after_resume :
    (mode : ResumeMode) (drop_key : Option String) (value extra before : Dict Value) (j : String)
    → resumed mode drop_key value ≡ ok extra
    → lookup j (update before extra) ≡ after_resume mode drop_key value j (lookup j before)
unfolding resumed
resumed-after_resume merging drop_key value extra before j h =
    rw (sym (ok-injective h)) (lookup-update j before value)
resumed-after_resume dropping none value extra before j h = cc
resumed-after_resume dropping (some key) value extra before j h = elim (Bool-cases (key == "")) [
  | inl e ↦ cc (rw (resumed, e) at h)
  | inr e ↦ elim (Option-cases (lookup key value)) [
    | inl missing ↦ cc (rw (resumed, e, missing) at h)
    | inr (v, found) ↦
        rw (sym (ok-injective (rw (resumed, e, found) at h)), found)
          (lookup-update j before ((key, v) ∷ []))
  ]
]

-- A resume that is taken changes the scratchpad alone: every other field, the status included, is as
-- it was. Each key of the scratchpad has what the mode gives it, or what it had.
pub resume_policy_contract :
    {S : Type 0} (model : StateModel S) (s s' : S) (value : Dict Value) (mode : ResumeMode)
    (drop_key : Option String) (name j : String)
    → resume_policy model s value mode drop_key ≡ ok s'
    → ("scratchpad" == name) ≡ false
    → (model.get_attr s' name ≡ model.get_attr s name)
      × ((scratchpad : Value) × (before : Dict Value) × (after : Dict Value) × (model.get_attr s
              "scratchpad"
            ≡ some scratchpad)
          × (mapping scratchpad ≡ some before)
          × (model.get_attr s' "scratchpad" ≡ some (dict (to_fields after)))
          × (lookup j after ≡ after_resume mode drop_key value j (lookup j before)))
unfolding resume_policy
resume_policy_contract model s s' value mode drop_key name j h other =
    let (extra, rest, taken) = >>=-ok (resumed mode drop_key value) h in
    let (scratchpad, rest', e) = >>=-ok (attr model s "scratchpad") rest in
    let (before, built, e') = >>=-ok (or_type_error (mapping scratchpad)) rest' in
    let same = sym (ok-injective built) in
    (
      rw (same, get_attr-merge, other) refl,
      (
        scratchpad,
        before,
        update before extra,
        attr-some model s "scratchpad" scratchpad e,
        or_type_error-some (mapping scratchpad) before e',
        rw (same, get_attr-merge) refl,
        resumed-after_resume mode drop_key value extra before j taken,
      ),
    )
