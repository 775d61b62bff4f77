-- ===== src/Plugins/Nodes.antt =====
-- graph/plugins/validator.py and tool_node.py: nodes around another node and around a process; and
-- the exceptions of interrupts.py and of graph/delivery.py.
use perpetua_core.Prelude.{
  zero, String, Bool, Option, none, some, List, [], ◌∷◌, ◌==◌, if◌then◌else◌, Dict, lookup, assign,
  update,
}
use perpetua_core.Value.{Value, ℤ, pos, text, dict, mapping, is_truthy, to_fields}
use perpetua_core.Errors.{
  Exception, interrupt, user, value_error, attribute_error, Result, ok, err, guard, ◌>>=◌, ◌>>◌,
}
use perpetua_core.Exec.{Exec}
use perpetua_core.State.{StateModel, attr}
use perpetua_core.Graph.{NodeFn, Returned, delta, not_dict}
use perpetua_core.Scheduler.States.{or_type_error}
use perpetua_core.Plugins.Parallel.{earlier_scratchpad}

-- `{**state.scratchpad}`
unfoldable pub scratchpad_of : {S : Type 0} → StateModel S → S → Result (Dict Value)
scratchpad_of model s = do
  scratchpad ← attr model s "scratchpad"
  or_type_error (mapping scratchpad)

-- `ValidationError` of validator.py
abbrev pub validation_error : Exception
validation_error = user "ValidationError" 0

-- `Validated`: a schema is a pydantic class, by whether it accepts keyword arguments.
pub record Validated (S W : Type 0) : Type 0 where
  pub inner : NodeFn S W
  pub pre : Option (Dict Value → Bool)
  pub post : Option (Dict Value → Bool)

unfoldable pub accepts : Option (Dict Value → Bool) → Dict Value → Result (Unit {0})
accepts none d = ok tt
accepts (some schema) d = guard (schema d) validation_error

module _ {S : Type 0} (model : StateModel S) (model_dump : S → Dict Value) where
  -- The check of what the node gave, with its scratchpad over the state's.
  unfoldable pub check_post : Option (Dict Value → Bool) → S → Returned → Result Returned
  check_post none s returned = ok returned
  check_post (some schema) s not_dict = scratchpad_of model s >> err attribute_error
  check_post (some schema) s (delta d) = do
    before ← scratchpad_of model s
    written ← earlier_scratchpad (lookup "scratchpad" d)
    accepts (some schema) (update before written)
    ok (delta d)

  abbrev pub checked_after :
      {W : Type 0} → Validated S W → S → Result Returned × W → Result Returned × W
  checked_after validated s (r, w) = (r >>= check_post validated.post s, w)

  -- `Validated.__call__`
  unfoldable pub call_validated : {W : Type 0} → Validated S W → NodeFn S W
  call_validated validated s w = elim (accepts validated.pre (model_dump s)) [
    | err e ↦ (err e, w)
    | ok u ↦ checked_after validated s (validated.inner s w)
  ]

-- `ToolNodeError`
abbrev pub tool_error : Exception
tool_error = user "ToolNodeError" 0

-- How a subprocess ends: killed after the timeout, or with its return code and decoded output.
pub data Process : Type 0 where
  timed_out : Process
  exited : ℤ → Result String → Process

-- `ToolNode`, with what it uses of the system: `str.format` and the subprocess, which gets the node's
-- own environment, if it has one, over the inherited one.
pub record ToolNode (W : Type 0) : Type 0 where
  pub argv : List String
  pub argv_template : List String
  pub output_key : String
  pub env : Dict String
  pub format : String → Dict Value → Result String
  pub run_process : List String → Dict String → Exec W Process

unfoldable pub format_all :
    {W : Type 0} → ToolNode W → List String → Dict Value → Result (List String)
format_all tool [] d = ok []
format_all tool (a ∷ rest) d = do
  first ← tool.format a d
  others ← format_all tool rest d
  ok (first ∷ others)

-- `argv_template`, or else `argv`; an empty list counts as none.
unfoldable pub arguments :
    {W : Type 0} → ToolNode W → List String → List String → Dict Value → Result (List String)
arguments tool (a ∷ rest) argv d = format_all tool (a ∷ rest) d
arguments tool [] (a ∷ rest) d = ok (a ∷ rest)
arguments tool [] [] d = err value_error

module _ {S W : Type 0} (model : StateModel S) (model_dump : S → Dict Value)
    (tool : ToolNode W) where
  -- What the process's end makes of the node.
  unfoldable pub on_exit : S → Process → Result Returned
  on_exit s timed_out = err tool_error
  on_exit s (exited (pos zero) output) = do
    before ← scratchpad_of model s
    stripped ← output
    ok (
        delta
          (("scratchpad", dict (to_fields (assign tool.output_key (text stripped) before))) ∷ []))
  on_exit s (exited _ output) = err tool_error

  abbrev pub after_process : S → Result Process × W → Result Returned × W
  after_process s (r, w) = (r >>= on_exit s, w)

  -- `ToolNode.__call__`
  unfoldable pub call_tool : NodeFn S W
  call_tool s w = elim (arguments tool tool.argv_template tool.argv (model_dump s)) [
    | err e ↦ (err e, w)
    | ok argv ↦ after_process s (tool.run_process argv tool.env w)
  ]

-- `Interrupt(prompt, payload)`: an empty payload, or none, is an empty dict.
unfoldable pub make_interrupt : Value → Option Value → Exception
make_interrupt prompt none = interrupt prompt (dict (to_fields []))
make_interrupt prompt (some payload) =
    interrupt prompt (if is_truthy payload then payload else dict (to_fields []))

-- `CriticalDeliveryFailed(cause_code, message)`: its message and its `cause_code`.
pub record CriticalDeliveryFailed : Type 0 where
  pub message : String
  pub cause_code : String

-- The default message names the cause; an empty message counts as none.
unfoldable pub critical_delivery_failed :
    (String → String) → String → Option String → CriticalDeliveryFailed
critical_delivery_failed default cause none = record { message = default cause; cause_code = cause }
critical_delivery_failed default cause (some m) = record {
  message = if m == "" then default cause else m;
  cause_code = cause;
}
