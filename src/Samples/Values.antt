-- ===== src/Samples/Values.antt =====
-- The theorems on messages, resumes and unions at small values.
use perpetua_core.Reducers.{union, reduce_field}
use perpetua_core.Reducers.Lists.{list_writes}
use perpetua_core.Reducers.Union.{Extends, union_contract}
use perpetua_core.Value.{list, to_items, Value, null, text, dict, mapping, to_fields, of_fields}
use perpetua_core.Prelude.{
  ◌++◌, ◌≡◌, refl, some, [], ◌∷◌, Dict, lookup, update, assign, List, String,
}
use perpetua_core.Errors.{ok}
use perpetua_core.State.{dict_model, attr, merge}
use perpetua_core.Scheduler.States.{or_type_error}
use perpetua_core.Message.{Role, ChatMessage, to_openai_dict, from_openai_dict}
use perpetua_core.Message.RoundTrip.{from_openai_dict-to_openai_dict}
use perpetua_core.Plugins.Resume.{
  dropping, resumed, resume_policy, after_resume, resume_policy_contract,
}

abbrev answer : ChatMessage
answer = record { role = Role.tool; content = text "42"; name = null; tool_call_id = text "call-1" }

from_openai_dict-to_openai_dict_example : from_openai_dict (to_openai_dict answer) ≡ ok answer
from_openai_dict-to_openai_dict_example = from_openai_dict-to_openai_dict answer

abbrev waiting : Dict Value
waiting =
    ("status", text "interrupted")
    ∷ ("scratchpad", dict (to_fields (("draft", text "d") ∷ [])))
    ∷ []

abbrev given : Dict Value
given = ("approved", text "yes") ∷ ("draft", text "e") ∷ []

abbrev resumed_state : Dict Value
resumed_state =
    ("status", text "interrupted")
    ∷ ("scratchpad", dict (to_fields (("draft", text "d") ∷ ("approved", text "yes") ∷ [])))
    ∷ []

resume_policy-waiting :
    resume_policy dict_model waiting given dropping (some "approved") ≡ ok resumed_state
unfolding resume_policy resumed attr merge or_type_error mapping lookup update assign to_fields
    of_fields
resume_policy-waiting = refl

resume_policy_contract_example :
    (lookup "status" resumed_state ≡ lookup "status" waiting)
    × ((scratchpad : Value) × (before : Dict Value) × (after : Dict Value) × (lookup "scratchpad"
            waiting
          ≡ some scratchpad)
        × (mapping scratchpad ≡ some before)
        × (lookup "scratchpad" resumed_state ≡ some (dict (to_fields after)))
        × (lookup "draft" after
            ≡ after_resume dropping (some "approved") given "draft" (lookup "draft" before)))
resume_policy_contract_example =
    resume_policy_contract dict_model waiting resumed_state given dropping (some "approved")
      "status" "draft" resume_policy-waiting refl

abbrev tags : List Value
tags = text "x" ∷ []

abbrev more_tags : List (String × List Value)
more_tags = ("c", text "y" ∷ text "z" ∷ []) ∷ []

union_contract_example :
    (added : List Value) × (reduce_field {W = Unit} "tags" union
        (list (to_items tags))
        (list_writes (("b", text "x" ∷ text "y" ∷ []) ∷ more_tags))
        tt
      ≡ (ok (list (to_items (tags ++ added))), tt))
    × Extends tags added (text "x" ∷ text "y" ∷ text "y" ∷ text "z" ∷ [])
union_contract_example = union_contract "tags" "b" tags (text "x" ∷ text "y" ∷ []) more_tags tt
