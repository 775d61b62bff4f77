-- ===== src/Message.antt =====
-- message.py: chat messages and their OpenAI form.
pub mod RoundTrip
use perpetua_core.Prelude.{
  String, Bool, true, false, ◌&&◌, Option, none, some, List, [], ◌∷◌, ◌++◌, ◌==◌, map,
  if◌then◌else◌, Dict, lookup, not,
}
use perpetua_core.Value.{
  is_hashable, Value, null, boolean, int, text, list, tuple, dict, atom, Items, nil, cons,
}
use perpetua_core.Errors.{value_error, type_error, key_error, Result, ok, err, ◌>>=◌}

-- `Role`
pub data Role : Type 0 where
  system user assistant tool : Role

abbrev pub role_name : Role → String
role_name system = "system"
role_name user = "user"
role_name assistant = "assistant"
role_name tool = "tool"

-- `ChatMessage`, after its `__post_init__`; the other fields are not validated.
pub record ChatMessage : Type 0 where
  pub role : Role
  pub content : Value
  pub name : Value
  pub tool_call_id : Value

unfoldable pub role_named : String → Result Role
role_named s =
    if s == "system"
    then ok system
    else if s == "user"
    then ok user
    else if s == "assistant"
    then ok assistant
    else if s == "tool"
    then ok tool
    else err value_error

-- `role in _VALID`, a set
unfoldable pub checked_role : Value → Result Role
unfolding is_hashable role_named
checked_role (text s) = role_named s
checked_role v = if is_hashable v then err value_error else err type_error

-- `ChatMessage(role, content, name, tool_call_id)`
unfoldable pub chat_message : Value → Value → Value → Value → Result ChatMessage
unfolding checked_role
chat_message role content name tool_call_id = do
  valid ← checked_role role
  ok (record { role = valid; content = content; name = name; tool_call_id = tool_call_id })

-- `d[key] = v` for a new key, where `v` is not None
unfoldable pub if_given : String → Value → Dict Value
if_given key null = []
if_given key v = (key, v) ∷ []

-- `to_openai_dict`
unfoldable pub to_openai_dict : ChatMessage → Dict Value
unfolding if_given
to_openai_dict m =
    ("role", text (role_name m.role))
    ∷ ("content", m.content)
    ∷ (if_given "name" m.name ++ if_given "tool_call_id" m.tool_call_id)

abbrev pub get_or : Value → Option Value → Value
get_or default none = default
get_or default (some v) = v

-- `from_openai_dict`
unfoldable pub from_openai_dict : Dict Value → Result ChatMessage
unfolding chat_message
from_openai_dict d = elim (lookup "role" d) [
  | none ↦ err key_error
  | some role ↦
      chat_message role (get_or (text "") (lookup "content" d)) (get_or null (lookup "name" d))
        (get_or null (lookup "tool_call_id" d))
]

-- `ChatHistory`
abbrev pub ChatHistory : Type 0
ChatHistory = List ChatMessage

-- `append`
unfoldable pub append : ChatMessage → ChatHistory → ChatHistory
append m history = history ++ m ∷ []

unfoldable pub to_openai_messages : ChatHistory → List (Dict Value)
unfolding to_openai_dict
to_openai_messages history = map to_openai_dict history
