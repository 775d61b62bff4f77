-- ===== src/Message/RoundTrip.antt =====
-- A chat message survives its OpenAI form.
use perpetua_core.Prelude.{
  append-nil, false, String, ◌≡◌, refl, ap, [], ◌++◌, Dict, lookup, ◌==◌, eq_iff,
}
use perpetua_core.Value.{Value, null, boolean, int, text, list, tuple, dict, atom}
use perpetua_core.Errors.{ok}
use perpetua_core.Message.{
  Role, role_name, role_named, ChatMessage, checked_role, chat_message, if_given, to_openai_dict,
  get_or, from_openai_dict, false,
}

role_named-role_name : (r : Role) → role_named (role_name r) ≡ ok r
unfolding role_named
role_named-role_name Role.system = refl
role_named-role_name Role.user = refl
role_named-role_name Role.assistant = refl
role_named-role_name Role.tool = refl

-- The field read back from its optional entry, whatever stands behind it.
get_or-if_given :
    (key : String) (v : Value) (rest : Dict Value)
    → get_or null (lookup key rest) ≡ null
    → get_or null (lookup key (if_given key v ++ rest)) ≡ v
unfolding lookup if_given
get_or-if_given key null rest h = h
get_or-if_given key (boolean b) rest h = rw ((eq_iff key key).1 refl) refl
get_or-if_given key (int n) rest h = rw ((eq_iff key key).1 refl) refl
get_or-if_given key (text s) rest h = rw ((eq_iff key key).1 refl) refl
get_or-if_given key (list xs) rest h = rw ((eq_iff key key).1 refl) refl
get_or-if_given key (tuple xs) rest h = rw ((eq_iff key key).1 refl) refl
get_or-if_given key (dict d) rest h = rw ((eq_iff key key).1 refl) refl
get_or-if_given key (atom t i) rest h = rw ((eq_iff key key).1 refl) refl

-- An entry for another key is passed over.
lookup-if_given :
    (key j : String) (v : Value) (rest : Dict Value)
    → (j == key) ≡ false
    → lookup key (if_given j v ++ rest) ≡ lookup key rest
unfolding lookup if_given
lookup-if_given key j null rest h = refl
lookup-if_given key j (boolean b) rest h = rw h refl
lookup-if_given key j (int n) rest h = rw h refl
lookup-if_given key j (text s) rest h = rw h refl
lookup-if_given key j (list xs) rest h = rw h refl
lookup-if_given key j (tuple xs) rest h = rw h refl
lookup-if_given key j (dict d) rest h = rw h refl
lookup-if_given key j (atom t i) rest h = rw h refl

own_entry : (key : String) (v : Value) → get_or null (lookup key (if_given key v)) ≡ v
unfolding lookup
own_entry key v = rw append-nil at (get_or-if_given key v [] refl)

other_entry :
    (key j : String) (v : Value)
    → (j == key) ≡ false
    → get_or null (lookup key (if_given j v)) ≡ null
unfolding lookup
other_entry key j v h = ap (get_or null) (rw append-nil at (lookup-if_given key j v [] h))

-- Reading a message's OpenAI form gives the message back, its optional fields included.
pub from_openai_dict-to_openai_dict : (m : ChatMessage) → from_openai_dict (to_openai_dict m) ≡ ok m
unfolding from_openai_dict to_openai_dict chat_message checked_role lookup
from_openai_dict-to_openai_dict m =
    rw
      (
        role_named-role_name,
        get_or-if_given "name" m.name (if_given "tool_call_id" m.tool_call_id)
            (other_entry "name" "tool_call_id" m.tool_call_id refl),
        lookup-if_given "tool_call_id" "name" m.name (if_given "tool_call_id" m.tool_call_id) refl,
        own_entry,
      )
      refl
