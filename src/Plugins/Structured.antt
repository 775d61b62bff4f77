-- ===== src/Plugins/Structured.antt =====
-- graph/plugins/structured_output.py: asking a model again until its answer fits a schema.
pub mod Attempts
use perpetua_core.Prelude.{ℕ, zero, suc, String, Option, none, some, List, [], ◌∷◌, ◌++◌, Dict}
use perpetua_core.Value.{Value, text}
use perpetua_core.Errors.{value_error}
use perpetua_core.Exec.{Exec, pure, raise, ◌>>=◌}

-- The client's `chat`: `response.choices[0].message.content`, which may be None.
abbrev pub Chat : Type 0 → Type 0
Chat L = List (Dict Value) → Exec L (Option String)

-- A pydantic model class: none where `model_validate_json` raises its ValidationError.
pub record OutputSchema (T : Type 0) : Type 0 where
  pub model_validate_json : String → Option T
  -- `json.dumps(output_schema.model_json_schema())`
  pub schema_text : String

-- `content or ""`
abbrev pub or_empty_text : Option String → String
or_empty_text none = ""
or_empty_text (some content) = content

module _ {L T : Type 0} (chat : Chat L) (schema : OutputSchema T) (hint : String → String)
    (messages : List (Dict Value)) where
  -- `msgs`: after a failed attempt a hint with the schema is added, whose text is `hint`.
  unfoldable pub request : ℕ → List (Dict Value)
  request zero = messages
  request (suc attempt) =
      messages ++ (("role", text "user") ∷ ("content", text (hint schema.schema_text)) ∷ []) ∷ []

  abbrev pub accepted_or : Exec L T → Option T → Exec L T
  accepted_or again (some t) = pure t
  accepted_or again none = again

  -- `for attempt in range(MAX_RETRIES + 1)`, from an attempt on, with the number that is left.
  unfoldable pub attempt_from : ℕ → ℕ → Exec L T
  attempt_from zero attempt = raise value_error
  attempt_from (suc left) attempt = do
    content ← chat (request attempt)
    accepted_or (attempt_from left (suc attempt))
        (schema.model_validate_json (or_empty_text content))

  -- `chat_structured`, by `MAX_RETRIES + 1`
  unfoldable pub chat_structured : ℕ → Exec L T
  chat_structured attempts = attempt_from attempts 0
