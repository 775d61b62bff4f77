-- ===== src/Samples/Batches.antt =====
-- A batch of two runs of the sample graph, and a model that answers at its second attempt.
use perpetua_core.Prelude.{
  ℕ, String, ◌≡◌, ◌≤◌, refl, Option, none, some, List, [], ◌∷◌, ◌==◌, if◌then◌else◌,
}
use perpetua_core.Value.{int, pos}
use perpetua_core.Errors.{index_error, Result, ok, err}
use perpetua_core.Exec.{◌>>=◌}
use perpetua_core.State.{dict_model}
use perpetua_core.Adapters.Langchain.{
  Input, state, fields, LangChainRunnableAdapter, default_name, checked_bound, ainvoke, abatch,
}
use perpetua_core.Adapters.Langchain.Batch.{opened, play, resume_at}
use perpetua_core.Adapters.Langchain.Progress.{active}
use perpetua_core.Adapters.Langchain.Gathered.{Answered, play-bound}
use perpetua_core.Adapters.Langchain.Contract.{abatch_contract}
use perpetua_core.Plugins.Structured.{Chat, OutputSchema, request, attempt_from, chat_structured}
use perpetua_core.Plugins.Structured.Attempts.{Ending, chat_structured_contract}
use perpetua_core.Samples.{World, Fields, fresh, diamond, host}

abbrev adapter : LangChainRunnableAdapter Fields World
adapter = record {
  graph = diamond;
  name = default_name;
  model = dict_model;
  host = host;
  make_state = λ d. ok d;
}

abbrev two_inputs : List (Input Fields × World)
two_inputs = (state fresh, []) ∷ (fields fresh, []) ∷ []

checked_bound-one : checked_bound (some (int (pos 1))) ≡ ok (some 1)
unfolding checked_bound
checked_bound-one = refl

abatch_contract_example :
    Answered
      (λ item. (ainvoke adapter item.0 item.1).0)
      two_inputs
      (abatch adapter (1 ∷ 0 ∷ 1 ∷ []) two_inputs (some (int (pos 1))))
abatch_contract_example =
    abatch_contract adapter (1 ∷ 0 ∷ 1 ∷ []) two_inputs (some (int (pos 1))) (some 1)
      checked_bound-one

abbrev answered : ℕ → Result ℕ
answered n = ok n

play-bound_example :
    active (play answered (0 ∷ 1 ∷ 2 ∷ 0 ∷ []) (opened answered (some 2) (4 ∷ 5 ∷ 6 ∷ []))).tasks
    ≤ 2
play-bound_example = play-bound answered 2 (4 ∷ 5 ∷ 6 ∷ []) (0 ∷ 1 ∷ 2 ∷ 0 ∷ [])

-- With two permits the third task is passed over.
play-three :
    active (play answered (0 ∷ 1 ∷ 2 ∷ []) (opened answered (some 2) (4 ∷ 5 ∷ 6 ∷ []))).tasks ≡ 2
unfolding play resume_at
play-three = refl

-- A client that gives the answers of a list.
abbrev scripted : Chat (List (Option String))
scripted messages [] = (err index_error, [])
scripted messages (content ∷ rest) = (ok content, rest)

abbrev only_braces : OutputSchema ℕ
only_braces = record {
  model_validate_json = λ raw. if raw == "{}" then some 7 else none;
  schema_text = "{}";
}

-- Of three attempts the second is accepted.
chat_structured-second :
    chat_structured scripted only_braces (λ t. t) [] 3 (none ∷ some "{}" ∷ some "x" ∷ [])
    ≡ (ok 7, some "x" ∷ [])
unfolding chat_structured attempt_from request ◌>>=◌
chat_structured-second = refl

chat_structured_contract_example :
    Ending scripted only_braces
      (λ t. t)
      []
      3
      0
      (none ∷ some "{}" ∷ [])
      (chat_structured scripted only_braces (λ t. t) [] 3 (none ∷ some "{}" ∷ []))
chat_structured_contract_example =
    chat_structured_contract scripted only_braces (λ t. t) [] 3 (none ∷ some "{}" ∷ [])
