-- ===== src/Plugins/Structured/Attempts.antt =====
-- How often the model is asked, and what comes of it.
use perpetua_core.Prelude.{
  ℕ, zero, suc, ◌+◌, ◌<◌, ◌++◌, ◌∷◌, [], String, ◌≡◌, refl, Option, none, some, List, Dict, arith,
  ◌⊎◌, inl, inr, ap, sym, subst, Option-cases,
}
use perpetua_core.Value.{Value, text}
use perpetua_core.Errors.{Exception, value_error, Result, ok, err}
use perpetua_core.Exec.{Exec, then_run, ◌>>=◌}
use perpetua_core.Plugins.Structured.{
  Chat, OutputSchema, or_empty_text, request, accepted_or, attempt_from, chat_structured,
}

module _ {L T : Type 0} (chat : Chat L) (schema : OutputSchema T) (hint : String → String)
    (messages : List (Dict Value)) where
  -- What an attempt asks: the caller's messages, and the hint behind them except the first time.
  abbrev pub request_at : ℕ → List (Dict Value)
  request_at zero = messages
  request_at (suc attempt) =
      messages ++ (("role", text "user") ∷ ("content", text (hint schema.schema_text)) ∷ []) ∷ []

  request_lem : (attempt : ℕ) → request chat schema hint messages attempt ≡ request_at attempt
  unfolding request
  request_lem zero = refl
  request_lem (suc attempt) = refl

  -- Answers that do not fit the schema, one to each attempt from the given one on.
  abbrev pub Rejections : ℕ → ℕ → L → L → Type 0
  Rejections zero attempt l l' = l ≡ l'
  Rejections (suc k) attempt l l' =
      (content : Option String) × (l₁ : L) × (chat (request_at attempt) l ≡ (ok content, l₁))
      × (schema.model_validate_json (or_empty_text content) ≡ none)
      × Rejections k (suc attempt) l₁ l'

  -- How a run of attempts ends: with the first answer that fits, with the client's own exception,
  -- or with a ValueError when all the attempts are used.
  abbrev pub Ending : ℕ → ℕ → L → Result T × L → Type 0
  Ending attempts attempt l x =
      ((k : ℕ) × (l₁ : L) × (l₂ : L) × (content : Option String) × (t : T) × (k < attempts)
        × Rejections k attempt l l₁
        × (chat (request_at (attempt + k)) l₁ ≡ (ok content, l₂))
        × (schema.model_validate_json (or_empty_text content) ≡ some t)
        × (x ≡ (ok t, l₂)))
      ⊎ ((k : ℕ) × (l₁ : L) × (l₂ : L) × (e : Exception) × (k < attempts)
          × Rejections k attempt l l₁
          × (chat (request_at (attempt + k)) l₁ ≡ (err e, l₂))
          × (x ≡ (err e, l₂)))
      ⊎ ((l' : L) × Rejections attempts attempt l l' × (x ≡ (err value_error, l')))

  -- One more rejected answer in front.
  later :
      (left attempt : ℕ) (l l₁ : L) (content : Option String) (x : Result T × L)
      → chat (request_at attempt) l ≡ (ok content, l₁)
      → schema.model_validate_json (or_empty_text content) ≡ none
      → Ending left (suc attempt) l₁ x
      → Ending (suc left) attempt l x
  later left attempt l l₁ content x asked rejected
        (inl (k, l₂, l₃, c, t, few, before, last, valid, e)) =
      inl (
        suc k,
        l₂,
        l₃,
        c,
        t,
        omega (arith, few),
        (content, l₁, asked, rejected, before),
        subst (λ n. chat (request_at n) l₂ ≡ (ok c, l₃)) (omega arith) last,
        valid,
        e,
      )
  later left attempt l l₁ content x asked rejected
        (inr (inl (k, l₂, l₃, ex, few, before, last, e))) =
      inr (
        inl (
          suc k,
          l₂,
          l₃,
          ex,
          omega (arith, few),
          (content, l₁, asked, rejected, before),
          subst (λ n. chat (request_at n) l₂ ≡ (err ex, l₃)) (omega arith) last,
          e,
        ))
  later left attempt l l₁ content x asked rejected (inr (inr (l', before, e))) =
      inr (inr (l', (content, l₁, asked, rejected, before), e))

  module _ (left attempt : ℕ) (l : L)
      (rest : (l₁ : L)
        → Ending left
            (suc attempt)
            l₁
            (attempt_from chat schema hint messages left (suc attempt) l₁)) where
    abbrev again : Exec L T
    again = attempt_from chat schema hint messages left (suc attempt)

    abbrev weigh : Option T → Exec L T
    weigh o = accepted_or chat schema hint messages again o

    attempted :
        (x : Result (Option String) × L)
        → chat (request_at attempt) l ≡ x
        → Ending
            (suc left)
            attempt
            l
            (then_run (λ content. weigh (schema.model_validate_json (or_empty_text content))) x)
    attempted (err e, l₁) asked = inr (
        inl (
          0,
          l,
          l₁,
          e,
          omega arith,
          refl,
          subst (λ n. chat (request_at n) l ≡ (err e, l₁)) (omega arith) asked,
          refl,
        ))
    attempted (ok content, l₁) asked =
        elim (Option-cases (schema.model_validate_json (or_empty_text content))) [
          | inl rejected ↦
              subst (λ o. Ending (suc left) attempt l (weigh o l₁)) (sym rejected)
                (later left attempt l l₁ content (again l₁) asked rejected (rest l₁))
          | inr (t, valid) ↦ inl (
            0,
            l,
            l₁,
            content,
            t,
            omega arith,
            refl,
            subst (λ n. chat (request_at n) l ≡ (ok content, l₁)) (omega arith) asked,
            valid,
            ap (λ o. weigh o l₁) valid,
          )
        ]

  attempt_from-Ending :
      (attempts attempt : ℕ) (l : L)
      → Ending attempts attempt l (attempt_from chat schema hint messages attempts attempt l)
  unfolding attempt_from ◌>>=◌
  attempt_from-Ending zero attempt l = inr (inr (l, refl, refl))
  attempt_from-Ending (suc left) attempt l =
      attempted left attempt l (λ l₁. attempt_from-Ending left (suc attempt) l₁)
        (chat (request chat schema hint messages attempt) l)
        (ap (λ asked. chat asked l) (sym (request_lem attempt)))

  -- `chat_structured` asks the model at most `attempts` times, each time with the hint but the first,
  -- and ends in one of three ways: it returns the first answer that fits the schema, raises what the
  -- client raised, or raises a ValueError after `attempts` answers that do not fit.
  pub chat_structured_contract :
      (attempts : ℕ) (l : L)
      → Ending attempts 0 l (chat_structured chat schema hint messages attempts l)
  unfolding chat_structured
  chat_structured_contract attempts l = attempt_from-Ending attempts 0 l
