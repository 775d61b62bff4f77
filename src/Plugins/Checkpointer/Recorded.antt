-- ===== src/Plugins/Checkpointer/Recorded.antt =====
-- The rows that the observations of a run add to the checkpointer's table.
use perpetua_core.Prelude.{
  String, ◌≡◌, refl, Bool, true, false, Option, none, some, List, [], ◌∷◌, ◌++◌, ◌==◌,
  if◌then◌else◌, ◌∙◌, sym, ap, subst, append_assoc, append-nil, Bool-cases, ◌⊎◌, inl, inr,
  Option-cases,
}
use perpetua_core.Errors.{Exception, Result, ok, err, Result-cases}
use perpetua_core.Exec.{pure, ◌>>=◌}
use perpetua_core.Exec.Triple.{Holds, Holds-weaken}
use perpetua_core.Graph.{GraphObservation}
use perpetua_core.Plugins.Checkpointer.{
  Checkpoint, SqliteCheckpointer, is_node_end, select_latest, save, on_observation,
}

pub some-injective : {A : Type 0} {a b : A} → some a ≡ some b → a ≡ b
some-injective h = cc

pub err-ok : {A : Type 0} {e : Exception} {a : A} → err e ≡ ok a → ⊥
err-ok h = cc

-- The later of two finds.
abbrev pub or_earlier : {A : Type 0} → Option A → Option A → Option A
or_earlier (some later) earlier = some later
or_earlier none earlier = earlier

pub select_latest-++ :
    (session : String) (xs ys : List Checkpoint)
    → select_latest session (xs ++ ys)
      ≡ or_earlier (select_latest session ys) (select_latest session xs)
unfolding select_latest
select_latest-++ session [] ys = elim (Option-cases (select_latest session ys)) [
  | inl h ↦ rw h refl
  | inr (r, h) ↦ rw h refl
]
select_latest-++ session (x ∷ xs) ys = elim (Option-cases (select_latest session ys)) [
  | inl h ↦ rw (select_latest-++ session xs ys, h) refl
  | inr (r, h) ↦ rw (select_latest-++ session xs ys, h) refl
]

module _ {S L : Type 0} (checkpointer : SqliteCheckpointer S L) where
  -- The state of one observation, if a checkpoint of the session is made of it.
  unfoldable pub checkpoint_of : String → GraphObservation S → Option S
  checkpoint_of session o = elim (is_node_end o.event.kind) [
    | false ↦ none
    | true ↦ elim o.event.node [
      | none ↦ none
      | some node ↦ if checkpointer.json.session_of o.state == session then some o.state else none
    ]
  ]

  -- The state of the session's last completed node.
  abbrev pub last_checkpoint : String → List (GraphObservation S) → Option S
  last_checkpoint session [] = none
  last_checkpoint session (o ∷ os) =
      or_earlier (last_checkpoint session os) (checkpoint_of session o)

  -- A row that holds the text of a state, or neither.
  abbrev pub Matches : Option S → Option Checkpoint → Type 0
  Matches none none = Unit
  Matches none (some row) = ⊥
  Matches (some s) none = ⊥
  Matches (some s) (some row) = checkpointer.json.model_dump_json s ≡ ok row.state_json

  Matches-or_earlier :
      (late early : Option S) (late_row early_row : Option Checkpoint)
      → Matches late late_row
      → Matches early early_row
      → Matches (or_earlier late early) (or_earlier late_row early_row)
  Matches-or_earlier none early none early_row h k = k
  Matches-or_earlier none early (some row) early_row h k = absurd h
  Matches-or_earlier (some s) early none early_row h k = absurd h
  Matches-or_earlier (some s) early (some row) early_row h k = h

  -- The rows that observations have added, by what each session finds in them.
  pub record Recorded (os : List (GraphObservation S)) (old rows : List Checkpoint) : Type 0 where
    pub added : List Checkpoint
    pub grown : rows ≡ old ++ added
    pub found :
        (session : String) → Matches (last_checkpoint session os) (select_latest session added)

  pub Recorded-nothing :
      (os : List (GraphObservation S)) (rows : List Checkpoint)
      → ((session : String) → last_checkpoint session os ≡ none)
      → Recorded os rows rows
  unfolding select_latest
  Recorded-nothing os rows h = record {
    added = [];
    grown = sym (append-nil rows);
    found = λ session. rw (h session) tt;
  }

  pub Recorded-cons :
      (o : GraphObservation S) (os : List (GraphObservation S)) (old mid new : List Checkpoint)
      → Recorded (o ∷ []) old mid
      → Recorded os mid new
      → Recorded (o ∷ os) old new
  Recorded-cons o os old mid new first rest = record {
    added = first.added ++ rest.added;
    grown =
        rest.grown
        ∙ ap (λ rows. rows ++ rest.added) first.grown
        ∙ append_assoc old first.added rest.added;
    found = λ session.
        subst (Matches (last_checkpoint session (o ∷ os)))
          (sym (select_latest-++ session first.added rest.added))
          (Matches-or_earlier (last_checkpoint session os) (checkpoint_of session o)
            (select_latest session rest.added) (select_latest session first.added)
            (rest.found session) (first.found session));
  }

  if-Matches :
      (b : Bool) (s : S) (row : Checkpoint)
      → checkpointer.json.model_dump_json s ≡ ok row.state_json
      → Matches (if b then some s else none) (if b then some row else none)
  if-Matches true s row h = h
  if-Matches false s row h = tt

  abbrev row_of : S → String → String → Checkpoint
  row_of s node state_json = record {
    session_id = checkpointer.json.session_of s;
    node = node;
    state_json = state_json;
  }

  module _ (o : GraphObservation S) (l : L) where
    abbrev Writes : Result (Unit {0}) × L → Type 0
    Writes =
        Holds (λ u l'. Recorded (o ∷ []) (checkpointer.table.rows l) (checkpointer.table.rows l'))
          (λ e l'. Unit)

    checkpoint_of-save :
        (session node : String)
        → is_node_end o.event.kind ≡ true
        → o.event.node ≡ some node
        → checkpoint_of session o
          ≡ (if checkpointer.json.session_of o.state == session then some o.state else none)
    unfolding checkpoint_of
    checkpoint_of-save session node ends at = rw (checkpoint_of, ends, at) refl

    insert-Recorded :
        (node state_json : String)
        → is_node_end o.event.kind ≡ true
        → o.event.node ≡ some node
        → checkpointer.json.model_dump_json o.state ≡ ok state_json
        → Writes (checkpointer.table.insert (row_of o.state node state_json) l)
    unfolding select_latest
    insert-Recorded node state_json ends at dumped =
        let row = row_of o.state node state_json in
        let (r, l') = checkpointer.table.insert row l in
        Holds-weaken r l'
          (λ u l₁ grown. record {
            added = row ∷ [];
            grown = grown;
            found = λ session.
                subst (λ s. Matches s (select_latest session (row ∷ [])))
                  (sym (checkpoint_of-save session node ends at))
                  (if-Matches (row.session_id == session) o.state row dumped);
          })
          (λ e l₁ h. tt) (checkpointer.table.insert-rows row l)

    save-Recorded :
        (node : String)
        → is_node_end o.event.kind ≡ true
        → o.event.node ≡ some node
        → Writes (save checkpointer o.state node l)
    unfolding save ◌>>=◌
    save-Recorded node ends at = elim (Result-cases (checkpointer.json.model_dump_json o.state)) [
      | inl (state_json, h) ↦ rw h (insert-Recorded node state_json ends at h)
      | inr (e, h) ↦ rw h tt
    ]

    -- Whether an observation is saved, and what the listener does with it.
    on_observation-cases :
        ((on_observation checkpointer o ≡ pure tt)
          × ((session : String) → checkpoint_of session o ≡ none))
        ⊎ ((node : String) × (on_observation checkpointer o ≡ save checkpointer o.state node)
            × (is_node_end o.event.kind ≡ true)
            × (o.event.node ≡ some node))
    unfolding on_observation checkpoint_of
    on_observation-cases = elim (Bool-cases (is_node_end o.event.kind)) [
      | inr h ↦ inl (rw (on_observation, h) refl, λ session. rw (checkpoint_of, h) refl)
      | inl h ↦ elim (Option-cases o.event.node) [
        | inl at ↦ inl (rw (on_observation, h, at) refl, λ session. rw (checkpoint_of, h, at) refl)
        | inr (node, at) ↦ inr (node, rw (on_observation, h, at) refl, h, at)
      ]
    ]

    pub on_observation-Recorded : Writes (on_observation checkpointer o l)
    on_observation-Recorded = elim on_observation-cases [
      | inl (m, none_found) ↦
          subst (λ k. Writes (k l)) (sym m)
            (Recorded-nothing (o ∷ []) (checkpointer.table.rows l) none_found)
      | inr (node, m, ends, at) ↦ subst (λ k. Writes (k l)) (sym m) (save-Recorded node ends at)
    ]
