-- ===== src/Gossip/Tail.antt =====
-- What the end of the log shows after an event.
use perpetua_core.Prelude.{
  ℕ, suc, String, ◌≡◌, refl, Bool, true, List, [], ◌∷◌, ◌++◌, keep, ap, ◌∙◌, subst, Bool-cases, inl,
  inr,
}
use perpetua_core.Value.{Value}
use perpetua_core.Errors.{Result, ok, err}
use perpetua_core.Exec.{then_run}
use perpetua_core.Exec.Triple.{Holds}
use perpetua_core.Gossip.{
  GossipRow, GossipEvent, GossipBus, take, newest_first, insert_dumped, emit, select_tail, loaded,
  tail,
}

keep-snoc :
    {A : Type 0} (test : A → Bool) (xs : List A) (x : A)
    → test x ≡ true
    → keep test (xs ++ x ∷ []) ≡ keep test xs ++ x ∷ []
keep-snoc test [] x h = rw h refl
keep-snoc test (y ∷ ys) x h = elim (Bool-cases (test y)) [
  | inl e ↦ rw (e, keep-snoc test ys x h) refl
  | inr e ↦ rw (e, keep-snoc test ys x h) refl
]

newest_first-snoc :
    {A : Type 0} (xs : List A) (x : A) → newest_first (xs ++ x ∷ []) ≡ x ∷ newest_first xs
newest_first-snoc [] x = refl
newest_first-snoc (y ∷ ys) x = ap (λ zs. zs ++ y ∷ []) (newest_first-snoc ys x)

module _ {T L : Type 0} (bus : GossipBus T L) where
  select_tail-snoc :
      (since : T) (n : ℕ) (rows : List (GossipRow T)) (row : GossipRow T)
      → bus.is_later row.ts since ≡ true
      → select_tail bus since (suc n) (rows ++ row ∷ []) ≡ row ∷ select_tail bus since n rows
  unfolding select_tail
  select_tail-snoc since n rows row h =
      ap (λ kept. take (suc n) (newest_first kept))
        (keep-snoc (λ r. bus.is_later r.ts since) rows row h)
      ∙ ap (take (suc n)) (newest_first-snoc (keep (λ r. bus.is_later r.ts since) rows) row)

  inserted :
      (event_type : String) (ts : T) (dumped : Result String) (l l₁ : L)
      → insert_dumped bus event_type ts (dumped, l) ≡ (ok tt, l₁)
      → (payload_json : String) × (dumped ≡ ok payload_json)
        × (bus.table.rows l₁
            ≡ bus.table.rows l
              ++ record { ts = ts; event_type = event_type; payload_json = payload_json } ∷ [])
  inserted event_type ts (err e) l l₁ h = cc (ap (λ x. x.0) h)
  inserted event_type ts (ok payload_json) l l₁ h = (
    payload_json,
    refl,
    subst
        (Holds
          (λ u l'.
            bus.table.rows l'
            ≡ bus.table.rows l
              ++ record { ts = ts; event_type = event_type; payload_json = payload_json } ∷ [])
          (λ e l'. bus.table.rows l' ≡ bus.table.rows l))
        h
        (bus.table.insert-rows
          (record { ts = ts; event_type = event_type; payload_json = payload_json }) l),
  )

  -- After an event is emitted at a time later than `since`, with a payload that reads back as it
  -- was written: where the table is read without an error and what `tail` showed before is
  -- `events`, `tail` with a limit that is one higher shows the new event, with its time, type and
  -- payload, and then those.
  pub tail-emit :
      (event_type : String) (payload : Value) (since : T) (n : ℕ) (l l₁ l₂ : L)
      (events : List (GossipEvent T))
      → emit bus event_type payload l ≡ (ok tt, l₁)
      → bus.is_later (bus.time l) since ≡ true
      → ((t : String) → bus.json_dumps payload ≡ ok t → bus.json_loads t ≡ ok payload)
      → loaded bus (select_tail bus since n (bus.table.rows l)) ≡ ok events
      → bus.table.read l₁ ≡ (ok (bus.table.rows l₁), l₂)
      → tail bus since (suc n) l₁
        ≡ (ok (record { ts = bus.time l; event_type = event_type; payload = payload } ∷ events), l₂)
  unfolding emit tail loaded
  tail-emit event_type payload since n l l₁ l₂ events emitted is_later back before reads =
      let (payload_json, dumped, grown) =
        inserted event_type (bus.time l) (bus.json_dumps payload) l l₁ emitted in
      let row : GossipRow T = record {
        ts = bus.time l;
        event_type = event_type;
        payload_json = payload_json;
      } in
      ap (then_run (λ rows l'. (loaded bus (select_tail bus since (suc n) rows), l'))) reads
      ∙ ap (λ rows. (loaded bus (select_tail bus since (suc n) rows), l₂)) grown
      ∙ ap (λ rows. (loaded bus rows, l₂))
          (select_tail-snoc since n (bus.table.rows l) row is_later)
      ∙ rw (back payload_json dumped, before) refl
