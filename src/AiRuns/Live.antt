-- ===== src/AiRuns/Live.antt =====
-- What StartRun answers.
use mujeeb24_backend_go.Common.{
  ℕ, String, ◌==◌, ==_iff, ◌≡◌, refl, subst, Bool, true, false, not, ◌&&◌, ◌||◌, [], ◌∷◌, Option,
  none, some, Result, ok, err, arith, Bool-cases, inl, inr, All, if-cases, ◌⊎◌,
}
use mujeeb24_backend_go.Common.Text.{trim_space}
use mujeeb24_backend_go.AiRuns.{
  AiRunRecord, AiRunError, AiRuns, required_fields, unsupported_agent_role, no_rows,
  idempotency_violation, invalid_input, is_terminal_run_status, is_run, has_key, query_row, scanned,
  get_run, create_run, violates, get_by_idempotency_key,
}
use mujeeb24_backend_go.AiRuns.Lifecycle.{StartRunInput, received_run, resume_or_create, start_run}
use mujeeb24_backend_go.AiRuns.Rows.{some-get_run}
use mujeeb24_backend_go.AiRuns.Traced.{Unrivalled, rivals, IsConsistent}

All-found {κ} :
    (P : AiRunRecord → Type κ) (matches : AiRunRecord → Bool) (t : AiRuns) (r : AiRunRecord)
    → All P t
    → query_row matches t ≡ some r
    → P r
unfolding query_row
All-found P matches [] r h e = cc
All-found P matches (a ∷ t) r h e = elim (Bool-cases (matches a)) [
  | inl m ↦ subst P (first (rw m at e)) h.0
  | inr n ↦ All-found P matches t r h.1 (rw n at e)
]
  where
    first : ◌≡◌ {A = Option AiRunRecord} (some a) (some r) → a ≡ r
    first e = cc

some_self : (r : AiRunRecord) → is_run r.business_id r.id r ≡ true
some_self r = ground (arith, ==_iff r.business_id r.business_id, ==_iff r.id r.id)

-- The row that a key finds is the row that its identifier finds.
key_id :
    (b k : String) (t : AiRuns) (r : AiRunRecord)
    → Unrivalled t
    → query_row (has_key b k) t ≡ some r
    → query_row (is_run b r.id) t ≡ some r
unfolding query_row
key_id b k [] r u h = cc
key_id b k (a ∷ t) r u h = elim (Bool-cases (has_key b k a)) [
  | inl m ↦ ground (arith, ==_iff a.business_id b, ==_iff r.id r.id, ==_iff a.id r.id)
  | inr n ↦
      let found : query_row (has_key b k) t ≡ some r = rw n at h in
      let apart : rivals a r ≡ false =
        All-found (λ y. rivals a y ≡ false) (has_key b k) t r u.0 found in
      let rest = key_id b k t r u.1 found in ground (arith)
]

module _ (now : ℕ) (input : StartRunInput) (t : AiRuns) where
  -- The run that the database finds first under the key has not ended.
  abbrev pub is_live : Option AiRunRecord → Bool
  is_live none = false
  is_live (some r) = not (r.id == "") && not (is_terminal_run_status r.status)

  abbrev pub first_of_key : Option AiRunRecord
  first_of_key = query_row (has_key input.business_id input.idempotency_key) t

  abbrev pub is_valid_start : Bool
  is_valid_start =
      not (trim_space input.business_id == "")
      && not (trim_space input.idempotency_key == "")
      && ((input.agent_role == "customer_sales")
          || (input.agent_role == "merchant_catalog_authoring"))

  -- A field that the table wants is empty.
  abbrev pub lacks_field : Bool
  lacks_field =
      (input.new_run_id == "")
      || (input.business_id == "")
      || (input.idempotency_key == "")
      || (input.agent_role == "")

  -- The answer, with the table that is left.
  abbrev pub Started : Result AiRunError AiRunRecord × AiRuns → Type 0
  Started (ok r, t') =
      (is_valid_start ≡ true)
      × (((is_live first_of_key ≡ true) × (first_of_key ≡ some r) × (t' ≡ t))
          ⊎ ((is_live first_of_key ≡ false)
              × (lacks_field ≡ false)
              × (violates (received_run now input) t ≡ false)
              × (r ≡ received_run now input)
              × (t' ≡ r ∷ t)))
  Started (err required_fields, t') =
      (((trim_space input.business_id == "") || (trim_space input.idempotency_key == "")) ≡ true)
      × (t' ≡ t)
  Started (err unsupported_agent_role, t') =
      (((input.agent_role == "customer_sales")
          || (input.agent_role == "merchant_catalog_authoring"))
        ≡ false)
      × (t' ≡ t)
  Started (err invalid_input, t') =
      (is_valid_start ≡ true) × (is_live first_of_key ≡ false) × (lacks_field ≡ true) × (t' ≡ t)
  Started (err idempotency_violation, t') =
      (is_valid_start ≡ true)
      × (is_live first_of_key ≡ false)
      × (lacks_field ≡ false)
      × (violates (received_run now input) t ≡ true)
      × (t' ≡ t)
  Started (err _, t') = ⊥

  created-Started :
      is_valid_start ≡ true
      → is_live first_of_key ≡ false
      → Started (create_run (received_run now input) t)
  unfolding create_run get_run query_row scanned
  created-Started valid ended =
      if-cases {A = Result AiRunError AiRunRecord × AiRuns}
        ((input.new_run_id == "")
          || (input.business_id == "")
          || (input.idempotency_key == "")
          || (input.agent_role == ""))
        (err invalid_input, t) _ Started (λ blank. (valid, ended, blank, refl))
        (λ given.
          if-cases {A = Result AiRunError AiRunRecord × AiRuns}
            (violates (received_run now input) t) (err idempotency_violation, t) _ Started
            (λ clash. (valid, ended, given, clash, refl))
            (λ fresh.
              rw (some_self (received_run now input))
                (valid, inr (ended, given, fresh, refl, refl))))

  resumed-Started :
      (o : Option AiRunRecord)
      → Unrivalled t
      → is_valid_start ≡ true
      → first_of_key ≡ o
      → Started (
          resume_or_create now input
            (elim o as (λ _. Result AiRunError AiRunRecord) [
              | none ↦ err no_rows
              | some r ↦ get_run input.business_id r.id t
            ])
            t)
  unfolding resume_or_create
  resumed-Started none u valid found = created-Started valid (rw found)
  resumed-Started (some r) u valid found =
      rw
        (some-get_run input.business_id r.id t r
          (key_id input.business_id input.idempotency_key t r u found))
        (if-cases {A = Result AiRunError AiRunRecord × AiRuns}
          (not (r.id == "") && not (is_terminal_run_status r.status)) (ok r, t)
          (create_run (received_run now input) t) Started
          (λ live. (valid, inl (rw found live, found, refl)))
          (λ ended. created-Started valid (rw found ended)))

  -- From a consistent table StartRun refuses an input whose business or key is blank, and one whose role is
  -- none of the two; else it answers the run that the database finds first under the key, if that has not
  -- ended, and leaves the table; else it adds the new run and answers it, unless a field is empty or an
  -- index forbids that: then, and only then, it fails with the error that tells this, and leaves the table.
  pub start_run-Started : IsConsistent t → Started (start_run now input t)
  unfolding start_run get_by_idempotency_key
  start_run-Started c =
      if-cases {A = Result AiRunError AiRunRecord × AiRuns}
        ((trim_space input.business_id == "") || (trim_space input.idempotency_key == ""))
        (err required_fields, t) _ Started (λ blank. (blank, refl))
        (λ given.
          if-cases {A = Result AiRunError AiRunRecord × AiRuns}
            (not (input.agent_role == "customer_sales")
              && not (input.agent_role == "merchant_catalog_authoring"))
            (err unsupported_agent_role, t) _ Started (λ other. (ground arith, refl))
            (λ known. resumed-Started first_of_key c.unrivalled (ground arith) refl))
