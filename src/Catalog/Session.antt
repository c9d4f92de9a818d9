-- ===== src/Catalog/Session.antt =====
-- The types that the controller exchanges with its ports, and how a run of it is modelled
-- (services/catalog_batch_controller.go, ports/customer_sales_contract.go, ports/ai_run_trace.go,
-- ports/catalog_ai_read.go).
-- A run talks to the database, the evaluator and the clock. It is a function of the calls that were
-- made so far, newest first, and each port answers by a function of them: so a port may answer the
-- same question differently later, as a catalog that changes does.
use mujeeb24_backend_go.Common.{
  ℕ, String, ◌≡◌, refl, ◌⊎◌, inl, inr, Bool, List, ◌∷◌, Option, Result, ok, err,
}
use mujeeb24_backend_go.Common.Int.{ℤ}
use mujeeb24_backend_go.Catalog.Projection.{
  CatalogAiProjection, CatalogAiBatchPayload, CatalogAiAttributeSchema,
}
use mujeeb24_backend_go.Catalog.Coverage.{CoverageError}

pub record CatalogBatchCandidate : Type 0 where
  pub item_id : String
  pub variant_ids : List String
  pub offer_ids : List String
  pub reason : String

pub record CatalogBatchResult (Usage : Type 0) : Type 0 where
  pub batch_number : ℕ
  pub candidates : List CatalogBatchCandidate
  pub usage : Usage

-- The timestamps are what the clock port returned.
pub record AiCatalogBatchRecord : Type 0 where
  pub id : String
  pub ai_run_id : String
  pub batch_number : ℕ
  pub status : String
  pub items_count : ℕ
  pub schemas_count : ℕ
  pub created_at : ℕ
  pub updated_at : ℕ

pub record AiCatalogBatchPatch : Type 0 where
  pub status : String
  pub candidate_count : Option ℕ
  pub failure_reason : Option String
  pub started_at : Option ℕ
  pub completed_at : Option ℕ

pub record CatalogAiProjectionRequest : Type 0 where
  pub business_id : String
  pub catalog_id : String
  pub limit : ℕ
  pub cursor : String

-- A page after `ProjectionFromBundles` and `appendCatalogRecordsToProjection`.
pub record CatalogPage : Type 0 where
  pub projection : CatalogAiProjection
  pub next_cursor : String
  pub has_more : Bool

pub record CatalogEvaluationInput (Context Contract : Type 0) : Type 0 where
  pub source_message_reference : String
  pub ai_run_id : String
  pub attempt_id : String
  pub business_id : String
  pub conversation_id : String
  pub catalog_scope : String
  pub customer_message : String
  pub conversation_context : Context
  pub entity_contract : Contract

pub record BatchEvaluationInput (Context Contract : Type 0) : Type 0 where
  pub ai_run_id : String
  pub attempt_id : String
  pub batch_number : ℕ
  pub business_id : String
  pub conversation_id : String
  pub customer_message : String
  pub conversation_context : Context
  pub entity_contract : Contract
  pub batch : CatalogAiBatchPayload
  pub reduction : Bool

pub record FinalEvaluationInput (Context Contract : Type 0) : Type 0 where
  pub source_message_reference : String
  pub ai_run_id : String
  pub attempt_id : String
  pub business_id : String
  pub conversation_id : String
  pub customer_message : String
  pub conversation_context : Context
  pub entity_contract : Contract
  pub candidate_results : List CatalogBatchCandidate

pub data CandidateError : Type 0 where
  unknown_item : String → CandidateError
  unknown_variant unknown_offer : String → String → CandidateError
  foreign_offer : String → String → String → CandidateError

-- The errors of the controller, without the texts that it puts in front of a port's error.
pub data CatalogError : Type 0 where
  port : String → CatalogError
  not_wired missing_business_or_run estimator_required : CatalogError
  item_exceeds_budget : String → ℤ → ℤ → CatalogError
  coverage : CoverageError → CatalogError
  invalid_evidence : ℕ → CandidateError → CatalogError
  cursor_did_not_advance : CatalogError
  coverage_incomplete : ℕ → ℕ → CatalogError
  catalog_changed_during_evaluation catalog_changed_during_final : CatalogError
  base_context_exceeds_budget : ℤ → ℤ → CatalogError
  no_token_progress : ℤ → ℤ → CatalogError
  reduction_rounds_exceeded : ℤ → CatalogError
  capability_not_terminal : CatalogError
  cancelled : CatalogError
  out_of_fuel : CatalogError

-- What a recorded usage belongs to; the source prints it into the correlation identifier.
pub data Phase : Type 0 where
  batch_phase candidate_reduction_batch_phase : ℕ → Phase
  final_evaluation_phase : Phase

-- A call of a port, with what it was given. The recording of a usage counts as one call.
pub data Call (Context Contract Usage : Type 0) : Type 0 where
  get_revision : String → Call Context Contract Usage
  list_projection_page : CatalogAiProjectionRequest → Call Context Contract Usage
  create_catalog_batch : AiCatalogBatchRecord → Call Context Contract Usage
  update_catalog_batch : String → AiCatalogBatchPatch → Call Context Contract Usage
  count_batch_tokens : BatchEvaluationInput Context Contract → Call Context Contract Usage
  evaluate_batch : BatchEvaluationInput Context Contract → Call Context Contract Usage
  count_final_tokens :
      FinalEvaluationInput Context Contract → CatalogAiProjection → Call Context Contract Usage
  final_evaluate :
      FinalEvaluationInput Context Contract → CatalogAiProjection → Call Context Contract Usage
  record_batch_usage : String → String → Usage → Phase → Call Context Contract Usage

-- A fallible computation that makes calls: what it returns, and all calls made until then.
abbrev pub Session : Type 0 → Type 0 → Type 0
Session Called A = List Called → Result CatalogError A × List Called

abbrev pub pure : {Called A : Type 0} → A → Session Called A
pure a h = (ok a, h)

abbrev pub fail : {Called A : Type 0} → CatalogError → Session Called A
fail e h = (err e, h)

infixl 5 ◌>>=◌ ◌>>◌
abbrev pub ◌>>=◌ :
    {Called A B : Type 0} → Session Called A → (A → Session Called B) → Session Called B
◌>>=◌ m f h = let (r, h') = m h in elim r [ ok a ↦ f a h' | err e ↦ (err e, h') ]

abbrev pub ◌>>◌ :
    {Called B : Type 0} → Session Called (Unit {0}) → Session Called B → Session Called B
m >> k = m >>= λ _. k

-- A port's error is passed on by the caller.
abbrev pub of_port {ℓ} : {A : Type ℓ} → Result String A → Result CatalogError A
of_port (ok a) = ok a
of_port (err e) = err (port e)

-- Makes a call: the port sees the calls before it.
abbrev pub perform :
    {Called A : Type 0} → Called → (List Called → Result String A) → Session Called A
perform c answer h = (of_port (answer h), c ∷ h)

-- A call whose error is dropped.
abbrev pub ignore : {Called A : Type 0} → Session Called A → Session Called (Unit {0})
ignore m h = (ok tt, (m h).1)

abbrev pub after :
    {Called A B : Type 0}
    → Result CatalogError A × List Called
    → (A → Session Called B)
    → Result CatalogError B × List Called
after (r, h') f = elim r [ ok a ↦ f a h' | err e ↦ (err e, h') ]

after_ok :
    {Called A B : Type 0} (r : Result CatalogError A × List Called) (f : A → Session Called B)
    {b : B} {k : List Called}
    → after r f ≡ (ok b, k)
    → (a : A) × (j : List Called) × (r ≡ (ok a, j)) × (f a j ≡ (ok b, k))
after_ok (ok a, j) f e = (a, j, refl, e)
after_ok (err x, j) f e = cc

-- A part of a successful run was successful.
pub bind_ok :
    {Called A B : Type 0} (m : Session Called A) (f : A → Session Called B) (h : List Called)
    {b : B} {k : List Called}
    → (m >>= f) h ≡ (ok b, k)
    → (a : A) × (j : List Called) × (m h ≡ (ok a, j)) × (f a j ≡ (ok b, k))
bind_ok m f h e = after_ok (m h) f e

after_err :
    {Called A B : Type 0} (r : Result CatalogError A × List Called) (f : A → Session Called B)
    {x : CatalogError} {k : List Called}
    → after r f ≡ (err x, k)
    → (r ≡ (err x, k)) ⊎ ((a : A) × (j : List Called) × (r ≡ (ok a, j)) × (f a j ≡ (err x, k)))
after_err (ok a, j) f e = inr (a, j, refl, e)
after_err (err y, j) f e = inl (cc)

-- A run that failed did so in its first part or in the rest.
pub bind_err :
    {Called A B : Type 0} (m : Session Called A) (f : A → Session Called B) (h : List Called)
    {x : CatalogError} {k : List Called}
    → (m >>= f) h ≡ (err x, k)
    → (m h ≡ (err x, k)) ⊎ ((a : A) × (j : List Called) × (m h ≡ (ok a, j)) × (f a j ≡ (err x, k)))
bind_err m f h e = after_err (m h) f e

-- The ports and the settings of a `CatalogBatchController`. `map_order` is the order in which Go
-- iterates over the map of the schemas.
pub record Controller (Context Contract Usage Decision : Type 0) : Type 0 where
  pub token_budget : ℤ
  pub estimates_batches : Bool
  pub estimates_final : Bool
  pub records_usage : Bool
  pub map_order : List CatalogAiAttributeSchema → List CatalogAiAttributeSchema
  pub now : List (Call Context Contract Usage) → ℕ
  pub new_id : List (Call Context Contract Usage) → String
  pub context_cancelled : List (Call Context Contract Usage) → Bool
  pub revision : String → List (Call Context Contract Usage) → Result String String
  pub page :
      CatalogAiProjectionRequest → List (Call Context Contract Usage) → Result String CatalogPage
  pub created :
      AiCatalogBatchRecord → List (Call Context Contract Usage) → Result String AiCatalogBatchRecord
  pub updated :
      String → AiCatalogBatchPatch → List (Call Context Contract Usage) → Result String (Unit {0})
  pub batch_tokens :
      BatchEvaluationInput Context Contract → List (Call Context Contract Usage) → Result String ℤ
  pub evaluated :
      BatchEvaluationInput Context Contract
      → List (Call Context Contract Usage)
      → Result String (CatalogBatchResult Usage)
  pub final_tokens :
      FinalEvaluationInput Context Contract
      → CatalogAiProjection
      → List (Call Context Contract Usage)
      → Result String ℤ
  pub final_answer :
      FinalEvaluationInput Context Contract
      → CatalogAiProjection
      → List (Call Context Contract Usage)
      → Result String (Decision × Usage)
  pub is_terminal : Decision → Bool
  -- `err.Error()`, as fmt prints it.
  pub error_text : CandidateError → String

-- What holds of a run holds of it however its first part ends.
pub bind_case :
    {Called A B : Type 0} (m : Session Called A) (f : A → Session Called B) (h : List Called)
    (Q : Result CatalogError B × List Called → Type 0)
    → ((x : CatalogError) (k : List Called) → m h ≡ (err x, k) → Q (err x, k))
    → ((a : A) (k : List Called) → m h ≡ (ok a, k) → Q (f a k))
    → Q ((m >>= f) h)
bind_case {Called = Called} {A = A} m f h Q failed passed = by_first (m h) refl
  where
    by_first : (r : Result CatalogError A × List Called) → m h ≡ r → Q (after r f)
    by_first (ok a, k) e = passed a k e
    by_first (err x, k) e = failed x k e

pub perform_case :
    {Called A B : Type 0} (call : Called) (answer : List Called → Result String A)
    (f : A → Session Called B) (h : List Called) (Q : Result CatalogError B × List Called → Type 0)
    → ((x : String) → answer h ≡ err x → Q (err (port x), call ∷ h))
    → ((a : A) → answer h ≡ ok a → Q (f a (call ∷ h)))
    → Q ((perform call answer >>= f) h)
perform_case {Called = Called} {A = A} call answer f h Q failed passed = by_answer (answer h) refl
  where
    by_answer : (r : Result String A) → answer h ≡ r → Q (after (of_port r, call ∷ h) f)
    by_answer (ok a) e = passed a e
    by_answer (err x) e = failed x e
