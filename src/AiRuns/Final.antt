-- ===== src/AiRuns/Final.antt =====
-- A run that has ended is not written again.
use mujeeb24_backend_go.Common.{
  String, ◌==◌, ==_iff, ◌≡◌, refl, sym, ap, subst, ◌∙◌, true, false, List, [], ◌∷◌, Option, some,
  ok, arith, if-cases,
}
use mujeeb24_backend_go.AiRuns.{
  AiRunRecord, AiRuns, is_terminal_run_status, is_run, query_row, get_run, set_status,
}
use mujeeb24_backend_go.AiRuns.Lifecycle.{received_run, Call, answer, run_calls}
use mujeeb24_backend_go.AiRuns.Rows.{
  get_run-some, some-get_run, query_row-matches, query_row-set_rows, violates-id,
}
use mujeeb24_backend_go.AiRuns.Changes.{answer-Change}
use mujeeb24_backend_go.AiRuns.Moves.{Change, kept, created, moved}

-- The run that a key names is one run.
is_run-same :
    (b i c j : String) (r : AiRunRecord)
    → is_run b i r ≡ true
    → is_run c j r ≡ true
    → (b ≡ c) × (i ≡ j)
is_run-same b i c j r p q =
    ground (arith, ==_iff r.business_id b, ==_iff r.id i, ==_iff r.business_id c, ==_iff r.id j)

not_the_new :
    (b i : String) (new r : AiRunRecord)
    → is_run b i r ≡ true
    → (r.id == new.id) ≡ false
    → is_run b i new ≡ false
not_the_new b i new r m other = ground (arith, ==_iff r.id i, ==_iff new.id i, ==_iff r.id new.id)

module _ (business_id run_id : String) (r : AiRunRecord) where
  abbrev Found : AiRuns → Type 0
  Found t = query_row (is_run business_id run_id) t ≡ some r

  same_run :
      (b i : String) (t : AiRuns) (run : AiRunRecord)
      → Found t
      → is_run b i r ≡ true
      → query_row (is_run b i) t ≡ some run
      → run ≡ r
  same_run b i t run found m h =
      let e : (business_id ≡ b) × (run_id ≡ i) =
        is_run-same business_id run_id b i r
          (query_row-matches (is_run business_id run_id) t r found) m in
      some_injective (
        sym h
        ∙ ap (λ k. query_row (is_run k i) t) (sym e.0)
        ∙ ap (λ k. query_row (is_run business_id k) t) (sym e.1)
        ∙ found)
    where
      some_injective : ◌≡◌ {A = Option AiRunRecord} (some run) (some r) → run ≡ r
      some_injective e = cc

  Change-Found :
      {t t' : AiRuns} → is_terminal_run_status r.status ≡ true → Change t t' → Found t → Found t'
  unfolding query_row
  Change-Found ended kept found = found
  Change-Found ended (created {t} now input fresh) found =
      rw
        (not_the_new business_id run_id (received_run now input) r
          (query_row-matches (is_run business_id run_id) t r found)
          (violates-id (received_run now input) (is_run business_id run_id) t r fresh found))
        found
  Change-Found ended (moved {t} b i run db_now patch read live trace) found =
      query_row-set_rows (is_run business_id run_id) (is_run b i) (set_status db_now patch) t r
        (λ a. refl) found
      ∙ if-cases (is_run b i r) (set_status db_now patch r) r
          (λ a. ◌≡◌ {A = Option AiRunRecord} (some a) (some r))
          (λ m. absurd (clash (same_run b i t run found m (get_run-some b i t run read)) live))
          (λ n. refl)
    where
      clash : run ≡ r → is_terminal_run_status run.status ≡ false → ⊥
      clash e h =
          cc (ended, subst (λ (a : AiRunRecord). is_terminal_run_status a.status ≡ false) e h)

  calls-Found :
      (calls : List Call) (t : AiRuns)
      → is_terminal_run_status r.status ≡ true
      → Found t
      → Found (run_calls calls t)
  unfolding run_calls
  calls-Found [] t ended found = found
  calls-Found (c ∷ calls) t ended found =
      calls-Found calls (answer c t).1 ended (Change-Found ended (answer-Change c t) found)

  -- A run that is completed, failed or cancelled is found unchanged after any calls of the service,
  -- of StartRun with its identifier or its key too.
  pub run_calls-final :
      (calls : List Call) (t : AiRuns)
      → get_run business_id run_id t ≡ ok r
      → is_terminal_run_status r.status ≡ true
      → get_run business_id run_id (run_calls calls t) ≡ ok r
  run_calls-final calls t found ended =
      some-get_run business_id run_id (run_calls calls t) r
        (calls-Found calls t ended (get_run-some business_id run_id t r found))
