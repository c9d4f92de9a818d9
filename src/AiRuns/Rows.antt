-- ===== src/AiRuns/Rows.antt =====
-- Reads of the table after its writes.
use mujeeb24_backend_go.Common.{
  String, ◌==◌, ◌≡◌, sym, ap, ◌∙◌, Bool, true, false, [], ◌∷◌, Option, none, some, ok, arith,
  if◌then◌else◌, Bool-cases, inl, inr,
}
use mujeeb24_backend_go.AiRuns.{
  AiRunRecord, AiRuns, is_run, query_row, scanned, get_run, violates, set_rows,
}

pub get_run-some :
    (business_id run_id : String) (t : AiRuns) (r : AiRunRecord)
    → get_run business_id run_id t ≡ ok r
    → query_row (is_run business_id run_id) t ≡ some r
unfolding get_run
get_run-some business_id run_id t r h = by_row (query_row (is_run business_id run_id) t) h
  where
    by_row : (o : Option AiRunRecord) → scanned o ≡ ok r → o ≡ some r
    by_row none e = cc
    by_row (some a) e = cc

pub some-get_run :
    (business_id run_id : String) (t : AiRuns) (r : AiRunRecord)
    → query_row (is_run business_id run_id) t ≡ some r
    → get_run business_id run_id t ≡ ok r
unfolding get_run
some-get_run business_id run_id t r h = ap scanned h

module _ (matches : AiRunRecord → Bool) where
  pub query_row-matches :
      (t : AiRuns) (r : AiRunRecord) → query_row matches t ≡ some r → matches r ≡ true
  unfolding query_row
  query_row-matches [] r h = cc
  query_row-matches (a ∷ t) r h = elim (Bool-cases (matches a)) [
    | inl m ↦ let e : a ≡ r = first (rw m at h) in ap matches (sym e) ∙ m
    | inr n ↦ query_row-matches t r (rw n at h)
  ]
    where
      first : ◌≡◌ {A = Option AiRunRecord} (some a) (some r) → a ≡ r
      first e = cc

  -- A write that keeps what the query looks at.
  pub query_row-set_rows :
      (written : AiRunRecord → Bool) (set : AiRunRecord → AiRunRecord) (t : AiRuns)
      (r : AiRunRecord)
      → ((a : AiRunRecord) → matches (set a) ≡ matches a)
      → query_row matches t ≡ some r
      → query_row matches (set_rows written set t) ≡ some (if written r then set r else r)
  unfolding query_row set_rows
  query_row-set_rows written set [] r keeps h = cc
  query_row-set_rows written set (a ∷ t) r keeps h =
      ground (arith, keeps a, query_row-set_rows written set t r keeps)

-- A new row that violates no index has another identifier than the rows that are found.
pub violates-id :
    (new : AiRunRecord) (matches : AiRunRecord → Bool) (t : AiRuns) (r : AiRunRecord)
    → violates new t ≡ false
    → query_row matches t ≡ some r
    → (r.id == new.id) ≡ false
unfolding violates query_row
violates-id new matches [] r v h = cc
violates-id new matches (a ∷ t) r v h = ground (arith, violates-id new matches t r)
