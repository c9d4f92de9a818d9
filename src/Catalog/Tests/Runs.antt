-- ===== src/Catalog/Tests/Runs.antt =====
-- Runs of the evaluation on a small catalog, and the theorems about them.
use mujeeb24_backend_go.Common.{
  ℕ, ◌<◌, String, ◌==◌, ap, Bool, Result, eqb, ◌||◌, ◌≡◌, refl, true, false, [], ◌∷◌, ok, err,
  length, ltb, arith, if◌then◌else◌,
}
use mujeeb24_backend_go.Common.Int.{pos}
use mujeeb24_backend_go.Catalog.Session.{
  CatalogPage, out_of_fuel, Controller, no_token_progress, catalog_changed_during_final,
}
use mujeeb24_backend_go.Catalog.Samples.{stock, shirt, sizes}
use mujeeb24_backend_go.Catalog.Tests.{three_items, demo, question, batch_of, candidate}
use mujeeb24_backend_go.Catalog.Batches.{run_batch}
use mujeeb24_backend_go.Catalog.Batches.Life.{Life, run_batch-Life}
use mujeeb24_backend_go.Catalog.Pages.{
  run_paged_catalog_evaluation, run_catalog_evaluation, evaluation_code,
}
use mujeeb24_backend_go.Catalog.Pages.Fresh.{RunResult, run_paged_catalog_evaluation_lem}
use mujeeb24_backend_go.Catalog.Pages.Ends.{Ends, CursorsAdvance, run_paged_catalog_evaluation-Ends}

-- An evaluator that selects the shirt in the first batch, and whose final request shrinks while calls are made.
abbrev shopper : Controller Unit Unit Unit Unit
shopper = record demo {
  evaluated = λ b h. ok (record {
    batch_number = b.batch_number;
    candidates =
        if eqb b.batch_number 1 || b.reduction
        then candidate "shirt" [] ("shirt_any" ∷ []) ∷ []
        else [];
    usage = tt;
  });
  records_usage = true;
  final_tokens = λ f p h. ok (pos (if ltb (length h) 16 then 9000 else 100));
}

selects_shirt :
    (run_catalog_evaluation shopper question true 2 []).0
    ≡ ok (tt, record stock { items = shirt ∷ [] })
unfolding evaluation_code
selects_shirt = refl

abbrev shrinking : Controller Unit Unit Unit Unit
shrinking = record shopper { final_tokens = λ f p h. ok (pos 9000) }

makes_no_progress :
    (run_catalog_evaluation shrinking question true 2 []).0
    ≡ err (no_token_progress (pos 9000) (pos 9000))
unfolding evaluation_code
makes_no_progress = refl

-- The revision changes while the final model answers.
abbrev changing : Controller Unit Unit Unit Unit
changing = record shopper { revision = λ b h. ok (if ltb (length h) 17 then "r1" else "r2") }

refuses_stale :
    (run_catalog_evaluation changing question true 2 []).0 ≡ err catalog_changed_during_final
unfolding evaluation_code
refuses_stale = refl

run_batch-Life_example :
    Life shopper question true
      (batch_of 1 (sizes ∷ []) (shirt ∷ []))
      []
      (run_batch shopper question true (batch_of 1 (sizes ∷ []) (shirt ∷ [])) [])
run_batch-Life_example =
    run_batch-Life shopper question true (batch_of 1 (sizes ∷ []) (shirt ∷ [])) []

run_paged_catalog_evaluation_example :
    RunResult shopper question [] (run_paged_catalog_evaluation shopper question 2 [])
run_paged_catalog_evaluation_example = run_paged_catalog_evaluation_lem shopper question 2 []

-- A catalog of two pages.
abbrev first_page : CatalogPage
first_page = record { projection = stock; next_cursor = "second"; has_more = true }

abbrev second_page : CatalogPage
second_page = record { projection = three_items; next_cursor = ""; has_more = false }

abbrev paged : Controller Unit Unit Unit Unit
paged = record shopper {
  page = λ r h. ok (if r.cursor == "" then first_page else second_page);
  final_tokens = λ f p h. ok (pos 100);
}

reads_two_pages :
    (run_catalog_evaluation paged question true 3 []).0
    ≡ ok (tt, record stock { items = shirt ∷ [] })
unfolding evaluation_code
reads_two_pages = refl

-- With fuel for one page only, the run stops.
lacks_fuel : (run_paged_catalog_evaluation paged question 1 []).0 ≡ err out_of_fuel
unfolding evaluation_code
lacks_fuel = refl

abbrev pages_left : String → ℕ
pages_left cursor = if cursor == "" then 1 else 0

paged-CursorsAdvance : CursorsAdvance paged question pages_left
paged-CursorsAdvance cursor h page e more = by_cursor (cursor == "") (answered e)
  where
    answered : {p q : CatalogPage} → ◌≡◌ {A = Result String CatalogPage} (ok p) (ok q) → q ≡ p
    answered e' = cc

    by_cursor :
        (b : Bool)
        → page ≡ (if b then first_page else second_page)
        → pages_left page.next_cursor < (if b then 1 else 0)
    by_cursor true p = rw (ap (λ q. q.next_cursor) p) (omega arith)
    by_cursor false p = absurd (cc (p, more))

run_paged_catalog_evaluation-Ends_example :
    Ends paged question pages_left (run_paged_catalog_evaluation paged question 2 [])
run_paged_catalog_evaluation-Ends_example =
    run_paged_catalog_evaluation-Ends paged question pages_left paged-CursorsAdvance 2 []
      (omega arith)
