-- ===== src/MerchantAssist/Scan/Complete.antt =====
-- The scan is complete: what it returns summarises all records of all pages, and it always ends.
use mathlib.Core.Path.{subst}
use mujeeb24_backend_go.Common.{
  if-cases, ℕ, zero, suc, ◌+◌, ◌≤◌, ◌<◌, String, ◌==◌, ◌≡◌, refl, ap, Bool, true, false, ◌||◌, List,
  [], ◌∷◌, ◌++◌, append-nil, append_assoc, Option, none, some, Result, ok, err, ◌>>=◌, >>=-cases,
  arith, has, length, length-append, ltb, if◌then◌else◌,
}
use mujeeb24_backend_go.MerchantAssist.Scan.{
  ListResult, Projected, AssistListScan, ScanError, cancelled, read_unavailable, project_failed,
  invalid_source_evidence, full_scan_too_large, out_of_fuel, assist_scan_max_records, empty_scan,
  count_record, add_row, projected, add_records, is_invalid, loaded, validated, read_page,
  scan_pages, scan_all_pages,
}
use mujeeb24_backend_go.MerchantAssist.Scan.Summary.{IsSummary, IsSummary-count}

or_false : (a b : Bool) → (a || b) ≡ false → b ≡ false
or_false true b e = cc
or_false false b e = e

err_injective :
    {A : Type 0} {x y : ScanError} → ◌≡◌ {A = Result ScanError A} (err x) (err y) → x ≡ y
err_injective e = cc

module _ {Row Link T : Type 0} (project : T → Result String (Projected Row Link)) where
  -- The records project to these rows, one by one.
  abbrev pub Projects : List T → List (Projected Row Link) → Type 0
  Projects [] [] = Unit
  Projects (t ∷ ts) (r ∷ rs) = (project t ≡ ok r) × Projects ts rs
  Projects _ _ = ⊥

  Projects-length :
      (ts : List T) (rs : List (Projected Row Link)) → Projects ts rs → length rs ≡ length ts
  Projects-length [] [] p = refl
  Projects-length (t ∷ ts) (r ∷ rs) p = ap suc (Projects-length ts rs p.1)
  Projects-length [] (r ∷ rs) p = absurd p
  Projects-length (t ∷ ts) [] p = absurd p

  module _ (load : String → List String → Result String (ListResult T))
      (context_cancelled : List String → Bool) where
    -- The pages from a cursor to the last, when `history` was loaded before, and their rows.
    pub data Scanned : String → List String → List (Projected Row Link) → Type 0 where
      last :
          (cursor : String) (history : List String) (page : ListResult T)
          (rs : List (Projected Row Link))
          → load cursor history ≡ ok page
          → page.has_more ≡ false
          → Projects page.items rs
          → Scanned cursor history rs
      more :
          (cursor : String) (history : List String) (page : ListResult T)
          (rs qs : List (Projected Row Link))
          → load cursor history ≡ ok page
          → page.has_more ≡ true
          → Projects page.items rs
          → Scanned page.next_cursor (cursor ∷ history) qs
          → Scanned cursor history (rs ++ qs)

    -- How the scan fails.
    abbrev pub ScanFailure : ScanError → Type 0
    ScanFailure cancelled = (history : List String) × (context_cancelled history ≡ true)
    ScanFailure (read_unavailable e) =
        (cursor : String) × (history : List String) × (load cursor history ≡ err e)
    ScanFailure (project_failed e) = (t : T) × (project t ≡ err e)
    ScanFailure invalid_source_evidence = Unit
    ScanFailure full_scan_too_large = Unit
    ScanFailure out_of_fuel = ⊥

    abbrev RowResult :
        List (Projected Row Link)
        → Projected Row Link
        → Result ScanError (AssistListScan Row Link)
        → Type 0
    RowResult rs r (ok s') = IsSummary (rs ++ r ∷ []) s'
    RowResult rs r (err e) = ScanFailure e

    add_row-RowResult :
        (rs : List (Projected Row Link)) (s : AssistListScan Row Link) (r : Projected Row Link)
        → IsSummary rs s
        → RowResult rs r (add_row r.row r s)
    unfolding add_row
    add_row-RowResult rs s r i = by_row r.row refl
      where
        by_tests :
            (row : Row) (refused large : Bool)
            → r.row ≡ some row
            → ((r.id == "") || has r.id s.seen_ids) ≡ refused
            → ltb assist_scan_max_records (s.total + 1) ≡ large
            → RowResult rs r (
                if refused
                then err invalid_source_evidence
                else if large
                then err full_scan_too_large
                else ok (count_record row r s))
        by_tests row true large e t u = tt
        by_tests row false true e t u = tt
        by_tests row false false e t u =
            IsSummary-count rs s r row i e (or_false (r.id == "") (has r.id s.seen_ids) t)
              (ground arith)

        by_row : (o : Option Row) → r.row ≡ o → RowResult rs r (add_row o r s)
        by_row none e = tt
        by_row (some row) e =
            by_tests row ((r.id == "") || has r.id s.seen_ids)
              (ltb assist_scan_max_records (s.total + 1)) e refl refl

    projected_ok :
        (p : Result String (Projected Row Link)) (r : Projected Row Link)
        → projected project p ≡ ok r
        → p ≡ ok r
    unfolding projected
    projected_ok (ok q) r e = cc
    projected_ok (err x) r e = cc

    projected_err : (t : T) (x : ScanError) → projected project (project t) ≡ err x → ScanFailure x
    unfolding projected
    projected_err t x e = by_projection (project t) refl e
      where
        by_projection :
            (p : Result String (Projected Row Link))
            → project t ≡ p
            → projected project p ≡ err x
            → ScanFailure x
        by_projection (ok r) q e' = cc
        by_projection (err y) q e' = subst ScanFailure (err_injective e') (t, q)

    abbrev RecordsResult :
        List T → List (Projected Row Link) → Result ScanError (AssistListScan Row Link) → Type 0
    RecordsResult ts rs (ok s') =
        (new : List (Projected Row Link)) × Projects ts new × IsSummary (rs ++ new) s'
    RecordsResult ts rs (err e) = ScanFailure e

    RecordsResult-cons :
        (t : T) (ts : List T) (r : Projected Row Link) (rs : List (Projected Row Link))
        (o : Result ScanError (AssistListScan Row Link))
        → project t ≡ ok r
        → RecordsResult ts (rs ++ r ∷ []) o
        → RecordsResult (t ∷ ts) rs o
    RecordsResult-cons t ts r rs (ok s') e (new, p, i) =
        (r ∷ new, (e, p), rw (append_assoc rs (r ∷ []) new) at i)
    RecordsResult-cons t ts r rs (err x) e f = f

    add_records-RecordsResult :
        (ts : List T) (rs : List (Projected Row Link)) (s : AssistListScan Row Link)
        → IsSummary rs s
        → RecordsResult ts rs (add_records project ts s)
    unfolding add_records
    add_records-RecordsResult [] rs s i = ([], tt, rw append-nil i)
    add_records-RecordsResult (t ∷ ts) rs s i =
        >>=-cases (projected project (project t))
          (λ r. add_row r.row r s >>= λ s'. add_records project ts s') (RecordsResult (t ∷ ts) rs)
          (λ x e. projected_err t x e)
          (λ r e.
            >>=-cases (add_row r.row r s) (λ s'. add_records project ts s')
              (RecordsResult (t ∷ ts) rs)
              (λ x e'. subst (RowResult rs r) e' (add_row-RowResult rs s r i))
              (λ s' e'. RecordsResult-cons t ts r rs _ (projected_ok (project t) r e) (
                add_records-RecordsResult ts (rs ++ r ∷ []) s'
                  (subst (RowResult rs r) e' (add_row-RowResult rs s r i)))))

    abbrev PageResult :
        String → List String → List String → Result ScanError (ListResult T) → Type 0
    PageResult cursor seen_cursors history (ok page) =
        (load cursor history ≡ ok page) × (is_invalid page cursor seen_cursors ≡ false)
    PageResult cursor seen_cursors history (err e) = ScanFailure e

    read_page-PageResult :
        (cursor : String) (seen_cursors history : List String)
        → PageResult cursor seen_cursors history
            (read_page project load context_cancelled cursor seen_cursors history)
    unfolding read_page loaded validated
    read_page-PageResult cursor seen_cursors history = by_context (context_cancelled history) refl
      where
        by_page :
            (page : ListResult T)
            → load cursor history ≡ ok page
            → (b : Bool) → is_invalid page cursor seen_cursors ≡ b
            → PageResult cursor seen_cursors history
                (if b then err invalid_source_evidence else ok page)
        by_page page e true v = tt
        by_page page e false v = (e, v)

        by_load :
            (l : Result String (ListResult T))
            → load cursor history ≡ l
            → PageResult cursor seen_cursors history (
                loaded project load context_cancelled l >>= λ page.
                validated project load context_cancelled page cursor seen_cursors)
        by_load (ok page) e = by_page page e (is_invalid page cursor seen_cursors) refl
        by_load (err x) e = (cursor, history, e)

        by_context :
            (b : Bool)
            → context_cancelled history ≡ b
            → PageResult cursor seen_cursors history (
                if b
                then err cancelled
                else (loaded project load context_cancelled (load cursor history) >>= λ page.
                    validated project load context_cancelled page cursor seen_cursors))
        by_context true e = (history, e)
        by_context false e = by_load (load cursor history) refl

    -- The outcome of the scan from a cursor on, when the rows `rs` were counted before.
    abbrev pub ScanResult :
        String
        → List String
        → List (Projected Row Link)
        → Result ScanError (AssistListScan Row Link)
        → Type 0
    ScanResult cursor history rs (ok s') =
        (new : List (Projected Row Link)) × Scanned cursor history new × IsSummary (rs ++ new) s'
    ScanResult cursor history rs (err e) = ScanFailure e

    ScanResult-more :
        (cursor : String) (history : List String) (page : ListResult T)
        (rs new : List (Projected Row Link)) (o : Result ScanError (AssistListScan Row Link))
        → load cursor history ≡ ok page
        → page.has_more ≡ true
        → Projects page.items new
        → ScanResult page.next_cursor (cursor ∷ history) (rs ++ new) o
        → ScanResult cursor history rs o
    ScanResult-more cursor history page rs new (ok s') e m p (qs, q, i) =
        (new ++ qs, more cursor history page new qs e m p q, rw (append_assoc rs new qs) at i)
    ScanResult-more cursor history page rs new (err x) e m p f = f

    some_item :
        (page : ListResult T) (cursor : String) (seen_cursors : List String)
        → page.has_more ≡ true
        → is_invalid page cursor seen_cursors ≡ false
        → 1 ≤ length page.items
    some_item page cursor seen_cursors m v = by_items page.items v
      where
        by_items :
            (xs : List T)
            → is_invalid (record page { items = xs }) cursor seen_cursors ≡ false
            → 1 ≤ length xs
        by_items [] v' = absurd (cc (m, v'))
        by_items (x ∷ xs) v' = omega arith

    scan_pages-ScanResult :
        (fuel : ℕ) (cursor : String) (seen_cursors history : List String)
        (rs : List (Projected Row Link)) (s : AssistListScan Row Link)
        → assist_scan_max_records + 1 < fuel + length rs
        → IsSummary rs s
        → ScanResult cursor history rs
            (scan_pages project load context_cancelled fuel cursor seen_cursors history s)
    unfolding scan_pages
    scan_pages-ScanResult zero cursor seen_cursors history rs s enough i =
        absurd (omega (arith, i.bounded, enough))
    scan_pages-ScanResult (suc fuel) cursor seen_cursors history rs s enough i =
        let run = scan_pages project load context_cancelled fuel in
        >>=-cases (read_page project load context_cancelled cursor seen_cursors history)
          (λ page. add_records project page.items s >>= λ s'.
            if page.has_more
            then run page.next_cursor (page.next_cursor ∷ seen_cursors) (cursor ∷ history) s'
            else ok s')
          (ScanResult cursor history rs)
          (λ x e.
            subst (PageResult cursor seen_cursors history) e
              (read_page-PageResult cursor seen_cursors history))
          (λ page e.
            let (at_cursor, valid) =
              subst (PageResult cursor seen_cursors history) e
                (read_page-PageResult cursor seen_cursors history) in
            >>=-cases (add_records project page.items s)
              (λ s'.
                if page.has_more
                then run page.next_cursor (page.next_cursor ∷ seen_cursors) (cursor ∷ history) s'
                else ok s')
              (ScanResult cursor history rs)
              (λ x e'.
                subst (RecordsResult page.items rs) e'
                  (add_records-RecordsResult page.items rs s i))
              (λ s' e'.
                let (new, p, i') =
                  subst (RecordsResult page.items rs) e'
                    (add_records-RecordsResult page.items rs s i) in
                if-cases page.has_more
                  (run page.next_cursor (page.next_cursor ∷ seen_cursors) (cursor ∷ history) s')
                  (ok s') (ScanResult cursor history rs)
                  (λ m. ScanResult-more cursor history page rs new _ at_cursor m p (
                    scan_pages-ScanResult fuel page.next_cursor (page.next_cursor ∷ seen_cursors)
                      (cursor ∷ history) (rs ++ new) s'
                      (omega (
                        arith,
                        enough,
                        length-append rs new,
                        Projects-length page.items new p,
                        some_item page cursor seen_cursors m valid,
                      ))
                      i'))
                  (λ m. (new, last cursor history page new at_cursor m p, i'))))

    empty-IsSummary : IsSummary {Row = Row} {Link = Link} [] empty_scan
    empty-IsSummary = record {
      total = refl;
      bounded = omega arith;
      distinct = tt;
      seen = tt;
      sample = refl;
      linked = refl;
      counted = λ k named. refl;
    }

    -- The scan always ends. When it returns, the records of all pages from the first to the last
    -- were counted: their number is the total and within the bound, no identifier occurs twice, the
    -- sample and the links are the first ones, and each status is counted as often as it occurs. It
    -- fails as cancelled, unreadable or not projected only if the context was cancelled, a page could
    -- not be loaded, or a record could not be projected.
    pub scan_all_pages_lem : ScanResult "" [] [] (scan_all_pages project load context_cancelled)
    unfolding scan_all_pages
    scan_all_pages_lem =
        scan_pages-ScanResult (suc (suc assist_scan_max_records)) "" [] [] [] empty_scan
          (omega arith) empty-IsSummary
