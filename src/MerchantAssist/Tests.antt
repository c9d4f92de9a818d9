-- ===== src/MerchantAssist/Tests.antt =====
-- Runs of the paged scan, and the theorem about it at one of them.
use mujeeb24_backend_go.Common.{
  String, ◌==◌, ◌≡◌, refl, true, false, List, [], ◌∷◌, none, some, Result, ok, err, if◌then◌else◌,
}
use mujeeb24_backend_go.MerchantAssist.Scan.{
  ListResult, Projected, invalid_source_evidence, scan_all_pages, scan_code,
}
use mujeeb24_backend_go.MerchantAssist.Scan.Complete.{ScanResult, scan_all_pages_lem}

-- A record is its own identifier, row and status.
abbrev as_row : String → Result String (Projected String String)
as_row t = ok (record { row = some t; id = t; status = "open"; link = none })

abbrev two_pages : String → List String → Result String (ListResult String)
two_pages cursor history =
    if cursor == ""
    then ok (record { items = "a" ∷ "b" ∷ []; next_cursor = "next"; has_more = true })
    else ok (record { items = "c" ∷ []; next_cursor = ""; has_more = false })

-- A listing whose cursors alternate.
abbrev alternating : String → List String → Result String (ListResult String)
alternating cursor history =
    if cursor == "x"
    then ok (record { items = "a" ∷ []; next_cursor = "y"; has_more = true })
    else if cursor == "y"
    then ok (record { items = "b" ∷ []; next_cursor = "x"; has_more = true })
    else ok (record { items = "c" ∷ []; next_cursor = "x"; has_more = true })

counts_all :
    scan_all_pages as_row two_pages (λ history. false)
    ≡ ok (record {
      total = 3;
      statuses = ("open", 3) ∷ [];
      sample = "a" ∷ "b" ∷ "c" ∷ [];
      links = [];
      seen_ids = "c" ∷ "b" ∷ "a" ∷ [];
    })
unfolding scan_code
counts_all = refl

refuses_cycle : scan_all_pages as_row alternating (λ history. false) ≡ err invalid_source_evidence
unfolding scan_code
refuses_cycle = refl

scan_all_pages_example :
    ScanResult as_row two_pages
      (λ history. false)
      ""
      []
      []
      (scan_all_pages as_row two_pages (λ history. false))
scan_all_pages_example = scan_all_pages_lem as_row two_pages (λ history. false)
