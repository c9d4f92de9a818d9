-- ===== src/MerchantAssist/Scan.antt =====
-- `scanAllPages` of merchantassist/discovery_pagination.go: a complete listing, page by page, with
-- its counts, a sample and links.
-- The repository's listing is the parameter `load`, which answers by the cursors that were loaded
-- before, newest first; `project` makes the row of a record; the context may be cancelled.
pub mod Summary
pub mod Complete
use mujeeb24_backend_go.Common.{
  ℕ, zero, suc, ◌+◌, String, ◌==◌, Bool, true, false, ◌&&◌, ◌||◌, List, [], ◌∷◌, ◌++◌, Option, none,
  some, Result, ok, err, ◌>>=◌, Map, lookup_or, assign, has, length, ltb, if◌then◌else◌,
}

-- `commands.ListResult`
pub record ListResult (T : Type 0) : Type 0 where
  pub items : List T
  pub next_cursor : String
  pub has_more : Bool

-- What `project` returns.
pub record Projected (Row Link : Type 0) : Type 0 where
  pub row : Option Row
  pub id : String
  pub status : String
  pub link : Option Link

pub data ScanError : Type 0 where
  cancelled : ScanError
  read_unavailable project_failed : String → ScanError
  invalid_source_evidence full_scan_too_large out_of_fuel : ScanError

abbrev pub assist_scan_page_size : ℕ
assist_scan_page_size = 250

abbrev pub assist_scan_max_records : ℕ
assist_scan_max_records = 20000

abbrev pub assist_sample_size : ℕ
assist_sample_size = 40

abbrev pub assist_link_limit : ℕ
assist_link_limit = 12

-- `assistListScan`, with the set of the identifiers.
pub record AssistListScan (Row Link : Type 0) : Type 0 where
  pub total : ℕ
  pub statuses : Map ℕ
  pub sample : List Row
  pub links : List Link
  pub seen_ids : List String

-- `if status != "" { out.Statuses[status]++ }`
pub count_status : String → Map ℕ → Map ℕ
count_status status m = if status == "" then m else assign status (lookup_or 0 status m + 1) m

-- `if len(xs) < limit { xs = append(xs, x) }`
abbrev pub append_within : {A : Type 0} → ℕ → List A → A → List A
append_within limit xs x = if ltb (length xs) limit then xs ++ x ∷ [] else xs

abbrev pub append_link : {Link : Type 0} → List Link → Option Link → List Link
append_link links none = links
append_link links (some l) = append_within assist_link_limit links l

abbrev pub is_empty : {T : Type 0} → List T → Bool
is_empty [] = true
is_empty (x ∷ xs) = false

-- The condition that refuses a page.
abbrev pub is_invalid : {T : Type 0} → ListResult T → String → List String → Bool
is_invalid page cursor seen_cursors =
    ltb assist_scan_page_size (length page.items)
    || (page.has_more
        && (is_empty page.items
            || (page.next_cursor == "")
            || (page.next_cursor == cursor)
            || has page.next_cursor seen_cursors))

module _ {Row Link : Type 0} where
  abbrev pub empty_scan : AssistListScan Row Link
  empty_scan = record { total = 0; statuses = []; sample = []; links = []; seen_ids = [] }

  -- A record that is counted.
  abbrev pub count_record :
      Row → Projected Row Link → AssistListScan Row Link → AssistListScan Row Link
  count_record row r s = record {
    total = s.total + 1;
    statuses = count_status r.status s.statuses;
    sample = append_within assist_sample_size s.sample row;
    links = append_link s.links r.link;
    seen_ids = r.id ∷ s.seen_ids;
  }

  pub add_row :
      Option Row
      → Projected Row Link
      → AssistListScan Row Link
      → Result ScanError (AssistListScan Row Link)
  add_row none r s = err invalid_source_evidence
  add_row (some row) r s =
      if (r.id == "") || has r.id s.seen_ids
      then err invalid_source_evidence
      else if ltb assist_scan_max_records (s.total + 1)
      then err full_scan_too_large
      else ok (count_record row r s)

  module _ {T : Type 0} (project : T → Result String (Projected Row Link)) where
    pub projected : Result String (Projected Row Link) → Result ScanError (Projected Row Link)
    projected (ok r) = ok r
    projected (err e) = err (project_failed e)

    -- The loop over the records of a page.
    pub add_records : List T → AssistListScan Row Link → Result ScanError (AssistListScan Row Link)
    add_records [] s = ok s
    add_records (t ∷ ts) s =
        projected (project t) >>= λ r. add_row r.row r s >>= λ s'. add_records ts s'

    module _ (load : String → List String → Result String (ListResult T))
        (context_cancelled : List String → Bool) where
      pub loaded : Result String (ListResult T) → Result ScanError (ListResult T)
      loaded (ok page) = ok page
      loaded (err e) = err (read_unavailable e)

      pub validated : ListResult T → String → List String → Result ScanError (ListResult T)
      validated page cursor seen_cursors =
          if is_invalid page cursor seen_cursors then err invalid_source_evidence else ok page

      -- The check of the context, the page, and its checks.
      pub read_page : String → List String → List String → Result ScanError (ListResult T)
      read_page cursor seen_cursors history =
          if context_cancelled history
          then err cancelled
          else (loaded (load cursor history) >>= λ page. validated page cursor seen_cursors)

      -- The loop over the pages. Each page that is followed by another has a record, and no more
      -- than `assist_scan_max_records` are counted, so one more round is fuel enough.
      pub scan_pages :
          ℕ
          → String
          → List String
          → List String
          → AssistListScan Row Link
          → Result ScanError (AssistListScan Row Link)
      scan_pages zero cursor seen_cursors history s = err out_of_fuel
      scan_pages (suc fuel) cursor seen_cursors history s =
          read_page cursor seen_cursors history >>= λ page. add_records page.items s >>= λ s'.
          if page.has_more
          then scan_pages fuel page.next_cursor (page.next_cursor ∷ seen_cursors) (cursor ∷ history)
              s'
          else ok s'

      unfoldable pub scan_all_pages : Result ScanError (AssistListScan Row Link)
      scan_all_pages = scan_pages (suc (suc assist_scan_max_records)) "" [] [] empty_scan

-- What a run of the scan unfolds.
unfoldable pub scan_code : Unit {0}
unfolding count_status add_row projected add_records loaded validated read_page scan_pages
    scan_all_pages
scan_code = tt
