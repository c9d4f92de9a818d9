-- ===== src/MerchantAssist/Scan/Summary.antt =====
-- What the scan holds after some records: the summary of exactly these.
use mujeeb24_backend_go.Common.{
  ℕ, ◌+◌, ◌≤◌, ◌<◌, String, ◌==◌, ==_iff, ◌≡◌, refl, sym, ap, ◌∙◌, ◌≢◌, inl, inr, true, false, List,
  [], ◌∷◌, ◌++◌, Option, none, some, arith, Map, lookup_or, assign, has, length, length-append,
  length-take, take-all, take-append_left, append-nil, take, ltb, All, All-append, All-of, All-In,
  Distinct, Distinct-snoc, Bool-cases, if◌then◌else◌,
}
use mujeeb24_backend_go.MerchantAssist.Scan.{
  Projected, AssistListScan, assist_scan_max_records, assist_sample_size, assist_link_limit,
  count_status, append_within, append_link, count_record,
}

take-snoc :
    {A : Type 0} (n : ℕ) (xs : List A) (x : A)
    → append_within n (take n xs) x ≡ take n (xs ++ x ∷ [])
take-snoc n xs x = elim (Bool-cases (ltb (length (take n xs)) n)) [
  | inl short ↦
      let fits : length xs < n = ground (arith, length-take n xs) in
      rw
        (
          short,
          take-all n xs (omega arith),
          take-all n (xs ++ x ∷ []) (omega (arith, length-append xs (x ∷ []))),
        )
        refl
  | inr long ↦ rw (long, take-append_left n xs (x ∷ []) (ground (arith, length-take n xs))) refl
]

abbrev pub cons_some : {A : Type 0} → Option A → List A → List A
cons_some none xs = xs
cons_some (some x) xs = x ∷ xs

cons_some-append :
    {A : Type 0} (o : Option A) (xs ys : List A) → cons_some o (xs ++ ys) ≡ cons_some o xs ++ ys
cons_some-append none xs ys = refl
cons_some-append (some x) xs ys = refl

lookup_or-assign :
    (k j : String) (v : ℕ) (m : Map ℕ)
    → lookup_or 0 k (assign j v m) ≡ (if j == k then v else lookup_or 0 k m)
lookup_or-assign k j v [] = ground arith
lookup_or-assign k j v ((i, w) ∷ m) =
    ground (arith, ==_iff i k, ==_iff i j, ==_iff j k, lookup_or-assign k j v m)

has_self : (k : String) (ks : List String) → has k (k ∷ ks) ≡ true
has_self k ks = rw ((==_iff k k).1 refl) refl

has-cons : (k j : String) (ks : List String) → has k ks ≡ true → has k (j ∷ ks) ≡ true
has-cons k j ks h = ground arith

unseen : (k j : String) (ks : List String) → has k ks ≡ true → has j ks ≡ false → k ≢ j
unseen k j ks h n = λ p. cc (h, n, ap (λ i. has i ks) p)

count_status-lookup :
    (k status : String) (m : Map ℕ)
    → k ≢ ""
    → lookup_or 0 k (count_status status m) ≡ lookup_or 0 k m + (if status == k then 1 else 0)
unfolding count_status
count_status-lookup k status m named = ground (
  arith,
  ==_iff status "",
  ==_iff status k,
  lookup_or-assign k status (lookup_or 0 status m + 1) m,
)

append_link-some :
    {Link : Type 0} (ls : List Link) (o : Option Link)
    → append_link (take assist_link_limit ls) o ≡ take assist_link_limit (ls ++ cons_some o [])
append_link-some ls none = rw append-nil refl
append_link-some ls (some l) = take-snoc assist_link_limit ls l

module _ {Row Link : Type 0} where
  -- The rows and the links of the records that have one.
  abbrev pub rows : List (Projected Row Link) → List Row
  rows [] = []
  rows (r ∷ rs) = cons_some r.row (rows rs)

  abbrev pub links : List (Projected Row Link) → List Link
  links [] = []
  links (r ∷ rs) = cons_some r.link (links rs)

  -- How many records have the status.
  abbrev pub occurrences : String → List (Projected Row Link) → ℕ
  occurrences status [] = 0
  occurrences status (r ∷ rs) = (if r.status == status then 1 else 0) + occurrences status rs

  pub record IsSummary (rs : List (Projected Row Link)) (s : AssistListScan Row Link) : Type 0 where
    pub total : s.total ≡ length rs
    pub bounded : length rs ≤ assist_scan_max_records
    pub distinct : Distinct (λ (r : Projected Row Link). r.id) rs
    pub seen : All (λ (r : Projected Row Link). has r.id s.seen_ids ≡ true) rs
    pub sample : s.sample ≡ take assist_sample_size (rows rs)
    pub linked : s.links ≡ take assist_link_limit (links rs)
    pub counted :
        (status : String) → status ≢ "" → lookup_or 0 status s.statuses ≡ occurrences status rs

  rows-append : (rs qs : List (Projected Row Link)) → rows (rs ++ qs) ≡ rows rs ++ rows qs
  rows-append [] qs = refl
  rows-append (r ∷ rs) qs = rw (rows-append rs qs) (cons_some-append r.row (rows rs) (rows qs))

  links-append : (rs qs : List (Projected Row Link)) → links (rs ++ qs) ≡ links rs ++ links qs
  links-append [] qs = refl
  links-append (r ∷ rs) qs = rw (links-append rs qs) (cons_some-append r.link (links rs) (links qs))

  occurrences-append :
      (k : String) (rs qs : List (Projected Row Link))
      → occurrences k (rs ++ qs) ≡ occurrences k rs + occurrences k qs
  occurrences-append k [] qs = omega arith
  occurrences-append k (r ∷ rs) qs = ground (arith, occurrences-append k rs qs)

  append_link-take :
      (r : Projected Row Link) (rs : List (Projected Row Link))
      → append_link (take assist_link_limit (links rs)) r.link
        ≡ take assist_link_limit (links (rs ++ r ∷ []))
  append_link-take r rs = rw (links-append rs (r ∷ [])) (append_link-some (links rs) r.link)

  -- One more record.
  pub IsSummary-count :
      (rs : List (Projected Row Link)) (s : AssistListScan Row Link) (r : Projected Row Link)
      (row : Row)
      → IsSummary rs s
      → r.row ≡ some row
      → has r.id s.seen_ids ≡ false
      → s.total + 1 ≤ assist_scan_max_records
      → IsSummary (rs ++ r ∷ []) (count_record row r s)
  IsSummary-count rs s r row i e fresh few = record {
    total = omega (arith, i.total, length-append rs (r ∷ []));
    bounded = omega (arith, i.total, few, length-append rs (r ∷ []));
    distinct =
        Distinct-snoc (λ (q : Projected Row Link). q.id) rs r i.distinct
          (All-of (λ (y : Projected Row Link). y.id ≢ r.id) rs
            (λ y m p. unseen y.id r.id s.seen_ids (All-In _ y rs i.seen m) fresh p));
    seen =
        All-append (λ (q : Projected Row Link). has q.id (r.id ∷ s.seen_ids) ≡ true) rs (r ∷ [])
          (All-of (λ (q : Projected Row Link). has q.id (r.id ∷ s.seen_ids) ≡ true) rs
            (λ y m. has-cons y.id r.id s.seen_ids (All-In _ y rs i.seen m)))
          (has_self r.id s.seen_ids, tt);
    sample =
        ap (λ l. append_within assist_sample_size l row) i.sample
        ∙ take-snoc assist_sample_size (rows rs) row
        ∙ ap (take assist_sample_size)
            (sym (rows-append rs (r ∷ []) ∙ ap (λ o. rows rs ++ cons_some o []) e));
    linked = ap (λ l. append_link l r.link) i.linked ∙ append_link-take r rs;
    counted = λ k named. ground (
      arith,
      count_status-lookup k r.status s.statuses named,
      i.counted k named,
      occurrences-append k rs (r ∷ []),
    );
  }
