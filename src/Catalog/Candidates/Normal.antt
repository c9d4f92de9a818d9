-- ===== src/Catalog/Candidates/Normal.antt =====
-- The normal form that `normalizeBatchCandidates` reaches.
use mujeeb24_backend_go.Common.{
  String, ◌==◌, ==_iff, ◌≡◌, refl, sym, ◌∙◌, ap, ◌≢◌, inl, inr, Bool, false, ◌||◌, List, [], ◌∷◌,
  ◌++◌, append-nil, append_assoc, arith, has, All, All-of, All-In, Distinct, Distinct-snoc,
  Distinct-All, Bool-cases,
}
use mujeeb24_backend_go.Common.{has-In, In-has}
use mujeeb24_backend_go.Catalog.Session.{CatalogBatchCandidate}
use mujeeb24_backend_go.Catalog.Candidates.{
  new_entry, extend_entry, merge_ids, merge_candidate, normalize_onto, normalize_batch_candidates,
}

abbrev pub NoDuplicates : List String → Type 0
NoDuplicates = Distinct (λ v. v)

not_has : (v : String) (out : List String) → has v out ≡ false → All (λ w. w ≢ v) out
not_has v out h = All-of (λ w. w ≢ v) out (λ w i e. ground (arith, In-has w out i, h, e))

pub merge_ids-NoDuplicates :
    (out vs : List String) → NoDuplicates out → NoDuplicates (merge_ids out vs)
unfolding merge_ids
merge_ids-NoDuplicates out [] d = d
merge_ids-NoDuplicates out (v ∷ vs) d = elim (Bool-cases (has v out)) [
  | inl seen ↦ rw seen (merge_ids-NoDuplicates out vs d)
  | inr new ↦ rw new (
      merge_ids-NoDuplicates (out ++ v ∷ []) vs
        (Distinct-snoc (λ w. w) out v d (not_has v out new)))
]

merge_ids_fresh : (out vs : List String) → NoDuplicates (out ++ vs) → merge_ids out vs ≡ out ++ vs
unfolding merge_ids
merge_ids_fresh out [] d = sym (append-nil out)
merge_ids_fresh out (v ∷ vs) d = elim (Bool-cases (has v out)) [
  | inl seen ↦
      absurd (All-In (λ w. w ≢ v) v out (Distinct-All (λ w. w) out vs v d) (has-In v out seen) refl)
  | inr new ↦ rw new (
      merge_ids_fresh (out ++ v ∷ []) vs (rw (append_assoc out (v ∷ []) vs) d)
      ∙ append_assoc out (v ∷ []) vs)
]

-- Each item has one entry, and no entry names a variant or an offer twice.
pub record IsNormal (cs : List CatalogBatchCandidate) : Type 0 where
  pub items_differ : Distinct (λ c. c.item_id) cs
  pub variants_differ : All (λ c. NoDuplicates c.variant_ids) cs
  pub offers_differ : All (λ c. NoDuplicates c.offer_ids) cs

merge_candidate_ne :
    (k : String) (c : CatalogBatchCandidate) (out : List CatalogBatchCandidate)
    → All (λ o. k ≢ o.item_id) out
    → k ≢ c.item_id
    → All (λ o. k ≢ o.item_id) (merge_candidate c out)
unfolding merge_candidate
merge_candidate_ne k c [] a n = (n, tt)
merge_candidate_ne k c (o ∷ out) a n = elim (Bool-cases (o.item_id == c.item_id)) [
  | inl here ↦ rw here a
  | inr later ↦ rw later (a.0, merge_candidate_ne k c out a.1 n)
]

ne_of_test : (a b : String) → (a == b) ≡ false → a ≢ b
ne_of_test a b h e = ground (arith, ==_iff a b)

pub merge_candidate-IsNormal :
    (c : CatalogBatchCandidate) (out : List CatalogBatchCandidate)
    → IsNormal out
    → IsNormal (merge_candidate c out)
unfolding merge_candidate
merge_candidate-IsNormal c [] n = record {
  items_differ = (tt, tt);
  variants_differ = (merge_ids-NoDuplicates [] c.variant_ids tt, tt);
  offers_differ = (merge_ids-NoDuplicates [] c.offer_ids tt, tt);
}
merge_candidate-IsNormal c (o ∷ out) n = elim (Bool-cases (o.item_id == c.item_id)) [
  | inl here ↦ rw here (record {
    items_differ = n.items_differ;
    variants_differ = (
      merge_ids-NoDuplicates o.variant_ids c.variant_ids n.variants_differ.0,
      n.variants_differ.1,
    );
    offers_differ =
        (merge_ids-NoDuplicates o.offer_ids c.offer_ids n.offers_differ.0, n.offers_differ.1);
  })
  | inr later ↦
      let rest = merge_candidate-IsNormal c out (record {
        items_differ = n.items_differ.1;
        variants_differ = n.variants_differ.1;
        offers_differ = n.offers_differ.1;
      }) in
      rw later (record {
        items_differ = (
          merge_candidate_ne o.item_id c out n.items_differ.0
              (ne_of_test o.item_id c.item_id later),
          rest.items_differ,
        );
        variants_differ = (n.variants_differ.0, rest.variants_differ);
        offers_differ = (n.offers_differ.0, rest.offers_differ);
      })
]

normalize_onto-IsNormal :
    (out cs : List CatalogBatchCandidate) → IsNormal out → IsNormal (normalize_onto out cs)
unfolding normalize_onto
normalize_onto-IsNormal out [] n = n
normalize_onto-IsNormal out (c ∷ cs) n =
    normalize_onto-IsNormal (merge_candidate c out) cs (merge_candidate-IsNormal c out n)

pub normalize_batch_candidates-IsNormal :
    (cs : List CatalogBatchCandidate) → IsNormal (normalize_batch_candidates cs)
unfolding normalize_batch_candidates
normalize_batch_candidates-IsNormal cs =
    normalize_onto-IsNormal [] cs
      (record { items_differ = tt; variants_differ = tt; offers_differ = tt })

merge_candidate_fresh :
    (c : CatalogBatchCandidate) (out : List CatalogBatchCandidate)
    → All (λ o. o.item_id ≢ c.item_id) out
    → NoDuplicates c.variant_ids
    → NoDuplicates c.offer_ids
    → merge_candidate c out ≡ out ++ c ∷ []
unfolding merge_candidate
merge_candidate_fresh c [] a dv do' =
    rw (merge_ids_fresh [] c.variant_ids dv, merge_ids_fresh [] c.offer_ids do')
merge_candidate_fresh c (o ∷ out) a dv do' = elim (Bool-cases (o.item_id == c.item_id)) [
  | inl here ↦ absurd (a.0 ((==_iff o.item_id c.item_id).0 here))
  | inr later ↦ rw later (ap (λ r. o ∷ r) (merge_candidate_fresh c out a.1 dv do'))
]

normalize_onto_fresh :
    (out cs : List CatalogBatchCandidate)
    → Distinct (λ c. c.item_id) (out ++ cs)
    → All (λ c. NoDuplicates c.variant_ids) cs
    → All (λ c. NoDuplicates c.offer_ids) cs
    → normalize_onto out cs ≡ out ++ cs
unfolding normalize_onto
normalize_onto_fresh out [] d dv do' = sym (append-nil out)
normalize_onto_fresh out (c ∷ cs) d dv do' =
    ap (λ o. normalize_onto o cs)
      (merge_candidate_fresh c out (Distinct-All (λ x. x.item_id) out cs c d) dv.0 do'.0)
    ∙ normalize_onto_fresh (out ++ c ∷ []) cs (rw (append_assoc out (c ∷ []) cs) d) dv.1 do'.1
    ∙ append_assoc out (c ∷ []) cs

-- Some candidate is for the item.
unfoldable pub names_item : String → List CatalogBatchCandidate → Bool
names_item i [] = false
names_item i (c ∷ cs) = (c.item_id == i) || names_item i cs

merge_candidate-names :
    (i : String) (c : CatalogBatchCandidate) (out : List CatalogBatchCandidate)
    → names_item i (merge_candidate c out) ≡ ((c.item_id == i) || names_item i out)
unfolding merge_candidate names_item new_entry extend_entry
merge_candidate-names i c [] = refl
merge_candidate-names i c (o ∷ out) = elim (Bool-cases (o.item_id == c.item_id)) [
  | inl here ↦ rw here (rw ((==_iff o.item_id c.item_id).0 here) (ground arith))
  | inr later ↦ rw later (ground (arith, merge_candidate-names i c out))
]

normalize_onto-names :
    (i : String) (out cs : List CatalogBatchCandidate)
    → names_item i (normalize_onto out cs) ≡ (names_item i out || names_item i cs)
unfolding normalize_onto names_item
normalize_onto-names i out [] = ground arith
normalize_onto-names i out (c ∷ cs) =
    ground (arith, normalize_onto-names i (merge_candidate c out) cs, merge_candidate-names i c out)

-- The result of `normalizeBatchCandidates` has exactly one entry for each item that a candidate is for, and
-- none for another; it names no variant and no offer of an entry twice; and a second run changes nothing.
pub normalize-normalize :
    (cs : List CatalogBatchCandidate)
    → IsNormal (normalize_batch_candidates cs)
      × ((i : String) → names_item i (normalize_batch_candidates cs) ≡ names_item i cs)
      × (normalize_batch_candidates (normalize_batch_candidates cs) ≡ normalize_batch_candidates cs)
unfolding normalize_batch_candidates names_item
normalize-normalize cs =
    let n = normalize_batch_candidates-IsNormal cs in
    (
      n,
      λ i. normalize_onto-names i [] cs,
      normalize_onto_fresh [] (normalize_batch_candidates cs) n.items_differ n.variants_differ
          n.offers_differ,
    )
