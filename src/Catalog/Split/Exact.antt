-- ===== src/Catalog/Split/Exact.antt =====
-- What `splitIntoBatchesMode` returns when it returns batches, and that it never stops for lack of
-- fuel.
use native.Mathlib.Nat.{add-zero}
use mujeeb24_backend_go.Common.{
  ℕ, zero, suc, ◌+◌, ◌/◌, ◌≡◌, refl, sym, ap, ◌∙◌, ◌≢◌, ◌⊎◌, inl, inr, Bool, true, List, [], ◌∷◌,
  ◌++◌, append-nil, append_assoc, Result, ok, err, arith, length, take, drop, take-append-drop,
  length-append, All, All-append, eqb, Bool-cases,
}
use mujeeb24_backend_go.Common.Int.{ℤ, leb_ℤ, ◌≤ℤ◌}
use mujeeb24_backend_go.Catalog.Projection.{
  CatalogAiItem, CatalogAiProjection, CatalogAiBatchPayload,
}
use mujeeb24_backend_go.Catalog.Coverage.Exact.{carried}
use mujeeb24_backend_go.Catalog.Session.{
  CatalogError, CatalogEvaluationInput, Call, Controller, Session, ◌>>=◌, bind_ok,
}
use mujeeb24_backend_go.Catalog.Split.{
  effective_budget, build_batch, batch_input, count_batch, after_count, split,
}

pub carried-append :
    (cs bs : List CatalogAiBatchPayload) → carried (cs ++ bs) ≡ carried cs ++ carried bs
carried-append [] bs = refl
carried-append (a ∷ cs) bs =
    rw (carried-append cs bs) (sym (append_assoc a.items (carried cs) (carried bs)))

number_shift : (n m : ℕ) → n + 1 + m ≡ n + suc m
number_shift n m = omega arith

pub leb_ℤ→le : (a b : ℤ) → leb_ℤ a b ≡ true → a ≤ℤ b
leb_ℤ→le a b h = ground arith

pub ok_injective :
    {Called A : Type 0} {a b : A} {j k : List Called}
    → ◌≡◌ {A = Result CatalogError A × List Called} (ok a, j) (ok b, k)
    → b ≡ a
ok_injective e = cc

pub not_ok :
    {Called A : Type 0} {x : CatalogError} {b : A} {j k : List Called}
    → ¬ (◌≡◌ {A = Result CatalogError A × List Called} (err x, j) (ok b, k))
not_ok e = cc

module _ {Context Contract Usage Decision : Type 0} (c : Controller Context Contract Usage Decision)
    (input : CatalogEvaluationInput Context Contract) (projection : CatalogAiProjection)
    (reduction : Bool) where
  -- The estimator, asked at some moment for the request of the batch, answered at most the budget.
  abbrev pub Fits : CatalogAiBatchPayload → Type 0
  Fits b =
      (h : List (Call Context Contract Usage)) × (t : ℤ) × (c.batch_tokens
          (batch_input c input projection reduction b) h
        ≡ ok t)
      × (t ≤ℤ effective_budget c.token_budget)

  -- Numbers that count up from `n`.
  abbrev pub Numbered : ℕ → List CatalogAiBatchPayload → Type 0
  Numbered n [] = Unit
  Numbered n (b ∷ bs) = (b.batch_number ≡ n) × Numbered (n + 1) bs

  -- Every batch holds items, is what `buildBatch` makes of them, and fits the budget.
  abbrev pub Built : CatalogAiBatchPayload → Type 0
  Built b =
      (b.items ≢ [])
      × (b ≡ build_batch c input projection reduction b.items b.batch_number)
      × Fits b

  pub record SplitOf (items : List CatalogAiItem) (n : ℕ) (bs : List CatalogAiBatchPayload)
      : Type 0 where
    pub kept : carried bs ≡ items
    pub numbered : Numbered n bs
    pub built : All Built bs

  Numbered-append :
      (n : ℕ) (cs bs : List CatalogAiBatchPayload)
      → Numbered n cs
      → Numbered (n + length cs) bs
      → Numbered n (cs ++ bs)
  Numbered-append n [] bs p q = rw add-zero at q
  Numbered-append n (a ∷ cs) bs p q =
      (p.0, Numbered-append (n + 1) cs bs p.1 (rw (number_shift n (length cs)) q))

  SplitOf-append :
      (xs ys : List CatalogAiItem) (n : ℕ) (cs bs : List CatalogAiBatchPayload)
      → SplitOf xs n cs
      → SplitOf ys (n + length cs) bs
      → SplitOf (xs ++ ys) n (cs ++ bs)
  SplitOf-append xs ys n cs bs p q = record {
    kept = rw (carried-append cs bs, p.kept, q.kept);
    numbered = Numbered-append n cs bs p.numbered q.numbered;
    built = All-append Built cs bs p.built q.built;
  }

  -- What a successful call of `split` adds.
  abbrev pub Adds :
      List CatalogAiItem → List CatalogAiBatchPayload → ℕ → List CatalogAiBatchPayload × ℕ → Type 0
  Adds items acc n r =
      (new : List CatalogAiBatchPayload) × (r.0 ≡ acc ++ new)
      × (r.1 ≡ n + length new)
      × SplitOf items n new

  Adds-append :
      (xs ys : List CatalogAiItem) (acc : List CatalogAiBatchPayload) (n : ℕ)
      (r s : List CatalogAiBatchPayload × ℕ)
      → Adds xs acc n r
      → Adds ys r.0 r.1 s
      → Adds (xs ++ ys) acc n s
  Adds-append xs ys acc n r s (cs, p, q, a) (bs, p', q', b) = (
    cs ++ bs,
    p' ∙ ap (λ l. l ++ bs) p ∙ append_assoc acc cs bs,
    omega (arith, length-append cs bs),
    SplitOf-append xs ys n cs bs a (rw q at b),
  )

  after_count_ok :
      (x : CatalogAiItem) (size : ℕ) (batches : List CatalogAiBatchPayload)
      (batch : CatalogAiBatchPayload) (n : ℕ)
      (halves : Session (Call Context Contract Usage) (List CatalogAiBatchPayload × ℕ)) (tokens : ℤ)
      (j k : List (Call Context Contract Usage)) (r : List CatalogAiBatchPayload × ℕ)
      → after_count c input projection reduction x size batches batch n halves tokens j ≡ (ok r, k)
      → ((tokens ≤ℤ effective_budget c.token_budget) × (r ≡ (batches ++ batch ∷ [], n + 1)))
        ⊎ (halves j ≡ (ok r, k))
  unfolding after_count
  after_count_ok x size batches batch n halves tokens j k r e =
      elim (Bool-cases (leb_ℤ tokens (effective_budget c.token_budget))) [
        | inl fits ↦ inl (leb_ℤ→le tokens _ fits, ok_injective (rw (after_count, fits) at e))
        | inr too_big ↦ elim (Bool-cases (eqb size 1)) [
          | inl single ↦ absurd (not_ok (rw (after_count, too_big, single) at e))
          | inr several ↦ inr (rw (after_count, too_big, several) at e)
        ]
      ]

  pub count_batch_ok :
      (b : CatalogAiBatchPayload) (h j : List (Call Context Contract Usage)) (t : ℤ)
      → count_batch c input projection reduction b h ≡ (ok t, j)
      → c.batch_tokens (batch_input c input projection reduction b) h ≡ ok t
  unfolding count_batch
  count_batch_ok b h j t e = ground arith

  one-SplitOf :
      (x : CatalogAiItem) (xs : List CatalogAiItem) (n : ℕ)
      → let b = build_batch c input projection reduction (x ∷ xs) n in
        Fits b → SplitOf (x ∷ xs) n (b ∷ [])
  unfolding build_batch
  one-SplitOf x xs n f = record {
    kept = append-nil (x ∷ xs);
    numbered = (refl, tt);
    built = ((λ e. cc, refl, f), tt);
  }

  pub split-Adds :
      (fuel : ℕ) (items : List CatalogAiItem) (acc : List CatalogAiBatchPayload) (n : ℕ)
      (h k : List (Call Context Contract Usage)) (r : List CatalogAiBatchPayload × ℕ)
      → split c input projection reduction fuel items acc n h ≡ (ok r, k)
      → Adds items acc n r
  unfolding split
  split-Adds zero items acc n h k r e = cc
  split-Adds (suc fuel) [] acc n h k r e = (
    [],
    ground (arith, append-nil acc),
    ground arith,
    record { kept = refl; numbered = tt; built = tt },
  )
  split-Adds (suc fuel) (x ∷ xs) acc n h k r e =
      let run = split c input projection reduction fuel in
      let b = build_batch c input projection reduction (x ∷ xs) n in
      let mid = length (x ∷ xs) / 2 in
      let first = run (take mid (x ∷ xs)) acc n in
      let second = λ (s : List CatalogAiBatchPayload × ℕ). run (drop mid (x ∷ xs)) s.0 s.1 in
      let (tokens, j, p, q) =
        bind_ok (count_batch c input projection reduction b)
          (after_count c input projection reduction x (length (x ∷ xs)) acc b n (first >>= second))
          h e in
      elim (after_count_ok x (length (x ∷ xs)) acc b n (first >>= second) tokens j k r q) [
        | inl (fits, same_r) ↦ (
          b ∷ [],
          ap (λ s. s.0) same_r,
          ap (λ s. s.1) same_r,
          one-SplitOf x xs n (h, tokens, count_batch_ok b h j tokens p, fits),
        )
        | inr both ↦
            let (s, i, p₁, p₂) = bind_ok first second j both in
            rw (← take-append-drop mid (x ∷ xs)) (
              Adds-append (take mid (x ∷ xs)) (drop mid (x ∷ xs)) acc n s r
                (split-Adds fuel (take mid (x ∷ xs)) acc n j i s p₁)
                (split-Adds fuel (drop mid (x ∷ xs)) s.0 s.1 i k r p₂))
      ]
