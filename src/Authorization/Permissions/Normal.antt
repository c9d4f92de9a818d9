-- ===== src/Authorization/Permissions/Normal.antt =====
-- What `NormalizePermissions` returns.
use mathlib.Core.Path.{subst}
use mujeeb24_backend_go.Common.{
  if-cases, has-In, In-has, String, ◌==◌, ==_iff, ◌≡◌, refl, sym, ap, ◌∙◌, ◌≢◌, ◌↔◌, ◌⊎◌, inl, inr,
  true, false, List, [], ◌∷◌, Option, none, some, has, In, All, All-of, All-In, Distinct,
  Bool-cases, if◌then◌else◌,
}
use mujeeb24_backend_go.Common.Text.{trim_space, to_lower}
use mujeeb24_backend_go.Authorization.Permissions.{
  permission_all, known_permissions, collect_permissions, insert_sorted, sort_strings, sorted,
  is_before, normalize_permissions,
}

abbrev pub normal : String → String
normal value = to_lower (trim_space value)

-- Some value is this permission, once it is trimmed and in small letters.
abbrev pub Named : String → List String → Type 0
Named p values = (v : String) × In v values × (normal v ≡ p)

abbrev same_text : String → String
same_text p = p

In-insert_sorted :
    (p x : String) (qs : List String) → In x (insert_sorted p qs) ↔ ((p ≡ x) ⊎ In x qs)
unfolding insert_sorted
In-insert_sorted p x [] = (λ i. i, λ i. i)
In-insert_sorted p x (q ∷ qs) = elim (Bool-cases (is_before p q)) [
  | inl before ↦ rw before (λ i. i, λ i. i)
  | inr after ↦
      let (f, g) = In-insert_sorted p x qs in
      rw after (
        λ i. elim i [
          | inl e ↦ inr (inl e)
          | inr j ↦ elim (f j) [ inl e ↦ inl e | inr k ↦ inr (inr k) ]
        ],
        λ i. elim i [
          | inl e ↦ inr (g (inl e))
          | inr (inl e) ↦ inl e
          | inr (inr k) ↦ inr (g (inr k))
        ],
      )
]

In-sort_strings : (x : String) (ps : List String) → In x (sort_strings ps) ↔ In x ps
unfolding sort_strings
In-sort_strings x [] = (λ i. i, λ i. i)
In-sort_strings x (p ∷ ps) =
    let (f, g) = In-insert_sorted p x (sort_strings ps) in
    let (f', g') = In-sort_strings x ps in
    (
      λ i. elim (f i) [ inl e ↦ inl e | inr j ↦ inr (f' j) ],
      λ i. elim i [ inl e ↦ g (inl e) | inr j ↦ g (inr (g' j)) ],
    )

Distinct-insert_sorted :
    (p : String) (qs : List String)
    → (In p qs → ⊥)
    → Distinct same_text qs
    → Distinct same_text (insert_sorted p qs)
unfolding insert_sorted
Distinct-insert_sorted p [] new d = (tt, tt)
Distinct-insert_sorted p (q ∷ qs) new d = elim (Bool-cases (is_before p q)) [
  | inl before ↦
      rw before
        (All-of (λ y. p ≢ y) (q ∷ qs) (λ y i e. new (subst (λ z. In z (q ∷ qs)) (sym e) i)), d)
  | inr after ↦ rw after (
    All-of (λ y. q ≢ y) (insert_sorted p qs)
        (λ y i e. elim ((In-insert_sorted p y qs).0 i) [
          | inl here ↦ new (inl (e ∙ sym here))
          | inr there ↦ All-In (λ z. q ≢ z) y qs d.0 there e
        ]),
    Distinct-insert_sorted p qs (λ i. new (inr i)) d.1,
  )
]

Distinct-sort_strings :
    (ps : List String) → Distinct same_text ps → Distinct same_text (sort_strings ps)
unfolding sort_strings
Distinct-sort_strings [] d = tt
Distinct-sort_strings (p ∷ ps) d =
    Distinct-insert_sorted p (sort_strings ps)
      (λ i. All-In (λ y. p ≢ y) p ps d.0 ((In-sort_strings p ps).0 i) refl)
      (Distinct-sort_strings ps d.1)

-- Known permissions, no "*", and no permission twice.
abbrev pub IsProper : List String → Type 0
IsProper ps =
    All (λ p. has p known_permissions ≡ true) ps
    × All (λ p. p ≢ permission_all) ps
    × Distinct same_text ps

-- What holds of the result, whichever it is.
abbrev pub Normal : List String → Option (List String) → Type 0
Normal values none =
    (v : String) × In v values
    × ((normal v ≡ permission_all) ⊎ (has (normal v) known_permissions ≡ false))
Normal values (some ps) = ((p : String) → In p ps ↔ Named p values) × IsProper ps

abbrev Collected : List String → List String → Option (List String) → Type 0
Collected values seen none =
    (v : String) × In v values
    × ((normal v ≡ permission_all) ⊎ (has (normal v) known_permissions ≡ false))
Collected values seen (some ps) =
    ((p : String) → In p ps ↔ (In p seen ⊎ Named p values)) × IsProper ps

Collected-cons :
    (v : String) (vs seen seen' : List String) (o : Option (List String))
    → ((p : String) → In p seen' ↔ (In p seen ⊎ (normal v ≡ p)))
    → Collected vs seen' o
    → Collected (v ∷ vs) seen o
Collected-cons v vs seen seen' none g (w, i, r) = (w, inr i, r)
Collected-cons v vs seen seen' (some ps) g (f, proper) = (
  λ p. (
    λ i. elim ((f p).0 i) [
      | inl j ↦ elim ((g p).0 j) [ inl k ↦ inl k | inr e ↦ inr (v, inl refl, e) ]
      | inr (w, a, e) ↦ inr (w, inr a, e)
    ],
    λ i. elim i [
      | inl k ↦ (f p).1 (inl ((g p).1 (inl k)))
      | inr (w, inl q, e) ↦ (f p).1 (inl ((g p).1 (inr (ap normal q ∙ e))))
      | inr (w, inr a, e) ↦ (f p).1 (inr (w, a, e))
    ],
  ),
  proper,
)

-- The set with one more permission.
abbrev add_permission : String → List String → List String
add_permission q seen = if has q seen then seen else q ∷ seen

In-add_permission :
    (q p : String) (seen : List String) → In p (add_permission q seen) ↔ (In p seen ⊎ (q ≡ p))
In-add_permission q p seen =
    if-cases (has q seen) seen (q ∷ seen) (λ l. In p l ↔ (In p seen ⊎ (q ≡ p)))
      (λ known. (
        λ i. inl i,
        λ i. elim i [ inl j ↦ j | inr e ↦ subst (λ z. In z seen) e (has-In q seen known) ],
      ))
      (λ new. (
        λ i. elim i [ inl e ↦ inr e | inr j ↦ inl j ],
        λ i. elim i [ inl j ↦ inr j | inr e ↦ inl e ],
      ))

add_permission-IsProper :
    (q : String) (seen : List String)
    → has q known_permissions ≡ true
    → q ≢ permission_all
    → IsProper seen
    → IsProper (add_permission q seen)
add_permission-IsProper q seen known not_all proper =
    if-cases (has q seen) seen (q ∷ seen) IsProper (λ old. proper)
      (λ new. (
        (known, proper.0),
        (not_all, proper.1),
        (
          All-of (λ y. q ≢ y) seen
              (λ y i e. cc (new, In-has q seen (subst (λ z. In z seen) (sym e) i))),
          proper.2,
        ),
      ))

collect_permissions-Collected :
    (values seen : List String)
    → IsProper seen
    → Collected values seen (collect_permissions values seen)
unfolding collect_permissions
collect_permissions-Collected [] seen proper =
    (λ p. (λ i. inl i, λ i. elim i [ inl j ↦ j | inr (w, a, e) ↦ absurd a ]), proper)
collect_permissions-Collected (v ∷ vs) seen proper =
    let rest = collect_permissions vs (add_permission (normal v) seen) in
    if-cases (normal v == permission_all) none
      (if has (normal v) known_permissions then rest else none) (Collected (v ∷ vs) seen)
      (λ all. (v, inl refl, inl ((==_iff (normal v) permission_all).0 all)))
      (λ not_all.
        if-cases (has (normal v) known_permissions) rest none (Collected (v ∷ vs) seen)
          (λ known.
            Collected-cons v vs seen (add_permission (normal v) seen) rest
              (λ p. In-add_permission (normal v) p seen)
              (collect_permissions-Collected vs (add_permission (normal v) seen) (
                add_permission-IsProper (normal v) seen known
                  (λ e. cc (not_all, (==_iff (normal v) permission_all).1 e)) proper)))
          (λ unknown. (v, inl refl, inr unknown)))

All-sorted : (P : String → Type 0) (ps : List String) → All P ps → All P (sort_strings ps)
All-sorted P ps a = All-of P (sort_strings ps) (λ y i. All-In P y ps a ((In-sort_strings y ps).0 i))

-- The permissions returned are exactly the values, trimmed and in small letters: each is known,
-- none is the one that stands for all, and none occurs twice. A refusal has a value that is unknown
-- or stands for all.
pub normalize_permissions-Normal :
    (values : List String) → Normal values (normalize_permissions values)
unfolding normalize_permissions sorted
normalize_permissions-Normal values =
    by_seen (collect_permissions values []) (collect_permissions-Collected values [] (tt, tt, tt))
  where
    by_seen : (o : Option (List String)) → Collected values [] o → Normal values (sorted o)
    by_seen none r = r
    by_seen (some ps) (f, (known, proper, distinct)) = (
      λ p. (
        λ i. elim ((f p).0 ((In-sort_strings p ps).0 i)) [ inl j ↦ absurd j | inr n ↦ n ],
        λ n. (In-sort_strings p ps).1 ((f p).1 (inr n)),
      ),
      (
        All-sorted (λ p. has p known_permissions ≡ true) ps known,
        All-sorted (λ p. p ≢ permission_all) ps proper,
        Distinct-sort_strings ps distinct,
      ),
    )
