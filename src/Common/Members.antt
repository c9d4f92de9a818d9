-- ===== src/Common/Members.antt =====
-- Membership as a predicate that computes, lists whose elements differ by a key, and the step from
-- these to the library's `Mem` and `Perm`. The program's types all stand in `Type 0`.
use mathlib.Core.Path.{◌≡◌, refl, sym, ap, ◌∙◌, subst}
use mathlib.Core.Logic.{◌≢◌, ◌⊎◌, inl, inr, ∥∥₁_map, ∥∥₁_elim}
use mathlib.Core.List.{List, [], ◌∷◌, ◌++◌, Mem, Memᴰ, Nodup, Nodup-nil, Nodup-cons, Perm}
use mathlib.Core.List.{perm_ext_iff_of_Nodup}
use Prim.Native.String.{String}
use mathlib.Core.Bool.{true}
use native.Mathlib.Omega.{arith}
use mujeeb24_backend_go.Common.Tests.{◌==◌, ==_iff, Bool-cases}
use mujeeb24_backend_go.Common.Maps.{has}
use mujeeb24_backend_go.Common.Lists.{All, All-append}

module _ {A : Type 0} where
  abbrev pub In : A → List A → Type 0
  In a [] = ⊥
  In a (x ∷ xs) = (x ≡ a) ⊎ In a xs

  pub In-append_left : (a : A) (xs ys : List A) → In a xs → In a (xs ++ ys)
  In-append_left a [] ys h = absurd h
  In-append_left a (x ∷ xs) ys (inl e) = inl e
  In-append_left a (x ∷ xs) ys (inr h) = inr (In-append_left a xs ys h)

  pub In-append_right : (a : A) (xs ys : List A) → In a ys → In a (xs ++ ys)
  In-append_right a [] ys h = h
  In-append_right a (x ∷ xs) ys h = inr (In-append_right a xs ys h)

  pub In-append : (a : A) (xs ys : List A) → In a (xs ++ ys) → In a xs ⊎ In a ys
  In-append a [] ys h = inr h
  In-append a (x ∷ xs) ys (inl e) = inl (inl e)
  In-append a (x ∷ xs) ys (inr h) = elim (In-append a xs ys h) [
    | inl l ↦ inl (inr l)
    | inr r ↦ inr r
  ]

  In-Memᴰ : (a : A) (xs : List A) → In a xs → Memᴰ a xs
  In-Memᴰ a [] h = absurd h
  In-Memᴰ a (x ∷ xs) (inl e) = Memᴰ.head (sym e)
  In-Memᴰ a (x ∷ xs) (inr h) = Memᴰ.tail (In-Memᴰ a xs h)

  Memᴰ-In : {a : A} {xs : List A} → Memᴰ a xs → In a xs
  Memᴰ-In (Memᴰ.head e) = inl (sym e)
  Memᴰ-In (Memᴰ.tail m) = inr (Memᴰ-In m)

  pub In-Mem : (a : A) (xs : List A) → In a xs → Mem a xs
  In-Mem a xs h = ∣ In-Memᴰ a xs h ∣₁

  pub All-In {κ} : (P : A → Type κ) (a : A) (xs : List A) → All P xs → In a xs → P a
  All-In P a [] h m = absurd m
  All-In P a (x ∷ xs) h (inl e) = subst P e h.0
  All-In P a (x ∷ xs) h (inr m) = All-In P a xs h.1 m

  pub All-of {κ} : (P : A → Type κ) (xs : List A) → ((a : A) → In a xs → P a) → All P xs
  All-of P [] h = tt
  All-of P (x ∷ xs) h = (h x (inl refl), All-of P xs (λ a m. h a (inr m)))

pub has-In : (k : String) (ks : List String) → has k ks ≡ true → In k ks
has-In k [] h = cc
has-In k (j ∷ ks) h = elim (Bool-cases (j == k)) [
  | inl e ↦ inl ((==_iff j k).0 e)
  | inr n ↦ inr (has-In k ks (rw n at h))
]

pub In-has : (k : String) (ks : List String) → In k ks → has k ks ≡ true
In-has k [] h = absurd h
In-has k (j ∷ ks) (inl e) = rw ((==_iff j k).1 e)
In-has k (j ∷ ks) (inr m) = ground (arith, In-has k ks m)

module _ {A K : Type 0} (key : A → K) where
  -- No two elements have the same key.
  abbrev pub Distinct : List A → Type 0
  Distinct [] = Unit
  Distinct (x ∷ xs) = All (λ y. key x ≢ key y) xs × Distinct xs

  fresh-Mem : (x : A) (xs : List A) → All (λ y. key x ≢ key y) xs → ¬ Mem x xs
  fresh-Mem x xs h m =
      ∥∥₁_elim m (λ p q. absurd p) λ d. All-In (λ y. key x ≢ key y) x xs h (Memᴰ-In d) refl

  pub Distinct-Nodup : (xs : List A) → Distinct xs → Nodup xs
  Distinct-Nodup [] h = Nodup-nil
  Distinct-Nodup (x ∷ xs) h = Nodup-cons.1 (fresh-Mem x xs h.0, Distinct-Nodup xs h.1)

  -- In a list with distinct keys an element is determined by its key.
  pub Distinct-injective :
      (a b : A) (xs : List A) → Distinct xs → In a xs → In b xs → key a ≡ key b → a ≡ b
  Distinct-injective a b [] d ha hb e = absurd ha
  Distinct-injective a b (x ∷ xs) d (inl p) (inl q) e = sym p ∙ q
  Distinct-injective a b (x ∷ xs) d (inl p) (inr q) e =
      absurd (All-In (λ y. key x ≢ key y) b xs d.0 q (ap key p ∙ e))
  Distinct-injective a b (x ∷ xs) d (inr p) (inl q) e =
      absurd (All-In (λ y. key x ≢ key y) a xs d.0 p (ap key q ∙ sym e))
  Distinct-injective a b (x ∷ xs) d (inr p) (inr q) e = Distinct-injective a b xs d.1 p q e

  -- Two lists with distinct keys and the same elements are permutations of one another.
  pub Perm_of_Distinct :
      (xs ys : List A)
      → Distinct xs
      → Distinct ys
      → ((a : A) → In a xs → In a ys)
      → ((a : A) → In a ys → In a xs)
      → Perm xs ys
  Perm_of_Distinct xs ys dx dy f g =
      (perm_ext_iff_of_Nodup (Distinct-Nodup xs dx) (Distinct-Nodup ys dy)).1 λ a. (
        λ m. ∥∥₁_map m (λ d. In-Memᴰ a ys (f a (Memᴰ-In d))),
        λ m. ∥∥₁_map m (λ d. In-Memᴰ a xs (g a (Memᴰ-In d))),
      )

module _ {A K : Type 0} (key : A → K) where
  pub Distinct-snoc :
      (xs : List A) (x : A)
      → Distinct key xs
      → All (λ y. key y ≢ key x) xs
      → Distinct key (xs ++ x ∷ [])
  Distinct-snoc [] x d a = (tt, tt)
  Distinct-snoc (y ∷ ys) x d a =
      (All-append (λ z. key y ≢ key z) ys (x ∷ []) d.0 (a.0, tt), Distinct-snoc ys x d.1 a.1)

  -- In a list with distinct keys no element has the key of a later one.
  pub Distinct-All :
      (xs ys : List A) (y : A) → Distinct key (xs ++ y ∷ ys) → All (λ x. key x ≢ key y) xs
  Distinct-All [] ys y d = tt
  Distinct-All (x ∷ xs) ys y d = (
    All-In (λ z. key x ≢ key z) y (xs ++ y ∷ ys) d.0 (In-append_right y xs (y ∷ ys) (inl refl)),
    Distinct-All xs ys y d.1,
  )
