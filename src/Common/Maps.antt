-- ===== src/Common/Maps.antt =====
-- Go maps keyed by strings. A write goes to the front and the first entry of a key counts, so a
-- later write replaces an earlier one. A set is a map to `struct{}`, here its list of keys.
use Prim.Native.String.{String}
use mathlib.Core.Bool.{Bool, true, false, ◌||◌}
use mathlib.Core.Option.{Option, none, some}
use mathlib.Core.List.{List, [], ◌∷◌}
use mathlib.Core.Path.{◌≡◌, refl}
use native.Mathlib.Omega.{arith}
use mujeeb24_backend_go.Common.Tests.{◌==◌, ==_iff, if◌then◌else◌}

abbrev pub Map {ℓ} : Type ℓ → Type ℓ
Map V = List (String × V)

-- `m[k]` with its second result; the entry `(key, value)` of a write is in front of the older ones.
abbrev pub lookup {ℓ} : {V : Type ℓ} → String → Map V → Option V
lookup wanted [] = none
lookup wanted ((key, value) ∷ older) = if key == wanted then some value else lookup wanted older

module _ {ℓ} {V : Type ℓ} where
  abbrev pub put : String → V → Map V → Map V
  put key value m = (key, value) ∷ m

  -- A write that keeps one entry for each key, for the maps that the code iterates over.
  abbrev pub assign : String → V → Map V → Map V
  assign wanted value [] = put wanted value []
  assign wanted value ((key, old) ∷ rest) =
      if key == wanted then (wanted, value) ∷ rest else (key, old) ∷ assign wanted value rest

  -- `m[k]` with the zero value for a missing key
  abbrev pub lookup_or : V → String → Map V → V
  lookup_or zero_value k m = elim (lookup k m) [ none ↦ zero_value | some v ↦ v ]

-- `_, ok := m[k]`
abbrev pub contains {ℓ} : {V : Type ℓ} → String → Map V → Bool
contains k m = elim (lookup k m) [ none ↦ false | some _ ↦ true ]

abbrev pub has : String → List String → Bool
has k [] = false
has k (j ∷ ks) = (j == k) || has k ks

pub lookup-assign {ℓ} :
    {V : Type ℓ} (k j : String) (v : V) (m : Map V)
    → lookup k (assign j v m) ≡ (if j == k then some v else lookup k m)
lookup-assign k j v [] = refl
lookup-assign k j v ((i, w) ∷ m) =
    ground (arith, ==_iff j k, ==_iff i j, ==_iff i k, lookup-assign k j v m)
