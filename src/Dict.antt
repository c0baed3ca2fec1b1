-- ===== src/Dict.antt =====
-- Go maps with string keys, as lists of entries. A `range` loop over a map meets its entries in
-- an unspecified order: the order of the list stands for the one that a run has met.
pub mod Laws
use flexds.Prelude.{◌≡◌, ◌≢◌, Option, none, some, List, [], ◌∷◌, map, All, if◌then◌else◌}
use flexds.Strings.{Text, ◌==◌}

abbrev pub Dict {ℓ} : Type ℓ → Type ℓ
Dict V = List (Text × V)

module _ {ℓ} {V : Type ℓ} where
  -- `v, ok := m[key]`
  unfoldable pub lookup : Text → Dict V → Option V
  lookup key [] = none
  lookup key ((k, v) ∷ rest) = if k == key then some v else lookup key rest

  -- `m[key] = value`: in place, or as a new entry.
  unfoldable pub insert : Text → V → Dict V → Dict V
  insert key value [] = (key, value) ∷ []
  insert key value ((k, v) ∷ rest) =
      if k == key then (key, value) ∷ rest else (k, v) ∷ insert key value rest

  -- A Go map holds a key once.
  abbrev pub IsMap : Dict V → Type ℓ
  IsMap [] = Unit
  IsMap ((k, v) ∷ m) = (lookup k m ≡ none) × IsMap m

  -- Two lists of entries of one map, whatever their order.
  abbrev pub SameMap : Dict V → Dict V → Type ℓ
  SameMap m m' = (k : Text) → lookup k m ≡ lookup k m'

-- `m[k]`, with the zero value on a missing key
abbrev pub or_zero {ℓ} : {V : Type ℓ} → V → Option V → V
or_zero z none = z
or_zero z (some v) = v
