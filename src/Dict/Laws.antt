-- ===== src/Dict/Laws.antt =====
-- What a lookup finds after a write, and in a map with distinct keys.
use flexds.Prelude.{◌≡◌, refl, false, some, [], ◌∷◌, arith, if◌then◌else◌}
use flexds.Strings.{Text, ◌==◌}
use flexds.Strings.Equality.{==_iff}
use flexds.Dict.{Dict, lookup, insert, IsMap, SameMap}

module _ {ℓ} {V : Type ℓ} where
  pub lookup-insert :
      (key other : Text) (value : V) (m : Dict V)
      → lookup other (insert key value m) ≡ (if key == other then some value else lookup other m)
  unfolding lookup insert
  lookup-insert key other value [] = refl
  lookup-insert key other value ((k, v) ∷ rest) =
      let later = lookup-insert key other value rest in
      ground (arith, later, ==_iff k key, ==_iff k other, ==_iff key other)

  pub insert-IsMap : (k : Text) (v : V) (m : Dict V) → IsMap m → IsMap (insert k v m)
  unfolding lookup insert
  insert-IsMap k v [] h = (refl, tt)
  insert-IsMap k v ((j, w) ∷ m) (new, h) =
      ground (arith, ==_iff j k, ==_iff k j, lookup-insert k j v m, insert-IsMap k v m h)

  -- Two entries with different keys may stand in either order.
  pub SameMap-swap :
      (a b : Text) (v w : V) (m : Dict V)
      → a == b ≡ false
      → SameMap ((a, v) ∷ (b, w) ∷ m) ((b, w) ∷ (a, v) ∷ m)
  unfolding lookup
  SameMap-swap a b v w m h k = ground (arith, ==_iff a k, ==_iff b k, ==_iff a b)
