-- ===== src/Strings/Equality.antt =====
-- The test `==` on texts decides their equality.
use flexds.Prelude.{
  ◌≡◌, refl, ◌≢◌, ◌↔◌, true, false, [], ◌∷◌, ◌++◌, arith, ◌⊎◌, inl, inr, Bool-cases,
}
use flexds.Strings.{Text, ◌==◌, has_prefix}

pub eq_of_== : (s t : Text) → s == t ≡ true → s ≡ t
unfolding ◌==◌
eq_of_== [] [] h = refl
eq_of_== [] (b ∷ t) h = cc
eq_of_== (a ∷ s) [] h = cc
eq_of_== (a ∷ s) (b ∷ t) h = ground (arith, eq_of_== s t)

pub ==_refl : (s : Text) → s == s ≡ true
unfolding ◌==◌
==_refl [] = refl
==_refl (a ∷ s) = ground (arith, ==_refl s)

pub ==_iff : (s t : Text) → (s == t ≡ true) ↔ (s ≡ t)
==_iff s t = (eq_of_== s t, λ e. subst⁻¹' e)
  where
    subst⁻¹' : s ≡ t → s == t ≡ true
    subst⁻¹' e = cc (e, ==_refl s)

-- Two texts are equal, or the test tells them apart.
pub Text-cases : (s t : Text) → (s ≡ t) ⊎ (s == t ≡ false)
Text-cases s t = elim (Bool-cases (s == t)) [ inl e ↦ inl (eq_of_== s t e) | inr e ↦ inr e ]

pub ==-ne : (s t : Text) → s ≢ t → s == t ≡ false
==-ne s t h = ground (arith, ==_iff s t)

pub has_prefix-append : (p s : Text) → has_prefix p (p ++ s) ≡ true
unfolding has_prefix
has_prefix-append [] s = refl
has_prefix-append (a ∷ p) s = ground (arith, has_prefix-append p s)

pub has_prefix_split : (p s : Text) → has_prefix p s ≡ true → (r : Text) × (s ≡ p ++ r)
unfolding has_prefix
has_prefix_split [] s h = (s, refl)
has_prefix_split (a ∷ p) [] h = cc
has_prefix_split (a ∷ p) (b ∷ s) h =
    let (r, e) = has_prefix_split p s (ground arith) in (r, ground (arith, e))
