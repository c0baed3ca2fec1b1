-- ===== src/Strings/Cut.antt =====
-- Cutting a text at a separator: `cut`, `split_n`, `split` and `join`.
use flexds.Prelude.{
  ℕ, ◌≡◌, refl, ap, ◌≢◌, none, some, List, [], ◌∷◌, ◌++◌, ◌∙◌, arith, eqb, All, inl, inr,
  Option-cases, Bool-cases,
}
use flexds.Strings.{Text, cut, split, join}

abbrev pub Lacks : ℕ → Text → Type 0
Lacks sep = All (λ c. c ≢ sep)

pub cut-eq-none : (sep : ℕ) (s : Text) → cut sep s ≡ none → Lacks sep s
unfolding cut
cut-eq-none sep [] h = tt
cut-eq-none sep (c ∷ s) h = (ground arith, cut-eq-none sep s (ground arith))

pub cut-eq-some :
    (sep : ℕ) (s a b : Text) → cut sep s ≡ some (a, b) → (s ≡ a ++ sep ∷ b) × Lacks sep a
unfolding cut
cut-eq-some sep [] a b h = cc
cut-eq-some sep (c ∷ s) a b h = elim (Bool-cases (eqb c sep)) [
  | inl e ↦ ground arith
  | inr e ↦ elim (Option-cases (cut sep s)) [
    | inl n ↦ ground arith
    | inr ((a', b'), f) ↦ ground (arith, cut-eq-some sep s a' b' f)
  ]
]

-- The first separator is where the text is cut.
pub cut-append : (sep : ℕ) (a b : Text) → Lacks sep a → cut sep (a ++ sep ∷ b) ≡ some (a, b)
unfolding cut
cut-append sep [] b h = ground arith
cut-append sep (c ∷ a) b (hc, ha) = ground (arith, cut-append sep a b ha)

split-append :
    (sep : ℕ) (p rest : Text) → Lacks sep p → split sep (p ++ sep ∷ rest) ≡ p ∷ split sep rest
unfolding split
split-append sep [] rest h = ground arith
split-append sep (c ∷ p) rest (hc, hp) = ground (arith, split-append sep p rest hp)

split_whole : (sep : ℕ) (p : Text) → Lacks sep p → split sep p ≡ p ∷ []
unfolding split
split_whole sep [] h = refl
split_whole sep (c ∷ p) (hc, hp) = ground (arith, split_whole sep p hp)

-- Splitting a join gives the parts back, if there is a part and none holds the separator.
pub split-join :
    (sep : ℕ) (p : Text) (ps : List Text)
    → All (Lacks sep) (p ∷ ps)
    → split sep (join sep (p ∷ ps)) ≡ p ∷ ps
unfolding join
split-join sep p [] (h, hs) = split_whole sep p h
split-join sep p (q ∷ ps) (h, hs) =
    split-append sep p _ h ∙ ap (λ r. p ∷ r) (split-join sep q ps hs)
