-- ===== src/Strings/Decimal.antt =====
-- Printing and reading decimal numbers.
use flexds.Prelude.{
  ℕ, zero, suc, ◌+◌, ◌-◌, ◌*◌, ◌/◌, ◌%◌, ◌≤◌, ◌<◌, ◌≡◌, refl, sym, ap, ◌∙◌, ◌≢◌, [], ◌∷◌, arith,
  ltb, All, inl, inr, Bool-cases,
}
use flexds.Strings.{Text, digits, itoa, scan, parsed, max_u32, parse_u32}

abbrev pub IsDigit : ℕ → Type 0
IsDigit c = (b'0' ≤ c) × (c ≤ b'9')

digits-IsDigit : (fuel n : ℕ) (out : Text) → All IsDigit out → All IsDigit (digits fuel n out)
unfolding digits
digits-IsDigit zero n out h = h
digits-IsDigit (suc fuel) n out h = elim (Bool-cases (ltb n 10)) [
  | inl e ↦ rw e (ground arith, h)
  | inr e ↦ rw e (digits-IsDigit fuel (n / 10) _ (omega arith, h))
]

-- A printed number holds digits only.
pub itoa-IsDigit : (n : ℕ) → All IsDigit (itoa n)
unfolding itoa
itoa-IsDigit n = digits-IsDigit (suc n) n [] tt

scan_last :
    (limit n : ℕ) (out : Text)
    → n ≤ limit
    → scan limit ((b'0' + n % 10) ∷ out) (n / 10) ≡ scan limit out n
unfolding scan
scan_last limit n out h = ground arith

scan-digits :
    (limit fuel n : ℕ) (out : Text)
    → n < fuel
    → n ≤ limit
    → scan limit (digits fuel n out) 0 ≡ scan limit out n
unfolding digits
scan-digits limit zero n out h k = absurd (omega arith)
scan-digits limit (suc fuel) n out h k = elim (Bool-cases (ltb n 10)) [
  | inl e ↦ rw e (unfold scan in ground arith)
  | inr e ↦
      rw e
        (scan-digits limit fuel (n / 10) _ (ground arith) (omega arith) ∙ scan_last limit n out k)
]

scan-itoa : (limit n : ℕ) → n ≤ limit → scan limit (itoa n) 0 ≡ parsed n
unfolding itoa
scan-itoa limit n h = scan-digits limit (suc n) n [] (omega arith) h ∙ (unfold scan in refl)

digits-ne-nil : (fuel n : ℕ) (out : Text) → out ≢ [] → digits fuel n out ≢ []
unfolding digits
digits-ne-nil zero n out h = h
digits-ne-nil (suc fuel) n out h =
    ground (arith, digits-ne-nil fuel (n / 10) ((b'0' + n % 10) ∷ out))

pub itoa-ne-nil : (n : ℕ) → itoa n ≢ []
unfolding itoa digits
itoa-ne-nil n = ground (arith, digits-ne-nil n (n / 10) ((b'0' + n % 10) ∷ []))

-- No two numbers print alike.
pub itoa_injective : (m n : ℕ) → itoa m ≡ itoa n → m ≡ n
itoa_injective m n e = parsed_inj (
    sym (scan-itoa (m + n) m (omega arith))
    ∙ ap (λ s. scan (m + n) s 0) e
    ∙ scan-itoa (m + n) n (omega arith))
  where
    parsed_inj : {a b : ℕ} → parsed a ≡ parsed b → a ≡ b
    parsed_inj p = cc

parse_u32-scan : (s : Text) → s ≢ [] → parse_u32 s ≡ scan max_u32 s 0
unfolding parse_u32
parse_u32-scan [] h = absurd (h refl)
parse_u32-scan (c ∷ s) h = refl

-- A printed 32-bit number is read back.
pub parse_u32-itoa : (n : ℕ) → n ≤ max_u32 → parse_u32 (itoa n) ≡ parsed n
parse_u32-itoa n h = parse_u32-scan (itoa n) (itoa-ne-nil n) ∙ scan-itoa max_u32 n h

scan-le : (limit : ℕ) (s : Text) (n r : ℕ) → n ≤ limit → scan limit s n ≡ parsed r → r ≤ limit
unfolding scan
scan-le limit [] n r k h = ground arith
scan-le limit (c ∷ s) n r k h = ground (arith, scan-le limit s (n * 10 + (c - b'0')) r)

-- A number that is read fits 32 bits.
pub parse_u32-le : (s : Text) (r : ℕ) → parse_u32 s ≡ parsed r → r ≤ max_u32
unfolding parse_u32
parse_u32-le [] r h = cc
parse_u32-le (c ∷ s) r h = scan-le max_u32 (c ∷ s) 0 r (omega arith) h
