-- ===== src/Config/Ports.antt =====
-- The flag of listener ports: what Set reads, and that String prints what Set reads.
use flexds.Prelude.{
  ℕ, ◌≤◌, ◌≡◌, ◌≢◌, refl, sym, ap, ◌∙◌, false, Option, none, some, List, [], ◌∷◌, ◌++◌, map,
  append_assoc, append-nil, arith, All, All-map, All-of_map, ◌⊎◌, inl, inr, Bool-cases,
}
use flexds.Strings.{
  Text, is_empty, is_space, trim_left, trim_right, trim_space, split, join, itoa, NumError, Parsed,
  parsed, failed, max_u32, parse_u32,
}
use flexds.Strings.Cut.{Lacks, split-join}
use flexds.Strings.Decimal.{IsDigit, itoa-IsDigit, itoa-ne-nil, parse_u32-itoa, parse_u32-le}
use flexds.Config.{PortError, invalid_port, string, set_parts, set}

Parsed-cases : (r : Parsed) → ((v : ℕ) × (r ≡ parsed v)) ⊎ ((e : NumError) × (r ≡ failed e))
Parsed-cases (parsed v) = inl (v, refl)
Parsed-cases (failed e) = inr (e, refl)

digit_no_space : (c : ℕ) → IsDigit c → is_space c ≡ false
digit_no_space c h = ground (arith, h)

trim_right-digits : (s : Text) → All IsDigit s → trim_right s ≡ s
unfolding trim_right
trim_right-digits [] h = refl
trim_right-digits (c ∷ s) (d, h) = rw (digit_no_space c d, trim_right-digits s h)

trim_space-digits : (s : Text) → All IsDigit s → trim_space s ≡ s
unfolding trim_space trim_left
trim_space-digits [] h = unfold trim_right in refl
trim_space-digits (c ∷ s) (d, h) = rw (digit_no_space c d) (trim_right-digits (c ∷ s) (d, h))

itoa-not-empty : (n : ℕ) → is_empty (itoa n) ≡ false
itoa-not-empty n = not-empty (itoa n) (itoa-ne-nil n)
  where
    not-empty : (s : Text) → s ≢ [] → is_empty s ≡ false
    not-empty [] h = absurd (h refl)
    not-empty (c ∷ s) h = refl

abbrev IsPort : ℕ → Type 0
IsPort n = n ≤ max_u32

set_parts-itoa :
    (ports f : List ℕ) → All IsPort ports → set_parts (map itoa ports) f ≡ (f ++ ports, none)
unfolding set_parts
set_parts-itoa [] f h = ap (λ l. (l, none)) (sym (append-nil f))
set_parts-itoa (n ∷ ports) f (k, h) =
    rw (trim_space-digits (itoa n) (itoa-IsDigit n), itoa-not-empty n, parse_u32-itoa n k)
      (set_parts-itoa ports (f ++ n ∷ []) h ∙ ap (λ l. (l, none)) (append_assoc f (n ∷ []) ports))

itoa-Lacks : (n : ℕ) → Lacks b',' (itoa n)
itoa-Lacks n = All-map (λ c d. omega (arith, d)) (itoa n) (itoa-IsDigit n)

-- Set reads back what String prints, without an error, for any ports of 32 bits, and appends them
-- to what the flag holds already.
pub set-string : (ports f : List ℕ) → All IsPort ports → set (string ports) f ≡ (f ++ ports, none)
unfolding set string
set-string [] f h =
    unfold set_parts join split trim_space trim_left trim_right in
    ap (λ l. (l, none)) (sym (append-nil f))
set-string (n ∷ ports) f h =
    rw
      (split-join b',' (itoa n) (map itoa ports)
        (All-of_map (Lacks b',') itoa (n ∷ ports) itoa-Lacks))
      (set_parts-itoa (n ∷ ports) f h)

-- How a flag grows while Set reads some parts.
abbrev pub Grows : List ℕ → List ℕ × Option PortError → Type 0
Grows f r = (new : List ℕ) × (r.0 ≡ f ++ new) × All IsPort new

Grows-next :
    (f : List ℕ) (v : ℕ) (r : List ℕ × Option PortError)
    → IsPort v
    → Grows (f ++ v ∷ []) r
    → Grows f r
Grows-next f v r k (new, e, h) = (v ∷ new, e ∙ append_assoc f (v ∷ []) new, (k, h))

Grows-none : (f : List ℕ) (e : Option PortError) → Grows f (f, e)
Grows-none f e = ([], sym (append-nil f), tt)

set_parts-Grows : (parts : List Text) (f : List ℕ) → Grows f (set_parts parts f)
unfolding set_parts
set_parts-Grows [] f = Grows-none f none
set_parts-Grows (p ∷ parts) f = elim (Bool-cases (is_empty (trim_space p))) [
  | inl e ↦ rw e (set_parts-Grows parts f)
  | inr e ↦ elim (Parsed-cases (parse_u32 (trim_space p))) [
    | inl (v, k) ↦
        rw (e, k)
          (Grows-next f v (set_parts parts (f ++ v ∷ [])) (parse_u32-le (trim_space p) v k)
            (set_parts-Grows parts (f ++ v ∷ [])))
    | inr (error, k) ↦ rw (e, k) (Grows-none f (some (invalid_port (trim_space p) error)))
  ]
]

-- Set keeps all that the flag holds, the default value included, and appends numbers that fit 32
-- bits, also where it ends with an error.
pub set-Grows : (value : Text) (f : List ℕ) → Grows f (set value f)
unfolding set
set-Grows value f = set_parts-Grows (split b',' value) f
