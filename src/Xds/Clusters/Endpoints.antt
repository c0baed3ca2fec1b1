-- ===== src/Xds/Clusters/Endpoints.antt =====
-- The endpoints of a service: addresses and ports.
use flexds.Prelude.{
  ℕ, ◌+◌, ◌*◌, ◌/◌, ◌<◌, ◌^◌, ℤ, pos, negsuc, to_u32, to_u32_lt, ◌≡◌, ◌≢◌, ◌↔◌, refl, true, false,
  List, [], ◌∷◌, arith, Bool-cases, inl, inr,
}
use flexds.Strings.{Text, is_empty}
use flexds.Common.ServiceModel.{ServiceInstance}
use flexds.Xds.Resources.{LbEndpoint}
use flexds.Xds.Clusters.{lb_endpoints}

-- The 32-bit number that a port wraps around to.
abbrev pub WrapsTo : ℤ → ℕ → Type 0
WrapsTo (pos m) n = (n < 2 ^ 32) × (k : ℕ) × (m ≡ n + k * 2 ^ 32)
WrapsTo (negsuc m) n = (n < 2 ^ 32) × (k : ℕ) × (n + (m + 1) ≡ k * 2 ^ 32)

-- An endpoint for each instance that has an address, in order.
pub data Dials : List ServiceInstance → List LbEndpoint → Type 0 where
  none_left : Dials [] []
  passed :
      {inst : ServiceInstance} {insts : List ServiceInstance} {es : List LbEndpoint}
      → inst.address ≡ []
      → Dials insts es
      → Dials (inst ∷ insts) es
  dialled :
      {inst : ServiceInstance} {insts : List ServiceInstance} {e : LbEndpoint}
      {es : List LbEndpoint}
      → inst.address ≢ []
      → e.address.address ≡ inst.address
      → WrapsTo inst.port e.address.port_value
      → Dials insts es
      → Dials (inst ∷ insts) (e ∷ es)

to_u32-WrapsTo : (z : ℤ) → WrapsTo z (to_u32 z)
unfolding to_u32
to_u32-WrapsTo (pos m) = (to_u32_lt (pos m), m / 2 ^ 32, omega arith)
to_u32-WrapsTo (negsuc m) = (to_u32_lt (negsuc m), m / 2 ^ 32 + 1, omega arith)

WrapsTo-unique : (z : ℤ) (n n' : ℕ) → WrapsTo z n → WrapsTo z n' → n ≡ n'
WrapsTo-unique (pos m) n n' (h, k, e) (h', k', e') = omega arith
WrapsTo-unique (negsuc m) n n' (h, k, e) (h', k', e') = omega arith

empty-nil : (s : Text) → is_empty s ≡ true → s ≡ []
empty-nil [] h = refl
empty-nil (c ∷ s) h = cc

full-ne-nil : (s : Text) → is_empty s ≡ false → s ≢ []
full-ne-nil [] h = cc
full-ne-nil (c ∷ s) h = λ e. cc

lb_endpoints-Dials : (insts : List ServiceInstance) → Dials insts (lb_endpoints insts)
unfolding lb_endpoints
lb_endpoints-Dials [] = Dials.none_left
lb_endpoints-Dials (inst ∷ insts) = elim (Bool-cases (is_empty inst.address)) [
  | inl e ↦ rw e (Dials.passed (empty-nil inst.address e) (lb_endpoints-Dials insts))
  | inr e ↦ rw e (
      Dials.dialled (full-ne-nil inst.address e) refl (to_u32-WrapsTo inst.port)
        (lb_endpoints-Dials insts))
]

nil-empty : (s : Text) → s ≡ [] → is_empty s ≡ true
nil-empty [] h = refl
nil-empty (c ∷ s) h = cc

ne-nil-full : (s : Text) → s ≢ [] → is_empty s ≡ false
ne-nil-full [] h = absurd (h refl)
ne-nil-full (c ∷ s) h = refl

endpoint : Text → ℕ → LbEndpoint
endpoint address port = record { address = record { address = address; port_value = port } }

dialled-endpoint :
    (inst : ServiceInstance) (e : LbEndpoint)
    → e.address.address ≡ inst.address
    → WrapsTo inst.port e.address.port_value
    → e ≡ endpoint inst.address (to_u32 inst.port)
unfolding endpoint
dialled-endpoint inst e named w =
    let port =
      WrapsTo-unique inst.port e.address.port_value (to_u32 inst.port) w
        (to_u32-WrapsTo inst.port) in
    rw (← named, ← port) refl

Dials-unique :
    (insts : List ServiceInstance) (es : List LbEndpoint) → Dials insts es → es ≡ lb_endpoints insts
unfolding lb_endpoints endpoint
Dials-unique _ _ Dials.none_left = refl
Dials-unique (inst ∷ insts) es (Dials.passed a d) =
    rw (nil-empty inst.address a) (Dials-unique insts es d)
Dials-unique (inst ∷ insts) (e ∷ es) (Dials.dialled a named w d) =
    rw (ne-nil-full inst.address a, ← dialled-endpoint inst e named w, ← Dials-unique insts es d)

-- The endpoints of any instances are exactly these: in order, one for each instance with an address,
-- with the same address and the port's remainder by 2^32, also for a negative port.
pub lb_endpoints_exact :
    (insts : List ServiceInstance) (es : List LbEndpoint)
    → Dials insts es ↔ (es ≡ lb_endpoints insts)
lb_endpoints_exact insts es = (Dials-unique insts es, λ e. rw e (lb_endpoints-Dials insts))
