-- ===== src/Discovery/Consul/Loader/Entries.antt =====
-- What sort.Slice promises, and the entry whose metadata counts.
use mathlib.Core.Logic.{∥∥₁_elim}
use mathlib.Core.List.{Perm, Permᴰ, Perm-prop}
use mathlib.Core.List.Perm
use flexds.Prelude.{
  ◌≤◌, ◌≡◌, Bool, true, false, List, [], ◌∷◌, arith, All, All-map, if◌then◌else◌, Bool-cases, inl,
  inr,
}
use flexds.Strings.{is_empty}
use flexds.Common.ServiceModel.{ServiceInstance}
use flexds.Discovery.Consul.Loader.{Entry, newer, entry_address, instances_of}

-- No element is less than one before it.
abbrev pub IsSorted : (Entry → Entry → Bool) → List Entry → Type 0
IsSorted less [] = Unit
IsSorted less (e ∷ entries) = All (λ later. less later e ≡ false) entries × IsSorted less entries

-- sort.Slice at the order of the handler: the elements stay, and they are sorted. Elements that are
-- equal in the order may come out in any order.
pub record SortLaws (sort : (Entry → Entry → Bool) → List Entry → List Entry) : Type 0 where
  pub permutes : (entries : List Entry) → Perm (sort newer entries) entries
  pub sorts : (entries : List Entry) → IsSorted newer (sort newer entries)

-- A latest entry: none has a higher index.
abbrev pub IsLatest : Entry → List Entry → Type 0
IsLatest latest = All (λ e. e.modify_index ≤ latest.modify_index)

pub sorted-IsLatest :
    (e : Entry) (entries : List Entry) → IsSorted newer (e ∷ entries) → IsLatest e (e ∷ entries)
sorted-IsLatest e entries (h, _) = (omega arith, All-map (λ later k. ground (arith, k)) entries h)

keep_instance :
    (e : Entry) (xs ys : List ServiceInstance)
    → Perm xs ys
    → Perm
        (if is_empty (entry_address e)
          then xs
          else record { address = entry_address e; port = e.port } ∷ xs)
        (if is_empty (entry_address e)
          then ys
          else record { address = entry_address e; port = e.port } ∷ ys)
keep_instance e xs ys h = elim (Bool-cases (is_empty (entry_address e))) [
  | inl k ↦ rw k h
  | inr k ↦ rw k (Perm.cons _ h)
]

exchange :
    (a b : Bool) (s t : ServiceInstance) (l : List ServiceInstance)
    → Perm
        (if b then (if a then l else s ∷ l) else t ∷ (if a then l else s ∷ l))
        (if a then (if b then l else t ∷ l) else s ∷ (if b then l else t ∷ l))
exchange true b s t l = Perm.refl _
exchange false true s t l = Perm.refl _
exchange false false s t l = Perm.swap s t l

permuted : {xs ys : List Entry} → Permᴰ xs ys → Perm (instances_of xs) (instances_of ys)
unfolding instances_of
permuted Permᴰ.nil = Perm.refl []
permuted (Permᴰ.cons {b = e} p h) = rw p (keep_instance e _ _ (permuted h))
permuted (Permᴰ.swap {a' = a} {b' = b} {l = l} p q) =
    rw (p, q)
      (exchange (is_empty (entry_address a)) (is_empty (entry_address b)) _ _ (instances_of l))
permuted (Permᴰ.trans h k) = Perm.trans (permuted h) (permuted k)

-- The order of the entries does not change the instances, but for their order.
pub instances_of-perm : {xs ys : List Entry} → Perm xs ys → Perm (instances_of xs) (instances_of ys)
instances_of-perm p = ∥∥₁_elim p Perm-prop permuted

-- No instance has an empty address.
pub instances_of-addressed :
    (entries : List Entry)
    → All (λ (i : ServiceInstance). is_empty i.address ≡ false) (instances_of entries)
unfolding instances_of
instances_of-addressed [] = tt
instances_of-addressed (e ∷ entries) = elim (Bool-cases (is_empty (entry_address e))) [
  | inl k ↦ rw k (instances_of-addressed entries)
  | inr k ↦ rw k (k, instances_of-addressed entries)
]
