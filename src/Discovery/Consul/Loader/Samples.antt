-- ===== src/Discovery/Consul/Loader/Samples.antt =====
-- Data for the tests: a sort, entries of one service, and answers.
use mathlib.Core.List.{Perm}
use mathlib.Core.List.Perm
use flexds.Prelude.{
  ℤ, pos, ◌≡◌, Bool, false, none, Option, List, [], ◌∷◌, arith, All, All-map, if◌then◌else◌,
  Bool-cases, inl, inr,
}
use flexds.Results.{Result, ok, err}
use flexds.Strings.{Text, codes, ◌==◌}
use flexds.Dict.{Dict}
use flexds.Discovery.Consul.Loader.{Entry, newer}
use flexds.Discovery.Consul.Loader.Entries.{SortLaws, IsSorted}

insert_entry : (Entry → Entry → Bool) → Entry → List Entry → List Entry
insert_entry less e [] = e ∷ []
insert_entry less e (x ∷ xs) =
    let rest = insert_entry less e xs in if less x e then x ∷ rest else e ∷ x ∷ xs

unfoldable pub insertion_sort : (Entry → Entry → Bool) → List Entry → List Entry
unfolding insert_entry
insertion_sort less [] = []
insertion_sort less (x ∷ xs) = insert_entry less x (insertion_sort less xs)

insert_entry-perm : (e : Entry) (xs : List Entry) → Perm (insert_entry newer e xs) (e ∷ xs)
unfolding insert_entry
insert_entry-perm e [] = Perm.refl _
insert_entry-perm e (x ∷ xs) = elim (Bool-cases (newer x e)) [
  | inl h ↦ rw h (Perm.trans (Perm.cons x (insert_entry-perm e xs)) (Perm.swap e x xs))
  | inr h ↦ rw h (Perm.refl _)
]

All-insert_entry :
    (P : Entry → Type 0) (e : Entry) (xs : List Entry)
    → P e
    → All P xs
    → All P (insert_entry newer e xs)
unfolding insert_entry
All-insert_entry P e [] p h = (p, tt)
All-insert_entry P e (x ∷ xs) p (q, h) = elim (Bool-cases (newer x e)) [
  | inl k ↦ rw k (q, All-insert_entry P e xs p h)
  | inr k ↦ rw k (p, (q, h))
]

insert_entry-IsSorted :
    (e : Entry) (xs : List Entry) → IsSorted newer xs → IsSorted newer (insert_entry newer e xs)
unfolding insert_entry
insert_entry-IsSorted e [] h = (tt, tt)
insert_entry-IsSorted e (x ∷ xs) (k, h) = elim (Bool-cases (newer x e)) [
  | inl l ↦ rw l (
    All-insert_entry (λ later. newer later x ≡ false) e xs (ground (arith, l)) k,
    insert_entry-IsSorted e xs h,
  )
  | inr l ↦ rw l ((l, All-map (λ later m. ground (arith, l, m)) xs k), (k, h))
]

insertion_sort-perm : (xs : List Entry) → Perm (insertion_sort newer xs) xs
unfolding insertion_sort
insertion_sort-perm [] = Perm.refl []
insertion_sort-perm (x ∷ xs) =
    Perm.trans (insert_entry-perm x (insertion_sort newer xs))
      (Perm.cons x (insertion_sort-perm xs))

insertion_sort-IsSorted : (xs : List Entry) → IsSorted newer (insertion_sort newer xs)
unfolding insertion_sort
insertion_sort-IsSorted [] = tt
insertion_sort-IsSorted (x ∷ xs) =
    insert_entry-IsSorted x (insertion_sort newer xs) (insertion_sort-IsSorted xs)

pub insertion_sort-SortLaws : SortLaws insertion_sort
insertion_sort-SortLaws = record { permutes = insertion_sort-perm; sorts = insertion_sort-IsSorted }

abbrev pub old_entry : Entry
old_entry = record {
  service = codes "web";
  address = [];
  port = pos 8080;
  meta = [];
  modify_index = 4;
  node_address = codes "10.0.0.1";
}

abbrev pub new_entry : Entry
new_entry = record old_entry {
  address = codes "10.0.0.2";
  meta = (codes "http2", codes "true") ∷ (codes "route_1_path_prefix", codes "/web") ∷ [];
  modify_index = 7;
}

abbrev pub health : Text → Result Text (List Entry)
health svc = if svc == codes "web" then ok (old_entry ∷ new_entry ∷ []) else err (codes "down")

abbrev pub no_duration : Text → Option ℤ
no_duration text = none

abbrev pub as_is : {V : Type 0} → Dict V → Dict V
as_is m = m
