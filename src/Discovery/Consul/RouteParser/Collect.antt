-- ===== src/Discovery/Consul/RouteParser/Collect.antt =====
-- The map of maps that the first loop of ParseServiceRoutes builds, read through its lookups.
use flexds.Prelude.{
  ◌≡◌, ◌≢◌, refl, sym, ap, ◌∙◌, Bool, true, false, ◌&&◌, Option, none, some, [], ◌∷◌, ◌++◌, arith,
  if◌then◌else◌, Bool-cases, Option-cases, inl, inr,
}
use flexds.Strings.{Text, codes, ◌==◌, has_prefix, cut, split_n}
use flexds.Strings.Equality.{==_iff, ==-ne, has_prefix-append, has_prefix_split}
use flexds.Strings.Cut.{Lacks, cut-eq-some, cut-append}
use flexds.Dict.{Dict, lookup, insert, IsMap, or_zero}
use flexds.Dict.Laws.{lookup-insert}
use flexds.Discovery.Consul.RouteParser.{set_field, add_key, collect}

-- The metadata key of one field of one route.
abbrev pub route_key : Text → Text → Text
route_key num field = codes "route_" ++ (num ++ b'_' ∷ field)

abbrev pub field_of : Dict (Dict Text) → Text → Text → Option Text
field_of m num field = lookup field (or_zero [] (lookup num m))

abbrev pub is_some {ℓ} : {A : Type ℓ} → Option A → Bool
is_some none = false
is_some (some a) = true

abbrev pub or_else {ℓ} : {A : Type ℓ} → Option A → Option A → Option A
or_else none d = d
or_else (some a) d = some a

some_pair_inj :
    {a b c d : Text}
    → ◌≡◌ {A = Option (Text × Text)} (some (a, b)) (some (c, d))
    → (a ≡ c) × (b ≡ d)
some_pair_inj e = (cc, cc)

tail_inj : {r s : Text} → codes "route_" ++ r ≡ codes "route_" ++ s → r ≡ s
tail_inj e = cc

pub route_key_injective :
    (a b num field : Text)
    → Lacks b'_' a
    → Lacks b'_' num
    → route_key a b ≡ route_key num field
    → (a ≡ num) × (b ≡ field)
route_key_injective a b num field ha hn e =
    some_pair_inj
      (sym (cut-append b'_' a b ha) ∙ ap (cut b'_') (tail_inj e) ∙ cut-append b'_' num field hn)

-- The first two parts that SplitN cuts off a key with the prefix.
split_key : (r : Text) → split_n 3 b'_' (codes "route_" ++ r) ≡ codes "route" ∷ split_n 2 b'_' r
unfolding split_n
split_key r = refl

field_of-set_field :
    (a b value num field : Text) (m : Dict (Dict Text))
    → field_of (set_field a b value m) num field
      ≡ (if a == num && b == field then some value else field_of m num field)
field_of-set_field a b value num field m = ground (
  arith,
  lookup-insert a num (insert b value (or_zero [] (lookup a m))) m,
  lookup-insert b field value (or_zero [] (lookup a m)),
  ==_iff a num,
)

-- A key is the key of a route's field exactly when the two cuts give the route and the field.
pub key_test :
    (a b num field : Text)
    → Lacks b'_' a
    → Lacks b'_' num
    → (route_key a b == route_key num field) ≡ (a == num && b == field)
key_test a b num field ha hn = ground (
  arith,
  ==_iff (route_key a b) (route_key num field),
  ==_iff a num,
  ==_iff b field,
  route_key_injective a b num field ha hn,
)

pub add_key_other :
    (key value : Text) (m : Dict (Dict Text))
    → has_prefix (codes "route_") key ≡ false
    → add_key key value m ≡ m
unfolding add_key
add_key_other key value m h = rw h

pub add_key_short :
    (r value : Text) (m : Dict (Dict Text))
    → cut b'_' r ≡ none
    → add_key (codes "route_" ++ r) value m ≡ m
unfolding add_key
add_key_short r value m h = ground arith

pub add_key_field :
    (r a b value : Text) (m : Dict (Dict Text))
    → cut b'_' r ≡ some (a, b)
    → add_key (codes "route_" ++ r) value m ≡ set_field a b value m
unfolding add_key
add_key_field r a b value m h = ground arith

pub no_prefix_ne :
    (key num field : Text) → has_prefix (codes "route_") key ≡ false → key ≢ route_key num field
no_prefix_ne key num field h e = cc (has_prefix-append (codes "route_") (num ++ b'_' ∷ field), h, e)

pub short_ne :
    (r num field : Text)
    → Lacks b'_' num
    → cut b'_' r ≡ none
    → codes "route_" ++ r ≢ route_key num field
short_ne r num field hn h e = cc (cut-append b'_' num field hn, h, ap (cut b'_') (tail_inj e))

-- What one key adds: the value of the field that it is the key of.
pub field_of-add_key :
    (key value num field : Text) (m : Dict (Dict Text))
    → Lacks b'_' num
    → field_of (add_key key value m) num field
      ≡ (if key == route_key num field then some value else field_of m num field)
field_of-add_key key value num field m hn = elim (Bool-cases (has_prefix (codes "route_") key)) [
  | inr other ↦ rw (add_key_other key value m other, ==-ne key _ (no_prefix_ne key num field other))
  | inl prefix ↦ let (r, e) = has_prefix_split (codes "route_") key prefix in rw e (in_route r)
]
  where
    in_cut :
        (r a b : Text)
        → cut b'_' r ≡ some (a, b)
        → field_of (add_key (codes "route_" ++ r) value m) num field ≡ (
            if (codes "route_" ++ r) == route_key num field
            then some value
            else field_of m num field)
    in_cut r a b h =
        let (split, ha) = cut-eq-some b'_' r a b h in
        rw (add_key_field r a b value m h, field_of-set_field a b value num field m)
          (rw split (rw (key_test a b num field ha hn)))

    in_route :
        (r : Text)
        → field_of (add_key (codes "route_" ++ r) value m) num field ≡ (
            if (codes "route_" ++ r) == route_key num field
            then some value
            else field_of m num field)
    in_route r = elim (Option-cases (cut b'_' r)) [
      | inl short ↦ rw (add_key_short r value m short, ==-ne _ _ (short_ne r num field hn short))
      | inr ((a, b), h) ↦ in_cut r a b h
    ]

-- With distinct keys in the metadata, the map of maps holds for each field what its key holds.
field_of-collect_from :
    (meta : Dict Text) (num field : Text) (m : Dict (Dict Text))
    → Lacks b'_' num
    → IsMap meta
    → field_of (collect meta m) num field
      ≡ or_else (lookup (route_key num field) meta) (field_of m num field)
unfolding collect lookup
field_of-collect_from [] num field m hn h = refl
field_of-collect_from ((key, value) ∷ meta) num field m hn (new, h) =
    rw
      (
        field_of-collect_from meta num field (add_key key value m) hn h,
        field_of-add_key key value num field m hn,
      )
      (ground (arith, ==_iff key (route_key num field)))

pub field_of-collect :
    (meta : Dict Text) (num field : Text)
    → Lacks b'_' num
    → IsMap meta
    → field_of (collect meta []) num field ≡ lookup (route_key num field) meta
field_of-collect meta num field hn h =
    field_of-collect_from meta num field [] hn h ∙ (unfold lookup in ground arith)
