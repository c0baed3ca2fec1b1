-- ===== src/Discovery/Consul/RouteParser/Present.antt =====
-- Which route numbers the first loop of ParseServiceRoutes meets.
use flexds.Prelude.{
  ◌≡◌, ◌≢◌, refl, ap, ◌∙◌, Bool, true, false, ◌||◌, some, [], ◌∷◌, ◌++◌, append_assoc, arith, any,
  Bool-cases, Option-cases, Bool-eq_of_iff, inl, inr,
}
use flexds.Strings.{Text, codes, ◌==◌, has_prefix, cut}
use flexds.Strings.Equality.{==_iff, has_prefix-append, has_prefix_split}
use flexds.Strings.Cut.{Lacks, cut-eq-some}
use flexds.Dict.{Dict, lookup, insert, or_zero}
use flexds.Dict.Laws.{lookup-insert}
use flexds.Discovery.Consul.RouteParser.{set_field, add_key, collect}
use flexds.Discovery.Consul.RouteParser.Collect.{
  route_key, is_some, route_key_injective, add_key_other, add_key_short, add_key_field,
  no_prefix_ne, short_ne,
}

-- Some key is that of a field of the route.
abbrev pub has_route : Dict Text → Text → Bool
has_route meta num = any (λ e. has_prefix (route_key num []) e.0) meta

stem-append : (num b : Text) → route_key num [] ++ b ≡ route_key num b
stem-append num b = ap (λ s. codes "route_" ++ s) (append_assoc num (b'_' ∷ []) b)

stem_prefix : (num b : Text) → has_prefix (route_key num []) (route_key num b) ≡ true
stem_prefix num b = rw (← stem-append num b) (has_prefix-append (route_key num []) b)

pub stem_test :
    (a b num : Text)
    → Lacks b'_' a
    → Lacks b'_' num
    → has_prefix (route_key num []) (route_key a b) ≡ (a == num)
stem_test a b num ha hn = Bool-eq_of_iff _ _ to from
  where
    to : has_prefix (route_key num []) (route_key a b) ≡ true → a == num ≡ true
    to h =
        let (r, e) = has_prefix_split (route_key num []) (route_key a b) h in
        (==_iff a num).1 (route_key_injective a b num r ha hn (e ∙ stem-append num r)).0

    from : a == num ≡ true → has_prefix (route_key num []) (route_key a b) ≡ true
    from h = rw ((==_iff a num).0 h) (stem_prefix num b)

-- A key of no field is no key of a route either.
no_stem :
    (key num : Text)
    → ((field : Text) → key ≢ route_key num field)
    → has_prefix (route_key num []) key ≡ false
no_stem key num h = elim (Bool-cases (has_prefix (route_key num []) key)) [
  | inl p ↦
      let (r, e) = has_prefix_split (route_key num []) key p in absurd (h r (e ∙ stem-append num r))
  | inr p ↦ p
]

is_some-set_field :
    (a b value num : Text) (m : Dict (Dict Text))
    → is_some (lookup num (set_field a b value m)) ≡ (a == num || is_some (lookup num m))
is_some-set_field a b value num m =
    ground (arith, lookup-insert a num (insert b value (or_zero [] (lookup a m))) m)

-- One key makes the route that it names present.
is_some-add_key :
    (key value num : Text) (m : Dict (Dict Text))
    → Lacks b'_' num
    → is_some (lookup num (add_key key value m))
      ≡ (has_prefix (route_key num []) key || is_some (lookup num m))
is_some-add_key key value num m hn = elim (Bool-cases (has_prefix (codes "route_") key)) [
  | inr other ↦
      rw (add_key_other key value m other, no_stem key num (λ f. no_prefix_ne key num f other))
  | inl prefix ↦ let (r, e) = has_prefix_split (codes "route_") key prefix in rw e (in_route r)
]
  where
    Goal : Text → Type 0
    Goal k =
        is_some (lookup num (add_key k value m))
        ≡ (has_prefix (route_key num []) k || is_some (lookup num m))

    in_cut : (r a b : Text) → cut b'_' r ≡ some (a, b) → Goal (codes "route_" ++ r)
    in_cut r a b h =
        let (split, ha) = cut-eq-some b'_' r a b h in
        rw (add_key_field r a b value m h, is_some-set_field a b value num m)
          (rw split (rw (stem_test a b num ha hn)))

    in_route : (r : Text) → Goal (codes "route_" ++ r)
    in_route r = elim (Option-cases (cut b'_' r)) [
      | inl short ↦
          rw (add_key_short r value m short, no_stem _ num (λ f. short_ne r num f hn short))
      | inr ((a, b), h) ↦ in_cut r a b h
    ]

is_some-collect_from :
    (meta : Dict Text) (num : Text) (m : Dict (Dict Text))
    → Lacks b'_' num
    → is_some (lookup num (collect meta m)) ≡ (has_route meta num || is_some (lookup num m))
unfolding collect
is_some-collect_from [] num m hn = refl
is_some-collect_from ((key, value) ∷ meta) num m hn =
    rw (is_some-collect_from meta num (add_key key value m) hn, is_some-add_key key value num m hn)
      (ground arith)

pub is_some-collect :
    (meta : Dict Text) (num : Text)
    → Lacks b'_' num
    → is_some (lookup num (collect meta [])) ≡ has_route meta num
is_some-collect meta num hn = is_some-collect_from meta num [] hn ∙ (unfold lookup in ground arith)
