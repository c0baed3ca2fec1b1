-- ===== src/Xds/Clusters/Matching.antt =====
-- What the routes of a pattern ask of a request, and how they rewrite its path.
use flexds.Prelude.{◌≡◌, ◌≢◌, ◌↔◌, ◌⊎◌, refl, true, none, [], ◌∷◌, arith}
use flexds.Strings.{Text, is_empty}
use flexds.Common.ServiceModel.{RoutePattern}
use flexds.Xds.Clusters.{to_route}

is_empty_iff : (s : Text) → (is_empty s ≡ true) ↔ (s ≡ [])
is_empty_iff [] = (λ _. refl, λ _. refl)
is_empty_iff (c ∷ s) = (λ e. cc, λ e. cc)

-- At most one rewrite is set: the regular expression's if the pattern has one, and the prefix's
-- otherwise.
rewrite-to_route :
    (name : Text) (rp : RoutePattern)
    → let ra = (to_route name rp).action in
      ((ra.regex_rewrite ≡ none) ⊎ (ra.prefix_rewrite ≡ []))
      × ((ra.regex_rewrite ≡ none) ↔ (rp.regex_rewrite ≡ []))
      × ((ra.regex_rewrite ≢ none) ⊎ (ra.prefix_rewrite ≡ rp.prefix_rewrite))
unfolding to_route
rewrite-to_route name rp =
    ground (arith, is_empty_iff rp.regex_rewrite, is_empty_iff rp.prefix_rewrite)
