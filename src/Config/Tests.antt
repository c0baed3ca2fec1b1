-- ===== src/Config/Tests.antt =====
-- Flags read from texts.
use flexds.Prelude.{◌≡◌, refl, none, some, [], ◌∷◌, arith}
use flexds.Strings.{codes, err_range}
use flexds.Config.{level_warn, level_info, invalid_level, set, string, invalid_port, set_level}
use flexds.Config.Ports.{Grows, set-string, set-Grows}

skips_blanks : set (codes " 80, ,443,") [] ≡ (80 ∷ 443 ∷ [], none)
unfolding set
skips_blanks = refl

-- What stood before the bad part has been appended.
stops_at_error :
    set (codes "80,4294967296,443") (18080 ∷ [])
    ≡ (18080 ∷ 80 ∷ [], some (invalid_port (codes "4294967296") err_range))
unfolding set
stops_at_error = refl

lower_case : set_level (codes "Warning") level_info ≡ (level_warn, none)
unfolding set_level
lower_case = refl

no_level : set_level (codes "all") level_info ≡ (level_info, some (invalid_level (codes "all")))
unfolding set_level
no_level = refl

set-string_example :
    set (string (80 ∷ 4294967295 ∷ [])) (18080 ∷ []) ≡ (18080 ∷ 80 ∷ 4294967295 ∷ [], none)
set-string_example = set-string (80 ∷ 4294967295 ∷ []) (18080 ∷ []) (omega arith, (omega arith, tt))

set-Grows_example : Grows (18080 ∷ []) (set (codes "80,x") (18080 ∷ []))
set-Grows_example = set-Grows (codes "80,x") (18080 ∷ [])
