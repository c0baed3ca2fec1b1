-- ===== src/Config/Levels.antt =====
-- The log level flag.
use flexds.Prelude.{◌≡◌, refl, none, arith, ◌↔◌}
use flexds.Strings.{Text, to_lower}
use flexds.Config.{
  Level, level_debug, level_info, level_warn, level_error, switch, set_level, level_string,
}

switch_value :
    (lower v w : Text) (f : Level)
    → ((switch lower v f).0 ≡ (switch lower w f).0)
      × (((switch lower v f).1 ≡ none) ↔ ((switch lower w f).1 ≡ none))
unfolding switch
switch_value lower v w f = ground arith

-- A level is read whatever the case of its letters: after two texts that are alike in lower case
-- the flag has the same level, and both are accepted or both are refused.
set_level-to_lower :
    (v w : Text) (f : Level)
    → to_lower v ≡ to_lower w
    → ((set_level v f).0 ≡ (set_level w f).0)
      × (((set_level v f).1 ≡ none) ↔ ((set_level w f).1 ≡ none))
unfolding set_level
set_level-to_lower v w f h = rw h (switch_value (to_lower w) v w f)

-- The flag's Set reads each level back from what its String prints.
set_level-level_string : (l f : Level) → set_level (level_string l) f ≡ (l, none)
unfolding set_level switch level_string
set_level-level_string level_debug f = refl
set_level-level_string level_info f = refl
set_level-level_string level_warn f = refl
set_level-level_string level_error f = refl
