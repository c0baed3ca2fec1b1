-- ===== src/Config.antt =====
-- internal/common/config: the command line's own flag types, and the YAML duration.
pub mod Ports
pub mod Levels
mod Tests
use flexds.Prelude.{
  ℕ, ℤ, pos, negsuc, ◌≡◌, Bool, true, false, Option, none, some, List, [], ◌∷◌, ◌++◌, map, ◌||◌,
  if◌then◌else◌,
}
use flexds.Results.{Result, ok, err, ◌>>=◌}
use flexds.Strings.{
  Text, codes, ◌==◌, is_empty, split, join, trim_space, to_lower, itoa, NumError, Parsed, parsed,
  failed, parse_u32,
}

-- fmt.Errorf in Set: the part, and the error that it wraps
pub data PortError : Type 0 where
  invalid_port : Text → NumError → PortError

-- Uint32SliceFlag.String, on a flag that is not nil
unfoldable pub string : List ℕ → Text
unfolding join itoa
string f = join b',' (map itoa f)

-- The loop of Uint32SliceFlag.Set over the parts; what was read before an error stays in the flag.
unfoldable pub set_parts : List Text → List ℕ → List ℕ × Option PortError
unfolding trim_space parse_u32
set_parts [] f = (f, none)
set_parts (p ∷ parts) f =
    let part = trim_space p in
    let skipped = set_parts parts f in
    if is_empty part then skipped else elim (parse_u32 part) [
      | parsed v ↦ set_parts parts (f ++ v ∷ [])
      | failed e ↦ (f, some (invalid_port part e))
    ]

-- Uint32SliceFlag.Set
unfoldable pub set : Text → List ℕ → List ℕ × Option PortError
unfolding set_parts split
set value f = set_parts (split b',' value) f

-- slog's levels
pub data Level : Type 0 where
  level_debug level_info level_warn level_error : Level

-- The number of a level, as slog defines it
abbrev pub level_number : Level → ℤ
level_number level_debug = negsuc 3
level_number level_info = pos 0
level_number level_warn = pos 4
level_number level_error = pos 8

-- LogLevelFlag.String, which is slog's own of the level. (Set and main's default give no level
-- between these four.)
unfoldable pub level_string : Level → Text
level_string level_debug = codes "DEBUG"
level_string level_info = codes "INFO"
level_string level_warn = codes "WARN"
level_string level_error = codes "ERROR"

pub data LevelError : Type 0 where
  invalid_level : Text → LevelError

-- The switch of LogLevelFlag.Set over the text in lower case, with the flag's new value.
unfoldable pub switch : Text → Text → Level → Level × Option LevelError
unfolding ◌==◌
switch lower value f =
    if lower == codes "debug"
    then (level_debug, none)
    else if lower == codes "info"
    then (level_info, none)
    else if lower == codes "warn" || lower == codes "warning"
    then (level_warn, none)
    else if lower == codes "error"
    then (level_error, none)
    else (f, some (invalid_level value))

unfoldable pub set_level : Text → Level → Level × Option LevelError
unfolding to_lower switch
set_level value f = switch (to_lower value) value f

-- Duration.UnmarshalYAML, with the flag's new value. `unmarshal` is the decoder's own function and
-- `parse_duration` is time.ParseDuration.
unfoldable pub unmarshal_yaml :
    {E : Type 0} → (Text → Result E ℤ) → Result E Text → ℤ → ℤ × Option E
unmarshal_yaml parse_duration unmarshal d = elim unmarshal [
  | err e ↦ (d, some e)
  | ok s ↦ elim (parse_duration s) [ err e ↦ (d, some e) | ok duration ↦ (duration, none) ]
]

-- Duration.ToDuration
abbrev pub to_duration : ℤ → ℤ
to_duration d = d
