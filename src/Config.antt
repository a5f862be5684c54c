-- ===== src/Config.antt =====
-- internal/config/config.go: the configuration and what is accepted of it.
mod Tests
use interactive_process_mcp.Prelude.{
  ℤ, pos, Text, bytes, Bool, true, false, not, ◌⊎◌, ◌&&◌, ◌||◌, List, [], ◌∷◌, ◌≡◌, ◌≢◌, ◌≤◌, ◌↔◌,
  refl, arith, if◌then◌else◌, ltb_ℤ, leb_ℤ, ◌≤ℤ◌, ◌==◌, text_eq, text_eqb_iff, Bool-cases, inl, inr,
}
use interactive_process_mcp.Strings.{is_empty}
use interactive_process_mcp.Strings.Lines.{is_empty-nil}

pub record Config : Type 0 where
  pub host : Text
  pub port : ℤ
  pub data_dir : Text
  pub ssh_host : Text
  pub ssh_port : ℤ
  pub log_level : Text
  pub log_format : Text

pub data Error : Type 0 where
  bad_port : ℤ → Error
  no_data_dir : Error
  bad_log_level bad_log_format : Text → Error

pub data Result {ℓ} (A : Type ℓ) : Type ℓ where
  ok : A → Result A
  err : Error → Result A

abbrev pub default : Config
default = record {
  host = bytes "127.0.0.1";
  port = pos 8080;
  data_dir = bytes "./data";
  ssh_host = bytes "127.0.0.1";
  ssh_port = pos 0;
  log_level = bytes "info";
  log_format = bytes "text";
}

unfoldable pub is_one_of : Text → List Text → Bool
is_one_of s [] = false
is_one_of s (t ∷ texts) = s == t || is_one_of s texts

abbrev pub log_levels : List Text
log_levels = [] ∷ bytes "debug" ∷ bytes "info" ∷ bytes "warn" ∷ bytes "error" ∷ []

abbrev pub log_formats : List Text
log_formats = [] ∷ bytes "text" ∷ bytes "json" ∷ []

unfoldable pub validate : Config → Result (Unit {0})
validate c =
    if ltb_ℤ c.port (pos 1) || ltb_ℤ (pos 65535) c.port
    then err (bad_port c.port)
    else if is_empty c.data_dir
    then err no_data_dir
    else if not (is_one_of c.log_level log_levels)
    then err (bad_log_level c.log_level)
    else if not (is_one_of c.log_format log_formats)
    then err (bad_log_format c.log_format)
    else ok tt

-- A text of a list.
abbrev pub IsOneOf : Text → List Text → Type 0
IsOneOf s [] = ⊥
IsOneOf s (t ∷ texts) = (s ≡ t) ⊎ IsOneOf s texts

is_one_of_iff : (s : Text) (texts : List Text) → (is_one_of s texts ≡ true) ↔ IsOneOf s texts
unfolding is_one_of
is_one_of_iff s [] = ground arith
is_one_of_iff s (t ∷ texts) = ground (arith, text_eqb_iff s t, is_one_of_iff s texts)

pub record IsUsable (c : Config) : Type 0 where
  pub port_least : pos 1 ≤ℤ c.port
  pub port_most : c.port ≤ℤ pos 65535
  pub dir_given : c.data_dir ≢ []
  pub level_known : IsOneOf c.log_level log_levels
  pub format_known : IsOneOf c.log_format log_formats

-- A configuration is accepted exactly if its port is from 1 to 65535, its data directory is given, and
-- its log level and log format are empty or among the names that are listed.
pub validate_iff : (c : Config) → (validate c ≡ ok tt) ↔ IsUsable c
unfolding validate
validate_iff c =
    let dir = is_empty-nil c.data_dir in
    let level = is_one_of_iff c.log_level log_levels in
    let format = is_one_of_iff c.log_format log_formats in
    (
      λ h. record {
        port_least = ground arith;
        port_most = ground arith;
        dir_given = ground (arith, dir);
        level_known = level.0 (ground arith);
        format_known = format.0 (ground arith);
      },
      λ u.
          let in_levels = level.1 u.level_known in
          let in_formats = format.1 u.format_known in
          ground (arith, dir, in_levels, in_formats, u.port_least, u.port_most, u.dir_given),
    )
