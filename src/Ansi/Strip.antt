-- ===== src/Ansi/Strip.antt =====
-- internal/ansi/strip.go: the regular expression by its four alternatives, tried in order behind an
-- escape byte. The byte classes that follow one another are disjoint, so a greedy match never has to
-- give a byte back.
pub mod Completeness
pub mod Laws
pub mod Matching
pub mod Reference
pub mod Regex
pub mod Soundness
mod Tests
use interactive_process_mcp.Prelude.{
  ℕ, zero, suc, Bool, false, not, ◌&&◌, ◌||◌, Option, none, some, [], ◌∷◌, Text, nat_eqb, leb,
  length, drop, if◌then◌else◌,
}
use interactive_process_mcp.Strings.{is_lf}

abbrev pub escape : ℕ
escape = 0x1B

abbrev pub within : ℕ → ℕ → ℕ → Bool
within lo hi c = leb lo c && leb c hi

-- `[0-?]`, `[ -/]`, `[@-~]` and `[0-~]`.
abbrev pub is_parameter : ℕ → Bool
is_parameter = within 0x30 0x3F

abbrev pub is_intermediate : ℕ → Bool
is_intermediate = within 0x20 0x2F

abbrev pub is_final : ℕ → Bool
is_final = within 0x40 0x7E

abbrev pub is_short_final : ℕ → Bool
is_short_final = within 0x30 0x7E

-- `[class]*`: what is left behind it.
pub skip : (ℕ → Bool) → Text → Text
skip class [] = []
skip class (c ∷ s) = let rest = skip class s in if class c then rest else c ∷ s

-- One byte of a class.
pub one : (ℕ → Bool) → Text → Option Text
one class [] = none
one class (c ∷ s) = if class c then some s else none

abbrev pub starts : ℕ → Text → Bool
starts b [] = false
starts b (c ∷ s) = nat_eqb c b

-- `[\[(][0-?]*[ -/]*[@-~]`
pub match_csi : Text → Option Text
match_csi [] = none
match_csi (c ∷ s) =
    if nat_eqb c b'[' || nat_eqb c b'('
    then one is_final (skip is_intermediate (skip is_parameter s))
    else none

-- `.*?(?:\x1b\\|\x07)`: up to the first end mark, on one line.
pub osc_end : Text → Option Text
osc_end [] = none
osc_end (c ∷ s) =
    let later = osc_end s in
    if nat_eqb c escape && starts 0x5C s
    then some (drop 1 s)
    else if nat_eqb c 7
    then some s
    else if is_lf c
    then none
    else later

-- `\].*?(?:\x1b\\|\x07)`
pub match_osc : Text → Option Text
match_osc [] = none
match_osc (c ∷ s) = if nat_eqb c b']' then osc_end s else none

abbrev pub is_charset : ℕ → Bool
is_charset c =
    nat_eqb c b'B' || (nat_eqb c b'b' || (nat_eqb c b'0' || (nat_eqb c b'U' || nat_eqb c b'K')))

-- `[()][Bb0UK]`
pub match_charset : Text → Option Text
match_charset [] = none
match_charset (c ∷ s) = if nat_eqb c b'(' || nat_eqb c b')' then one is_charset s else none

-- `[ -/]*[0-~]`
pub match_short : Text → Option Text
match_short s = one is_short_final (skip is_intermediate s)

abbrev pub or_else : Option Text → Option Text → Option Text
or_else none o = o
or_else (some s) o = some s

-- What follows the sequence that an escape byte in front of the text begins.
pub match_escape : Text → Option Text
match_escape s =
    or_else (match_csi s) (or_else (match_osc s) (or_else (match_charset s) (match_short s)))

-- `ReplaceAllString(text, "")`. A match drops bytes, so the length is fuel enough.
pub strip_fuel : ℕ → Text → Text
strip_fuel zero s = s
strip_fuel (suc fuel) [] = []
strip_fuel (suc fuel) (c ∷ s) =
    let kept : Text = c ∷ strip_fuel fuel s in
    let removed : Text = elim (match_escape s) [ none ↦ kept | some rest ↦ strip_fuel fuel rest ] in
    if nat_eqb c escape then removed else kept

pub strip : Text → Text
strip text = strip_fuel (length text) text
