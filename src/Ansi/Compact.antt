-- ===== src/Ansi/Compact.antt =====
-- internal/ansi/compact.go.
pub mod Tidy
mod Lines
pub mod Output
pub mod FastPath
mod Tests
use interactive_process_mcp.Prelude.{
  ℕ, ◌+◌, Bool, true, false, not, ◌&&◌, ◌||◌, none, some, List, [], ◌∷◌, map, Text, nat_eqb, ltb,
  leb, drop, if◌then◌else◌,
}
use interactive_process_mcp.Strings.{
  lf, cr, is_lf, is_empty, split, join, last_index, trim_left, trim_right,
}

abbrev pub tab : ℕ
tab = 9

abbrev pub space : ℕ
space = 32

abbrev pub delete : ℕ
delete = 0x7F

abbrev pub is_control : ℕ → Bool
is_control c = ltb c 0x20 && (not (nat_eqb c cr) && (not (nat_eqb c lf) && not (nat_eqb c tab)))

abbrev pub is_blank : ℕ → Bool
is_blank c = nat_eqb c space || nat_eqb c tab

abbrev pub starts_lf : Text → Bool
starts_lf [] = false
starts_lf (c ∷ s) = is_lf c

-- At the end of the text or before a line feed.
abbrev pub ends_line : Text → Bool
ends_line [] = true
ends_line (c ∷ s) = is_lf c

-- The local variables of `needsCompact`.
pub record Scan : Type 0 where
  pub has_control : Bool
  pub has_cr : Bool
  pub has_trailing_space : Bool
  pub blank_run : ℕ
  pub max_blank_run : ℕ

-- One turn of its loop, at a byte and the text behind it.
scan_byte : ℕ → Text → Scan → Scan
scan_byte c behind st =
    let run : ℕ = if is_lf c then st.blank_run + 1 else 0 in
    record {
      has_control = st.has_control || (is_control c || nat_eqb c delete);
      has_cr = st.has_cr || nat_eqb c cr;
      has_trailing_space = st.has_trailing_space || (is_blank c && ends_line behind);
      blank_run = run;
      max_blank_run = if ltb st.max_blank_run run then run else st.max_blank_run;
    }

scan : Text → Scan → Scan
scan [] st = st
scan (c ∷ s) st = scan s (scan_byte c s st)

abbrev first_scan : Scan
first_scan = record {
  has_control = false;
  has_cr = false;
  has_trailing_space = false;
  blank_run = 0;
  max_blank_run = 0;
}

abbrev found : Scan → Bool
found st = st.has_control || (st.has_cr || (st.has_trailing_space || leb 3 st.max_blank_run))

pub needs_compact : Text → Bool
unfolding scan scan_byte
needs_compact text = starts_lf text || found (scan text first_scan)

-- The first loop of `Compact`.
pub drop_controls : Text → Text
drop_controls [] = []
drop_controls (c ∷ s) =
    let rest = drop_controls s in if is_control c || nat_eqb c delete then rest else c ∷ rest

-- `strings.ReplaceAll(cleaned, "\r\n", "\n")`: a carriage return before a line feed goes.
pub replace_crlf : Text → Text
replace_crlf [] = []
replace_crlf (c ∷ s) =
    let rest = replace_crlf s in if nat_eqb c cr && starts_lf s then rest else c ∷ rest

-- The body of the loop over the lines.
pub tidy_line : Text → Text
tidy_line line =
    let shown : Text = elim (last_index cr line) [ none ↦ line | some i ↦ drop (i + 1) line ] in
    trim_right is_blank shown

-- `blankLineRe.ReplaceAllString(cleaned, "\n\n")` behind `run` line feeds: a run of three or more
-- line feeds keeps two.
pub fold_blank : ℕ → Text → Text
fold_blank run [] = []
fold_blank run (c ∷ s) =
    let rest = fold_blank (if is_lf c then run + 1 else 0) s in
    if is_lf c && leb 2 run then rest else c ∷ rest

-- `strings.HasSuffix(cleaned, "\n\n")`.
pub ends_blank : Text → Bool
ends_blank [] = false
ends_blank (c ∷ s) = (is_lf c && (starts_lf s && is_empty (drop 1 s))) || ends_blank s

pub trim_end : Text → Text
unfolding ends_blank
trim_end s = if ends_blank s then trim_right is_lf s else s

-- `Compact` below its fast path.
pub tidy_up : Text → Text
tidy_up text =
    let cleaned : Text = replace_crlf (drop_controls text) in
    let folded : Text = fold_blank 0 (join (lf ∷ []) (map tidy_line (split lf cleaned))) in
    trim_end (trim_left is_lf folded)

pub compact : Text → Text
compact text = if is_empty text then [] else if not (needs_compact text) then text else tidy_up text
