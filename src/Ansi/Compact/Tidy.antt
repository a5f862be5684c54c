-- ===== src/Ansi/Compact/Tidy.antt =====
-- The loop of `needsCompact` of internal/ansi/compact.go against a description of tidy text.
use interactive_process_mcp.Prelude.{
  ℕ, ◌+◌, ◌≡◌, refl, Bool, true, not, ◌&&◌, ◌||◌, [], ◌∷◌, Text, nat_eqb, leb, if◌then◌else◌, arith,
}
use interactive_process_mcp.Strings.{cr, is_lf}
use interactive_process_mcp.Ansi.Compact.{
  delete, is_control, is_blank, starts_lf, ends_line, Scan, scan_byte, scan, first_scan, found,
  needs_compact,
}

-- A byte that may stand in compact text.
abbrev pub is_plain : ℕ → Bool
is_plain c = not (is_control c) && (not (nat_eqb c delete) && not (nat_eqb c cr))

abbrev pub next_run : ℕ → ℕ → ℕ
next_run run c = if is_lf c then run + 1 else 0

-- Tidy text behind `run` line feeds: plain bytes, no blank at the end of a line, and at most two
-- line feeds in a row.
unfoldable pub tidy : ℕ → Text → Bool
tidy run [] = true
tidy run (c ∷ s) =
    let rest = tidy (next_run run c) s in
    is_plain c && (not (is_blank c && ends_line s) && (leb (next_run run c) 2 && rest))

found-scan_byte :
    (c : ℕ) (s : Text) (st : Scan)
    → found (scan_byte c s st) ≡ (
        found st
        || not (is_plain c && (not (is_blank c && ends_line s) && leb (next_run st.blank_run c) 2)))
unfolding scan_byte
found-scan_byte c s st = ground arith

blank_run-scan_byte :
    (c : ℕ) (s : Text) (st : Scan) → (scan_byte c s st).blank_run ≡ next_run st.blank_run c
unfolding scan_byte
blank_run-scan_byte c s st = refl

found-scan : (s : Text) (st : Scan) → found (scan s st) ≡ (found st || not (tidy st.blank_run s))
unfolding scan tidy
found-scan [] st = ground arith
found-scan (c ∷ s) st =
    ground
      (arith, found-scan s (scan_byte c s st), found-scan_byte c s st, blank_run-scan_byte c s st)

-- The scan asks for work exactly on text that is not tidy or begins with a line feed.
pub needs_compact-tidy : (text : Text) → needs_compact text ≡ (starts_lf text || not (tidy 0 text))
unfolding needs_compact
needs_compact-tidy text = rw (found-scan text first_scan)
