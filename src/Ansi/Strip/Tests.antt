-- ===== src/Ansi/Strip/Tests.antt =====
-- Runs of internal/ansi/strip.go, as in its tests, and the theorems at concrete inputs.
use interactive_process_mcp.Prelude.{◌≡◌, refl, ◌∷◌, ◌++◌, Text, bytes, arith}
use interactive_process_mcp.Ansi.Strip.{
  escape, skip, one, match_csi, osc_end, match_osc, match_charset, match_short, match_escape, strip,
  strip_fuel,
}
use interactive_process_mcp.Ansi.Strip.Laws.{strip_enough}

-- ESC [ 31 m red ESC ] 0 ; t BEL !
abbrev coloured : Text
coloured = escape ∷ bytes "[31mred" ++ escape ∷ bytes "]0;t" ++ 7 ∷ bytes "!"

strip_test : strip coloured ≡ bytes "red!"
unfolding strip strip_fuel match_escape match_csi match_osc osc_end match_charset match_short one
    skip
strip_test = refl

strip_enough_example : strip_fuel 100 coloured ≡ strip coloured
strip_enough_example = strip_enough 100 coloured (omega arith)
