-- ===== src/Ansi/Compact/Tests.antt =====
-- Runs of internal/ansi/compact.go, as in its tests, and the theorems at concrete inputs.
use interactive_process_mcp.Prelude.{◌≡◌, refl, false, [], ◌∷◌, ◌++◌, Text, bytes}
use interactive_process_mcp.Strings.{lf, cr, split, join, last_index, trim_left, trim_right}
use interactive_process_mcp.Ansi.Compact.{
  drop_controls, replace_crlf, tidy_line, fold_blank, trim_end, needs_compact, tidy_up, compact,
}
use interactive_process_mcp.Ansi.Compact.Output.{needs_compact-compact, compact_idem}
use interactive_process_mcp.Ansi.Compact.FastPath.{tidy_up_fast}

abbrev progress_bar : Text
progress_bar = bytes "0%" ++ cr ∷ bytes "50%" ++ cr ∷ bytes "100% " ++ cr ∷ lf ∷ bytes "done"

compact_bar : compact progress_bar ≡ bytes "100%" ++ lf ∷ bytes "done"
unfolding compact needs_compact tidy_up drop_controls replace_crlf split last_index trim_right
    tidy_line join fold_blank trim_left trim_end
compact_bar = refl

abbrev trailing : Text
trailing = bytes "abc" ++ lf ∷ lf ∷ []

trailing_kept : compact trailing ≡ trailing
unfolding compact needs_compact
trailing_kept = refl

needs_compact-compact_example : needs_compact (compact progress_bar) ≡ false
needs_compact-compact_example = needs_compact-compact progress_bar

compact_idem_example : compact (compact progress_bar) ≡ compact progress_bar
compact_idem_example = compact_idem progress_bar

tidy_up_fast_example : tidy_up trailing ≡ bytes "abc"
unfolding needs_compact trim_end trim_right
tidy_up_fast_example = tidy_up_fast trailing refl
