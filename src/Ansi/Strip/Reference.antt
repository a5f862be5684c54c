-- ===== src/Ansi/Strip/Reference.antt =====
-- `Strip` of internal/ansi/strip.go against its regular expression.
use interactive_process_mcp.Prelude.{ℕ, ◌≡◌, [], ◌∷◌, ◌++◌, Text}
use interactive_process_mcp.Ansi.Strip.{escape}
use interactive_process_mcp.Ansi.Strip.Regex.{Matches, sequence}

-- Every match of the expression, which begins with an escape byte, taken away from left to right: a byte
-- stays only if no match begins there.
pub data Stripped : Text → Text → Type 0 where
  ends : Stripped [] []
  keeps :
      {c : ℕ} {s t : Text}
      → (c ≡ escape → (e rest : Text) → s ≡ e ++ rest → Matches sequence e → ⊥)
      → Stripped s t
      → Stripped (c ∷ s) (c ∷ t)
  removes :
      {c : ℕ} {s t : Text} (e rest : Text)
      → c ≡ escape
      → s ≡ e ++ rest
      → Matches sequence e
      → Stripped rest t
      → Stripped (c ∷ s) t
