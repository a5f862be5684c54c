-- ===== src/Ansi/Strip/Regex.antt =====
-- The regular expression of internal/ansi/strip.go as it is written there, and the texts that it means.
-- Only byte classes are repeated in it; a lazy repetition means the same texts as a greedy one.
use interactive_process_mcp.Prelude.{
  ℕ, Bool, true, not, ◌||◌, ◌≡◌, ◌⊎◌, [], ◌∷◌, ◌++◌, Text, all, nat_eqb,
}
use interactive_process_mcp.Strings.{is_lf}
use interactive_process_mcp.Ansi.Strip.{
  escape, is_parameter, is_intermediate, is_final, is_short_final, is_charset,
}

pub data Regex : Type 0 where
  class many : (ℕ → Bool) → Regex
  seq alt : Regex → Regex → Regex

unfoldable pub Matches : Regex → Text → Type 0
Matches (class p) e = (c : ℕ) × (e ≡ c ∷ []) × (p c ≡ true)
Matches (many p) e = all p e ≡ true
Matches (seq r q) e = (s : Text) × (t : Text) × (e ≡ s ++ t) × Matches r s × Matches q t
Matches (alt r q) e = Matches r e ⊎ Matches q e

abbrev pub csi : Regex
csi =
    seq (class (λ c. nat_eqb c b'[' || nat_eqb c b'('))
      (seq (many is_parameter) (seq (many is_intermediate) (class is_final)))

-- ESC \ or BEL.
abbrev pub osc_mark : Regex
osc_mark =
    alt (seq (class (λ c. nat_eqb c escape)) (class (λ c. nat_eqb c 0x5C)))
      (class (λ c. nat_eqb c 7))

abbrev pub osc : Regex
osc = seq (class (λ c. nat_eqb c b']')) (seq (many (λ c. not (is_lf c))) osc_mark)

abbrev pub charset : Regex
charset = seq (class (λ c. nat_eqb c b'(' || nat_eqb c b')')) (class is_charset)

abbrev pub short : Regex
short = seq (many is_intermediate) (class is_short_final)

-- What follows the escape byte.
abbrev pub sequence : Regex
sequence = alt csi (alt osc (alt charset short))
