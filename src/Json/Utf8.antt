-- ===== src/Json/Utf8.antt =====
-- UTF-8 as Go decodes it: the width of the first rune, and a text with its invalid bytes replaced.
use interactive_process_mcp.Prelude.{
  ℕ, zero, suc, ◌-◌, ◌≡◌, refl, Bool, true, false, ◌&&◌, [], ◌∷◌, ◌++◌, Text, nat_eqb, ltb, leb,
  all, if◌then◌else◌, arith,
}

-- The first byte lies in a range, and `more` further bytes continue the rune.
continues : ℕ → Text → Bool
continues zero s = true
continues (suc more) [] = false
continues (suc more) (c ∷ s) = leb 0x80 c && leb c 0xBF && continues more s

abbrev opens : ℕ → ℕ → ℕ → Text → Bool
opens lo hi more [] = false
opens lo hi more (c ∷ s) = leb lo c && leb c hi && continues more s

abbrev width_if : Bool → ℕ → ℕ
width_if b n = if b then n else 0

-- The width of the rune that begins with a byte; 0 if it is not valid.
rune_width : ℕ → Text → ℕ
unfolding continues
rune_width c s =
    if ltb c 0x80
    then 1
    else if leb 0xC2 c && leb c 0xDF
    then width_if (opens 0x80 0xBF 0 s) 2
    else if nat_eqb c 0xE0
    then width_if (opens 0xA0 0xBF 1 s) 3
    else if nat_eqb c 0xED
    then width_if (opens 0x80 0x9F 1 s) 3
    else if leb 0xE1 c && leb c 0xEF
    then width_if (opens 0x80 0xBF 1 s) 3
    else if nat_eqb c 0xF0
    then width_if (opens 0x90 0xBF 2 s) 4
    else if nat_eqb c 0xF4
    then width_if (opens 0x80 0x8F 2 s) 4
    else if leb 0xF1 c && leb c 0xF3
    then width_if (opens 0x80 0xBF 2 s) 4
    else 0

abbrev replacement : Text
replacement = 0xEF ∷ 0xBF ∷ 0xBD ∷ []

-- `inside` bytes still belong to a rune that is valid.
valid_from : ℕ → Text → Text
valid_from inside [] = []
valid_from (suc inside) (c ∷ s) = c ∷ valid_from inside s
valid_from zero (c ∷ s) =
    let width : ℕ = rune_width c s in
    let rest : Text = valid_from (width - 1) s in
    if nat_eqb width 0 then replacement ++ rest else c ∷ rest

unfoldable pub to_valid : Text → Text
unfolding valid_from rune_width
to_valid s = valid_from 0 s

pub to_valid-ascii : (s : Text) → all (λ c. ltb c 0x80) s ≡ true → to_valid s ≡ s
unfolding to_valid all
to_valid-ascii [] h = refl
to_valid-ascii (c ∷ s) h = ground (arith, to_valid-ascii s)
