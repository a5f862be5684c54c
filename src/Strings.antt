-- ===== src/Strings.antt =====
-- The functions of Go's package strings that the program calls, on byte strings.
pub mod Lines
use interactive_process_mcp.Prelude.{
  ℕ, zero, suc, ◌+◌, ◌/◌, ◌%◌, ℤ, pos, negsuc, ltb, Bool, true, false, ◌&&◌, Option, none, some,
  List, [], ◌∷◌, ◌++◌, Text, nat_eqb, if◌then◌else◌,
}

abbrev pub lf : ℕ
lf = 10

abbrev pub cr : ℕ
cr = 13

abbrev pub is_lf : ℕ → Bool
is_lf c = nat_eqb c lf

abbrev pub is_empty {ℓ} : {A : Type ℓ} → List A → Bool
is_empty [] = true
is_empty (x ∷ xs) = false

-- A byte put in front of the first part.
abbrev pub push_first : ℕ → List Text → List Text
push_first c [] = (c ∷ []) ∷ []
push_first c (part ∷ parts) = (c ∷ part) ∷ parts

-- `strings.Split` at one byte.
unfoldable pub split : ℕ → Text → List Text
split sep [] = [] ∷ []
split sep (c ∷ s) = let rest = split sep s in if nat_eqb c sep then [] ∷ rest else push_first c rest

-- `strings.Join`.
unfoldable pub join : Text → List Text → Text
join sep [] = []
join sep (part ∷ []) = part
join sep (part ∷ next ∷ parts) = part ++ (sep ++ join sep (next ∷ parts))

-- `strings.LastIndex` of one byte.
unfoldable pub last_index : ℕ → Text → Option ℕ
last_index b [] = none
last_index b (c ∷ s) = elim (last_index b s) [
  | none ↦ if nat_eqb c b then some 0 else none
  | some i ↦ some (i + 1)
]

-- `strings.TrimLeft` and `strings.TrimRight`, the cut set as a test.
unfoldable pub trim_left : (ℕ → Bool) → Text → Text
trim_left cut [] = []
trim_left cut (c ∷ s) = let rest = trim_left cut s in if cut c then rest else c ∷ s

unfoldable pub trim_right : (ℕ → Bool) → Text → Text
trim_right cut [] = []
trim_right cut (c ∷ s) =
    let rest = trim_right cut s in if is_empty rest && cut c then [] else c ∷ rest

-- `strings.Count` of one byte.
unfoldable pub count : ℕ → Text → ℕ
count b [] = 0
count b (c ∷ s) = let rest = count b s in if nat_eqb c b then suc rest else rest

-- The decimal digits of a number, and those of a Go int: `%d`. A number of steps above the number
-- itself is enough, since each step divides it by ten.
unfoldable pub digits : ℕ → ℕ → Text
digits zero n = []
digits (suc steps) n =
    let rest = digits steps (n / 10) in
    if ltb n 10 then (48 + n) ∷ [] else rest ++ (48 + n % 10) ∷ []

unfoldable pub decimal : ℤ → Text
unfolding digits
decimal (pos n) = digits (suc n) n
decimal (negsuc n) = 45 ∷ digits (suc (suc n)) (suc n)
