-- ===== src/Prelude/Bytes.antt =====
-- Go strings and byte slices: lists of bytes.
use Prim.Native.Nat.{ℕ}
use Prim.Native.Char.{code}
use Prim.Native.String.{String}
use mathlib.Core.Path.{◌≡◌, refl}
use mathlib.Core.Logic.{◌↔◌}
use mathlib.Core.Bool.{Bool, true, false, ◌&&◌}
use mathlib.Core.List.{List, [], ◌∷◌}
use native.Mathlib.Omega.{arith}
use interactive_process_mcp.Prelude.Tests.{nat_eqb, nat_eqb_iff}

abbrev pub Text : Type 0
Text = List ℕ

-- The bytes of an ASCII literal.
abbrev pub bytes : String → Text
bytes String.[] = []
bytes (String.◌∷◌ c s) = code c ∷ bytes s

abbrev pub text_eqb : Text → Text → Bool
text_eqb [] [] = true
text_eqb [] (d ∷ t) = false
text_eqb (c ∷ s) [] = false
text_eqb (c ∷ s) (d ∷ t) = nat_eqb c d && text_eqb s t

pub text_eqb_iff : (s t : Text) → (text_eqb s t ≡ true) ↔ (s ≡ t)
text_eqb_iff [] [] = ground arith
text_eqb_iff [] (d ∷ t) = ground arith
text_eqb_iff (c ∷ s) [] = ground arith
text_eqb_iff (c ∷ s) (d ∷ t) = ground (arith, nat_eqb_iff c d, text_eqb_iff s t)

pub text_eqb_refl : (s : Text) → text_eqb s s ≡ true
text_eqb_refl s = (text_eqb_iff s s).1 refl
