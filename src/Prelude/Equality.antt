-- ===== src/Prelude/Equality.antt =====
-- Types whose values a program can compare: the keys of Go's maps.
use mathlib.Core.Path.{◌≡◌}
use mathlib.Core.Logic.{◌↔◌}
use mathlib.Core.Bool.{Bool, true}
use interactive_process_mcp.Prelude.Int.{ℤ, int_eqb, int_eqb_iff}
use interactive_process_mcp.Prelude.Bytes.{Text, text_eqb, text_eqb_iff}

pub record Comparable {ℓ} (A : Type ℓ) : Type ℓ where
  pub equals : A → A → Bool
  pub equals_iff : (a b : A) → (equals a b ≡ true) ↔ (a ≡ b)

infix 50 ◌==◌
abbrev pub ◌==◌ {ℓ} : {A : Type ℓ} ⦃e : Comparable A⦄ → A → A → Bool
◌==◌ ⦃e⦄ = e.equals

instance abbrev pub int_eq : Comparable ℤ
int_eq = record { equals = int_eqb; equals_iff = int_eqb_iff }

instance abbrev pub text_eq : Comparable Text
text_eq = record { equals = text_eqb; equals_iff = text_eqb_iff }
