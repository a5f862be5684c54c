-- ===== src/Strings/Lines.antt =====
-- The lines of a text, split and joined, for the modules that cut a text at its line feeds.
use interactive_process_mcp.Prelude.{
  ℕ, zero, suc, ◌≡◌, ◌↔◌, true, refl, ◌∙◌, ap, false, List, [], ◌∷◌, Text, take, arith, Bool-cases,
  inl, inr, if◌then◌else◌,
}
use interactive_process_mcp.Strings.{lf, is_lf, is_empty, push_first, split, join}

pub is_empty-nil : (s : Text) → (is_empty s ≡ true) ↔ (s ≡ [])
is_empty-nil [] = ground arith
is_empty-nil (c ∷ s) = ground arith

pub join-push_first :
    (c : ℕ) (lines : List Text) → join (lf ∷ []) (push_first c lines) ≡ c ∷ join (lf ∷ []) lines
unfolding join
join-push_first c [] = refl
join-push_first c (l ∷ []) = refl
join-push_first c (l ∷ k ∷ lines) = refl

pub is_empty-push_first : (c : ℕ) (lines : List Text) → is_empty (push_first c lines) ≡ false
is_empty-push_first c [] = refl
is_empty-push_first c (l ∷ lines) = refl

pub split-cons : (s : Text) → is_empty (split lf s) ≡ false
unfolding split
split-cons [] = refl
split-cons (c ∷ s) = ground (arith, is_empty-push_first c (split lf s))

pub join-empty_first :
    (lines : List Text)
    → is_empty lines ≡ false
    → join (lf ∷ []) ([] ∷ lines) ≡ lf ∷ join (lf ∷ []) lines
unfolding join
join-empty_first [] h = cc
join-empty_first (l ∷ lines) h = refl

-- Joining what was split gives the text back.
pub join-split : (s : Text) → join (lf ∷ []) (split lf s) ≡ s
unfolding split
join-split [] = unfold join in refl
join-split (c ∷ s) = elim (Bool-cases (is_lf c)) [
  | inl here ↦
      rw here (join-empty_first (split lf s) (split-cons s) ∙ ground (arith, join-split s, here))
  | inr other ↦ rw other (join-push_first c (split lf s) ∙ ap (◌∷◌ c) (join-split s))
]

-- A text up to its line feed number `n`, counted from nought: its first `n + 1` lines.
unfoldable pub first_lines : ℕ → Text → Text
first_lines n [] = []
first_lines zero (c ∷ s) = let rest = first_lines zero s in if is_lf c then [] else c ∷ rest
first_lines (suc n) (c ∷ s) =
    let next = first_lines n s in
    let same = first_lines (suc n) s in c ∷ (if is_lf c then next else same)

take-push_first :
    (n c : ℕ) (lines : List Text)
    → is_empty lines ≡ false
    → take (suc n) (push_first c lines) ≡ push_first c (take (suc n) lines)
take-push_first n c [] h = cc
take-push_first n c (l ∷ lines) h = refl

is_empty-take : (n : ℕ) (lines : List Text) → is_empty (take (suc n) lines) ≡ is_empty lines
is_empty-take n [] = refl
is_empty-take n (l ∷ lines) = refl

pub join-take-split :
    (n : ℕ) (s : Text) → join (lf ∷ []) (take (suc n) (split lf s)) ≡ first_lines n s
unfolding split first_lines
join-take-split zero [] = unfold join in refl
join-take-split (suc n) [] = unfold join in refl
join-take-split zero (c ∷ s) = elim (Bool-cases (is_lf c)) [
  | inl here ↦ rw here (unfold join in refl)
  | inr other ↦
      rw (other, take-push_first zero c (split lf s) (split-cons s), join-push_first)
        (ap (◌∷◌ c) (join-take-split zero s))
]
join-take-split (suc n) (c ∷ s) = elim (Bool-cases (is_lf c)) [
  | inl here ↦ rw here (
      join-empty_first (take (suc n) (split lf s)) (is_empty-take n (split lf s) ∙ split-cons s)
      ∙ ground (arith, join-take-split n s, here))
  | inr other ↦
      rw (other, take-push_first (suc n) c (split lf s) (split-cons s), join-push_first)
        (ap (◌∷◌ c) (join-take-split (suc n) s))
]
