-- ===== src/Ansi/Strip/Soundness.antt =====
-- What the matchers of the model of internal/ansi/strip.go find, and their alternatives.
use interactive_process_mcp.Prelude.{
  ℕ, ◌≡◌, refl, sym, ap, ◌∙◌, Bool, true, not, ◌&&◌, ◌||◌, inl, inr, Bool-cases, some, [], ◌∷◌,
  ◌++◌, append_assoc, Text, all, nat_eqb, drop, arith,
}
use interactive_process_mcp.Prelude.Assoc.{some_injective}
use interactive_process_mcp.Strings.{is_lf}
use interactive_process_mcp.Ansi.Strip.{
  escape, is_parameter, is_intermediate, is_final, is_charset, starts, skip, one, match_csi,
  osc_end, match_osc, match_charset,
}
use interactive_process_mcp.Ansi.Strip.Regex.{
  class, many, seq, Matches, csi, osc, osc_mark, charset,
}

skip_split : (p : ℕ → Bool) (s : Text) → (pre : Text) × (s ≡ pre ++ skip p s) × (all p pre ≡ true)
unfolding skip all
skip_split p [] = ([], refl, refl)
skip_split p (c ∷ s) = elim (Bool-cases (p c)) [
  | inl in_class ↦
      let (pre, is, same) = skip_split p s in
      (c ∷ pre, rw in_class (ap (◌∷◌ c) is), rw (in_class, same) refl)
  | inr outside ↦ ([], rw outside refl, refl)
]

one_split : (p : ℕ → Bool) (s r : Text) → one p s ≡ some r → (c : ℕ) × (s ≡ c ∷ r) × (p c ≡ true)
unfolding one
one_split p [] r h = cc
one_split p (c ∷ s) r h = (c, ground (arith, h), ground (arith, h))

-- A class behind bytes that were skipped.
pub skipped :
    (p q : ℕ → Bool) (s rest : Text)
    → one q (skip p s) ≡ some rest
    → (e : Text) × (s ≡ e ++ rest) × Matches (seq (many p) (class q)) e
unfolding Matches
skipped p q s rest h =
    let (pre, is, same) = skip_split p s in
    let (c, at, last) = one_split q (skip p s) rest h in
    (
      pre ++ c ∷ [],
      is ∙ (ap (λ t. pre ++ t) at ∙ sym (append_assoc pre (c ∷ []) rest)),
      (pre, c ∷ [], refl, same, (c, refl, last)),
    )

pub csi_sound :
    (s rest : Text) → match_csi s ≡ some rest → (e : Text) × (s ≡ e ++ rest) × Matches csi e
unfolding match_csi Matches
csi_sound [] rest h = cc
csi_sound (o ∷ s) rest h = elim (Bool-cases (nat_eqb o b'[' || nat_eqb o b'(')) [
  | inr other ↦ absurd (ground (arith, rw other at h))
  | inl opens ↦
      let (pre, is, same) = skip_split is_parameter s in
      let (e, at, m) =
        skipped is_intermediate is_final (skip is_parameter s) rest (rw opens at h) in
      (
        o ∷ (pre ++ e),
        ap (◌∷◌ o) (is ∙ (ap (λ t. pre ++ t) at ∙ sym (append_assoc pre e rest))),
        (o ∷ [], pre ++ e, refl, (o, refl, opens), (pre, e, refl, same, m)),
      )
]

osc_mark_sound :
    (c : ℕ) (s rest : Text)
    → (nat_eqb c escape && starts 0x5C s) ≡ true
    → some (drop 1 s) ≡ some rest
    → (e : Text) × (c ∷ s ≡ e ++ rest) × Matches (seq (many (λ c. not (is_lf c))) osc_mark) e
unfolding Matches all
osc_mark_sound c [] rest mark h = absurd (ground (arith, mark))
osc_mark_sound c (d ∷ s) rest mark h = (
  c ∷ d ∷ [],
  ap (λ t. c ∷ d ∷ t) (some_injective h),
  (
    [],
    c ∷ d ∷ [],
    refl,
    refl,
    inl (c ∷ [], d ∷ [], refl, (c, refl, ground (arith, mark)), (d, refl, ground (arith, mark))),
  ),
)

osc_end_sound :
    (s rest : Text)
    → osc_end s ≡ some rest
    → (e : Text) × (s ≡ e ++ rest) × Matches (seq (many (λ c. not (is_lf c))) osc_mark) e
unfolding osc_end Matches all
osc_end_sound [] rest h = cc
osc_end_sound (c ∷ s) rest h = elim (Bool-cases (nat_eqb c escape && starts 0x5C s)) [
  | inl mark ↦ osc_mark_sound c s rest mark (rw mark at h)
  | inr no_mark ↦ elim (Bool-cases (nat_eqb c 7)) [
    | inl bell ↦ (
      c ∷ [],
      ap (◌∷◌ c) (ground (arith, rw (no_mark, bell) at h)),
      ([], c ∷ [], refl, refl, inr (c, refl, bell)),
    )
    | inr no_bell ↦ elim (Bool-cases (is_lf c)) [
      | inl feed ↦ absurd (ground (arith, rw (no_mark, no_bell, feed) at h))
      | inr other ↦
          let (e, is, (text, mark, at, same, m)) =
            osc_end_sound s rest (rw (no_mark, no_bell, other) at h) in
          (c ∷ e, ap (◌∷◌ c) is, (c ∷ text, mark, ap (◌∷◌ c) at, rw (other, same) refl, m))
    ]
  ]
]

pub osc_sound :
    (s rest : Text) → match_osc s ≡ some rest → (e : Text) × (s ≡ e ++ rest) × Matches osc e
unfolding match_osc Matches
osc_sound [] rest h = cc
osc_sound (o ∷ s) rest h = elim (Bool-cases (nat_eqb o b']')) [
  | inr other ↦ absurd (ground (arith, rw other at h))
  | inl opens ↦
      let (e, is, m) = osc_end_sound s rest (rw opens at h) in
      (o ∷ e, ap (◌∷◌ o) is, (o ∷ [], e, refl, (o, refl, opens), m))
]

pub charset_sound :
    (s rest : Text) → match_charset s ≡ some rest → (e : Text) × (s ≡ e ++ rest) × Matches charset e
unfolding match_charset Matches
charset_sound [] rest h = cc
charset_sound (o ∷ s) rest h = elim (Bool-cases (nat_eqb o b'(' || nat_eqb o b')')) [
  | inr other ↦ absurd (ground (arith, rw other at h))
  | inl opens ↦
      let (c, is, last) = one_split is_charset s rest (rw opens at h) in
      (o ∷ c ∷ [], ap (◌∷◌ o) is, (o ∷ [], c ∷ [], refl, (o, refl, opens), (c, refl, last)))
]
