-- ===== src/Ansi/Strip/Laws.antt =====
-- `Strip` of internal/ansi/strip.go: its fuel, and what goes and what stays.
use interactive_process_mcp.Prelude.{
  ℕ, zero, suc, ◌≤◌, ◌<◌, ◌≡◌, refl, ◌∙◌, ap, sym, Bool, true, false, not, ◌||◌, some, [], ◌∷◌,
  ◌++◌, Text, nat_eqb, length, inl, inr, Bool-cases, Option-cases, arith, all,
}
use interactive_process_mcp.Ansi.Strip.{
  escape, is_parameter, is_intermediate, is_final, is_short_final, skip, one, match_csi, osc_end,
  match_osc, match_charset, match_short, match_escape, strip_fuel, strip,
}

length-skip : (p : ℕ → Bool) (s : Text) → length (skip p s) ≤ length s
unfolding skip
length-skip p [] = omega arith
length-skip p (c ∷ s) = ground (arith, length-skip p s)

length-one : (p : ℕ → Bool) (s r : Text) → one p s ≡ some r → length r < length s
unfolding one
length-one p [] r h = cc
length-one p (c ∷ s) r h = ground arith

length-osc_end : (s r : Text) → osc_end s ≡ some r → length r < length s
unfolding osc_end
length-osc_end [] r h = cc
length-osc_end (c ∷ []) r h = ground arith
length-osc_end (c ∷ d ∷ s) r h = ground (arith, length-osc_end (d ∷ s) r)

length-match_csi : (s r : Text) → match_csi s ≡ some r → length r < length s
unfolding match_csi
length-match_csi [] r h = cc
length-match_csi (c ∷ s) r h = ground (
  arith,
  length-one is_final (skip is_intermediate (skip is_parameter s)) r,
  length-skip is_intermediate (skip is_parameter s),
  length-skip is_parameter s,
)

length-match_osc : (s r : Text) → match_osc s ≡ some r → length r < length s
unfolding match_osc
length-match_osc [] r h = cc
length-match_osc (c ∷ s) r h = ground (arith, length-osc_end s r)

length-match_charset : (s r : Text) → match_charset s ≡ some r → length r < length s
unfolding match_charset one
length-match_charset [] r h = cc
length-match_charset (c ∷ []) r h = ground arith
length-match_charset (c ∷ d ∷ s) r h = ground arith

length-match_short : (s r : Text) → match_short s ≡ some r → length r < length s
unfolding match_short
length-match_short s r h =
    ground
      (arith, length-one is_short_final (skip is_intermediate s) r, length-skip is_intermediate s)

-- Every match takes at least one byte behind the escape byte.
pub length-match_escape : (s r : Text) → match_escape s ≡ some r → length r < length s
unfolding match_escape
length-match_escape s r h = ground (
  arith,
  length-match_csi s r,
  length-match_osc s r,
  length-match_charset s r,
  length-match_short s r,
)

strip_fuel-nil : (f : ℕ) → strip_fuel f [] ≡ []
unfolding strip_fuel
strip_fuel-nil zero = refl
strip_fuel-nil (suc f) = refl

-- More fuel than bytes makes no difference.
pub strip_fuel_enough :
    (f g : ℕ) (s : Text) → length s ≤ f → length s ≤ g → strip_fuel f s ≡ strip_fuel g s
unfolding strip_fuel
strip_fuel_enough f g [] hf hg = strip_fuel-nil f ∙ sym (strip_fuel-nil g)
strip_fuel_enough zero g (c ∷ s) hf hg = absurd (omega arith)
strip_fuel_enough (suc f) zero (c ∷ s) hf hg = absurd (omega arith)
strip_fuel_enough (suc f) (suc g) (c ∷ s) hf hg =
    let same = ap (◌∷◌ c) (strip_fuel_enough f g s (omega arith) (omega arith)) in
    elim (Bool-cases (nat_eqb c escape)) [
      | inr plain ↦ rw plain same
      | inl esc ↦ elim (Option-cases (match_escape s)) [
        | inl stays ↦ rw (esc, stays, strip_fuel) same
        | inr (rest, goes) ↦
            let shorter = length-match_escape s rest goes in
            rw (esc, goes, strip_fuel) (strip_fuel_enough f g rest (omega arith) (omega arith))
      ]
    ]

-- The removal of matches ends within as many rounds as the text has bytes: more make no difference.
pub strip_enough : (fuel : ℕ) (s : Text) → length s ≤ fuel → strip_fuel fuel s ≡ strip s
unfolding strip
strip_enough fuel s h = strip_fuel_enough fuel (length s) s h (omega arith)

pub strip_match : (s rest : Text) → match_escape s ≡ some rest → strip (escape ∷ s) ≡ strip rest
unfolding strip strip_fuel
strip_match s rest h =
    let shorter = length-match_escape s rest h in
    rw (h, strip_fuel) (strip_fuel_enough (length s) (length rest) rest (omega arith) (omega arith))

pub strip_byte : (c : ℕ) (s : Text) → nat_eqb c escape ≡ false → strip (c ∷ s) ≡ c ∷ strip s
unfolding strip strip_fuel
strip_byte c s h = rw h

-- Text up to the first escape byte stays.
pub strip_plain :
    (p s : Text) → all (λ c. not (nat_eqb c escape)) p ≡ true → strip (p ++ s) ≡ p ++ strip s
unfolding all
strip_plain [] s h = refl
strip_plain (c ∷ p) s h =
    strip_byte c (p ++ s) (ground arith) ∙ ap (◌∷◌ c) (strip_plain p s (ground arith))

pub skip-append : (p : ℕ → Bool) (t s : Text) → all p t ≡ true → skip p (t ++ s) ≡ skip p s
unfolding skip all
skip-append p [] s h = refl
skip-append p (c ∷ t) s h = ground (arith, skip-append p t s)

-- Intermediate bytes and a final byte hold no parameter byte.
pub skip_parameters :
    (inters : Text) (c : ℕ) (s : Text)
    → all is_intermediate inters ≡ true
    → is_final c ≡ true
    → skip is_parameter (inters ++ c ∷ s) ≡ inters ++ c ∷ s
unfolding skip all
skip_parameters [] c s h f = ground arith
skip_parameters (i ∷ inters) c s h f = ground arith

pub skip_final : (c : ℕ) (s : Text) → is_final c ≡ true → skip is_intermediate (c ∷ s) ≡ c ∷ s
unfolding skip
skip_final c s f = ground arith

strip_sequence :
    (o : ℕ) (params inters : Text) (c : ℕ) (s : Text)
    → (nat_eqb o b'[' || nat_eqb o b'(') ≡ true
    → all is_parameter params ≡ true
    → all is_intermediate inters ≡ true
    → is_final c ≡ true
    → strip (escape ∷ o ∷ (params ++ (inters ++ c ∷ s))) ≡ strip s
strip_sequence o params inters c s ho hp hi hf =
    strip_match _ s (unfold match_escape match_csi one in rw (ho, skips) (ground arith))
  where
    skips : skip is_intermediate (skip is_parameter (params ++ (inters ++ c ∷ s))) ≡ c ∷ s
    skips =
        ap (skip is_intermediate)
          (skip-append is_parameter params _ hp ∙ skip_parameters inters c s hi hf)
        ∙ skip-append is_intermediate inters (c ∷ s) hi
        ∙ skip_final c s hf

-- A control sequence goes whole: its parameter bytes, its intermediate bytes and its final byte.
pub strip_csi :
    (params inters : Text) (c : ℕ) (s : Text)
    → all is_parameter params ≡ true
    → all is_intermediate inters ≡ true
    → is_final c ≡ true
    → strip (escape ∷ b'[' ∷ (params ++ (inters ++ c ∷ s))) ≡ strip s
strip_csi params inters c s = strip_sequence b'[' params inters c s refl

-- Behind the three bytes ESC ( 0, which select a character set, blanks and punctuation from space to
-- slash and the next byte from @ to ~ are removed with them, though they are text.
pub strip_charset_zero :
    (shown : Text) (c : ℕ) (s : Text)
    → all is_intermediate shown ≡ true
    → is_final c ≡ true
    → strip (escape ∷ b'(' ∷ b'0' ∷ (shown ++ c ∷ s)) ≡ strip s
unfolding all
strip_charset_zero shown c s = strip_sequence b'(' (b'0' ∷ []) shown c s refl refl
