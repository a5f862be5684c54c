-- ===== src/Ansi/Strip/Completeness.antt =====
-- The matchers of the model of internal/ansi/strip.go, wherever their alternatives have a match.
use interactive_process_mcp.Prelude.{
  ℕ, ◌≡◌, ◌≢◌, refl, ap, ◌∙◌, Bool, true, false, not, ◌||◌, inl, inr, Option, none, some, [], ◌∷◌,
  ◌++◌, append_assoc, Text, all, nat_eqb, arith,
}
use interactive_process_mcp.Strings.{is_lf}
use interactive_process_mcp.Ansi.Strip.{
  is_parameter, is_intermediate, is_final, is_short_final, skip, one, match_csi, osc_end, match_osc,
  match_charset, match_short,
}
use interactive_process_mcp.Ansi.Strip.Laws.{skip-append, skip_parameters}
use interactive_process_mcp.Ansi.Strip.Regex.{Matches, csi, osc, osc_mark, charset, short}

-- Bytes that are skipped, in front of one that is not.
one-skip :
    (p q : ℕ → Bool) (pre : Text) (c : ℕ) (rest : Text)
    → all p pre ≡ true
    → p c ≡ false
    → q c ≡ true
    → one q (skip p (pre ++ c ∷ rest)) ≡ some rest
unfolding one skip
one-skip p q pre c rest same outside last =
    rw (skip-append p pre (c ∷ rest) same, outside, last) refl

found : {a : Text} {o : Option Text} → o ≡ some a → o ≢ none
found e none_left = cc

pub short_complete : (s e rest : Text) → s ≡ e ++ rest → Matches short e → match_short s ≢ none
unfolding match_short Matches
short_complete s e rest is (pre, t, at, same, (c, at', last)) = found {a = rest} (
    rw (is, at, at', append_assoc)
      (one-skip is_intermediate is_short_final pre c rest same (ground (arith, last)) last))

-- An opening byte in front of bytes of two classes and a final byte.
csi_shape :
    (o : ℕ) (params inters : Text) (c : ℕ) (rest : Text)
    → (o ∷ (params ++ (inters ++ c ∷ []))) ++ rest ≡ o ∷ (params ++ (inters ++ c ∷ rest))
csi_shape o params inters c rest = ap (◌∷◌ o) (
    append_assoc params (inters ++ c ∷ []) rest
    ∙ ap (λ t. params ++ t) (append_assoc inters (c ∷ []) rest))

match_csi_found :
    (o : ℕ) (params inters : Text) (c : ℕ) (rest : Text)
    → (nat_eqb o b'[' || nat_eqb o b'(') ≡ true
    → all is_parameter params ≡ true
    → all is_intermediate inters ≡ true
    → is_final c ≡ true
    → match_csi (o ∷ (params ++ (inters ++ c ∷ rest))) ≡ some rest
unfolding match_csi
match_csi_found o params inters c rest opens same same' last =
    rw
      (
        opens,
        skip-append is_parameter params (inters ++ c ∷ rest) same,
        skip_parameters inters c rest same' last,
      )
      (one-skip is_intermediate is_final inters c rest same' (ground (arith, last)) last)

pub csi_complete : (s e rest : Text) → s ≡ e ++ rest → Matches csi e → match_csi s ≢ none
unfolding Matches
csi_complete s e rest is
      (
        o',
        t,
        at,
        (o, at_o, opens),
        (params, u, at_u, same, (inters, v, at_v, same', (c, at_c, last))),
      ) =
    found {a = rest} (
      rw (is, at, at_o, at_u, at_v, at_c)
        (ap match_csi (csi_shape o params inters c rest)
          ∙ match_csi_found o params inters c rest opens same same' last))

pub charset_complete :
    (s e rest : Text) → s ≡ e ++ rest → Matches charset e → match_charset s ≢ none
unfolding match_charset Matches one
charset_complete s e rest is (o', t, at, (o, at_o, opens), (c, at_c, last)) =
    found {a = rest} (rw (is, at, at_o, at_c, opens, last) refl)

mark_complete : (mark rest : Text) → Matches osc_mark mark → osc_end (mark ++ rest) ≢ none
unfolding osc_end Matches
mark_complete mark rest (inl (s, t, at, (c, at_c, esc), (d, at_d, slash))) =
    found {a = rest} (rw (at, at_c, at_d, esc, slash) refl)
mark_complete mark rest (inr (c, at, bell)) = found {a = rest} (rw at (ground (arith, bell)))

osc_end_complete :
    (text mark rest : Text)
    → all (λ c. not (is_lf c)) text ≡ true
    → Matches osc_mark mark
    → osc_end (text ++ (mark ++ rest)) ≢ none
unfolding osc_end all
osc_end_complete [] mark rest same m = mark_complete mark rest m
osc_end_complete (c ∷ text) mark rest same m = λ none_left.
    let later = osc_end_complete text mark rest (ground (arith, same)) m in
    ground (arith, same, none_left, later)

pub osc_complete : (s e rest : Text) → s ≡ e ++ rest → Matches osc e → match_osc s ≢ none
unfolding match_osc Matches
osc_complete s e rest is (o', t, at, (o, at_o, opens), (text, mark, at_t, same, m)) = λ none_left.
    let shape : s ≡ o ∷ (text ++ (mark ++ rest)) =
      rw (is, at, at_o, at_t) (ap (◌∷◌ o) (append_assoc text mark rest)) in
    osc_end_complete text mark rest same m (rw opens at (rw shape at none_left))
