-- ===== src/Ansi/Compact/Lines.antt =====
-- The lines of `Compact` of internal/ansi/compact.go, from the split to the join.
use native.Mathlib.Numerals.{add-one}
use interactive_process_mcp.Prelude.{
  ℕ, suc, ◌≡◌, refl, Bool, true, not, ◌&&◌, List, [], ◌∷◌, ◌++◌, map, Text, nat_eqb, none, some,
  drop, inl, inr, Option-cases, arith, all,
}
use interactive_process_mcp.Strings.{
  lf, cr, is_lf, is_empty, push_first, split, join, last_index, trim_right,
}
use interactive_process_mcp.Ansi.Compact.{
  delete, is_control, is_blank, ends_line, drop_controls, replace_crlf, tidy_line,
}
use interactive_process_mcp.Ansi.Compact.Tidy.{is_plain}

abbrev pub is_kept : ℕ → Bool
is_kept c = not (is_control c) && not (nat_eqb c delete)

abbrev in_line : ℕ → Bool
in_line c = is_kept c && not (is_lf c)

abbrev is_shown : ℕ → Bool
is_shown c = is_plain c && not (is_lf c)

-- A line of compact text: shown bytes, no blank at the end.
unfoldable pub is_tidy_line : Text → Bool
is_tidy_line [] = true
is_tidy_line (c ∷ s) = is_shown c && (not (is_blank c && is_empty s) && is_tidy_line s)

-- Compact text but for its runs of line feeds.
unfoldable pub neat : Text → Bool
neat [] = true
neat (c ∷ s) = is_plain c && (not (is_blank c && ends_line s) && neat s)

drop_controls-kept : (s : Text) → all is_kept (drop_controls s) ≡ true
unfolding all drop_controls
drop_controls-kept [] = refl
drop_controls-kept (c ∷ s) = ground (arith, drop_controls-kept s)

replace_crlf-kept : (s : Text) → all is_kept s ≡ true → all is_kept (replace_crlf s) ≡ true
unfolding all replace_crlf
replace_crlf-kept [] h = refl
replace_crlf-kept (c ∷ s) h = ground (arith, replace_crlf-kept s)

push_first-in_line :
    (c : ℕ) (lines : List Text)
    → in_line c ≡ true
    → all (all in_line) lines ≡ true
    → all (all in_line) (push_first c lines) ≡ true
unfolding all
push_first-in_line c [] k h = ground arith
push_first-in_line c (l ∷ lines) k h = ground arith

split-in_line : (s : Text) → all is_kept s ≡ true → all (all in_line) (split lf s) ≡ true
unfolding all split
split-in_line [] h = refl
split-in_line (c ∷ s) h = ground (arith, split-in_line s, push_first-in_line c (split lf s))

without_cr : (s : Text) → all in_line s ≡ true → last_index cr s ≡ none → all is_shown s ≡ true
unfolding all last_index
without_cr [] h e = refl
without_cr (c ∷ s) h e = ground (arith, without_cr s)

-- What stands behind the last carriage return has none.
after_last_cr :
    (s : Text) (i : ℕ)
    → all in_line s ≡ true
    → last_index cr s ≡ some i
    → all is_shown (drop (suc i) s) ≡ true
unfolding all last_index
after_last_cr [] i h e = cc
after_last_cr (c ∷ s) i h e = elim (Option-cases (last_index cr s)) [
  | inl no_more ↦
      let first : i ≡ 0 = ground (arith, no_more, e) in
      rw first (without_cr s (ground arith) no_more)
  | inr (j, later) ↦
      let behind : i ≡ suc j = ground (arith, later, e) in
      rw behind (after_last_cr s j (ground arith) later)
]

trim_right-is_tidy_line :
    (s : Text) → all is_shown s ≡ true → is_tidy_line (trim_right is_blank s) ≡ true
unfolding all is_tidy_line trim_right
trim_right-is_tidy_line [] h = refl
trim_right-is_tidy_line (c ∷ s) h = ground (arith, trim_right-is_tidy_line s)

tidy_line-is_tidy_line : (s : Text) → all in_line s ≡ true → is_tidy_line (tidy_line s) ≡ true
unfolding tidy_line
tidy_line-is_tidy_line s h = elim (Option-cases (last_index cr s)) [
  | inl absent ↦ rw absent (trim_right-is_tidy_line s (without_cr s h absent))
  | inr (i, there) ↦ rw (there, add-one) (trim_right-is_tidy_line _ (after_last_cr s i h there))
]

map-tidy_line :
    (lines : List Text)
    → all (all in_line) lines ≡ true
    → all is_tidy_line (map tidy_line lines) ≡ true
unfolding all
map-tidy_line [] h = refl
map-tidy_line (l ∷ lines) h = ground (arith, tidy_line-is_tidy_line l, map-tidy_line lines)

-- A tidy line holds no line feed, so it ends where its text does.
ends_line-append :
    (l s : Text) → is_tidy_line l ≡ true → ends_line (l ++ lf ∷ s) ≡ true → is_empty l ≡ true
unfolding is_tidy_line
ends_line-append [] s h e = refl
ends_line-append (c ∷ l) s h e = ground arith

ends_line-line : (l : Text) → is_tidy_line l ≡ true → ends_line l ≡ true → is_empty l ≡ true
unfolding is_tidy_line
ends_line-line [] h e = refl
ends_line-line (c ∷ l) h e = ground arith

-- A tidy line stays so in front of the next.
neat-append_line : (l s : Text) → is_tidy_line l ≡ true → neat s ≡ true → neat (l ++ lf ∷ s) ≡ true
unfolding neat is_tidy_line
neat-append_line [] s h n = ground arith
neat-append_line (c ∷ l) s h n = ground (arith, neat-append_line l s, ends_line-append l s)

neat-line : (l : Text) → is_tidy_line l ≡ true → neat l ≡ true
unfolding neat is_tidy_line
neat-line [] h = refl
neat-line (c ∷ l) h = ground (arith, neat-line l, ends_line-line l)

join-neat : (lines : List Text) → all is_tidy_line lines ≡ true → neat (join (lf ∷ []) lines) ≡ true
unfolding all join
join-neat [] h = unfold neat in refl
join-neat (l ∷ []) h = neat-line l (ground arith)
join-neat (l ∷ k ∷ lines) h =
    neat-append_line l _ (ground arith) (join-neat (k ∷ lines) (ground arith))

-- What `Compact` has joined is neat, whatever the text.
pub joined-neat :
    (text : Text)
    → neat (join (lf ∷ []) (map tidy_line (split lf (replace_crlf (drop_controls text))))) ≡ true
joined-neat text = join-neat _ (
    map-tidy_line _
      (split-in_line _ (replace_crlf-kept (drop_controls text) (drop_controls-kept text))))
