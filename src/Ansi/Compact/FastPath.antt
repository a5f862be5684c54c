-- ===== src/Ansi/Compact/FastPath.antt =====
-- The early return of `Compact` of internal/ansi/compact.go against the work that it skips.
use interactive_process_mcp.Prelude.{
  ℕ, ◌≡◌, refl, Bool, true, false, ◌&&◌, List, [], ◌∷◌, map, Text, none, if◌then◌else◌, arith, all,
}
use interactive_process_mcp.Strings.{
  cr, lf, is_lf, is_empty, push_first, split, last_index, trim_left, trim_right,
}
use interactive_process_mcp.Strings.Lines.{join-split}
use interactive_process_mcp.Ansi.Compact.{
  is_blank, starts_lf, ends_line, drop_controls, replace_crlf, tidy_line, fold_blank, ends_blank,
  trim_end, tidy_up, needs_compact,
}
use interactive_process_mcp.Ansi.Compact.Tidy.{is_plain, next_run, tidy, needs_compact-tidy}
use interactive_process_mcp.Ansi.Compact.Lines.{is_tidy_line, neat}

tidy-neat : (run : ℕ) (s : Text) → tidy run s ≡ true → neat s ≡ true
unfolding tidy neat
tidy-neat run [] h = refl
tidy-neat run (c ∷ s) h = ground (arith, tidy-neat (next_run run c) s)

drop_controls-eq_self : (s : Text) → neat s ≡ true → drop_controls s ≡ s
unfolding neat drop_controls
drop_controls-eq_self [] h = refl
drop_controls-eq_self (c ∷ s) h = ground (arith, drop_controls-eq_self s)

replace_crlf-eq_self : (s : Text) → neat s ≡ true → replace_crlf s ≡ s
unfolding neat replace_crlf
replace_crlf-eq_self [] h = refl
replace_crlf-eq_self (c ∷ s) h = ground (arith, replace_crlf-eq_self s)

abbrev first_empty : List Text → Bool
first_empty [] = true
first_empty (l ∷ lines) = is_empty l

first_empty-push_first : (c : ℕ) (lines : List Text) → first_empty (push_first c lines) ≡ false
first_empty-push_first c [] = refl
first_empty-push_first c (l ∷ lines) = refl

-- The first line is empty where the line ends at once.
first_empty-split : (s : Text) → first_empty (split lf s) ≡ ends_line s
unfolding split
first_empty-split [] = refl
first_empty-split (c ∷ s) = ground (arith, first_empty-push_first c (split lf s))

push_first-tidy :
    (c : ℕ) (lines : List Text)
    → is_plain c ≡ true
    → is_lf c ≡ false
    → (is_blank c && first_empty lines) ≡ false
    → all is_tidy_line lines ≡ true
    → all is_tidy_line (push_first c lines) ≡ true
unfolding all is_tidy_line
push_first-tidy c [] p l b h = ground arith
push_first-tidy c (l' ∷ lines) p l b h = ground arith

split-tidy : (s : Text) → neat s ≡ true → all is_tidy_line (split lf s) ≡ true
unfolding neat split all is_tidy_line
split-tidy [] h = refl
split-tidy (c ∷ s) h =
    ground (arith, split-tidy s, first_empty-split s, push_first-tidy c (split lf s))

last_index-none : (s : Text) → is_tidy_line s ≡ true → last_index cr s ≡ none
unfolding is_tidy_line last_index
last_index-none [] h = refl
last_index-none (c ∷ s) h = ground (arith, last_index-none s)

trim_right-eq_self : (s : Text) → is_tidy_line s ≡ true → trim_right is_blank s ≡ s
unfolding is_tidy_line trim_right
trim_right-eq_self [] h = refl
trim_right-eq_self (c ∷ s) h = ground (arith, trim_right-eq_self s)

tidy_line-eq_self : (s : Text) → is_tidy_line s ≡ true → tidy_line s ≡ s
unfolding tidy_line
tidy_line-eq_self s h = rw (last_index-none s h) (trim_right-eq_self s h)

map-eq_self : (lines : List Text) → all is_tidy_line lines ≡ true → map tidy_line lines ≡ lines
unfolding all
map-eq_self [] h = refl
map-eq_self (l ∷ lines) h = ground (arith, tidy_line-eq_self l, map-eq_self lines)

fold_blank-eq_self : (run : ℕ) (s : Text) → tidy run s ≡ true → fold_blank run s ≡ s
unfolding tidy fold_blank
fold_blank-eq_self run [] h = refl
fold_blank-eq_self run (c ∷ s) h = ground (arith, fold_blank-eq_self (next_run run c) s)

trim_left-eq_self : (s : Text) → starts_lf s ≡ false → trim_left is_lf s ≡ s
unfolding trim_left
trim_left-eq_self [] h = refl
trim_left-eq_self (c ∷ s) h = ground arith

-- On text that Compact returns early, the full work would change at most one thing: it would drop
-- the line feeds at the end of text that ends in a blank line.
pub tidy_up_fast :
    (text : Text)
    → needs_compact text ≡ false
    → tidy_up text ≡ (if ends_blank text then trim_right is_lf text else text)
unfolding tidy_up
tidy_up_fast text h =
    let ok : tidy 0 text ≡ true = ground (arith, needs_compact-tidy text, h) in
    let n : neat text ≡ true = tidy-neat 0 text ok in
    let first : starts_lf text ≡ false = ground (arith, needs_compact-tidy text, h) in
    rw
      (
        drop_controls-eq_self text n,
        replace_crlf-eq_self text n,
        map-eq_self (split lf text) (split-tidy text n),
        join-split text,
        fold_blank-eq_self 0 text ok,
        trim_left-eq_self text first,
      )
      (unfold trim_end in refl)
