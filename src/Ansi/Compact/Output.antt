-- ===== src/Ansi/Compact/Output.antt =====
-- What `Compact` of internal/ansi/compact.go returns, and `needsCompact` of it.
use interactive_process_mcp.Prelude.{
  ℕ, ◌≤◌, ◌≡◌, refl, ◌∙◌, true, false, not, [], ◌∷◌, Text, leb, if◌then◌else◌, if_cases, arith,
}
use interactive_process_mcp.Strings.{is_lf, is_empty, trim_left, trim_right}
use interactive_process_mcp.Ansi.Compact.{
  starts_lf, ends_line, fold_blank, trim_end, tidy_up, needs_compact, compact,
}
use interactive_process_mcp.Ansi.Compact.Tidy.{next_run, tidy, needs_compact-tidy}
use interactive_process_mcp.Ansi.Compact.Lines.{neat, joined-neat}

ends_line-fold_blank :
    (run : ℕ) (s : Text) → ends_line s ≡ false → ends_line (fold_blank run s) ≡ false
unfolding fold_blank
ends_line-fold_blank run [] h = h
ends_line-fold_blank run (c ∷ s) h = ground arith

-- However long the run in front, folding keeps two line feeds of it at most.
fold_blank-tidy :
    (run : ℕ) (s : Text)
    → neat s ≡ true
    → tidy (if leb run 2 then run else 2) (fold_blank run s) ≡ true
unfolding neat tidy fold_blank
fold_blank-tidy run [] h = refl
fold_blank-tidy run (c ∷ s) h =
    ground (arith, fold_blank-tidy (next_run run c) s, ends_line-fold_blank 0 s)

tidy_mono : (run k : ℕ) (s : Text) → k ≤ run → tidy run s ≡ true → tidy k s ≡ true
unfolding tidy
tidy_mono run k [] le h = refl
tidy_mono run k (c ∷ s) le h = ground (arith, tidy_mono (next_run run c) (next_run k c) s)

trim_left-tidy : (run : ℕ) (s : Text) → tidy run s ≡ true → tidy 0 (trim_left is_lf s) ≡ true
unfolding tidy trim_left
trim_left-tidy run [] h = refl
trim_left-tidy run (c ∷ s) h =
    ground (arith, trim_left-tidy (next_run run c) s, tidy_mono run 0 (c ∷ s))

starts_lf-trim_left : (s : Text) → starts_lf (trim_left is_lf s) ≡ false
unfolding trim_left
starts_lf-trim_left [] = refl
starts_lf-trim_left (c ∷ s) = ground (arith, starts_lf-trim_left s)

ends_line-trim_right : (s : Text) → ends_line s ≡ false → ends_line (trim_right is_lf s) ≡ false
unfolding trim_right
ends_line-trim_right [] h = h
ends_line-trim_right (c ∷ s) h = ground arith

trim_right-tidy : (run : ℕ) (s : Text) → tidy run s ≡ true → tidy run (trim_right is_lf s) ≡ true
unfolding tidy trim_right
trim_right-tidy run [] h = refl
trim_right-tidy run (c ∷ s) h =
    ground (arith, trim_right-tidy (next_run run c) s, ends_line-trim_right s)

starts_lf-trim_right : (s : Text) → starts_lf s ≡ false → starts_lf (trim_right is_lf s) ≡ false
unfolding trim_right
starts_lf-trim_right [] h = refl
starts_lf-trim_right (c ∷ s) h = ground arith

trim_end-tidy : (s : Text) → tidy 0 s ≡ true → tidy 0 (trim_end s) ≡ true
unfolding trim_end
trim_end-tidy s h = ground (arith, trim_right-tidy 0 s)

starts_lf-trim_end : (s : Text) → starts_lf s ≡ false → starts_lf (trim_end s) ≡ false
unfolding trim_end
starts_lf-trim_end s h = ground (arith, starts_lf-trim_right s)

needs_compact-tidy_up : (text : Text) → needs_compact (tidy_up text) ≡ false
needs_compact-tidy_up text =
    needs_compact-tidy (tidy_up text)
    ∙ unfold tidy_up in
      rw (
        starts_lf-trim_end _ (starts_lf-trim_left _),
        trim_end-tidy _ (trim_left-tidy 0 _ (fold_blank-tidy 0 _ (joined-neat text))),
      )

-- The output of Compact never needs compacting, whatever the input: it has no control byte but tabs
-- and line feeds, no blank at the end of a line, at most two line feeds in a row, and none in front.
pub needs_compact-compact : (text : Text) → needs_compact (compact text) ≡ false
unfolding compact tidy
needs_compact-compact text =
    if_cases (λ s. needs_compact s ≡ false) (is_empty text) (λ _. needs_compact-tidy [])
      λ _.
        if_cases (λ s. needs_compact s ≡ false) (not (needs_compact text)) (λ h. ground arith)
          (λ _. needs_compact-tidy_up text)

-- Text that does not need compacting is returned as it is.
pub compact_fast : (text : Text) → needs_compact text ≡ false → compact text ≡ text
unfolding compact
compact_fast [] h = refl
compact_fast (c ∷ s) h = rw h

-- So compacting twice is compacting once.
pub compact_idem : (text : Text) → compact (compact text) ≡ compact text
compact_idem text = compact_fast (compact text) (needs_compact-compact text)
