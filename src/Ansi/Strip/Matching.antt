-- ===== src/Ansi/Strip/Matching.antt =====
-- The matchers of the model of internal/ansi/strip.go beside the regular expression.
use interactive_process_mcp.Prelude.{◌≡◌, ◌≢◌, refl, inl, inr, Option, none, some, ◌++◌, Text}
use interactive_process_mcp.Ansi.Strip.{
  is_intermediate, is_short_final, or_else, one, match_csi, match_osc, match_charset, match_short,
  match_escape,
}
use interactive_process_mcp.Ansi.Strip.Regex.{
  Regex, alt, Matches, csi, osc, charset, short, sequence,
}
use interactive_process_mcp.Ansi.Strip.Soundness.{skipped, csi_sound, osc_sound, charset_sound}
use interactive_process_mcp.Ansi.Strip.Completeness.{
  short_complete, csi_complete, osc_complete, charset_complete,
}

-- What the answer of a matcher means: what is left behind a match at the beginning of the text, or that
-- there is none.
abbrev pub Explains : Regex → Text → Option Text → Type 0
Explains r s none = (e rest : Text) → s ≡ e ++ rest → Matches r e → ⊥
Explains r s (some rest) = (e : Text) × (s ≡ e ++ rest) × Matches r e

or_else-Explains :
    (r q : Regex) (s : Text) (a b : Option Text)
    → Explains r s a
    → Explains q s b
    → Explains (alt r q) s (or_else a b)
unfolding Matches
or_else-Explains r q s (some rest) b (e, is, m) h = (e, is, inl m)
or_else-Explains r q s none (some rest) h (e, is, m) = (e, is, inr m)
or_else-Explains r q s none none h k =
    λ e rest is m. elim m [ inl a ↦ h e rest is a | inr b ↦ k e rest is b ]

-- A matcher by what it finds and by what there is to find.
explained :
    (r : Regex) (s : Text) (found : Option Text)
    → ((rest : Text) → found ≡ some rest → (e : Text) × (s ≡ e ++ rest) × Matches r e)
    → ((e rest : Text) → s ≡ e ++ rest → Matches r e → found ≢ none)
    → Explains r s found
explained r s none sound complete = λ e rest is m. complete e rest is m refl
explained r s (some rest) sound complete = sound rest refl

-- What follows an escape byte: a match of the whole expression, or there is none.
pub match_escape-Explains : (s : Text) → Explains sequence s (match_escape s)
unfolding match_escape match_short one
match_escape-Explains s =
    or_else-Explains csi _ s _ _ (explained csi s (match_csi s) (csi_sound s) (csi_complete s)) (
      or_else-Explains osc _ s _ _ (explained osc s (match_osc s) (osc_sound s) (osc_complete s)) (
        or_else-Explains charset short s _ _
          (explained charset s (match_charset s) (charset_sound s) (charset_complete s))
          (explained short s (match_short s) (skipped is_intermediate is_short_final s)
            (short_complete s))))
