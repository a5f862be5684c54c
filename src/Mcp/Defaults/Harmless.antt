-- ===== src/Mcp/Defaults/Harmless.antt =====
-- The declared defaults of the arguments, and the getters of internal/mcp/handlers.go.
use interactive_process_mcp.Mcp.Defaults.Alike.{IsAlike}
use interactive_process_mcp.Prelude.{
  ℤ, pos, Text, bytes, ◌≡◌, refl, subst, ap, Bool, true, false, Option, none, some, [], ◌∷◌,
  if◌then◌else◌, text_eq, text_eqb_iff, ◌==◌, Bool-cases, inl, inr, All,
}
use interactive_process_mcp.Prelude.Assoc.{get, put, get-put}
use interactive_process_mcp.Api.{mode_pty}
use interactive_process_mcp.Mcp.{
  Floats, Arg, text_arg, bool_arg, float_arg, Args, as_text_or, as_bool_or, as_float_or, as_texts,
  get_string, get_bool, get_float64, get_string_slice, get_int,
}

module _ (floats : Floats) where
  -- What a reader of `key` meets when `k` alone is given, as `v`.
  abbrev pub slot : Text → Arg floats.Float → Text → Option (Arg floats.Float)
  slot k v key = if k == key then some v else none

  -- Every reader makes of `v` under `k` what it makes of no argument.
  pub record IsHarmless (k : Text) (v : Arg floats.Float) : Type 0 where
    pub texts_are :
        All
          (λ (key : Text). as_text_or floats [] (slot k v key) ≡ [])
          (bytes "session_id" ∷ bytes "command" ∷ bytes "name" ∷ bytes "text" ∷ [])
    pub mode_is : as_text_or floats mode_pty (slot k v (bytes "mode")) ≡ mode_pty
    pub args_are : as_texts floats (slot k v (bytes "args")) ≡ []
    pub off_are :
        All
          (λ (key : Text). as_bool_or floats false (slot k v key) ≡ false)
          (bytes "press_enter" ∷ bytes "force" ∷ [])
    pub strip_is : as_bool_or floats true (slot k v (bytes "strip_ansi")) ≡ true
    pub numbers_are :
        All
          (λ (key, n). as_float_or floats (floats.of_int n) (slot k v key) ≡ floats.of_int n)
          ((bytes "timeout", pos 5)
            ∷ (bytes "grace_period", pos 5)
            ∷ (bytes "rows", pos 24)
            ∷ (bytes "cols", pos 80)
            ∷ (bytes "max_lines", pos 0)
            ∷ (bytes "reader_id", pos 0)
            ∷ [])

  module _ (k : Text) (v : Arg floats.Float) (args : Args floats)
      (missing : get k args ≡ none) where
    read-put :
        {A : Type 0} (read : Option (Arg floats.Float) → A) (key : Text)
        → read (slot k v key) ≡ read none
        → read (get key (put k v args)) ≡ read (get key args)
    read-put read key same = elim (Bool-cases (k == key)) [
      | inl here ↦
          let gone : get key args ≡ none =
            subst (λ x. get x args ≡ none) ((text_eqb_iff k key).0 here) missing in
          rw (get-put k key v args, here, gone) (rw here at same)
      | inr other ↦ rw (get-put k key v args, other) refl
    ]

    texts-put :
        (key def : Text)
        → as_text_or floats def (slot k v key) ≡ def
        → get_string floats (put k v args) key def ≡ get_string floats args key def
    unfolding get_string as_text_or
    texts-put key def h = read-put (as_text_or floats def) key h

    bool-put :
        (key : Text) (def : Bool)
        → as_bool_or floats def (slot k v key) ≡ def
        → get_bool floats (put k v args) key def ≡ get_bool floats args key def
    unfolding get_bool as_bool_or
    bool-put key def h = read-put (as_bool_or floats def) key h

    float-put :
        (key : Text) (n : ℤ)
        → as_float_or floats (floats.of_int n) (slot k v key) ≡ floats.of_int n
        → get_float64 floats (put k v args) key (floats.of_int n)
          ≡ get_float64 floats args key (floats.of_int n)
    unfolding get_float64 as_float_or
    float-put key n h = read-put (as_float_or floats (floats.of_int n)) key h

    int-put :
        (key : Text) (n : ℤ)
        → as_float_or floats (floats.of_int n) (slot k v key) ≡ floats.of_int n
        → get_int floats (put k v args) key n ≡ get_int floats args key n
    unfolding get_int
    int-put key n h = ap floats.to_int (float-put key n h)

    args-put :
        as_texts floats (slot k v (bytes "args")) ≡ []
        → get_string_slice floats (put k v args) (bytes "args")
          ≡ get_string_slice floats args (bytes "args")
    unfolding get_string_slice as_texts
    args-put h = read-put (as_texts floats) (bytes "args") h

    pub put-IsAlike : IsHarmless k v → IsAlike floats (put k v args) args
    put-IsAlike h =
        let (session, (command, (name, (text, _)))) = h.texts_are in
        let (enter, (force, _)) = h.off_are in
        let (timeout, (grace, (rows, (cols, (lines, (reader, _)))))) = h.numbers_are in
        record {
          session_is = texts-put (bytes "session_id") [] session;
          command_is = texts-put (bytes "command") [] command;
          name_is = texts-put (bytes "name") [] name;
          text_is = texts-put (bytes "text") [] text;
          mode_is = texts-put (bytes "mode") mode_pty h.mode_is;
          args_are = args-put h.args_are;
          enter_is = bool-put (bytes "press_enter") false enter;
          strip_is = bool-put (bytes "strip_ansi") true h.strip_is;
          force_is = bool-put (bytes "force") false force;
          timeout_is = float-put (bytes "timeout") (pos 5) timeout;
          grace_is = float-put (bytes "grace_period") (pos 5) grace;
          rows_are = int-put (bytes "rows") (pos 24) rows;
          cols_are = int-put (bytes "cols") (pos 80) cols;
          lines_are = int-put (bytes "max_lines") (pos 0) lines;
          reader_is = int-put (bytes "reader_id") (pos 0) reader;
        }

  pub mode-IsHarmless : IsHarmless (bytes "mode") (text_arg (bytes "pty"))
  unfolding as_text_or as_bool_or as_float_or as_texts
  mode-IsHarmless = record {
    texts_are = (refl, (refl, (refl, (refl, tt))));
    mode_is = refl;
    args_are = refl;
    off_are = (refl, (refl, tt));
    strip_is = refl;
    numbers_are = (refl, (refl, (refl, (refl, (refl, (refl, tt))))));
  }

  pub rows-IsHarmless : IsHarmless (bytes "rows") (float_arg (floats.of_int (pos 24)))
  unfolding as_text_or as_bool_or as_float_or as_texts
  rows-IsHarmless = record {
    texts_are = (refl, (refl, (refl, (refl, tt))));
    mode_is = refl;
    args_are = refl;
    off_are = (refl, (refl, tt));
    strip_is = refl;
    numbers_are = (refl, (refl, (refl, (refl, (refl, (refl, tt))))));
  }

  pub cols-IsHarmless : IsHarmless (bytes "cols") (float_arg (floats.of_int (pos 80)))
  unfolding as_text_or as_bool_or as_float_or as_texts
  cols-IsHarmless = record {
    texts_are = (refl, (refl, (refl, (refl, tt))));
    mode_is = refl;
    args_are = refl;
    off_are = (refl, (refl, tt));
    strip_is = refl;
    numbers_are = (refl, (refl, (refl, (refl, (refl, (refl, tt))))));
  }

  pub press_enter-IsHarmless : IsHarmless (bytes "press_enter") (bool_arg false)
  unfolding as_text_or as_bool_or as_float_or as_texts
  press_enter-IsHarmless = record {
    texts_are = (refl, (refl, (refl, (refl, tt))));
    mode_is = refl;
    args_are = refl;
    off_are = (refl, (refl, tt));
    strip_is = refl;
    numbers_are = (refl, (refl, (refl, (refl, (refl, (refl, tt))))));
  }

  pub strip_ansi-IsHarmless : IsHarmless (bytes "strip_ansi") (bool_arg true)
  unfolding as_text_or as_bool_or as_float_or as_texts
  strip_ansi-IsHarmless = record {
    texts_are = (refl, (refl, (refl, (refl, tt))));
    mode_is = refl;
    args_are = refl;
    off_are = (refl, (refl, tt));
    strip_is = refl;
    numbers_are = (refl, (refl, (refl, (refl, (refl, (refl, tt))))));
  }

  pub timeout-IsHarmless : IsHarmless (bytes "timeout") (float_arg (floats.of_int (pos 5)))
  unfolding as_text_or as_bool_or as_float_or as_texts
  timeout-IsHarmless = record {
    texts_are = (refl, (refl, (refl, (refl, tt))));
    mode_is = refl;
    args_are = refl;
    off_are = (refl, (refl, tt));
    strip_is = refl;
    numbers_are = (refl, (refl, (refl, (refl, (refl, (refl, tt))))));
  }

  pub max_lines-IsHarmless : IsHarmless (bytes "max_lines") (float_arg (floats.of_int (pos 0)))
  unfolding as_text_or as_bool_or as_float_or as_texts
  max_lines-IsHarmless = record {
    texts_are = (refl, (refl, (refl, (refl, tt))));
    mode_is = refl;
    args_are = refl;
    off_are = (refl, (refl, tt));
    strip_is = refl;
    numbers_are = (refl, (refl, (refl, (refl, (refl, (refl, tt))))));
  }

  pub reader_id-IsHarmless : IsHarmless (bytes "reader_id") (float_arg (floats.of_int (pos 0)))
  unfolding as_text_or as_bool_or as_float_or as_texts
  reader_id-IsHarmless = record {
    texts_are = (refl, (refl, (refl, (refl, tt))));
    mode_is = refl;
    args_are = refl;
    off_are = (refl, (refl, tt));
    strip_is = refl;
    numbers_are = (refl, (refl, (refl, (refl, (refl, (refl, tt))))));
  }

  pub force-IsHarmless : IsHarmless (bytes "force") (bool_arg false)
  unfolding as_text_or as_bool_or as_float_or as_texts
  force-IsHarmless = record {
    texts_are = (refl, (refl, (refl, (refl, tt))));
    mode_is = refl;
    args_are = refl;
    off_are = (refl, (refl, tt));
    strip_is = refl;
    numbers_are = (refl, (refl, (refl, (refl, (refl, (refl, tt))))));
  }

  pub grace_period-IsHarmless :
      IsHarmless (bytes "grace_period") (float_arg (floats.of_int (pos 5)))
  unfolding as_text_or as_bool_or as_float_or as_texts
  grace_period-IsHarmless = record {
    texts_are = (refl, (refl, (refl, (refl, tt))));
    mode_is = refl;
    args_are = refl;
    off_are = (refl, (refl, tt));
    strip_is = refl;
    numbers_are = (refl, (refl, (refl, (refl, (refl, (refl, tt))))));
  }
