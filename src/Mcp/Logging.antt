-- ===== src/Mcp/Logging.antt =====
-- internal/mcp/logging.go: a tool call with its two lines in the log. The level of the log is left to
-- the handler that main sets.
use interactive_process_mcp.Prelude.{
  ℤ, Text, bytes, ◌≡◌, refl, Bool, true, false, Option, none, some, List, [], ◌∷◌, ◌++◌,
  if◌then◌else◌, text_eq,
}
use interactive_process_mcp.Prelude.Assoc.{get}
use interactive_process_mcp.Strings.{is_empty}
use interactive_process_mcp.Mcp.{Floats, Arg, text_arg, float_arg, Args}

pub data Attr : Type 0 where
  text_attr : Text → Text → Attr
  int_attr : Text → ℤ → Attr
  bool_attr : Text → Bool → Attr

pub data LogLevel : Type 0 where
  debug_level error_level : LogLevel

pub record Line : Type 0 where
  pub level : LogLevel
  pub text : Text
  pub attrs : List Attr

-- What a handler returns: a result, unless it is nil, and an error, unless that is.
pub record Returned {ℓ} (R : Type ℓ) : Type ℓ where
  pub result : Option R
  pub err : Option Text

module _ (floats : Floats) where
  unfoldable pub session_attr : Option (Arg floats.Float) → List Attr
  session_attr (some (text_arg s)) =
      if is_empty s then [] else text_attr (bytes "session_id") s ∷ []
  session_attr arg = []

  unfoldable pub reader_attr : Option (Arg floats.Float) → List Attr
  reader_attr (some (float_arg x)) = int_attr (bytes "reader_id") (floats.to_int x) ∷ []
  reader_attr arg = []

  unfoldable pub append_safe_args : List Attr → Args floats → List Attr
  unfolding session_attr reader_attr
  append_safe_args attrs args =
      (attrs ++ session_attr (get (bytes "session_id") args))
      ++ reader_attr (get (bytes "reader_id") args)

  -- The line at the end of a call, from how it ended.
  unfoldable pub end_line : List Attr → Option Text → Bool → Line
  end_line attrs (some e) is_error = record {
    level = error_level;
    text = bytes "tool call end";
    attrs = attrs ++ text_attr (bytes "err") e ∷ [];
  }
  end_line attrs none is_error = record {
    level = debug_level;
    text = bytes "tool call end";
    attrs = if is_error then attrs ++ bool_attr (bytes "is_error") true ∷ [] else attrs;
  }

  module _ {ℓ} {R : Type ℓ} (is_error : R → Bool) where
    -- Whether there is a result, and it is an error.
    abbrev pub failed : Option R → Bool
    failed none = false
    failed (some r) = is_error r

    -- `withLogging`: what the call returns, and the lines; `ms` is how long the handler took.
    unfoldable pub with_logging :
        Text → (Args floats → Returned R) → ℤ → Args floats → Returned R × List Line
    unfolding append_safe_args end_line
    with_logging name h ms args =
        let base : List Attr = append_safe_args (text_attr (bytes "tool") name ∷ []) args in
        let r : Returned R = h args in
        (
          r,
          record { level = debug_level; text = bytes "tool call start"; attrs = base }
              ∷ end_line (base ++ int_attr (bytes "duration_ms") ms ∷ []) r.err (failed r.result)
              ∷ [],
        )

    -- A logged call returns what its handler returns. Of the arguments its lines depend on the session ID
    -- and the reader ID alone: two calls of a tool that agree on them and that end alike, with the same
    -- error or none and both with a failed result or neither, after the same time, are logged alike,
    -- whatever else, such as the text of an input, they carry.
    pub with_logging_private :
        (name : Text) (h : Args floats → Returned R) (ms : ℤ) (args others : Args floats)
        → get (bytes "session_id") args ≡ get (bytes "session_id") others
        → get (bytes "reader_id") args ≡ get (bytes "reader_id") others
        → (h args).err ≡ (h others).err
        → failed (h args).result ≡ failed (h others).result
        → ((with_logging name h ms args).0 ≡ h args)
          × ((with_logging name h ms args).1 ≡ (with_logging name h ms others).1)
    unfolding with_logging append_safe_args
    with_logging_private name h ms args others session reader err result =
        (refl, rw (session, reader, err, result) refl)
