-- ===== src/Sessions/Output.antt =====
-- `readOutput` of internal/session/session.go. While a read waits, the buffer alone is followed: the
-- rest of the session is as it was at the call.
use interactive_process_mcp.Prelude.{
  ℕ, zero, suc, ℤ, pos, negsuc, sym, ◌∙◌, take-eq_self, Text, ◌≡◌, ◌≤◌, refl, ap, Bool, true,
  Option, none, some, List, [], ◌∷◌, if◌then◌else◌, ltb_ℤ, pos_part, length, take, arith, if_cases,
}
use interactive_process_mcp.Strings.{lf, is_empty, split, join}
use interactive_process_mcp.Api.{msg_output}
use interactive_process_mcp.Ansi.Strip.{strip}
use interactive_process_mcp.Ansi.Compact.{compact}
use interactive_process_mcp.Storage.{Fs}
use interactive_process_mcp.Messages.{Call}
use interactive_process_mcp.Buffer.{
  Outcome, read_bytes, nothing, failed, eof, err_closed, err_reader, Read, returned, waiting, Round,
  read, apply, drains,
}
use interactive_process_mcp.Buffer.Queue.{Ring}
use interactive_process_mcp.Buffer.View.{view}
use interactive_process_mcp.Buffer.Reading.{read_at_once}
use interactive_process_mcp.Strings.Lines.{first_lines, join-take-split, join-split}
use interactive_process_mcp.Sessions.{Session, Result, ok, err, buffer_error, note}

-- The first `max_lines` lines, if that is positive.
unfoldable pub limit_lines : ℤ → Text → Text
limit_lines max_lines output =
    let lines : List Text = split lf output in
    if ltb_ℤ (pos 0) max_lines
    then (if ltb_ℤ max_lines (pos (length lines))
        then join (lf ∷ []) (take (pos_part max_lines) lines)
        else output)
    else output

unfoldable pub shown : Bool → ℤ → Text → Text
shown strip_ansi max_lines output =
    limit_lines max_lines (if strip_ansi then compact (strip output) else output)

-- The end of a stream counts as no bytes.
unfoldable pub received : Outcome → Result Text
received (read_bytes p) = ok p
received nothing = ok []
received (failed eof) = ok []
received (failed err_closed) = err (buffer_error err_closed)
received (failed err_reader) = err (buffer_error err_reader)

module _ (ring : Ring) where
  -- What a read that has returned gives the client, and the message that is kept of it.
  unfoldable pub deliver :
      Bool → ℤ → Call → Result Text → Session ring × Fs → Result Text × (Session ring × Fs)
  deliver strip_ansi max_lines call (err e) st = (err e, st)
  deliver strip_ansi max_lines call (ok p) (s, fs) =
      let output : Text = shown strip_ansi max_lines p in
      (
        ok output,
        (s, if is_empty output then fs else note s.msg_mgr call s.info.id msg_output output fs),
      )

  -- `none` is a read that still waits.
  unfoldable pub finish_read :
      Bool → ℤ → Call → Read ring → Session ring × Fs → Option (Result Text × (Session ring × Fs))
  unfolding received deliver
  finish_read strip_ansi max_lines call (waiting b) st = none
  finish_read strip_ansi max_lines call (returned outcome b) (s, fs) =
      some (deliver strip_ansi max_lines call (received outcome) (record s { buf = b }, fs))

  -- `ReadOutputForReader`.
  unfoldable pub read_output_for_reader :
      ℤ
      → ℤ
      → List Round
      → Bool
      → ℤ
      → Call
      → Session ring × Fs
      → Option (Result Text × (Session ring × Fs))
  unfolding finish_read
  read_output_for_reader reader timeout rounds strip_ansi max_lines call (s, fs) =
      finish_read strip_ansi max_lines call (read ring reader timeout rounds s.buf) (s, fs)

  -- `ReadOutput`: the default reader.
  unfoldable pub read_output :
      ℤ
      → List Round
      → Bool
      → ℤ
      → Call
      → Session ring × Fs
      → Option (Result Text × (Session ring × Fs))
  read_output timeout rounds strip_ansi max_lines call st =
      read_output_for_reader st.0.reader_id timeout rounds strip_ansi max_lines call st

limit_lines_pos : (n : ℕ) (output : Text) → limit_lines (pos (suc n)) output ≡ first_lines n output
unfolding limit_lines
limit_lines_pos n output =
    let limited : ltb_ℤ (pos 0) (pos (suc n)) ≡ true = ground arith in
    let all_lines : length (split lf output) ≤ suc n → output ≡ first_lines n output = λ few.
      sym (join-split output)
      ∙ (ap (join (lf ∷ [])) (sym (take-eq_self (suc n) (split lf output) few))
          ∙ join-take-split n output) in
    rw limited (
      if_cases (λ (r : Text). r ≡ first_lines n output)
        (ltb_ℤ (pos (suc n)) (pos (length (split lf output)))) (λ _. join-take-split n output)
        (λ few. all_lines (ground arith)))

-- A positive `max_lines` gives exactly that many first lines, or the whole text if it has no more; any
-- other gives the whole text.
pub limit_lines_lem :
    (max_lines : ℤ) (output : Text)
    → limit_lines max_lines output ≡ elim max_lines [
      | pos zero ↦ output
      | pos (suc n) ↦ first_lines n output
      | negsuc n ↦ output
    ]
limit_lines_lem (pos zero) output = unfold limit_lines in ground arith
limit_lines_lem (pos (suc n)) output = limit_lines_pos n output
limit_lines_lem (negsuc k) output = unfold limit_lines in ground arith

module _ (ring : Ring) where
  -- A read of a reader with unread bytes returns at once, whatever the timeout, with all of them as
  -- they are shown; the reader is emptied, and a message is kept unless there is nothing to show. It
  -- does so also when the session has exited.
  pub read_output_at_once :
      (reader timeout : ℤ) (rounds : List Round) (strip_ansi : Bool) (max_lines : ℤ) (call : Call)
      (s : Session ring) (fs : Fs) (c : ℕ) (p : Text)
      → view ring s.buf reader ≡ some (c ∷ p)
      → let output : Text = shown strip_ansi max_lines (c ∷ p) in
        read_output_for_reader ring reader timeout rounds strip_ansi max_lines call (s, fs)
        ≡ some (
          ok output,
          (
            record s { buf = apply ring (drains reader) s.buf },
            if is_empty output then fs else note s.msg_mgr call s.info.id msg_output output fs,
          ),
        )
  unfolding read_output_for_reader deliver finish_read received
  read_output_at_once reader timeout rounds strip_ansi max_lines call s fs c p h =
      rw (read_at_once ring reader timeout rounds s.buf c p h) refl
