-- ===== src/Mcp/Reads.antt =====
-- The handlers of internal/mcp/handlers.go that read output, over the manager. `none` is a call that
-- still waits. What a reply says of unread output is looked up at once behind the read.
use interactive_process_mcp.Prelude.{
  ℤ, pos, Text, bytes, Bool, true, false, ◌||◌, Option, none, some, [], if◌then◌else◌, text_eq,
  length,
}
use interactive_process_mcp.Prelude.Assoc.{get, put}
use interactive_process_mcp.Strings.{lf, count}
use interactive_process_mcp.Storage.{Fs}
use interactive_process_mcp.Buffer.Queue.{Ring}
use interactive_process_mcp.Sessions.{Session, Result, ok, err, send_input, steps, has_more_output}
use interactive_process_mcp.Sessions.Output.{read_output, read_output_for_reader}
use interactive_process_mcp.Sessions.Manager.{Manager, create}
use interactive_process_mcp.Mcp.{
  Floats, Args, get_string, get_bool, get_float64, get_int, starts, refused, start_request,
}
use interactive_process_mcp.Mcp.Handlers.{
  Reply, bad_timeout, no_session, session_error, start_refused, started, output, World, State,
  session_id,
}

module _ (floats : Floats) (ring : Ring) where
  abbrev pub timeout_of : Args floats → floats.Float
  timeout_of args = get_float64 floats args (bytes "timeout") (floats.of_int (pos 5))

  abbrev pub is_bad_timeout : Args floats → Bool
  is_bad_timeout args =
      floats.less (timeout_of args) floats.tenth
      || floats.less (floats.of_int (pos 60)) (timeout_of args)

  abbrev pub reader_of : Args floats → ℤ
  reader_of args = get_int floats args (bytes "reader_id") (pos 0)

  unfoldable pub output_reply : ℤ → Result Text → Session ring → Reply
  output_reply reader (err e) s = session_error e
  output_reply reader (ok out) s =
      output out (has_more_output ring reader s) (count lf out) (length out)

  -- The read, its result, and the session put back.
  unfoldable pub replied :
      Text
      → ℤ
      → Manager ring
      → Option (Result Text × (Session ring × Fs))
      → Option (Reply × State ring)
  unfolding output_reply
  replied id reader m none = none
  replied id reader m (some (r, (s, fs))) =
      some (output_reply reader r s, (record m { sessions = put id s m.sessions }, fs))

  unfoldable pub read_session :
      Args floats → World → Manager ring → Session ring × Fs → Option (Reply × State ring)
  unfolding replied
  read_session args w m st = replied (session_id floats ring args) (reader_of args) m (
      read_output_for_reader ring (reader_of args) (floats.duration (timeout_of args)) w.rounds
        (get_bool floats args (bytes "strip_ansi") true)
        (get_int floats args (bytes "max_lines") (pos 0)) w.read_call st)

  unfoldable pub handle_read_output : Args floats → World → State ring → Option (Reply × State ring)
  unfolding read_session
  handle_read_output args w (m, fs) =
      if is_bad_timeout args
      then some (bad_timeout, (m, fs))
      else elim (get (session_id floats ring args) m.sessions) [
        | none ↦ some (no_session (session_id floats ring args), (m, fs))
        | some s ↦ read_session args w m (s, fs)
      ]

  -- Behind the input: an error ends the call.
  unfoldable pub read_behind :
      Args floats
      → World
      → Manager ring
      → Result (Unit {0}) × (Session ring × Fs)
      → Option (Reply × State ring)
  unfolding read_session
  read_behind args w m (err e, (s, fs)) = some (
    session_error e,
    (record m { sessions = put (session_id floats ring args) s m.sessions }, fs),
  )
  read_behind args w m (ok _, st) = read_session args w m st

  unfoldable pub handle_send_and_read :
      Args floats → World → State ring → Option (Reply × State ring)
  unfolding read_behind
  handle_send_and_read args w (m, fs) =
      if is_bad_timeout args
      then some (bad_timeout, (m, fs))
      else elim (get (session_id floats ring args) m.sessions) [
        | none ↦ some (no_session (session_id floats ring args), (m, fs))
        | some s ↦ read_behind args w m (
            send_input ring (get_string floats args (bytes "text") [])
              (get_bool floats args (bytes "press_enter") false) w.cut w.call (s, fs))
      ]

  abbrev pub initial_of : Result Text → Text
  initial_of (ok out) = out
  initial_of (err e) = []

  -- The first output: half a second of waiting, behind a sleep.
  unfoldable pub first_output :
      World → Result (Session ring) × State ring → Option (Reply × State ring)
  first_output w (err e, st) = some (session_error e, st)
  first_output w (ok s, (m, fs)) =
      elim (read_output ring (pos 500000000) w.rounds true (pos 0) w.read_call
        (steps ring w.meanwhile (s, fs))) [
          | none ↦ none
          | some (r, (t, fs')) ↦ some (
            started s.info.id s.info.pid (initial_of r),
            (record m { sessions = put s.info.id t m.sessions }, fs'),
          )
        ]

  unfoldable pub handle_start_process :
      Args floats → World → State ring → Option (Reply × State ring)
  unfolding first_output
  handle_start_process args w st = elim (start_request floats args) [
    | refused e ↦ some (start_refused e, st)
    | starts cfg ↦ first_output w (create ring cfg w.start w.env st)
  ]
