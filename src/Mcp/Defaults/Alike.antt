-- ===== src/Mcp/Defaults/Alike.antt =====
-- The tools of internal/mcp/server.go that declare a default, and what they read of their arguments.
use interactive_process_mcp.Prelude.{
  pos, Text, bytes, ◌≡◌, refl, Option-cases, Bool, true, false, [], text_eq, inl, inr,
}
use interactive_process_mcp.Prelude.Assoc.{get}
use interactive_process_mcp.Buffer.Queue.{Ring}
use interactive_process_mcp.Api.{mode_pty}
use interactive_process_mcp.Storage.{Fs}
use interactive_process_mcp.Sessions.{Session, Result, ok, err}
use interactive_process_mcp.Sessions.Manager.{Manager}
use interactive_process_mcp.Mcp.{
  Floats, Args, get_string, get_bool, get_float64, get_string_slice, get_int, mode_of, rows_of,
  cols_of, validate_start_params, start_request, config_of,
}
use interactive_process_mcp.Mcp.FileTools.{Library}
use interactive_process_mcp.Mcp.Handlers.{
  World, State, session_id, handle_send_input, handle_resize_pty, handle_terminate_process,
}
use interactive_process_mcp.Mcp.Reads.{
  handle_read_output, handle_send_and_read, read_session, read_behind, handle_start_process,
}
use interactive_process_mcp.Mcp.Tools.{
  Tool, start_process_tool, send_input_tool, read_output_tool, background_send_tool,
  send_and_read_tool, terminate_process_tool, resize_pty_tool, Whole, call_tool,
}

-- Whether a tool declares a default.
abbrev pub has_default : Tool → Bool
has_default start_process_tool = true
has_default send_input_tool = true
has_default read_output_tool = true
has_default background_send_tool = true
has_default send_and_read_tool = true
has_default terminate_process_tool = true
has_default resize_pty_tool = true
has_default tool = false

module _ (floats : Floats) where
  -- Two lists of arguments that the tools with a default read alike.
  pub record IsAlike (a b : Args floats) : Type 0 where
    pub session_is :
        get_string floats a (bytes "session_id") [] ≡ get_string floats b (bytes "session_id") []
    pub command_is :
        get_string floats a (bytes "command") [] ≡ get_string floats b (bytes "command") []
    pub name_is : get_string floats a (bytes "name") [] ≡ get_string floats b (bytes "name") []
    pub text_is : get_string floats a (bytes "text") [] ≡ get_string floats b (bytes "text") []
    pub mode_is :
        get_string floats a (bytes "mode") mode_pty ≡ get_string floats b (bytes "mode") mode_pty
    pub args_are :
        get_string_slice floats a (bytes "args") ≡ get_string_slice floats b (bytes "args")
    pub enter_is :
        get_bool floats a (bytes "press_enter") false
        ≡ get_bool floats b (bytes "press_enter") false
    pub strip_is :
        get_bool floats a (bytes "strip_ansi") true ≡ get_bool floats b (bytes "strip_ansi") true
    pub force_is : get_bool floats a (bytes "force") false ≡ get_bool floats b (bytes "force") false
    pub timeout_is :
        get_float64 floats a (bytes "timeout") (floats.of_int (pos 5))
        ≡ get_float64 floats b (bytes "timeout") (floats.of_int (pos 5))
    pub grace_is :
        get_float64 floats a (bytes "grace_period") (floats.of_int (pos 5))
        ≡ get_float64 floats b (bytes "grace_period") (floats.of_int (pos 5))
    pub rows_are :
        get_int floats a (bytes "rows") (pos 24) ≡ get_int floats b (bytes "rows") (pos 24)
    pub cols_are :
        get_int floats a (bytes "cols") (pos 80) ≡ get_int floats b (bytes "cols") (pos 80)
    pub lines_are :
        get_int floats a (bytes "max_lines") (pos 0) ≡ get_int floats b (bytes "max_lines") (pos 0)
    pub reader_is :
        get_int floats a (bytes "reader_id") (pos 0) ≡ get_int floats b (bytes "reader_id") (pos 0)

  module _ (a b : Args floats) (e : IsAlike a b) where
    validate-alike : validate_start_params floats a ≡ validate_start_params floats b
    unfolding validate_start_params mode_of rows_of cols_of
    validate-alike = rw (e.mode_is, e.rows_are, e.cols_are) refl

    config-alike : config_of floats a ≡ config_of floats b
    unfolding mode_of rows_of cols_of
    config-alike = rw (e.command_is, e.name_is, e.mode_is, e.args_are, e.rows_are, e.cols_are) refl

    start_request-alike : start_request floats a ≡ start_request floats b
    unfolding start_request
    start_request-alike = rw (config-alike, e.command_is, validate-alike) refl

  module _ (ring : Ring) (lib : Library) (root : Text) where
    module _ (a b : Args floats) (e : IsAlike a b) (w : World) where
      send_input-alike :
          (st : State ring)
          → handle_send_input floats ring a w st ≡ handle_send_input floats ring b w st
      unfolding handle_send_input
      send_input-alike st = rw (e.session_is, e.text_is, e.enter_is) refl

      resize_pty-alike :
          (st : State ring)
          → handle_resize_pty floats ring a w st ≡ handle_resize_pty floats ring b w st
      unfolding handle_resize_pty
      resize_pty-alike st = rw (e.session_is, e.rows_are, e.cols_are) refl

      terminate_process-alike :
          (st : State ring)
          → handle_terminate_process floats ring a w st
            ≡ handle_terminate_process floats ring b w st
      unfolding handle_terminate_process
      terminate_process-alike (m, fs) =
          elim (Option-cases (get (session_id floats ring b) m.sessions)) [
            | inl gone ↦ rw (e.session_is, e.grace_is, gone, e.session_is) refl
            | inr (s, there) ↦ rw (e.session_is, e.grace_is, there, e.session_is, e.force_is) refl
          ]

      read_session-alike :
          (m : Manager ring) (st : Session ring × Fs)
          → read_session floats ring a w m st ≡ read_session floats ring b w m st
      unfolding read_session
      read_session-alike m st =
          rw (e.session_is, e.timeout_is, e.strip_is, e.lines_are, e.reader_is) refl

      read_output-alike :
          (st : State ring)
          → handle_read_output floats ring a w st ≡ handle_read_output floats ring b w st
      unfolding handle_read_output
      read_output-alike (m, fs) = elim (Option-cases (get (session_id floats ring b) m.sessions)) [
        | inl gone ↦ rw (e.session_is, e.timeout_is, gone, e.session_is) refl
        | inr (s, there) ↦ rw (e.session_is, e.timeout_is, there, read_session-alike) refl
      ]

      read_behind-alike :
          (m : Manager ring) (r : Result (Unit {0}) × (Session ring × Fs))
          → read_behind floats ring a w m r ≡ read_behind floats ring b w m r
      unfolding read_behind
      read_behind-alike m (err x, (s, fs)) = rw (e.session_is) refl
      read_behind-alike m (ok _, st) = read_session-alike m st

      send_and_read-alike :
          (st : State ring)
          → handle_send_and_read floats ring a w st ≡ handle_send_and_read floats ring b w st
      unfolding handle_send_and_read
      send_and_read-alike (m, fs) =
          elim (Option-cases (get (session_id floats ring b) m.sessions)) [
            | inl gone ↦ rw (e.session_is, e.timeout_is, gone, e.session_is) refl
            | inr (s, there) ↦
                rw (e.session_is, e.timeout_is, there, e.text_is, e.enter_is, read_behind-alike)
                  refl
          ]

      start_process-alike :
          (st : State ring)
          → handle_start_process floats ring a w st ≡ handle_start_process floats ring b w st
      unfolding handle_start_process
      start_process-alike st = rw (start_request-alike a b e, handle_start_process) refl

      pub call_tool-alike :
          (tool : Tool) (whole : Whole ring)
          → has_default tool ≡ true
          → call_tool floats ring lib root tool a w whole
            ≡ call_tool floats ring lib root tool b w whole
      unfolding call_tool
      call_tool-alike send_input_tool (st, remote) h = rw (send_input-alike st) refl
      call_tool-alike background_send_tool (st, remote) h = rw (send_input-alike st) refl
      call_tool-alike resize_pty_tool (st, remote) h = rw (resize_pty-alike st) refl
      call_tool-alike terminate_process_tool (st, remote) h = rw (terminate_process-alike st) refl
      call_tool-alike read_output_tool (st, remote) h = rw (read_output-alike st) refl
      call_tool-alike send_and_read_tool (st, remote) h = rw (send_and_read-alike st) refl
      call_tool-alike start_process_tool (st, remote) h = rw (start_process-alike st) refl
      call_tool-alike tool whole h = cc
