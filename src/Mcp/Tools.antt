-- ===== src/Mcp/Tools.antt =====
-- The tools of `New` in internal/mcp/server.go: the parameters that each declares, and the handler
-- that it is registered with. Descriptions are left out.
use interactive_process_mcp.Prelude.{
  ℤ, pos, Text, bytes, Bool, true, false, Option, none, some, List, [], ◌∷◌,
}
use interactive_process_mcp.Buffer.Queue.{Ring}
use interactive_process_mcp.Sessions.Files.{Remote}
use interactive_process_mcp.Mcp.{Floats, Args}
use interactive_process_mcp.Mcp.Handlers.{
  Reply, World, State, handle_send_input, handle_resize_pty, handle_register_reader,
  handle_unregister_reader, handle_get_session_info, handle_terminate_process,
  handle_delete_session,
}
use interactive_process_mcp.Mcp.Reads.{
  handle_read_output, handle_send_and_read, handle_start_process,
}
use interactive_process_mcp.Mcp.Queries.{
  handle_list_sessions, handle_list_messages, handle_get_message,
}
use interactive_process_mcp.Mcp.FileTools.{
  Library, handle_upload_file, handle_download_file, handle_list_files,
}

pub data Tool : Type 0 where
  start_process_tool send_input_tool read_output_tool background_send_tool : Tool
  send_and_read_tool list_sessions_tool get_session_info_tool : Tool
  terminate_process_tool delete_session_tool resize_pty_tool : Tool
  list_messages_tool get_message_tool register_reader_tool unregister_reader_tool : Tool
  upload_file_tool download_file_tool list_files_tool : Tool

-- The default of a parameter, or that it is required, or neither.
pub data Param : Type 0 where
  required : Text → Param
  optional : Text → Param
  default_text : Text → Text → Param
  default_bool : Text → Bool → Param
  default_number : Text → ℤ → Param

abbrev session : Param
session = required (bytes "session_id")

abbrev press_enter : Param
press_enter = default_bool (bytes "press_enter") false

abbrev reading : List Param
reading =
    default_bool (bytes "strip_ansi") true
    ∷ default_number (bytes "timeout") (pos 5)
    ∷ default_number (bytes "max_lines") (pos 0)
    ∷ default_number (bytes "reader_id") (pos 0)
    ∷ []

abbrev size : List Param
size = default_number (bytes "rows") (pos 24) ∷ default_number (bytes "cols") (pos 80) ∷ []

unfoldable pub params : Tool → List Param
params start_process_tool =
    required (bytes "command")
    ∷ optional (bytes "args")
    ∷ default_text (bytes "mode") (bytes "pty")
    ∷ optional (bytes "name")
    ∷ size
params send_input_tool = session ∷ required (bytes "text") ∷ press_enter ∷ []
params read_output_tool = session ∷ reading
params background_send_tool = session ∷ required (bytes "text") ∷ press_enter ∷ []
params send_and_read_tool = session ∷ required (bytes "text") ∷ press_enter ∷ reading
params list_sessions_tool = []
params get_session_info_tool = session ∷ []
params terminate_process_tool =
    session
    ∷ default_bool (bytes "force") false
    ∷ default_number (bytes "grace_period") (pos 5)
    ∷ []
params delete_session_tool = session ∷ []
params resize_pty_tool = session ∷ size
params list_messages_tool = session ∷ []
params get_message_tool = session ∷ optional (bytes "message_ids") ∷ []
params register_reader_tool = session ∷ []
params unregister_reader_tool = session ∷ required (bytes "reader_id") ∷ []
params upload_file_tool =
    session ∷ required (bytes "content_base64") ∷ required (bytes "remote_path") ∷ []
params download_file_tool = session ∷ required (bytes "remote_path") ∷ []
params list_files_tool = session ∷ required (bytes "remote_path") ∷ []

-- The registry, the stored files and the remote files.
abbrev pub Whole : Ring → Type 0
Whole ring = State ring × Remote

module _ (floats : Floats) (ring : Ring) (lib : Library) (root : Text) where
  -- A handler that does not touch the remote files, and one that does not wait either.
  abbrev pub beside : Remote → Option (Reply × State ring) → Option (Reply × Whole ring)
  beside remote none = none
  beside remote (some (reply, st)) = some (reply, (st, remote))

  abbrev pub at_once : Remote → Reply × State ring → Option (Reply × Whole ring)
  at_once remote (reply, st) = some (reply, (st, remote))

  -- The handler of a tool; `none` is a call that still waits.
  unfoldable pub call_tool : Tool → Args floats → World → Whole ring → Option (Reply × Whole ring)
  call_tool start_process_tool args w (st, remote) =
      beside remote (handle_start_process floats ring args w st)
  call_tool send_input_tool args w (st, remote) =
      at_once remote (handle_send_input floats ring args w st)
  call_tool read_output_tool args w (st, remote) =
      beside remote (handle_read_output floats ring args w st)
  call_tool background_send_tool args w (st, remote) =
      at_once remote (handle_send_input floats ring args w st)
  call_tool send_and_read_tool args w (st, remote) =
      beside remote (handle_send_and_read floats ring args w st)
  call_tool list_sessions_tool args w (st, remote) =
      some (handle_list_sessions floats ring root st, (st, remote))
  call_tool get_session_info_tool args w (st, remote) =
      at_once remote (handle_get_session_info floats ring args st)
  call_tool terminate_process_tool args w (st, remote) =
      at_once remote (handle_terminate_process floats ring args w st)
  call_tool delete_session_tool args w (st, remote) =
      at_once remote (handle_delete_session floats ring args w st)
  call_tool resize_pty_tool args w (st, remote) =
      at_once remote (handle_resize_pty floats ring args w st)
  call_tool list_messages_tool args w (st, remote) =
      some (handle_list_messages floats ring root args w st, (st, remote))
  call_tool get_message_tool args w (st, remote) =
      some (handle_get_message floats ring root args w st, (st, remote))
  call_tool register_reader_tool args w (st, remote) =
      at_once remote (handle_register_reader floats ring args st)
  call_tool unregister_reader_tool args w (st, remote) =
      at_once remote (handle_unregister_reader floats ring args st)
  call_tool upload_file_tool args w (st, remote) =
      let r : Reply × Remote = handle_upload_file floats ring lib args w st.0 remote in
      some (r.0, (st, r.1))
  call_tool download_file_tool args w (st, remote) =
      some (handle_download_file floats ring lib args w st.0 remote, (st, remote))
  call_tool list_files_tool args w (st, remote) =
      some (handle_list_files floats ring lib args w st.0, (st, remote))
