-- ===== src/Mcp/Defaults.antt =====
-- The defaults that internal/mcp/server.go declares, against those that the handlers of
-- internal/mcp/handlers.go fill in.
mod Alike
mod Harmless
mod Tests
use Alike.{has_default, IsAlike, call_tool-alike}
use Harmless.{
  IsHarmless, put-IsAlike, cols-IsHarmless, force-IsHarmless, grace_period-IsHarmless,
  max_lines-IsHarmless, mode-IsHarmless, press_enter-IsHarmless, reader_id-IsHarmless,
  rows-IsHarmless, strip_ansi-IsHarmless, timeout-IsHarmless,
}
use interactive_process_mcp.Prelude.{
  ℤ, pos, Text, bytes, ◌≡◌, refl, subst, ap, ◌∙◌, Option-cases, Bool, true, false, Option, none,
  some, List, [], ◌∷◌, if◌then◌else◌, text_eq, text_eqb_iff, ◌==◌, Bool-cases, inl, inr, All,
}
use interactive_process_mcp.Prelude.Assoc.{get, put, get-put}
use interactive_process_mcp.Buffer.Queue.{Ring}
use interactive_process_mcp.Strings.{is_empty}
use interactive_process_mcp.Api.{mode_pty}
use interactive_process_mcp.Storage.{Fs}
use interactive_process_mcp.Sessions.{Session, Result, ok, err}
use interactive_process_mcp.Sessions.Manager.{Manager}
use interactive_process_mcp.Mcp.{
  Floats, Arg, text_arg, bool_arg, float_arg, Args, as_text_or, as_bool_or, as_float_or, as_texts,
  get_string, get_bool, get_float64, get_string_slice, get_int, mode_of, rows_of, cols_of,
  validate_start_params, start_request, config_of, StartResult, starts_or, refused, no_command,
}
use interactive_process_mcp.Mcp.FileTools.{Library}
use interactive_process_mcp.Mcp.Handlers.{
  Reply, World, State, session_id, handle_send_input, handle_resize_pty, handle_terminate_process,
}
use interactive_process_mcp.Mcp.Reads.{
  handle_read_output, handle_send_and_read, read_session, read_behind, handle_start_process,
}
use interactive_process_mcp.Mcp.Tools.{
  Tool, start_process_tool, send_input_tool, read_output_tool, background_send_tool,
  send_and_read_tool, list_sessions_tool, get_session_info_tool, terminate_process_tool,
  delete_session_tool, resize_pty_tool, list_messages_tool, get_message_tool, register_reader_tool,
  unregister_reader_tool, upload_file_tool, download_file_tool, list_files_tool, Param, required,
  optional, default_text, default_bool, default_number, params, Whole, call_tool,
}

module _ (floats : Floats) where
  module _ (ring : Ring) (lib : Library) (root : Text) where
    -- A call with `v` written out under `key` is the call without that argument.
    abbrev pub IsAssumed : Tool → Text → Arg floats.Float → Type 0
    IsAssumed tool key v =
        (args : Args floats) (w : World) (whole : Whole ring)
        → get key args ≡ none
        → call_tool floats ring lib root tool (put key v args) w whole
          ≡ call_tool floats ring lib root tool args w whole

    abbrev pub IsDefault : Tool → Param → Type 0
    IsDefault tool (default_text key s) = IsAssumed tool key (text_arg s)
    IsDefault tool (default_bool key b) = IsAssumed tool key (bool_arg b)
    IsDefault tool (default_number key n) = IsAssumed tool key (float_arg (floats.of_int n))
    IsDefault tool param = Unit

    assumed :
        (tool : Tool) (key : Text) (v : Arg floats.Float)
        → has_default tool ≡ true
        → IsHarmless floats key v
        → IsAssumed tool key v
    assumed tool key v h harmless args w whole missing =
        call_tool-alike floats ring lib root (put key v args) args
          (put-IsAlike floats key v args missing harmless) w tool whole h

    -- Every default that a tool declares is the one that its handler fills in: a call with the default
    -- written out is, in its reply and in all that it changes, the call without the argument.
    pub params-IsDefault : (tool : Tool) → All (IsDefault tool) (params tool)
    unfolding params
    params-IsDefault start_process_tool = (
      tt,
      (
        tt,
        (
          assumed _ _ _ refl (mode-IsHarmless floats),
          (
            tt,
            (
              assumed _ _ _ refl (rows-IsHarmless floats),
              (assumed _ _ _ refl (cols-IsHarmless floats), tt),
            ),
          ),
        ),
      ),
    )
    params-IsDefault send_input_tool =
        (tt, (tt, (assumed _ _ _ refl (press_enter-IsHarmless floats), tt)))
    params-IsDefault read_output_tool = (
      tt,
      (
        assumed _ _ _ refl (strip_ansi-IsHarmless floats),
        (
          assumed _ _ _ refl (timeout-IsHarmless floats),
          (
            assumed _ _ _ refl (max_lines-IsHarmless floats),
            (assumed _ _ _ refl (reader_id-IsHarmless floats), tt),
          ),
        ),
      ),
    )
    params-IsDefault background_send_tool =
        (tt, (tt, (assumed _ _ _ refl (press_enter-IsHarmless floats), tt)))
    params-IsDefault send_and_read_tool = (
      tt,
      (
        tt,
        (
          assumed _ _ _ refl (press_enter-IsHarmless floats),
          (
            assumed _ _ _ refl (strip_ansi-IsHarmless floats),
            (
              assumed _ _ _ refl (timeout-IsHarmless floats),
              (
                assumed _ _ _ refl (max_lines-IsHarmless floats),
                (assumed _ _ _ refl (reader_id-IsHarmless floats), tt),
              ),
            ),
          ),
        ),
      ),
    )
    params-IsDefault list_sessions_tool = tt
    params-IsDefault get_session_info_tool = (tt, tt)
    params-IsDefault terminate_process_tool = (
      tt,
      (
        assumed _ _ _ refl (force-IsHarmless floats),
        (assumed _ _ _ refl (grace_period-IsHarmless floats), tt),
      ),
    )
    params-IsDefault delete_session_tool = (tt, tt)
    params-IsDefault resize_pty_tool = (
      tt,
      (
        assumed _ _ _ refl (rows-IsHarmless floats),
        (assumed _ _ _ refl (cols-IsHarmless floats), tt),
      ),
    )
    params-IsDefault list_messages_tool = (tt, tt)
    params-IsDefault get_message_tool = (tt, (tt, tt))
    params-IsDefault register_reader_tool = (tt, tt)
    params-IsDefault unregister_reader_tool = (tt, (tt, tt))
    params-IsDefault upload_file_tool = (tt, (tt, (tt, tt)))
    params-IsDefault download_file_tool = (tt, (tt, tt))
    params-IsDefault list_files_tool = (tt, (tt, tt))
