-- ===== src/Ssh/Tests.antt =====
-- The two ends of the SSH connection at concrete inputs.
use interactive_process_mcp.Ssh.Sizes.{Channel, start_size}
use interactive_process_mcp.Ssh.Server.{Winsize, winsize, uint16}
use interactive_process_mcp.Prelude.{
  ◌≡◌, refl, pos, negsuc, text_eq, true, false, some, [], ◌∷◌, ◌++◌, Text, bytes,
}
use interactive_process_mcp.Strings.{join}
use interactive_process_mcp.Ssh.Client.{
  stdout, Answers, failed, exit_code, shell_quote, quote_if_needed, start, contains_any, is_any,
}
use interactive_process_mcp.Ssh.Client.Cleanup.{IsTidy, start-IsTidy}
use interactive_process_mcp.Ssh.Server.{
  Exec, handle_session, forward_signals, ssh_signal_to_os_sig, sighup,
}
use interactive_process_mcp.Ssh.Codes.{Transport, status_bits, arrived, shown_code, exit_code_lem}
use interactive_process_mcp.Prelude.Assoc.{get}
use interactive_process_mcp.Sessions.{Config}
use interactive_process_mcp.Mcp.{
  Args, text_arg, integer_arg, config_of, start_request, starts_or, validate_start_params, mode_of,
  rows_of, cols_of, get_int, get_float64, get_string, as_text_or, as_float_or,
}
use interactive_process_mcp.Mcp.Samples.{integers}

-- Quotes set around a word, nothing in it escaped.
abbrev in_quotes : Text → Text
in_quotes s = 34 ∷ s ++ 34 ∷ []

quote_test :
    shell_quote in_quotes (bytes "echo") (bytes "a b" ∷ bytes "c" ∷ [])
    ≡ bytes "echo " ++ 34 ∷ bytes "a b" ++ 34 ∷ bytes " c"
unfolding shell_quote quote_if_needed contains_any is_any join
quote_test = refl

-- An empty argument leaves nothing but a second blank.
empty_argument_test : shell_quote in_quotes (bytes "cmd") ([] ∷ bytes "x" ∷ []) ≡ bytes "cmd  x"
unfolding shell_quote quote_if_needed contains_any is_any join
empty_argument_test = refl

abbrev no_pty : Answers
no_pty = record {
  dial_ok = true;
  session_ok = true;
  stdin_ok = true;
  stdout_ok = true;
  stderr_ok = true;
  pty_ok = false;
  start_ok = true;
  stdout_closer = true;
  stderr_closer = false;
}

start-IsTidy_example : IsTidy no_pty stdout (start in_quotes (bytes "ls") [] true no_pty)
start-IsTidy_example = start-IsTidy in_quotes (bytes "ls") [] true no_pty stdout

signals_test :
    forward_signals ((bytes "TERM", false) ∷ (bytes "USR1", true) ∷ (bytes "HUP", true) ∷ [])
    ≡ sighup ∷ []
unfolding forward_signals ssh_signal_to_os_sig
signals_test = refl

abbrev wire : Transport
wire = record {
  report = λ code. arrived (status_bits code);
  lost = failed;
  report-arrived = λ code. refl;
  lost-failed = refl;
}

abbrev run : Exec
run = record { pty_ok = true; error = []; process_state = some (pos 3) }

exit_code_lem_example :
    (exit_code (wire.report (handle_session (bytes "sh" ∷ []) true run).code) ≡ pos 3)
    × (exit_code wire.lost ≡ pos 0)
exit_code_lem_example = exit_code_lem wire (bytes "sh") [] true run refl

-- The process was ended by a signal.
killed_test : shown_code (some (negsuc 0)) ≡ pos 4294967295
killed_test = refl

abbrev plain_channel : Channel
plain_channel = record { convey = λ n. n; convey-same = λ n h. refl }

-- A resize to 65560 rows gives the terminal 24.
wrapped_test : (winsize (pos 65560) (pos 80)).rows ≡ 24
unfolding winsize uint16
wrapped_test = refl

abbrev request : Args integers
request = (bytes "command", text_arg (bytes "sh")) ∷ (bytes "rows", integer_arg (pos 40)) ∷ []

start_size_example :
    let cfg : Config = config_of integers request in
    let size : Winsize = winsize cfg.rows cfg.cols in
    (pos size.rows ≡ cfg.rows) × (pos size.cols ≡ cfg.cols)
unfolding start_request starts_or validate_start_params mode_of rows_of cols_of get_int get_float64
    get_string as_text_or as_float_or get
start_size_example = start_size plain_channel integers request (config_of integers request) refl
