-- ===== src/Sessions/Contract/Tests.antt =====
-- A shell that prints on both pipes, before and behind a read and its exit, and what its readers get.
use interactive_process_mcp.Prelude.{
  ◌≡◌, refl, pos, true, false, none, some, List, [], ◌∷◌, Text, bytes, if◌then◌else◌, int_eq,
}
use interactive_process_mcp.Strings.{is_empty}
use interactive_process_mcp.Api
use interactive_process_mcp.Api.{mode_pty}
use interactive_process_mcp.Storage.{Fs}
use interactive_process_mcp.Storage.Samples.{good}
use interactive_process_mcp.Messages.{Call}
use interactive_process_mcp.Buffer.{apply, drains}
use interactive_process_mcp.Buffer.Queue.{last}
use interactive_process_mcp.Buffer.Refines.{promise}
use interactive_process_mcp.Buffer.Sample.{sample_ring}
use interactive_process_mcp.Sessions
use interactive_process_mcp.Sessions.{
  Config, Start, Session, Event, outputs, finds_done, exits, closes_buffer, records_exit, registers,
  stdout_pipe, stderr_pipe, ok, steps, fresh, note,
}
use interactive_process_mcp.Sessions.Output.{shown, read_output_for_reader}
use interactive_process_mcp.Sessions.Contract.{begun, follow, follow_all, Keeps}
use interactive_process_mcp.Sessions.Contract.Runs.{session-Keeps, read_output-newest}

abbrev shell : Config
shell = record {
  command = bytes "sh";
  args = [];
  mode = mode_pty;
  name = [];
  rows = pos 24;
  cols = pos 80;
}

abbrev call : Call
call = record { id = bytes "m1"; now = 7; readable = true; message_env = good; index_env = good }

abbrev begin : Start
begin = record {
  id = bytes "s1";
  created = 1;
  updated = 2;
  exec_ok = true;
  sftp_ok = true;
  early = [];
  call = call;
}

-- The pipes still give something when the exit is decided, and when the buffer is closed.
abbrev day : List Event
day =
    outputs stdout_pipe (bytes "lost") false
    ∷ Sessions.drains (pos 0)
    ∷ outputs stderr_pipe (bytes "hi") false
    ∷ registers
    ∷ outputs stdout_pipe (bytes "!") false
    ∷ finds_done
    ∷ exits (pos 3) 9
    ∷ outputs stdout_pipe (bytes "!") false
    ∷ closes_buffer
    ∷ outputs stdout_pipe (bytes "late") false
    ∷ records_exit call
    ∷ []

default_log_test : (follow_all day begun).logs.log (pos 0) ≡ some (bytes "hi!!")
unfolding follow_all follow promise
default_log_test = refl

second_log_test : (follow_all day begun).logs.log (pos 1) ≡ some (bytes "!!")
unfolding follow_all follow promise
second_log_test = refl

session-Keeps_example :
    Keeps sample_ring
      (steps sample_ring day (fresh sample_ring shell none begin, [])).0
      (follow_all day begun)
session-Keeps_example = session-Keeps sample_ring shell none begin day []

read_output-newest_example :
    let run : Session sample_ring × Fs =
      steps sample_ring day (fresh sample_ring shell none begin, []) in
    let output : Text = shown true (pos 0) (bytes "hi!!") in
    read_output_for_reader sample_ring (pos 0) (pos 5) [] true (pos 0) call run
    ≡ some (
      ok output,
      (
        record run.0 { buf = apply sample_ring (drains (pos 0)) run.0.buf },
        if is_empty output
            then run.1
            else note run.0.msg_mgr call run.0.info.id Api.msg_output output run.1,
      ),
    )
unfolding last
read_output-newest_example =
    read_output-newest sample_ring shell none begin day [] (pos 0) (pos 5) [] true (pos 0) call
      (bytes "hi!!") b'h' (bytes "i!!") default_log_test refl
