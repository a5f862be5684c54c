-- ===== src/Sessions/Lifecycle.antt =====
-- The life cycle of internal/session/session.go: the exit goroutine, Terminate and the client's
-- operations in any order.
pub mod Advance
pub mod States
pub mod Steps
pub mod Terminate
use interactive_process_mcp.Prelude.{
  ℕ, ℤ, Text, ◌≡◌, ◌≢◌, refl, sym, ◌∙◌, int_eq, Bool, true, false, Option, none, some, List, [],
  ◌∷◌, arith, ◌⊎◌, inl, inr, Option-cases, if_cases, ap,
}
use interactive_process_mcp.Prelude.Assoc.{get}
use interactive_process_mcp.Api
use interactive_process_mcp.Api.{running, exited, error}
use interactive_process_mcp.Storage.{Fs}
use interactive_process_mcp.Messages.{Call}
use interactive_process_mcp.Buffer
use interactive_process_mcp.Buffer.{Buffer, write, new_reader, unregister, close, apply}
use interactive_process_mcp.Buffer.Queue.{Ring}
use interactive_process_mcp.Sessions.{
  Config, Start, ExitLeft, nothing_left, to_close, to_record, Session, Event, outputs, finds_done,
  exits, gives_up, closes_buffer, records_exit, resizes, sends, registers, unregisters, drains,
  sftp_ends, Pipe, stdout_pipe, stderr_pipe, Ending, exit_with, exit, give_up, closed_by,
  close_buffer, recorded_by, record_exit, pump, send_input, resize_pty, step, steps, terminate,
  fresh,
}
use interactive_process_mcp.Sessions.Lifecycle.States.{
  IsOpen, IsExiting, IsExited, IsConsistent, IsDecided, new_reader-closed,
}
use interactive_process_mcp.Sessions.Lifecycle.Steps.{
  exit_with_open, steps-IsConsistent, steps-IsDecided,
}

module _ (ring : Ring) where
  pub fresh-IsOpen :
      (cfg : Config) (msg_mgr : Option Text) (env : Start)
      → IsOpen ring (fresh ring cfg msg_mgr env)
  unfolding fresh Buffer.new
  fresh-IsOpen cfg msg_mgr env = record {
    status_is = refl;
    code_is = refl;
    closed_is = new_reader-closed ring _;
    once_is = refl;
    left_is = refl;
  }

  -- From a new session on, whatever the goroutines and the clients do, and in whatever order, the
  -- session is either running, without exit code and with an open buffer, before its exit, or exited, with an
  -- exit code, and then its buffer is closed, or still open and the exit has its close left to do.
  pub reachable-IsConsistent :
      (cfg : Config) (msg_mgr : Option Text) (env : Start) (events : List Event) (fs : Fs)
      → IsConsistent ring (steps ring events (fresh ring cfg msg_mgr env, fs)).0
  reachable-IsConsistent cfg msg_mgr env events fs =
      steps-IsConsistent ring events _ (inl (fresh-IsOpen cfg msg_mgr env))

  -- The first exit of a session that has none yet decides: whether the exit goroutine or Terminate
  -- brings it about, its code stays, and no later step, a second exit or a resize included,
  -- changes any of the metadata.
  pub first_exit :
      (code : ℤ) (content : Text) (now : ℕ) (events : List Event) (s : Session ring) (fs : Fs)
      → IsOpen ring s
      → let exited : Session ring = exit_with ring code content now s in
        let later : Session ring × Fs = steps ring events (exited, fs) in
        (later.0.info ≡ exited.info) × (later.0.info.exit_code ≡ some code)
  first_exit code content now events s fs h =
      let (done, code_is) = exit_with_open ring code content now s h in
      let (_, same) =
        steps-IsDecided ring events (exit_with ring code content now s, fs) (inl done) in
      (same, ap (λ (i : Api.Session). i.exit_code) same ∙ code_is)
