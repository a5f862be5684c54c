-- ===== src/Sessions/Contract/Runs.antt =====
-- Runs of a session of internal/session/session.go against the contract of its output, and the reads of
-- its clients.
use interactive_process_mcp.Prelude.{
  ℕ, ℤ, pos, Text, ◌≡◌, refl, ◌∙◌, Bool, Option, some, List, [], ◌∷◌, if◌then◌else◌,
}
use interactive_process_mcp.Strings.{is_empty}
use interactive_process_mcp.Api.{msg_output}
use interactive_process_mcp.Storage.{Fs}
use interactive_process_mcp.Messages.{Call}
use interactive_process_mcp.Buffer
use interactive_process_mcp.Buffer.{Round, apply, drains}
use interactive_process_mcp.Buffer.Queue.{Ring, last}
use interactive_process_mcp.Buffer.View.{new-IsValid, apply-IsValid}
use interactive_process_mcp.Buffer.Refines.{
  no_logs, promise, apply-Refines, new-Refines, size-apply,
}
use interactive_process_mcp.Sessions.{Config, Start, Session, Event, ok, steps, fresh, note}
use interactive_process_mcp.Sessions.Output.{shown, read_output_for_reader, read_output_at_once}
use interactive_process_mcp.Sessions.Contract.{
  Contract, begun, follow, follow_all, Keeps, step-Keeps,
}

module _ (ring : Ring) where
  steps-Keeps :
      (events : List Event) (s : Session ring) (fs : Fs) (c : Contract)
      → Keeps ring s c
      → Keeps ring (steps ring events (s, fs)).0 (follow_all events c)
  unfolding steps follow_all
  steps-Keeps [] s fs c k = k
  steps-Keeps (e ∷ events) s fs c k =
      steps-Keeps events _ _ (follow e c) (step-Keeps ring e s fs c k)

  fresh-Keeps :
      (cfg : Config) (msg_mgr : Option Text) (env : Start)
      → Keeps ring (fresh ring cfg msg_mgr env) begun
  unfolding fresh apply promise
  fresh-Keeps cfg msg_mgr env =
      let b = Buffer.new ring (pos Buffer.default_max_bytes) in
      record {
        refines =
            apply-Refines ring Buffer.registers b no_logs (new-IsValid ring _) (new-Refines ring _);
        stdout = refl;
        stderr = refl;
        done = refl;
        once = refl;
        shut = refl;
        idle = λ _. refl;
        valid = apply-IsValid ring Buffer.registers b (new-IsValid ring _);
        sized = size-apply ring Buffer.registers b ∙ (unfold Buffer.new in refl);
      }

  -- Whatever the goroutines and the clients of a new session do, in any order: each reader holds the newest
  -- bytes, up to the capacity, of what the pipes gave since it registered and it has not read, until the
  -- exit, from whichever side it comes first, closes the buffer, which is the end of it.
  pub session-Keeps :
      (cfg : Config) (msg_mgr : Option Text) (env : Start) (events : List Event) (fs : Fs)
      → Keeps ring (steps ring events (fresh ring cfg msg_mgr env, fs)).0 (follow_all events begun)
  session-Keeps cfg msg_mgr env events fs =
      steps-Keeps events (fresh ring cfg msg_mgr env) fs begun (fresh-Keeps cfg msg_mgr env)

  -- A read of a reader, after whatever happened to a new session: if any bytes came for it since its last
  -- read, it returns at once, whatever its timeout, with the newest of them as they are shown; also
  -- after the exit. A message is kept unless there is nothing to show.
  pub read_output-newest :
      (cfg : Config) (msg_mgr : Option Text) (env : Start) (events : List Event) (start : Fs)
      (reader timeout : ℤ) (rounds : List Round) (strip_ansi : Bool) (max_lines : ℤ) (call : Call)
      (log : Text) (c : ℕ) (p : Text)
      → (follow_all events begun).logs.log reader ≡ some log
      → last Buffer.default_max_bytes log ≡ c ∷ p
      → let run : Session ring × Fs = steps ring events (fresh ring cfg msg_mgr env, start) in
        let output : Text = shown strip_ansi max_lines (c ∷ p) in
        read_output_for_reader ring reader timeout rounds strip_ansi max_lines call run
        ≡ some (
          ok output,
          (
            record run.0 { buf = apply ring (drains reader) run.0.buf },
            if is_empty output
                then run.1
                else note run.0.msg_mgr call run.0.info.id msg_output output run.1,
          ),
        )
  read_output-newest cfg msg_mgr env events start reader timeout rounds strip_ansi max_lines call
        log c p has newest =
      let run : Session ring × Fs = steps ring events (fresh ring cfg msg_mgr env, start) in
      let k = session-Keeps cfg msg_mgr env events start in
      read_output_at_once ring reader timeout rounds strip_ansi max_lines call run.0 run.1 c p
        (k.refines.unread reader ∙ rw (k.sized, has, newest) refl)
