-- ===== src/Sessions/Tests.antt =====
-- Runs of sessions and of their manager, and the theorems at concrete inputs.
use interactive_process_mcp.Prelude.{
  ◌≡◌, refl, pos, negsuc, true, false, none, some, List, [], ◌∷◌, ◌++◌, Text, bytes, inl, inr,
  text_eq, int_eq, map, All, ◌==◌, if◌then◌else◌,
}
use interactive_process_mcp.Strings.{lf, decimal, digits}
use interactive_process_mcp.Strings.Lines.{first_lines}
use interactive_process_mcp.Api.{mode_pty}
use interactive_process_mcp.Api.Sessions.{valid_session}
use interactive_process_mcp.Storage
use interactive_process_mcp.Storage.{
  Fs, Env, sessions_path, save_sessions, load_sessions, save, atomic_write, plan,
}
use interactive_process_mcp.Storage.Samples.{good}
use interactive_process_mcp.Messages.{Call}
use interactive_process_mcp.Buffer.Sample.{sample_ring}
use interactive_process_mcp.Sessions.{
  Config, Start, Session, Event, outputs, finds_done, exits, gives_up, closes_buffer, records_exit,
  closed_by, close_buffer, recorded_by, record_exit, resizes, registers, stdout_pipe, Ending,
  exit_with, exit, give_up, pump, resize_pty, step, steps, terminate, fresh, is_running, new, note,
}
use interactive_process_mcp.Sessions.Lifecycle.Terminate.{terminate-IsExited}
use interactive_process_mcp.Sessions.Lifecycle.States.{IsExited, IsConsistent}
use interactive_process_mcp.Sessions.Lifecycle.{reachable-IsConsistent, first_exit, fresh-IsOpen}
use interactive_process_mcp.Sessions.Manager.{
  Manager, still_running, list_all, create, delete, cleanup_all,
}
use interactive_process_mcp.Sessions.Manager.Registry.{
  cleanup_all_stale, cleanup_all-IsExited, delete_keeps, create_lem,
}
use interactive_process_mcp.Sessions.Output.{limit_lines, limit_lines_lem}
use interactive_process_mcp.Prelude.Assoc.{get, put}

abbrev shell : Config
shell = record {
  command = bytes "sh";
  args = [];
  mode = mode_pty;
  name = [];
  rows = pos 24;
  cols = pos 80;
}

abbrev call : Call
call = record { id = bytes "m1"; now = 7; readable = true; message_env = good; index_env = good }

abbrev begin : Start
begin = record {
  id = bytes "s1";
  created = 1;
  updated = 2;
  exec_ok = true;
  sftp_ok = true;
  early = [];
  call = call;
}

abbrev started : Session sample_ring
started = fresh sample_ring shell none begin

-- The program prints, exits with 3, and is resized too late.
abbrev day : List Event
day =
    outputs stdout_pipe (bytes "hi") false
    ∷ finds_done
    ∷ exits (pos 3) 9
    ∷ resizes (pos 10) (pos 10) true
    ∷ gives_up 11
    ∷ closes_buffer
    ∷ records_exit call
    ∷ []

exit_test : (steps sample_ring day (started, [])).0.info.exit_code ≡ some (pos 3)
unfolding steps step exit give_up exit_with close_buffer closed_by record_exit recorded_by pump
    resize_pty fresh is_running
exit_test = refl

decimal_test : decimal (negsuc 120) ≡ bytes "-121"
unfolding decimal digits
decimal_test = refl

reachable-IsConsistent_example : IsConsistent sample_ring (steps sample_ring day (started, [])).0
reachable-IsConsistent_example = reachable-IsConsistent sample_ring shell none begin day []

abbrev late : List Event
late = resizes (pos 10) (pos 10) true ∷ gives_up 11 ∷ registers ∷ []

first_exit_example :
    let out : Session sample_ring = exit_with sample_ring (pos 3) [] 9 started in
    let later : Session sample_ring × Fs = steps sample_ring late (out, []) in
    (later.0.info ≡ out.info) × (later.0.info.exit_code ≡ some (pos 3))
first_exit_example =
    first_exit sample_ring (pos 3) [] 9 late started [] (fresh-IsOpen sample_ring shell none begin)

abbrev slow : Ending
slow = record {
  grace = outputs stdout_pipe (bytes "bye") false ∷ [];
  done_in_grace = false;
  closing = finds_done ∷ exits (pos 0) 9 ∷ [];
  exiting = outputs stdout_pipe (bytes "late") false ∷ [];
  recording = [];
  now = 12;
  call = call;
}

terminate-IsExited_example : IsExited sample_ring (terminate sample_ring false slow (started, [])).0
unfolding fresh
terminate-IsExited_example =
    terminate-IsExited sample_ring false slow (started, [])
      (inl (fresh-IsOpen sample_ring shell none begin)) refl (inr refl)

first_lines_test :
    first_lines 1 (bytes "a" ++ lf ∷ bytes "b" ++ lf ∷ bytes "c") ≡ bytes "a" ++ lf ∷ bytes "b"
unfolding first_lines
first_lines_test = refl

abbrev printed : Session sample_ring
printed = pump sample_ring stdout_pipe (bytes "hi") false started

abbrev registry : Manager sample_ring
registry = record {
  sessions = (bytes "s1", started) ∷ [];
  msg_mgr = none;
  store = some (bytes "data/");
}

cleanup_all-IsExited_example :
    All
      (λ (e : Text × Session sample_ring). IsExited sample_ring e.1)
      (cleanup_all sample_ring true (λ _. slow) (λ _. []) good (registry, [])).0.sessions
unfolding fresh
cleanup_all-IsExited_example =
    cleanup_all-IsExited sample_ring (λ _. slow) (λ _. []) good registry []
      ((inl (fresh-IsOpen sample_ring shell none begin), refl), tt)

-- The list that is kept at the end of the server says that the session runs.
cleanup_all_stale_example :
    load_sessions
      (bytes "data/")
      true
      (cleanup_all sample_ring true (λ _. slow) (λ _. []) good (registry, [])).1
    ≡ Storage.ok (map valid_session (list_all sample_ring registry.sessions))
unfolding save_sessions save atomic_write plan
cleanup_all_stale_example =
    cleanup_all_stale sample_ring true (λ _. slow) (λ _. []) good registry [] (bytes "data/") refl
      refl refl

delete_keeps_example :
    (get (bytes "s1") (delete sample_ring (bytes "s2") good (registry, [])).1.0.sessions
      ≡ some started)
    × (delete sample_ring (bytes "s1") good (registry, [])
        ≡ (still_running (bytes "s1"), (registry, [])))
unfolding get fresh is_running
delete_keeps_example =
    delete_keeps sample_ring (bytes "s2") good registry [] (bytes "s1") started refl refl

create_lem_example :
    ((j : Text)
      → get j (create sample_ring shell begin good (registry, [])).1.0.sessions
        ≡ (if bytes "s1" == j then some started else get j registry.sessions))
    × (load_sessions (bytes "data/") true (create sample_ring shell begin good (registry, [])).1.1
        ≡ Storage.ok
            (map valid_session (list_all sample_ring (put (bytes "s1") started registry.sessions))))
unfolding fresh new steps note save_sessions save atomic_write plan
create_lem_example =
    create_lem sample_ring shell begin good registry [] (bytes "data/") started [] refl refl refl
      refl

limit_lines_lem_example :
    limit_lines (pos 2) (bytes "a" ++ lf ∷ bytes "b" ++ lf ∷ bytes "c")
    ≡ first_lines 1 (bytes "a" ++ lf ∷ bytes "b" ++ lf ∷ bytes "c")
limit_lines_lem_example = limit_lines_lem (pos 2) (bytes "a" ++ lf ∷ bytes "b" ++ lf ∷ bytes "c")
