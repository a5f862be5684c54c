-- ===== src/Sessions.antt =====
-- internal/session/session.go: a session, which pairs a process reached over SSH with its buffer.
-- The goroutines of a session act in steps (`Event`), in any order. What is done under the session's lock
-- or the buffer's is one step; the body of `exitOnce` is three: the metadata, the close of the buffer
-- and the message. What the SSH connection answers is given to a step.
pub mod Lifecycle
pub mod Contract
pub mod Listing
pub mod Manager
pub mod Output
pub mod Files
pub mod History
mod Tests
use interactive_process_mcp.Prelude.{
  ℕ, ℤ, pos, negsuc, Text, bytes, Bool, true, false, not, ◌&&◌, ◌||◌, Option, none, some, List, [],
  ◌∷◌, ◌++◌, if◌then◌else◌, text_eq, ◌==◌, take,
}
use interactive_process_mcp.Strings.{lf, is_empty, decimal}
use interactive_process_mcp.Api
use interactive_process_mcp.Api.{
  SessionStatus, running, exited, error, SessionMode, mode_pty, MsgType, msg_system, msg_input,
}
use interactive_process_mcp.Storage.{Fs}
use interactive_process_mcp.Messages.{Call, append}
use interactive_process_mcp.Buffer
use interactive_process_mcp.Buffer.{Buffer, new_reader, unregister, write, close}
use interactive_process_mcp.Buffer.Queue.{Ring}

pub data Error : Type 0 where
  start_failed sftp_failed stdin_failed resize_failed not_running no_pty : Error
  cannot_send : SessionStatus → Error
  buffer_error : Buffer.Error → Error

pub data Result {ℓ} (A : Type ℓ) : Type ℓ where
  ok : A → Result A
  err : Error → Result A

-- The parameters of a new session.
pub record Config : Type 0 where
  pub command : Text
  pub args : List Text
  pub mode : SessionMode
  pub name : Text
  pub rows : ℤ
  pub cols : ℤ

-- What the body of `exitOnce` has left to do, with the text of its message.
pub data ExitLeft : Type 0 where
  nothing_left : ExitLeft
  to_close to_record : Text → ExitLeft

-- `info` is the embedded api.Session. `exit_once` is whether the body of `exitOnce` has begun, with its first
-- step, and `exit_left` what of it is left; another caller of `exitOnce` waits for that. `sent` are the bytes written to the process, `stdout` and
-- `stderr` whether the goroutine that copies from a pipe still runs.
pub record Session (ring : Ring) : Type 0 where
  pub info : Api.Session
  pub terminate_once : Bool
  pub exit_once : Bool
  pub exit_left : ExitLeft
  pub buf : Buffer ring
  pub reader_id : ℤ
  pub msg_mgr : Option Text
  pub sftp_conn : Bool
  pub sftp_close : Bool
  pub done : Bool
  pub sent : Text
  pub stdout : Bool
  pub stderr : Bool

pub data Pipe : Type 0 where
  stdout_pipe stderr_pipe : Pipe

-- What a goroutine of the session, or a client, does in one step. `finds_done` is the exit goroutine
-- closing `done`, `exits` and `gives_up` the beginning of `exitOnce` there and at the end of Terminate,
-- `closes_buffer` and `records_exit` the rest of it, on either side, and `drains` what a read takes.
pub data Event : Type 0 where
  outputs : Pipe → Text → Bool → Event
  finds_done : Event
  exits : ℤ → ℕ → Event
  gives_up : ℕ → Event
  closes_buffer : Event
  records_exit : Call → Event
  resizes : ℤ → ℤ → Bool → Event
  sends : Text → Bool → Option ℕ → Call → Event
  registers : Event
  unregisters : ℤ → Event
  drains : ℤ → Event
  sftp_ends : Event

-- What `New` meets: the ID, the clock, whether SSH and SFTP can be reached, what the goroutines that
-- it starts do before it returns.
pub record Start : Type 0 where
  pub id : Text
  pub created : ℕ
  pub updated : ℕ
  pub exec_ok : Bool
  pub sftp_ok : Bool
  pub early : List Event
  pub call : Call

-- A run of Terminate: what happens in the grace period, whether the process ends in it, what happens
-- while the closed connection is given its two seconds, and then between the steps of `exitOnce`.
pub record Ending : Type 0 where
  pub grace : List Event
  pub done_in_grace : Bool
  pub closing : List Event
  pub exiting : List Event
  pub recording : List Event
  pub now : ℕ
  pub call : Call

-- A message of a session, if it has a message manager; a failure to keep it is ignored.
unfoldable pub note : Option Text → Call → Text → MsgType → Text → Fs → Fs
note none call session type content fs = fs
note (some root) call session type content fs = (append root call session type content fs).1

module _ (ring : Ring) where
  -- The body of `exitOnce`, which the exit goroutine and Terminate share but for the code and the text: its
  -- first step, under the session's lock.
  unfoldable pub exit_with : ℤ → Text → ℕ → Session ring → Session ring
  exit_with code content now s = if s.exit_once then s else record s {
    info = record s.info { status = exited; exit_code = some code; updated_at = now };
    exit_once = true;
    exit_left = to_close content;
  }

  -- Its second step, by what is left: `buf.Close`, without the session's lock.
  unfoldable pub closed_by : ExitLeft → Session ring → Session ring
  closed_by nothing_left s = s
  closed_by (to_close content) s = record s {
    buf = close ring s.buf;
    exit_left = to_record content;
  }
  closed_by (to_record content) s = s

  unfoldable pub close_buffer : Session ring → Session ring
  unfolding closed_by
  close_buffer s = closed_by s.exit_left s

  -- Its third step: the message.
  unfoldable pub recorded_by : ExitLeft → Call → Session ring × Fs → Session ring × Fs
  recorded_by nothing_left call st = st
  recorded_by (to_close content) call st = st
  recorded_by (to_record content) call (s, fs) =
      (record s { exit_left = nothing_left }, note s.msg_mgr call s.info.id msg_system content fs)

  unfoldable pub record_exit : Call → Session ring × Fs → Session ring × Fs
  unfolding recorded_by
  record_exit call (s, fs) = recorded_by s.exit_left call (s, fs)

  unfoldable pub exit : ℤ → ℕ → Session ring → Session ring
  exit code = exit_with code (bytes "Process exited with code " ++ decimal code)

  unfoldable pub give_up : ℕ → Session ring → Session ring
  give_up = exit_with (negsuc 0) (bytes "Process terminated (no exit code)")

  -- One turn of the loop of `pipeToBuffer`: what was read, and whether the read failed.
  unfoldable pub pump : Pipe → Text → Bool → Session ring → Session ring
  pump stdout_pipe p failed s =
      if s.stdout
      then record s { buf = (write ring p s.buf).1; stdout = not (failed || s.done) }
      else s
  pump stderr_pipe p failed s =
      if s.stderr
      then record s { buf = (write ring p s.buf).1; stderr = not (failed || s.done) }
      else s

  unfoldable pub is_running : Session ring → Bool
  is_running s = elim s.info.status [ running ↦ true | exited ↦ false | error ↦ false ]

  -- `cut` is how many bytes the process took if the write failed.
  unfoldable pub send_input :
      Text → Bool → Option ℕ → Call → Session ring × Fs → Result (Unit {0}) × (Session ring × Fs)
  unfolding is_running
  send_input text press_enter cut call (s, fs) =
      let line : Text = if press_enter then text ++ lf ∷ [] else text in
      if is_running s
      then elim cut [
        | some n ↦ (err stdin_failed, (record s { sent = s.sent ++ take n line }, fs))
        | none ↦ (
          ok tt,
          (record s { sent = s.sent ++ line }, note s.msg_mgr call s.info.id msg_input line fs),
        )
      ]
      else (err (cannot_send s.info.status), (s, fs))

  unfoldable pub resize_pty : ℤ → ℤ → Bool → Session ring → Result (Unit {0}) × Session ring
  unfolding is_running
  resize_pty rows cols resize_ok s =
      if not (is_running s)
      then (err not_running, s)
      else if not (s.info.mode == mode_pty)
      then (err no_pty, s)
      else if not resize_ok
      then (err resize_failed, s)
      else (ok tt, record s { info = record s.info { rows = rows; cols = cols } })

  unfoldable pub register_reader : Session ring → Buffer.Result ℤ × Session ring
  register_reader s = ((new_reader ring s.buf).0, record s { buf = (new_reader ring s.buf).1 })

  unfoldable pub unregister_reader : ℤ → Session ring → Session ring
  unregister_reader id s = record s { buf = unregister ring id s.buf }

  pub has_more_output : ℤ → Session ring → Bool
  has_more_output id s = Buffer.has_more ring id s.buf

  -- `CloseSFTP`; the delayed close behind the exit comes to the same connection.
  unfoldable pub close_sftp : Session ring → Session ring
  close_sftp s = record s { sftp_close = true; sftp_conn = false }

  unfoldable pub step : Event → Session ring × Fs → Session ring × Fs
  unfolding exit give_up close_buffer record_exit pump send_input resize_pty register_reader
      unregister_reader
  step (outputs pipe p failed) (s, fs) = (pump pipe p failed s, fs)
  step finds_done (s, fs) = (record s { done = true }, fs)
  step (exits code now) (s, fs) = (exit code now s, fs)
  step (gives_up now) (s, fs) = (give_up now s, fs)
  step closes_buffer (s, fs) = (close_buffer s, fs)
  step (records_exit call) st = record_exit call st
  step (resizes rows cols resize_ok) (s, fs) = ((resize_pty rows cols resize_ok s).1, fs)
  step (sends text press_enter cut call) st = (send_input text press_enter cut call st).1
  step registers (s, fs) = ((register_reader s).1, fs)
  step (unregisters id) (s, fs) = (unregister_reader id s, fs)
  step (drains id) (s, fs) = (record s { buf = Buffer.apply ring (Buffer.drains id) s.buf }, fs)
  step sftp_ends (s, fs) = (record s { sftp_conn = false }, fs)

  unfoldable pub steps : List Event → Session ring × Fs → Session ring × Fs
  steps [] st = st
  steps (e ∷ events) st = steps events (step e st)

  -- `exitOnce` at the end of Terminate, which waits for the exit goroutine if that has begun with it.
  unfoldable pub exit_once_over : Ending → Session ring × Fs → Session ring × Fs
  exit_once_over run (s, fs) =
      let decided : Session ring × Fs = steps run.exiting (give_up run.now s, fs) in
      record_exit run.call (steps run.recording (close_buffer decided.0, decided.1))

  unfoldable pub terminate : Bool → Ending → Session ring × Fs → Session ring × Fs
  terminate force run (s, fs) =
      let begun : Session ring × Fs = (record s { terminate_once = true }, fs) in
      let waited : Session ring × Fs = if force then begun else steps run.grace begun in
      if s.terminate_once
      then (s, fs)
      else if not force && run.done_in_grace
      then waited
      else exit_once_over run (steps run.closing waited)

  -- A session as `New` makes it, its goroutines not yet run.
  unfoldable pub fresh : Config → Option Text → Start → Session ring
  fresh cfg msg_mgr env =
      let opened : Buffer.Result ℤ × Buffer ring =
        new_reader ring (Buffer.new ring (pos Buffer.default_max_bytes)) in
      record {
        info = record {
          id = env.id;
          name = if is_empty cfg.name then bytes "session-" ++ env.id else cfg.name;
          command = cfg.command;
          args = cfg.args;
          mode = cfg.mode;
          status = running;
          exit_code = none;
          pid = pos 0;
          created_at = env.created;
          updated_at = env.updated;
          rows = cfg.rows;
          cols = cfg.cols;
        };
        terminate_once = false;
        exit_once = false;
        exit_left = nothing_left;
        buf = opened.1;
        reader_id = elim opened.0 [ Buffer.ok id ↦ id | Buffer.err e ↦ pos 0 ];
        msg_mgr = msg_mgr;
        sftp_conn = true;
        sftp_close = false;
        done = false;
        sent = [];
        stdout = true;
        stderr = true;
      }

  -- `New`. Without SFTP the connection is closed and no session is returned.
  unfoldable pub new : Config → Option Text → Start → Fs → Result (Session ring) × Fs
  new cfg msg_mgr env fs =
      let early : Session ring × Fs = steps env.early (fresh cfg msg_mgr env, fs) in
      if not env.exec_ok
      then (err start_failed, fs)
      else if not env.sftp_ok
      then (err sftp_failed, early.1)
      else (
        ok early.0,
        note msg_mgr env.call early.0.info.id msg_system (bytes "Process started") early.1,
      )
