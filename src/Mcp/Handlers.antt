-- ===== src/Mcp/Handlers.antt =====
-- The handlers of internal/mcp/handlers.go that act on one session, over the manager. What the system
-- answers to a call is in `World`.
use interactive_process_mcp.Prelude.{
  ℕ, ℤ, pos, Text, bytes, Bool, false, ◌||◌, Option, none, some, List, [], if◌then◌else◌, text_eq,
}
use interactive_process_mcp.Prelude.Assoc.{get, put}
use interactive_process_mcp.Strings.{is_empty}
use interactive_process_mcp.Api
use interactive_process_mcp.Api.{Message, MessageIndexEntry}
use interactive_process_mcp.Storage
use interactive_process_mcp.Storage.{Fs, Env}
use interactive_process_mcp.Messages.{Call}
use interactive_process_mcp.Buffer
use interactive_process_mcp.Buffer.{Round}
use interactive_process_mcp.Buffer.Queue.{Ring}
use interactive_process_mcp.Sessions
use interactive_process_mcp.Sessions.{
  Session, Start, Event, Ending, Result, ok, err, is_running, send_input, resize_pty,
  register_reader, unregister_reader,
}
use interactive_process_mcp.Sessions.Files
use interactive_process_mcp.Sessions.Files.{Answers, DownloadResult}
use interactive_process_mcp.Sessions.Listing
use interactive_process_mcp.Sessions.Listing.{FileEntry, FileInfo}
use interactive_process_mcp.Sessions.Manager.{
  Manager, DeleteResult, deleted, still_running, delete, terminate,
}
use interactive_process_mcp.Mcp.{
  StartError, Floats, Args, get_string, get_bool, get_float64, get_int,
}

pub data Reply : Type 0 where
  success no_id bad_grace bad_timeout no_content no_path : Reply
  no_session not_deleted : Text → Reply
  start_refused : StartError → Reply
  session_error : Sessions.Error → Reply
  reader_error : Buffer.Error → Reply
  storage_error : Storage.Error → Reply
  file_error : Files.Error → Reply
  reader : ℤ → Reply
  info : Api.Session → Reply
  infos : List Api.Session → Reply
  index : List MessageIndexEntry → Reply
  messages : List Message → Reply
  started : Text → ℤ → Text → Reply
  output : Text → Bool → ℕ → ℕ → Reply
  uploaded : Text → ℕ → Reply
  downloaded : DownloadResult → Reply
  listing_error : Listing.Error → Reply
  listed : Text → List FileEntry → Reply

-- What a call meets: the answers of the SSH connection, the store and the SFTP server, and what the
-- other goroutines do to the session while the call sleeps, reads or terminates.
pub record World : Type 0 where
  pub cut : Option ℕ
  pub resize_ok : Bool
  pub call : Call
  pub ending : Ending
  pub env : Env
  pub start : Start
  pub meanwhile : List Event
  pub rounds : List Round
  pub read_call : Call
  pub readable : Bool
  pub answers : Answers
  pub listing : Option (List FileInfo)

abbrev pub State : Ring → Type 0
State ring = Manager ring × Fs

module _ (floats : Floats) (ring : Ring) where
  abbrev pub session_id : Args floats → Text
  session_id args = get_string floats args (bytes "session_id") []

  -- A session found and changed, or the error of `requireSession`.
  unfoldable pub on_session :
      Text → (Session ring × Fs → Reply × (Session ring × Fs)) → State ring → Reply × State ring
  on_session id act (m, fs) = elim (get id m.sessions) [
    | none ↦ (no_session id, (m, fs))
    | some s ↦
        let r : Reply × (Session ring × Fs) = act (s, fs) in
        (r.0, (record m { sessions = put id r.1.0 m.sessions }, r.1.1))
  ]

  abbrev pub done : Result (Unit {0}) → Reply
  done (ok _) = success
  done (err e) = session_error e

  abbrev pub registered : Buffer.Result ℤ → Reply
  registered (Buffer.ok id) = reader id
  registered (Buffer.err e) = reader_error e

  abbrev pub delete_reply : DeleteResult → Reply
  delete_reply deleted = success
  delete_reply (still_running id) = not_deleted id

  -- What a handler does with the session that it has found.
  abbrev pub send_act : Text → Bool → World → Session ring × Fs → Reply × (Session ring × Fs)
  send_act text press_enter w st =
      let r : Result (Unit {0}) × (Session ring × Fs) =
        send_input ring text press_enter w.cut w.call st in
      (done r.0, r.1)

  abbrev pub resize_act : ℤ → ℤ → World → Session ring × Fs → Reply × (Session ring × Fs)
  resize_act rows cols w (s, fs) =
      let r : Result (Unit {0}) × Session ring = resize_pty ring rows cols w.resize_ok s in
      (done r.0, (r.1, fs))

  abbrev pub register_act : Session ring × Fs → Reply × (Session ring × Fs)
  register_act (s, fs) = (registered (register_reader ring s).0, ((register_reader ring s).1, fs))

  abbrev pub unregister_act : ℤ → Session ring × Fs → Reply × (Session ring × Fs)
  unregister_act id (s, fs) = (success, (unregister_reader ring id s, fs))

  abbrev pub info_act : Session ring × Fs → Reply × (Session ring × Fs)
  info_act (s, fs) = (info s.info, (s, fs))

  unfoldable pub handle_send_input : Args floats → World → State ring → Reply × State ring
  handle_send_input args w = on_session (session_id args) (
      send_act (get_string floats args (bytes "text") [])
        (get_bool floats args (bytes "press_enter") false) w)

  unfoldable pub handle_resize_pty : Args floats → World → State ring → Reply × State ring
  handle_resize_pty args w = on_session (session_id args) (
      resize_act (get_int floats args (bytes "rows") (pos 24))
        (get_int floats args (bytes "cols") (pos 80)) w)

  unfoldable pub handle_register_reader : Args floats → State ring → Reply × State ring
  handle_register_reader args = on_session (session_id args) register_act

  unfoldable pub handle_unregister_reader : Args floats → State ring → Reply × State ring
  handle_unregister_reader args =
      on_session (session_id args)
        (unregister_act (get_int floats args (bytes "reader_id") (pos 0)))

  unfoldable pub handle_get_session_info : Args floats → State ring → Reply × State ring
  handle_get_session_info args = on_session (session_id args) info_act

  abbrev pub grace_of : Args floats → floats.Float
  grace_of args = get_float64 floats args (bytes "grace_period") (floats.of_int (pos 5))

  unfoldable pub handle_terminate_process : Args floats → World → State ring → Reply × State ring
  handle_terminate_process args w (m, fs) =
      if floats.less (grace_of args) (floats.of_int (pos 0))
        || floats.less (floats.of_int (pos 60)) (grace_of args)
      then (bad_grace, (m, fs))
      else elim (get (session_id args) m.sessions) [
        | none ↦ (no_session (session_id args), (m, fs))
        | some s ↦ (
          success,
          terminate ring (session_id args) (get_bool floats args (bytes "force") false) w.ending
              w.env (m, fs),
        )
      ]

  unfoldable pub handle_delete_session : Args floats → World → State ring → Reply × State ring
  handle_delete_session args w (m, fs) = if is_empty (session_id args) then (no_id, (m, fs)) else (
    delete_reply (delete ring (session_id args) w.env (m, fs)).0,
    (delete ring (session_id args) w.env (m, fs)).1,
  )
