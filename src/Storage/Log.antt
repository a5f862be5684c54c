-- ===== src/Storage/Log.antt =====
-- The files of internal/storage/store.go as what was last saved in each place, over any sequence of
-- saves.
pub mod Kept
pub mod Places
pub mod Refines
use interactive_process_mcp.Prelude.{
  Bool, true, false, ◌&&◌, Option, none, some, List, [], ◌∷◌, Text, ◌==◌, text_eq, if◌then◌else◌,
  ◌≡◌,
}
use interactive_process_mcp.Api.{Session, Message, MessageIndexEntry}
use interactive_process_mcp.Storage.{
  Result, Fs, Env, sessions_path, index_path, message_path, save_sessions, save_message_index,
  save_message,
}
use interactive_process_mcp.Storage.Atomic.{is_ok}

-- What one call saves.
pub data Saved : Type 0 where
  saves_sessions : List Session → Saved
  saves_index : Text → List MessageIndexEntry → Saved
  saves_message : Text → Message → Saved

module _ (root : Text) where
  abbrev pub place : Saved → Text
  place (saves_sessions sessions) = sessions_path root
  place (saves_index session entries) = index_path root session
  place (saves_message session msg) = message_path root session msg.id

  abbrev pub perform : Env → Saved → Fs → Result (Unit {0}) × Fs
  perform env (saves_sessions sessions) = save_sessions root env sessions
  perform env (saves_index session entries) = save_message_index root env session entries
  perform env (saves_message session msg) = save_message root env session msg

  -- The saves one behind the other, with those that succeeded in a log, the newest first.
  unfoldable pub perform_all : List (Env × Saved) → Fs × List Saved → Fs × List Saved
  perform_all [] st = st
  perform_all ((env, op) ∷ ops) (fs, log) =
      let r : Result (Unit {0}) × Fs = perform env op fs in
      perform_all ops (r.1, if is_ok r.0 then op ∷ log else log)

  -- The temporary file has none of the names of the store.
  pub record IsApart (env : Env) : Type 0 where
    pub from_sessions : (env.temp == sessions_path root) ≡ false
    pub from_index : (session : Text) → (env.temp == index_path root session) ≡ false
    pub from_message : (session id : Text) → (env.temp == message_path root session id) ≡ false

-- What was saved last in a place.
unfoldable pub last_sessions : List Saved → List Session
last_sessions [] = []
last_sessions (saves_sessions sessions ∷ log) = sessions
last_sessions (saves_index session entries ∷ log) = last_sessions log
last_sessions (saves_message session msg ∷ log) = last_sessions log

unfoldable pub last_index : Text → List Saved → List MessageIndexEntry
last_index session [] = []
last_index session (saves_sessions sessions ∷ log) = last_index session log
last_index session (saves_index other entries ∷ log) =
    if other == session then entries else last_index session log
last_index session (saves_message other msg ∷ log) = last_index session log

unfoldable pub last_message : Text → Text → List Saved → Option Message
last_message session id [] = none
last_message session id (saves_sessions sessions ∷ log) = last_message session id log
last_message session id (saves_index other entries ∷ log) = last_message session id log
last_message session id (saves_message other msg ∷ log) =
    if (other == session) && (msg.id == id) then some msg else last_message session id log
