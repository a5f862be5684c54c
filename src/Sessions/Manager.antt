-- ===== src/Sessions/Manager.antt =====
-- internal/session/manager.go: the registry of sessions. The map's order, which Go leaves open, is that
-- of an association list here; `sshAddr` is left out. A failure to keep the session list is ignored.
pub mod History
pub mod Locks
pub mod Registry
mod Tests
use interactive_process_mcp.Prelude.{
  ℤ, Text, Bool, true, false, not, ◌&&◌, Option, none, some, List, [], ◌∷◌, map, if◌then◌else◌,
  text_eq,
}
use interactive_process_mcp.Prelude.Assoc.{Map, get, put, remove}
use interactive_process_mcp.Api
use interactive_process_mcp.Storage.{Fs, Env, save_sessions}
use interactive_process_mcp.Buffer.Queue.{Ring}
use interactive_process_mcp.Sessions
use interactive_process_mcp.Sessions.{
  Config, Session, Event, Start, Ending, Result, ok, err, Error, is_running, new, steps,
}

-- `store` is the root of the store, if there is one.
pub record Manager (ring : Ring) : Type 0 where
  pub sessions : Map Text (Session ring)
  pub msg_mgr : Option Text
  pub store : Option Text

pub data DeleteResult : Type 0 where
  deleted : DeleteResult
  still_running : Text → DeleteResult

module _ (ring : Ring) where
  unfoldable pub list_all : Map Text (Session ring) → List Api.Session
  list_all [] = []
  list_all ((id, s) ∷ sessions) = s.info ∷ list_all sessions

  unfoldable pub persist : Option Text → Env → List Api.Session → Fs → Fs
  persist none env sessions fs = fs
  persist (some root) env sessions fs = (save_sessions root env sessions fs).1

  -- `Create`, behind the start of the session.
  unfoldable pub add :
      Env → Manager ring → Result (Session ring) × Fs → Result (Session ring) × (Manager ring × Fs)
  add env m (err e, fs) = (err e, (m, fs))
  add env m (ok s, fs) =
      let sessions : Map Text (Session ring) = put s.info.id s m.sessions in
      (ok s, (record m { sessions = sessions }, persist m.store env (list_all sessions) fs))

  unfoldable pub create :
      Config → Start → Env → Manager ring × Fs → Result (Session ring) × (Manager ring × Fs)
  unfolding add
  create cfg start env (m, fs) = add env m (new ring cfg m.msg_mgr start fs)

  -- `Get`.
  abbrev pub find : Text → Manager ring → Option (Session ring)
  find id m = get id m.sessions

  -- A session put back, and the list kept.
  unfoldable pub put_back : Text → Env → Manager ring → Session ring × Fs → Manager ring × Fs
  put_back id env m (s, fs) =
      let sessions : Map Text (Session ring) = put id s m.sessions in
      (record m { sessions = sessions }, persist m.store env (list_all sessions) fs)

  unfoldable pub terminate : Text → Bool → Ending → Env → Manager ring × Fs → Manager ring × Fs
  unfolding put_back
  terminate id force run env (m, fs) = elim (get id m.sessions) [
    | none ↦ (m, fs)
    | some s ↦ put_back id env m (Sessions.terminate ring force run (s, fs))
  ]

  unfoldable pub delete : Text → Env → Manager ring × Fs → DeleteResult × (Manager ring × Fs)
  delete id env (m, fs) = elim (get id m.sessions) [
    | none ↦ (deleted, (m, fs))
    | some s ↦
        let sessions : Map Text (Session ring) = remove id m.sessions in
        if is_running ring s then (still_running id, (m, fs)) else (
          deleted,
          (record m { sessions = sessions }, persist m.store env (list_all sessions) fs),
        )
  ]

  -- Every session terminated, one behind the other; what the goroutines of a session still do while
  -- CleanupAll waits is `after`.
  unfoldable pub terminate_all :
      Bool
      → (Text → Ending)
      → (Text → List Event)
      → Map Text (Session ring) × Fs
      → Map Text (Session ring) × Fs
  terminate_all force runs after ([], fs) = ([], fs)
  terminate_all force runs after ((id, s) ∷ sessions, fs) =
      let one : Session ring × Fs =
        steps ring (after id) (Sessions.terminate ring force (runs id) (s, fs)) in
      let rest : Map Text (Session ring) × Fs = terminate_all force runs after (sessions, one.1) in
      ((id, one.0) ∷ rest.0, rest.1)

  -- `CleanupAll`. The list that is kept at the end was taken before the sessions were terminated.
  unfoldable pub cleanup_all :
      Bool → (Text → Ending) → (Text → List Event) → Env → Manager ring × Fs → Manager ring × Fs
  cleanup_all force runs after env (m, fs) =
      let captured : List Api.Session = list_all m.sessions in
      let ended : Map Text (Session ring) × Fs = terminate_all force runs after (m.sessions, fs) in
      (record m { sessions = ended.0 }, persist m.store env captured ended.1)
