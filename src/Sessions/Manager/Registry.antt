-- ===== src/Sessions/Manager/Registry.antt =====
-- What the operations of internal/session/manager.go do to the registry and to the kept list.
use interactive_process_mcp.Prelude.{
  Text, ◌≡◌, refl, Bool, true, false, Option, some, List, [], ◌∷◌, map, if◌then◌else◌, text_eq,
  ◌==◌, inl, inr, Option-cases, All, if_cases, text_eqb_iff,
}
use interactive_process_mcp.Prelude.Assoc.{Map, get, put, get-put, get-remove}
use interactive_process_mcp.Api
use interactive_process_mcp.Api.Sessions.{valid_session}
use interactive_process_mcp.Storage
use interactive_process_mcp.Storage.{Fs, Env, sessions_path, save_sessions, load_sessions}
use interactive_process_mcp.Storage.Atomic.{is_ok}
use interactive_process_mcp.Storage.RoundTrip.{load-save_sessions}
use interactive_process_mcp.Buffer.Queue.{Ring}
use interactive_process_mcp.Sessions.{Config, Session, Event, Start, Ending, ok, is_running, new}
use interactive_process_mcp.Sessions.Lifecycle.Terminate.{terminate-IsExited}
use interactive_process_mcp.Sessions.Lifecycle.States.{IsConsistent, IsExited}
use interactive_process_mcp.Sessions.Lifecycle.Steps.{steps-IsExited}
use interactive_process_mcp.Sessions.Manager.{
  Manager, DeleteResult, still_running, list_all, persist, add, create, delete, terminate_all,
  cleanup_all,
}

module _ (ring : Ring) where
  -- Delete refuses a running session and leaves everything as it was; no call of it, whatever its
  -- argument, removes a session that is running.
  pub delete_keeps :
      (id : Text) (env : Env) (m : Manager ring) (fs : Fs) (j : Text) (s : Session ring)
      → get j m.sessions ≡ some s
      → is_running ring s ≡ true
      → (get j (delete ring id env (m, fs)).1.0.sessions ≡ some s)
        × (delete ring j env (m, fs) ≡ (still_running j, (m, fs)))
  unfolding delete
  delete_keeps id env m fs j s there live = (
    elim (Option-cases (get id m.sessions)) [
      | inl gone ↦ rw (gone, delete) there
      | inr (t, found) ↦
          rw (found, delete)
            (if_cases (λ (r : DeleteResult × (Manager ring × Fs)). get j r.1.0.sessions ≡ some s)
              (is_running ring t) (λ _. there)
              λ ended. rw get-remove (
                if_cases (λ (r : Option (Session ring)). r ≡ some s) (id == j)
                  (λ same. let e : id ≡ j = (text_eqb_iff id j).0 same in cc) (λ _. there)))
    ],
    rw (there, delete) (rw live refl),
  )

  loaded :
      (root : Text) (env : Env) (list : List Api.Session) (fs : Fs) (store : Option Text)
      → store ≡ some root
      → (env.temp == sessions_path root) ≡ false
      → is_ok (save_sessions root env list fs).0 ≡ true
      → load_sessions root true (persist ring store env list fs)
        ≡ Storage.ok (map valid_session list)
  unfolding persist
  loaded root env list fs store e apart done = rw e (load-save_sessions root env fs list apart done)

  -- CleanupAll keeps the list that it took before it terminated the sessions: whatever they have
  -- become, if there is a store and its write succeeds beside the temporary file, the list that is
  -- loaded afterwards is the one from before, texts made valid UTF-8, a session that ran then
  -- included.
  pub cleanup_all_stale :
      (force : Bool) (runs : Text → Ending) (after : Text → List Event) (env : Env)
      (m : Manager ring) (fs : Fs) (root : Text)
      → m.store ≡ some root
      → (env.temp == sessions_path root) ≡ false
      → is_ok
          (save_sessions root env
            (list_all ring m.sessions)
            (terminate_all ring force runs after (m.sessions, fs)).1).0
        ≡ true
      → load_sessions root true (cleanup_all ring force runs after env (m, fs)).1
        ≡ Storage.ok (map valid_session (list_all ring m.sessions))
  unfolding cleanup_all
  cleanup_all_stale force runs after env m fs root stored apart done =
      loaded root env _ _ m.store stored apart done

  terminate_all-IsExited :
      (runs : Text → Ending) (after : Text → List Event) (sessions : Map Text (Session ring))
      (fs : Fs)
      → All
          (λ (e : Text × Session ring). IsConsistent ring e.1 × (e.1.terminate_once ≡ false))
          sessions
      → All
          (λ (e : Text × Session ring). IsExited ring e.1)
          (terminate_all ring true runs after (sessions, fs)).0
  unfolding terminate_all
  terminate_all-IsExited runs after [] fs h = tt
  terminate_all-IsExited runs after ((id, s) ∷ sessions) fs ((consistent, first), h) = (
    (steps-IsExited ring (after id) _
        (terminate-IsExited ring true (runs id) (s, fs) consistent first (inl refl))).0,
    terminate_all-IsExited runs after sessions _ h,
  )

  -- If every session has status, exit code and buffer that agree and has not been terminated
  -- before, a forced CleanupAll leaves every session exited, whatever the goroutines do in
  -- between.
  pub cleanup_all-IsExited :
      (runs : Text → Ending) (after : Text → List Event) (env : Env) (m : Manager ring) (fs : Fs)
      → All
          (λ (e : Text × Session ring). IsConsistent ring e.1 × (e.1.terminate_once ≡ false))
          m.sessions
      → All
          (λ (e : Text × Session ring). IsExited ring e.1)
          (cleanup_all ring true runs after env (m, fs)).0.sessions
  unfolding cleanup_all
  cleanup_all-IsExited runs after env m fs h = terminate_all-IsExited runs after m.sessions fs h

  -- A session that Create returns is found under its ID, beside the sessions that were there; if
  -- there is a store and its write succeeds beside the temporary file, the list that is loaded
  -- afterwards is that of the registry with it, texts made valid UTF-8.
  pub create_lem :
      (cfg : Config) (start : Start) (env : Env) (m : Manager ring) (fs : Fs) (root : Text)
      (s : Session ring) (started : Fs)
      → m.store ≡ some root
      → new ring cfg m.msg_mgr start fs ≡ (ok s, started)
      → (env.temp == sessions_path root) ≡ false
      → let sessions : Map Text (Session ring) = put s.info.id s m.sessions in
        is_ok (save_sessions root env (list_all ring sessions) started).0 ≡ true
        → ((j : Text)
            → get j (create ring cfg start env (m, fs)).1.0.sessions
              ≡ (if s.info.id == j then some s else get j m.sessions))
          × (load_sessions root true (create ring cfg start env (m, fs)).1.1
              ≡ Storage.ok (map valid_session (list_all ring sessions)))
  unfolding create add
  create_lem cfg start env m fs root s started stored made apart done =
      rw made (λ j. get-put s.info.id j s m.sessions, loaded root env _ _ m.store stored apart done)
