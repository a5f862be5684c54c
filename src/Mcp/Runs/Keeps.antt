-- ===== src/Mcp/Runs/Keeps.antt =====
-- A property that the operations of a session carry on, over the sessions of the registry: the handlers of
-- internal/mcp/handlers.go that act at once.
use interactive_process_mcp.Prelude.{
  ℤ, Text, bytes, ◌≡◌, refl, Bool, false, ◌||◌, Option, none, some, List, [], if_cases, text_eq,
  Option-cases, inl, inr, pos,
}
use interactive_process_mcp.Prelude.Assoc.{get, put, Every, put-Every, remove-Every}
use interactive_process_mcp.Strings.{is_empty}
use interactive_process_mcp.Storage.{Fs, Env}
use interactive_process_mcp.Buffer.Queue.{Ring}
use interactive_process_mcp.Sessions.{
  Session, Event, Ending, is_running, sends, resizes, registers, unregisters, step, steps,
}
use interactive_process_mcp.Sessions.Lifecycle.Advance.{
  Advances, stays, step-Advances, steps-Advances, terminate-Advances,
}
use interactive_process_mcp.Sessions.Manager.{
  Manager, DeleteResult, delete, terminate, put_back, cleanup_all,
}
use interactive_process_mcp.Mcp.{Floats, Args, get_bool, get_string, get_int}
use interactive_process_mcp.Mcp.Handlers.{
  Reply, World, State, session_id, grace_of, send_act, resize_act, register_act, unregister_act,
  info_act, on_session, handle_send_input, handle_resize_pty, handle_register_reader,
  handle_unregister_reader, handle_get_session_info, handle_terminate_process,
  handle_delete_session,
}
use interactive_process_mcp.Mcp.Runs.Advance.{terminate_all-Advances}

module _ (floats : Floats) (ring : Ring) (Q : Text → Session ring → Type 0)
    (carry : (id : Text) (s t : Session ring) → Q id s → Advances ring s t → Q id t) where
  abbrev pub Holds : Manager ring → Type 0
  Holds m = Every Q m.sessions

  pub put-Holds :
      (id : Text) (s t : Session ring) (m : Manager ring)
      → Holds m
      → get id m.sessions ≡ some s
      → Advances ring s t
      → Every Q (put id t m.sessions)
  put-Holds id s t m h there a = put-Every Q id t m.sessions h (carry id s t (h id s there) a)

  -- The manager of what a handler leaves.
  abbrev pub HoldsBy : Option (Reply × State ring) → Type 0
  HoldsBy none = Unit
  HoldsBy (some (reply, st)) = Holds st.0

  pub on_session-Holds :
      (id : Text) (act : Session ring × Fs → Reply × (Session ring × Fs)) (m : Manager ring)
      (fs : Fs)
      → ((st : Session ring × Fs) → Advances ring st.0 (act st).1.0)
      → Holds m
      → Holds (on_session floats ring id act (m, fs)).1.0
  unfolding on_session
  on_session-Holds id act m fs a h = elim (Option-cases (get id m.sessions)) [
    | inl gone ↦ rw (gone, on_session) h
    | inr (s, there) ↦ rw (there, on_session) (put-Holds id s _ m h there (a (s, fs)))
  ]

  pub send_input-Holds :
      (args : Args floats) (w : World) (m : Manager ring) (fs : Fs)
      → Holds m
      → Holds (handle_send_input floats ring args w (m, fs)).1.0
  unfolding handle_send_input step
  send_input-Holds args w m fs h =
      let text : Text = get_string floats args (bytes "text") [] in
      let press_enter : Bool = get_bool floats args (bytes "press_enter") false in
      on_session-Holds (session_id floats ring args) (send_act floats ring text press_enter w) m fs
        (λ st. step-Advances ring (sends text press_enter w.cut w.call) st) h

  pub resize_pty-Holds :
      (args : Args floats) (w : World) (m : Manager ring) (fs : Fs)
      → Holds m
      → Holds (handle_resize_pty floats ring args w (m, fs)).1.0
  unfolding handle_resize_pty step
  resize_pty-Holds args w m fs h =
      let rows : ℤ = get_int floats args (bytes "rows") (pos 24) in
      let cols : ℤ = get_int floats args (bytes "cols") (pos 80) in
      on_session-Holds (session_id floats ring args) (resize_act floats ring rows cols w) m fs
        (λ st. step-Advances ring (resizes rows cols w.resize_ok) st) h

  pub register_reader-Holds :
      (args : Args floats) (m : Manager ring) (fs : Fs)
      → Holds m
      → Holds (handle_register_reader floats ring args (m, fs)).1.0
  unfolding handle_register_reader step
  register_reader-Holds args m fs h =
      on_session-Holds (session_id floats ring args) (register_act floats ring) m fs
        (λ st. step-Advances ring registers st) h

  pub unregister_reader-Holds :
      (args : Args floats) (m : Manager ring) (fs : Fs)
      → Holds m
      → Holds (handle_unregister_reader floats ring args (m, fs)).1.0
  unfolding handle_unregister_reader step
  unregister_reader-Holds args m fs h =
      let reader : ℤ = get_int floats args (bytes "reader_id") (pos 0) in
      on_session-Holds (session_id floats ring args) (unregister_act floats ring reader) m fs
        (λ st. step-Advances ring (unregisters reader) st) h

  pub get_session_info-Holds :
      (args : Args floats) (m : Manager ring) (fs : Fs)
      → Holds m
      → Holds (handle_get_session_info floats ring args (m, fs)).1.0
  unfolding handle_get_session_info
  get_session_info-Holds args m fs h =
      on_session-Holds (session_id floats ring args) (info_act floats ring) m fs
        (λ st. stays ring st.0 st.0 refl refl) h

  terminate-Holds :
      (id : Text) (force : Bool) (end' : Ending) (env : Env) (m : Manager ring) (fs : Fs)
      → Holds m
      → Holds (terminate ring id force end' env (m, fs)).0
  unfolding terminate put_back
  terminate-Holds id force end' env m fs h = elim (Option-cases (get id m.sessions)) [
    | inl gone ↦ rw (gone, terminate) h
    | inr (s, there) ↦
        rw (there, terminate)
          (put-Holds id s _ m h there (terminate-Advances ring force end' (s, fs)))
  ]

  pub terminate_process-Holds :
      (args : Args floats) (w : World) (m : Manager ring) (fs : Fs)
      → Holds m
      → Holds (handle_terminate_process floats ring args w (m, fs)).1.0
  unfolding handle_terminate_process
  terminate_process-Holds args w m fs h =
      if_cases (λ (r : Reply × State ring). Holds r.1.0)
        (floats.less (grace_of floats ring args) (floats.of_int (pos 0))
          || floats.less (floats.of_int (pos 60)) (grace_of floats ring args))
        (λ _. h)
        λ _. elim (Option-cases (get (session_id floats ring args) m.sessions)) [
          | inl gone ↦ rw gone h
          | inr (s, there) ↦ rw there (terminate-Holds _ _ _ _ m fs h)
        ]

  delete-Holds :
      (id : Text) (env : Env) (m : Manager ring) (fs : Fs)
      → Holds m
      → Holds (delete ring id env (m, fs)).1.0
  unfolding delete
  delete-Holds id env m fs h = elim (Option-cases (get id m.sessions)) [
    | inl gone ↦ rw (gone, delete) h
    | inr (s, there) ↦
        rw (there, delete)
          (if_cases (λ (r : DeleteResult × State ring). Holds r.1.0) (is_running ring s) (λ _. h)
            λ _. remove-Every Q id m.sessions h)
  ]

  pub delete_session-Holds :
      (args : Args floats) (w : World) (m : Manager ring) (fs : Fs)
      → Holds m
      → Holds (handle_delete_session floats ring args w (m, fs)).1.0
  unfolding handle_delete_session
  delete_session-Holds args w m fs h =
      if_cases (λ (r : Reply × State ring). Holds r.1.0) (is_empty (session_id floats ring args))
        (λ _. h) λ _. delete-Holds _ _ m fs h

  pub acts-Holds :
      (id : Text) (events : List Event) (m : Manager ring) (fs : Fs) (s : Session ring)
      → Holds m
      → get id m.sessions ≡ some s
      → Every Q (put id (steps ring events (s, fs)).0 m.sessions)
  acts-Holds id events m fs s h there =
      put-Holds id s _ m h there (steps-Advances ring events (s, fs))

  pub cleanup_all-Holds :
      (force : Bool) (runs : Text → Ending) (later : Text → List Event) (env : Env)
      (m : Manager ring) (fs : Fs)
      → Holds m
      → Holds (cleanup_all ring force runs later env (m, fs)).0
  unfolding cleanup_all
  cleanup_all-Holds force runs later env m fs h j t found =
      let (s, there, a) = terminate_all-Advances ring force runs later m.sessions fs j t found in
      carry j s t (h j s there) a
