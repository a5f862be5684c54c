-- ===== src/Mcp/Runs/History.antt =====
-- What the handlers of internal/mcp/handlers.go do to the message indexes of the store.
use interactive_process_mcp.Prelude.{
  ℤ, Text, bytes, Bool, false, ◌||◌, Option, none, some, [], All, if_cases, text_eq, Option-cases,
  inl, inr, pos,
}
use interactive_process_mcp.Prelude.Assoc.{get}
use interactive_process_mcp.Strings.{is_empty}
use interactive_process_mcp.Storage.{Fs}
use interactive_process_mcp.Storage.Log.{IsApart}
use interactive_process_mcp.Messages.Log.{Fits}
use interactive_process_mcp.Messages.Growth.{Grows, Grows-refl}
use interactive_process_mcp.Buffer.Queue.{Ring}
use interactive_process_mcp.Sessions.{Session, resizes, registers, unregisters, step}
use interactive_process_mcp.Sessions.History.{
  EventFits, Goes, step-Goes, send_input-Goes, EndingFits, StartFits,
}
use interactive_process_mcp.Sessions.Manager.{Manager}
use interactive_process_mcp.Sessions.Manager.History.{
  IsKept, Flows, get-IsMine, put-IsKept, terminate-Flows, delete-Flows,
}
use interactive_process_mcp.Mcp.{Floats, Args, get_bool, get_string, get_int}
use interactive_process_mcp.Mcp.Handlers.{
  Reply, World, State, session_id, grace_of, send_act, resize_act, register_act, unregister_act,
  info_act, on_session, handle_send_input, handle_resize_pty, handle_register_reader,
  handle_unregister_reader, handle_get_session_info, handle_terminate_process,
  handle_delete_session,
}

module _ (root : Text) (floats : Floats) (ring : Ring) where
  -- What a call meets fits wherever it keeps a message or the list of sessions.
  pub record WorldFits (w : World) : Type 0 where
    pub call : Fits root w.call
    pub read_call : Fits root w.read_call
    pub ending : EndingFits root ring w.ending
    pub env : IsApart root w.env
    pub start : StartFits root ring w.start
    pub meanwhile : All (EventFits root) w.meanwhile

  -- What a handler leaves, if it returns.
  abbrev pub FlowsIf : State ring → Option (Reply × State ring) → Type 0
  FlowsIf st none = Unit
  FlowsIf st (some r) = IsKept root ring r.1.0 × Grows root st.1 r.1.1

  on_session-Flows :
      (id : Text) (act : Session ring × Fs → Reply × (Session ring × Fs)) (m : Manager ring)
      (fs : Fs)
      → ((st : Session ring × Fs) → Goes root ring st (act st).1)
      → Flows root ring (m, fs) (on_session floats ring id act (m, fs)).1
  unfolding on_session
  on_session-Flows id act m fs goes h = elim (Option-cases (get id m.sessions)) [
    | inl gone ↦ rw (gone, on_session) (h, Grows-refl root fs)
    | inr (s, there) ↦
        let (mine, grown) = goes (s, fs) (get-IsMine root ring id s m h there) in
        rw (there, on_session) (put-IsKept root ring id _ m h mine, grown)
  ]

  pub send_input-Flows :
      (args : Args floats) (w : World) (m : Manager ring) (fs : Fs)
      → WorldFits w
      → Flows root ring (m, fs) (handle_send_input floats ring args w (m, fs)).1
  unfolding handle_send_input
  send_input-Flows args w m fs fits =
      let text : Text = get_string floats args (bytes "text") [] in
      let press_enter : Bool = get_bool floats args (bytes "press_enter") false in
      on_session-Flows (session_id floats ring args) (send_act floats ring text press_enter w) m fs
        λ st. send_input-Goes root ring text press_enter w.cut w.call st fits.call

  pub resize_pty-Flows :
      (args : Args floats) (w : World) (m : Manager ring) (fs : Fs)
      → Flows root ring (m, fs) (handle_resize_pty floats ring args w (m, fs)).1
  unfolding handle_resize_pty step
  resize_pty-Flows args w m fs =
      let rows : ℤ = get_int floats args (bytes "rows") (pos 24) in
      let cols : ℤ = get_int floats args (bytes "cols") (pos 80) in
      on_session-Flows (session_id floats ring args) (resize_act floats ring rows cols w) m fs
        λ st. step-Goes root ring (resizes rows cols w.resize_ok) st tt

  pub register_reader-Flows :
      (args : Args floats) (m : Manager ring) (fs : Fs)
      → Flows root ring (m, fs) (handle_register_reader floats ring args (m, fs)).1
  unfolding handle_register_reader step
  register_reader-Flows args m fs =
      on_session-Flows (session_id floats ring args) (register_act floats ring) m fs
        λ st. step-Goes root ring registers st tt

  pub unregister_reader-Flows :
      (args : Args floats) (m : Manager ring) (fs : Fs)
      → Flows root ring (m, fs) (handle_unregister_reader floats ring args (m, fs)).1
  unfolding handle_unregister_reader step
  unregister_reader-Flows args m fs =
      let reader : ℤ = get_int floats args (bytes "reader_id") (pos 0) in
      on_session-Flows (session_id floats ring args) (unregister_act floats ring reader) m fs
        λ st. step-Goes root ring (unregisters reader) st tt

  pub get_session_info-Flows :
      (args : Args floats) (m : Manager ring) (fs : Fs)
      → Flows root ring (m, fs) (handle_get_session_info floats ring args (m, fs)).1
  unfolding handle_get_session_info
  get_session_info-Flows args m fs =
      on_session-Flows (session_id floats ring args) (info_act floats ring) m fs
        λ st mine. (mine, Grows-refl root st.1)

  pub terminate_process-Flows :
      (args : Args floats) (w : World) (m : Manager ring) (fs : Fs)
      → WorldFits w
      → Flows root ring (m, fs) (handle_terminate_process floats ring args w (m, fs)).1
  unfolding handle_terminate_process
  terminate_process-Flows args w m fs fits h =
      if_cases (λ (r : Reply × State ring). IsKept root ring r.1.0 × Grows root fs r.1.1)
        (floats.less (grace_of floats ring args) (floats.of_int (pos 0))
          || floats.less (floats.of_int (pos 60)) (grace_of floats ring args))
        (λ _. (h, Grows-refl root fs))
        λ _. elim (Option-cases (get (session_id floats ring args) m.sessions)) [
          | inl gone ↦ rw gone (h, Grows-refl root fs)
          | inr (s, there) ↦
              rw there (terminate-Flows root ring _ _ w.ending w.env m fs fits.ending fits.env h)
        ]

  pub delete_session-Flows :
      (args : Args floats) (w : World) (m : Manager ring) (fs : Fs)
      → WorldFits w
      → Flows root ring (m, fs) (handle_delete_session floats ring args w (m, fs)).1
  unfolding handle_delete_session
  delete_session-Flows args w m fs fits h =
      if_cases (λ (r : Reply × State ring). IsKept root ring r.1.0 × Grows root fs r.1.1)
        (is_empty (session_id floats ring args)) (λ _. (h, Grows-refl root fs))
        λ _. delete-Flows root ring (session_id floats ring args) w.env m fs fits.env h
