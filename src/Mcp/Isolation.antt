-- ===== src/Mcp/Isolation.antt =====
-- What a handler of internal/mcp/handlers.go leaves alone.
mod Tests
use interactive_process_mcp.Prelude.{
  ℤ, Text, bytes, ◌≡◌, refl, ◌∙◌, Bool, true, false, not, ◌||◌, Option, none, some, List, [], ◌∷◌,
  if◌then◌else◌, if_cases, text_eq, ◌==◌, Option-cases, inl, inr, pos,
}
use interactive_process_mcp.Prelude.Assoc.{get, put, get-put, get-remove}
use interactive_process_mcp.Strings.{is_empty}
use interactive_process_mcp.Storage.{Fs, Env}
use interactive_process_mcp.Buffer.Queue.{Ring}
use interactive_process_mcp.Sessions
use interactive_process_mcp.Sessions.{Session, Result, ok, err, Ending, is_running}
use interactive_process_mcp.Sessions.Files.{Remote}
use interactive_process_mcp.Sessions.Manager.{Manager, DeleteResult, delete, terminate}
use interactive_process_mcp.Mcp.{Floats, Args, get_bool}
use interactive_process_mcp.Mcp.FileTools.{Library}
use interactive_process_mcp.Mcp.Reads.{
  is_bad_timeout, reader_of, timeout_of, replied, read_session, read_behind, handle_read_output,
  handle_send_and_read,
}
use interactive_process_mcp.Mcp.Tools.{
  Tool, beside, start_process_tool, send_input_tool, read_output_tool, background_send_tool,
  send_and_read_tool, list_sessions_tool, get_session_info_tool, terminate_process_tool,
  delete_session_tool, resize_pty_tool, list_messages_tool, get_message_tool, register_reader_tool,
  unregister_reader_tool, upload_file_tool, download_file_tool, list_files_tool, Whole, call_tool,
}
use interactive_process_mcp.Mcp.Handlers.{
  Reply, success, no_session, World, State, session_id, grace_of, send_act, resize_act,
  register_act, unregister_act, info_act, on_session, handle_send_input, handle_resize_pty,
  handle_register_reader, handle_unregister_reader, handle_get_session_info,
  handle_terminate_process, handle_delete_session,
}

module _ (floats : Floats) (ring : Ring) (j id : Text) (other : (id == j) ≡ false) where
  -- The session `j` is as it was.
  abbrev IsKept : Manager ring × Fs → Manager ring × Fs → Type 0
  IsKept before after = get j after.0.sessions ≡ get j before.0.sessions

  put_kept : (s : Session ring) (m : Manager ring) → get j (put id s m.sessions) ≡ get j m.sessions
  put_kept s m = get-put id j s m.sessions ∙ rw other refl

  on_session-IsKept :
      (act : Session ring × Fs → Reply × (Session ring × Fs)) (st : Manager ring × Fs)
      → IsKept st (on_session floats ring id act st).1
  unfolding on_session
  on_session-IsKept act (m, fs) = elim (Option-cases (get id m.sessions)) [
    | inl gone ↦ rw (gone, on_session) refl
    | inr (s, there) ↦ rw (there, on_session) (put_kept _ m)
  ]

  terminate-IsKept :
      (force : Bool) (run : Ending) (env : Env) (st : Manager ring × Fs)
      → IsKept st (terminate ring id force run env st)
  unfolding terminate
  terminate-IsKept force run env (m, fs) = elim (Option-cases (get id m.sessions)) [
    | inl gone ↦ rw (gone, terminate) refl
    | inr (s, there) ↦ rw (there, terminate) (put_kept _ m)
  ]

  delete-IsKept : (env : Env) (st : Manager ring × Fs) → IsKept st (delete ring id env st).1
  unfolding delete
  delete-IsKept env (m, fs) = elim (Option-cases (get id m.sessions)) [
    | inl gone ↦ rw (gone, delete) refl
    | inr (s, there) ↦
        rw (there, delete)
          (if_cases
            (λ (r : DeleteResult × (Manager ring × Fs)). get j r.1.0.sessions ≡ get j m.sessions)
            (is_running ring s) (λ _. refl) λ _. get-remove id j m.sessions ∙ rw other refl)
  ]

module _ (floats : Floats) (ring : Ring) where
  terminate_process-IsKept :
      (args : Args floats) (w : World) (st : Manager ring × Fs) (j : Text)
      → (session_id floats ring args == j) ≡ false
      → get j (handle_terminate_process floats ring args w st).1.0.sessions ≡ get j st.0.sessions
  unfolding handle_terminate_process
  terminate_process-IsKept args w (m, fs) j other =
      if_cases (λ (r : Reply × (Manager ring × Fs)). get j r.1.0.sessions ≡ get j m.sessions)
        (floats.less (grace_of floats ring args) (floats.of_int (pos 0))
          || floats.less (floats.of_int (pos 60)) (grace_of floats ring args))
        (λ _. refl)
        λ _. elim (Option-cases (get (session_id floats ring args) m.sessions)) [
          | inl gone ↦ rw gone refl
          | inr (s, there) ↦ rw there (terminate-IsKept floats ring j _ other _ _ _ (m, fs))
        ]

  delete_session-IsKept :
      (args : Args floats) (w : World) (st : Manager ring × Fs) (j : Text)
      → (session_id floats ring args == j) ≡ false
      → get j (handle_delete_session floats ring args w st).1.0.sessions ≡ get j st.0.sessions
  unfolding handle_delete_session
  delete_session-IsKept args w (m, fs) j other =
      if_cases (λ (r : Reply × (Manager ring × Fs)). get j r.1.0.sessions ≡ get j m.sessions)
        (is_empty (session_id floats ring args)) (λ _. refl)
        λ _. delete-IsKept floats ring j _ other _ (m, fs)

  -- The session `j` is as it was, if the call has returned.
  abbrev IsKeptBy : Text → Manager ring → Option (Reply × State ring) → Type 0
  IsKeptBy j m none = Unit
  IsKeptBy j m (some (reply, st)) = get j st.0.sessions ≡ get j m.sessions

  replied-IsKeptBy :
      (id : Text) (reader : ℤ) (m : Manager ring) (r : Option (Result Text × (Session ring × Fs)))
      (j : Text)
      → (id == j) ≡ false
      → IsKeptBy j m (replied floats ring id reader m r)
  unfolding replied
  replied-IsKeptBy id reader m none j other = tt
  replied-IsKeptBy id reader m (some (r, (s, fs))) j other = put_kept floats ring j id other s m

  read_output-IsKeptBy :
      (args : Args floats) (w : World) (m : Manager ring) (fs : Fs) (j : Text)
      → (session_id floats ring args == j) ≡ false
      → IsKeptBy j m (handle_read_output floats ring args w (m, fs))
  unfolding handle_read_output read_session
  read_output-IsKeptBy args w m fs j other =
      if_cases (IsKeptBy j m) (is_bad_timeout floats ring args) (λ _. refl)
        λ _. elim (Option-cases (get (session_id floats ring args) m.sessions)) [
          | inl gone ↦ rw gone refl
          | inr (s, there) ↦ rw there (replied-IsKeptBy _ _ m _ j other)
        ]

  read_behind-IsKeptBy :
      (args : Args floats) (w : World) (m : Manager ring)
      (r : Result (Unit {0}) × (Session ring × Fs)) (j : Text)
      → (session_id floats ring args == j) ≡ false
      → IsKeptBy j m (read_behind floats ring args w m r)
  unfolding read_behind read_session
  read_behind-IsKeptBy args w m (err e, (s, fs)) j other = put_kept floats ring j _ other s m
  read_behind-IsKeptBy args w m (ok _, st) j other = replied-IsKeptBy _ _ m _ j other

  send_and_read-IsKeptBy :
      (args : Args floats) (w : World) (m : Manager ring) (fs : Fs) (j : Text)
      → (session_id floats ring args == j) ≡ false
      → IsKeptBy j m (handle_send_and_read floats ring args w (m, fs))
  unfolding handle_send_and_read
  send_and_read-IsKeptBy args w m fs j other =
      if_cases (IsKeptBy j m) (is_bad_timeout floats ring args) (λ _. refl)
        λ _. elim (Option-cases (get (session_id floats ring args) m.sessions)) [
          | inl gone ↦ rw gone refl
          | inr (s, there) ↦ rw there (read_behind-IsKeptBy args w m _ j other)
        ]

module _ (floats : Floats) (ring : Ring) (lib : Library) (root : Text) where
  abbrev pub creates : Tool → Bool
  creates start_process_tool = true
  creates tool = false

  -- The session `j` is the same before a call and behind it, if the call has returned.
  abbrev pub IsUntouched : Text → Whole ring → Option (Reply × Whole ring) → Type 0
  IsUntouched j before none = Unit
  IsUntouched j before (some (reply, after)) = get j after.0.0.sessions ≡ get j before.0.0.sessions

  beside-IsUntouched :
      (j : Text) (m : Manager ring) (fs : Fs) (remote : Remote) (o : Option (Reply × State ring))
      → IsKeptBy floats ring j m o
      → IsUntouched j ((m, fs), remote) (beside floats ring lib root remote o)
  beside-IsUntouched j m fs remote none h = tt
  beside-IsUntouched j m fs remote (some r) h = h

  -- A call of any tool but start_process leaves every session but the one of its `session_id` exactly
  -- as it was.
  pub call_tool-isolated :
      (tool : Tool) (args : Args floats) (w : World) (whole : Whole ring) (j : Text)
      → creates tool ≡ false
      → (session_id floats ring args == j) ≡ false
      → IsUntouched j whole (call_tool floats ring lib root tool args w whole)
  unfolding call_tool handle_send_input handle_resize_pty handle_register_reader
      handle_unregister_reader handle_get_session_info
  call_tool-isolated start_process_tool args w ((m, fs), remote) j h other = cc
  call_tool-isolated send_input_tool args w ((m, fs), remote) j h other =
      on_session-IsKept floats ring j _ other (send_act floats ring _ _ w) (m, fs)
  call_tool-isolated read_output_tool args w ((m, fs), remote) j h other =
      beside-IsUntouched j m fs remote _ (read_output-IsKeptBy floats ring args w m fs j other)
  call_tool-isolated background_send_tool args w ((m, fs), remote) j h other =
      on_session-IsKept floats ring j _ other (send_act floats ring _ _ w) (m, fs)
  call_tool-isolated send_and_read_tool args w ((m, fs), remote) j h other =
      beside-IsUntouched j m fs remote _ (send_and_read-IsKeptBy floats ring args w m fs j other)
  call_tool-isolated get_session_info_tool args w ((m, fs), remote) j h other =
      on_session-IsKept floats ring j _ other (info_act floats ring) (m, fs)
  call_tool-isolated terminate_process_tool args w ((m, fs), remote) j h other =
      terminate_process-IsKept floats ring args w (m, fs) j other
  call_tool-isolated delete_session_tool args w ((m, fs), remote) j h other =
      delete_session-IsKept floats ring args w (m, fs) j other
  call_tool-isolated resize_pty_tool args w ((m, fs), remote) j h other =
      on_session-IsKept floats ring j _ other (resize_act floats ring _ _ w) (m, fs)
  call_tool-isolated register_reader_tool args w ((m, fs), remote) j h other =
      on_session-IsKept floats ring j _ other (register_act floats ring) (m, fs)
  call_tool-isolated unregister_reader_tool args w ((m, fs), remote) j h other =
      on_session-IsKept floats ring j _ other (unregister_act floats ring _) (m, fs)
  call_tool-isolated tool args w ((m, fs), remote) j h other = refl
