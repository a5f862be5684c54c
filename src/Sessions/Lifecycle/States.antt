-- ===== src/Sessions/Lifecycle/States.antt =====
-- The states of a session of internal/session/session.go around its exit, and the steps that are no part of an
-- exit.
use interactive_process_mcp.Prelude.{
  ℕ, ℤ, Text, ◌≡◌, ◌≢◌, refl, int_eq, Bool, true, false, Option, none, some, [], ◌∷◌, arith, ◌⊎◌,
  inl, inr, Option-cases, if_cases, ap,
}
use interactive_process_mcp.Prelude.Assoc.{get}
use interactive_process_mcp.Api
use interactive_process_mcp.Api.{running, exited, error}
use interactive_process_mcp.Storage.{Fs}
use interactive_process_mcp.Messages.{Call}
use interactive_process_mcp.Buffer
use interactive_process_mcp.Buffer.{Buffer, write, new_reader, unregister, close, apply}
use interactive_process_mcp.Buffer.Queue.{Ring}
use interactive_process_mcp.Sessions.{
  nothing_left, to_close, Session, Event, outputs, finds_done, exits, gives_up, closes_buffer,
  records_exit, resizes, sends, registers, unregisters, drains, sftp_ends, Pipe, stdout_pipe,
  stderr_pipe, pump, send_input, resize_pty, step,
}

module _ (ring : Ring) where
  -- No exit yet.
  pub record IsOpen (s : Session ring) : Type 0 where
    pub status_is : s.info.status ≡ running
    pub code_is : s.info.exit_code ≡ none
    pub closed_is : s.buf.closed ≡ false
    pub once_is : s.exit_once ≡ false
    pub left_is : s.exit_left ≡ nothing_left

  -- The exit has been decided, the buffer is not closed yet, but is left to be.
  pub record IsExiting (s : Session ring) : Type 0 where
    pub status_is : s.info.status ≡ exited
    pub code_is : s.info.exit_code ≢ none
    pub closed_is : s.buf.closed ≡ false
    pub once_is : s.exit_once ≡ true
    pub left_is : (content : Text) × (s.exit_left ≡ to_close content)

  pub record IsExited (s : Session ring) : Type 0 where
    pub status_is : s.info.status ≡ exited
    pub code_is : s.info.exit_code ≢ none
    pub closed_is : s.buf.closed ≡ true
    pub once_is : s.exit_once ≡ true

  abbrev pub IsConsistent : Session ring → Type 0
  IsConsistent s = IsOpen s ⊎ (IsExiting s ⊎ IsExited s)

  -- Exited, its buffer closed or about to be.
  abbrev pub IsDecided : Session ring → Type 0
  IsDecided s = IsExiting s ⊎ IsExited s

  write-closed : (p : Text) (b : Buffer ring) → (write ring p b).1.closed ≡ b.closed
  unfolding write
  write-closed [] b = refl
  write-closed (c ∷ p) b = ground arith

  pub new_reader-closed : (b : Buffer ring) → (new_reader ring b).1.closed ≡ b.closed
  unfolding new_reader
  new_reader-closed b = ground arith

  drains-closed : (id : ℤ) (b : Buffer ring) → (apply ring (Buffer.drains id) b).closed ≡ b.closed
  unfolding apply
  drains-closed id b = elim (Option-cases (get id b.readers)) [
    | inl e ↦ rw (e, apply) refl
    | inr (rb, e) ↦ rw (e, apply) refl
  ]

  -- What a step that is not the exit does to a session.
  pub record IsSame (s t : Session ring) : Type 0 where
    pub status_same : t.info.status ≡ s.info.status
    pub code_same : t.info.exit_code ≡ s.info.exit_code
    pub closed_same : t.buf.closed ≡ s.buf.closed
    pub once_same : t.exit_once ≡ s.exit_once
    pub left_same : t.exit_left ≡ s.exit_left
    pub info_same : s.info.status ≡ exited → t.info ≡ s.info

  pub kept :
      (s t : Session ring)
      → t.info ≡ s.info
      → t.buf.closed ≡ s.buf.closed
      → t.exit_once ≡ s.exit_once
      → t.exit_left ≡ s.exit_left
      → IsSame s t
  kept s t info closed once left = record {
    status_same = ap (λ (i : Api.Session). i.status) info;
    code_same = ap (λ (i : Api.Session). i.exit_code) info;
    closed_same = closed;
    once_same = once;
    left_same = left;
    info_same = λ _. info;
  }

  pub pump_same :
      (pipe : Pipe) (p : Text) (failed : Bool) (s : Session ring)
      → IsSame s (pump ring pipe p failed s)
  unfolding pump
  pump_same stdout_pipe p failed s =
      if_cases (λ (t : Session ring). IsSame s t) s.stdout
        (λ _. kept _ _ refl (write-closed p s.buf) refl refl) (λ _. kept _ _ refl refl refl refl)
  pump_same stderr_pipe p failed s =
      if_cases (λ (t : Session ring). IsSame s t) s.stderr
        (λ _. kept _ _ refl (write-closed p s.buf) refl refl) (λ _. kept _ _ refl refl refl refl)

  pub resize_same :
      (rows cols : ℤ) (resize_ok : Bool) (s : Session ring)
      → IsSame s (resize_pty ring rows cols resize_ok s).1
  unfolding resize_pty
  resize_same rows cols resize_ok s = record {
    status_same = ground arith;
    code_same = ground arith;
    closed_same = ground arith;
    once_same = ground arith;
    left_same = ground arith;
    info_same = λ e. ground (arith, e);
  }

  pub send_same :
      (text : Text) (press_enter : Bool) (cut : Option ℕ) (call : Call) (st : Session ring × Fs)
      → IsSame st.0 (send_input ring text press_enter cut call st).1.0
  unfolding send_input
  send_same text press_enter none call (s, fs) =
      kept _ _ (ground arith) (ground arith) (ground arith) (ground arith)
  send_same text press_enter (some n) call (s, fs) =
      kept _ _ (ground arith) (ground arith) (ground arith) (ground arith)

  unfoldable pub is_exit : Event → Bool
  is_exit (exits code now) = true
  is_exit (gives_up now) = true
  is_exit closes_buffer = true
  is_exit (records_exit call) = true
  is_exit e = false

  pub step_same :
      (e : Event) (st : Session ring × Fs) → is_exit e ≡ false → IsSame st.0 (step ring e st).0
  unfolding step is_exit unregister
  step_same (outputs pipe p failed) (s, fs) h = pump_same pipe p failed s
  step_same finds_done (s, fs) h = kept _ _ refl refl refl refl
  step_same (exits code now) (s, fs) h = cc
  step_same (gives_up now) (s, fs) h = cc
  step_same closes_buffer (s, fs) h = cc
  step_same (records_exit call) (s, fs) h = cc
  step_same (resizes rows cols resize_ok) (s, fs) h = resize_same rows cols resize_ok s
  step_same (sends text press_enter cut call) st h = send_same text press_enter cut call st
  step_same registers (s, fs) h = kept _ _ refl (new_reader-closed s.buf) refl refl
  step_same (unregisters id) (s, fs) h = kept _ _ refl refl refl refl
  step_same (drains id) (s, fs) h = kept _ _ refl (drains-closed id s.buf) refl refl
  step_same sftp_ends (s, fs) h = kept _ _ refl refl refl refl
