-- ===== src/Sessions/Lifecycle/Steps.antt =====
-- The exit of a session of internal/session/session.go among the steps of the others.
use interactive_process_mcp.Prelude.{
  ℕ, ℤ, Text, ◌≡◌, refl, sym, ◌∙◌, int_eq, true, some, List, [], ◌∷◌, inl, inr, ap,
}
use interactive_process_mcp.Storage.{Fs}
use interactive_process_mcp.Messages.{Call}
use interactive_process_mcp.Buffer.{close}
use interactive_process_mcp.Buffer.Queue.{Ring}
use interactive_process_mcp.Sessions.{
  ExitLeft, nothing_left, to_close, to_record, Session, Event, exits, gives_up, closes_buffer,
  records_exit, exit_with, exit, give_up, closed_by, close_buffer, recorded_by, record_exit, step,
  steps,
}
use interactive_process_mcp.Sessions.Lifecycle.States.{
  IsOpen, IsExiting, IsExited, IsConsistent, IsDecided, IsSame, is_exit, step_same,
}

module _ (ring : Ring) where
  pub IsOpen-same : (s t : Session ring) → IsSame ring s t → IsOpen ring s → IsOpen ring t
  IsOpen-same s t same h = record {
    status_is = same.status_same ∙ h.status_is;
    code_is = same.code_same ∙ h.code_is;
    closed_is = same.closed_same ∙ h.closed_is;
    once_is = same.once_same ∙ h.once_is;
    left_is = same.left_same ∙ h.left_is;
  }

  IsExiting-same : (s t : Session ring) → IsSame ring s t → IsExiting ring s → IsExiting ring t
  IsExiting-same s t same h = record {
    status_is = same.status_same ∙ h.status_is;
    code_is = λ e. h.code_is (sym same.code_same ∙ e);
    closed_is = same.closed_same ∙ h.closed_is;
    once_is = same.once_same ∙ h.once_is;
    left_is = (h.left_is.0, same.left_same ∙ h.left_is.1);
  }

  IsExited-same : (s t : Session ring) → IsSame ring s t → IsExited ring s → IsExited ring t
  IsExited-same s t same h = record {
    status_is = same.status_same ∙ h.status_is;
    code_is = λ e. h.code_is (sym same.code_same ∙ e);
    closed_is = same.closed_same ∙ h.closed_is;
    once_is = same.once_same ∙ h.once_is;
  }

  IsDecided-same : (s t : Session ring) → IsSame ring s t → IsDecided ring s → IsDecided ring t
  IsDecided-same s t same (inl h) = inl (IsExiting-same s t same h)
  IsDecided-same s t same (inr h) = inr (IsExited-same s t same h)

  pub IsConsistent-same :
      (s t : Session ring) → IsSame ring s t → IsConsistent ring s → IsConsistent ring t
  IsConsistent-same s t same (inl h) = inl (IsOpen-same s t same h)
  IsConsistent-same s t same (inr h) = inr (IsDecided-same s t same h)

  -- Before the exit, the body of the guard decides it, with its code.
  pub exit_with_open :
      (code : ℤ) (content : Text) (now : ℕ) (s : Session ring)
      → IsOpen ring s
      → IsExiting ring (exit_with ring code content now s)
        × ((exit_with ring code content now s).info.exit_code ≡ some code)
  unfolding exit_with
  exit_with_open code content now s h = rw (h.once_is) (
    record {
      status_is = refl;
      code_is = λ e. cc;
      closed_is = h.closed_is;
      once_is = refl;
      left_is = (content, refl);
    },
    refl,
  )

  exit_with_begun :
      (code : ℤ) (content : Text) (now : ℕ) (s : Session ring)
      → s.exit_once ≡ true
      → exit_with ring code content now s ≡ s
  unfolding exit_with
  exit_with_begun code content now s h = rw h refl

  pub exit-IsDecided :
      (code : ℤ) (content : Text) (now : ℕ) (s : Session ring)
      → IsConsistent ring s
      → IsDecided ring (exit_with ring code content now s)
  exit-IsDecided code content now s (inl h) = inl (exit_with_open code content now s h).0
  exit-IsDecided code content now s (inr (inl h)) =
      rw (exit_with_begun code content now s h.once_is) (inl h)
  exit-IsDecided code content now s (inr (inr h)) =
      rw (exit_with_begun code content now s h.once_is) (inr h)

  closed_by_same :
      (l : ExitLeft) (s : Session ring)
      → IsExited ring s
      → IsExited ring (closed_by ring l s) × ((closed_by ring l s).info ≡ s.info)
  unfolding closed_by close
  closed_by_same nothing_left s h = (h, refl)
  closed_by_same (to_close content) s h = (
    record { status_is = h.status_is; code_is = h.code_is; closed_is = refl; once_is = h.once_is },
    refl,
  )
  closed_by_same (to_record content) s h = (h, refl)

  -- The close ends the exit that was decided.
  pub close_buffer-IsExited :
      (s : Session ring)
      → IsDecided ring s
      → IsExited ring (close_buffer ring s) × ((close_buffer ring s).info ≡ s.info)
  unfolding close_buffer closed_by close
  close_buffer-IsExited s (inl h) = rw (h.left_is.1) (
    record { status_is = h.status_is; code_is = h.code_is; closed_is = refl; once_is = h.once_is },
    refl,
  )
  close_buffer-IsExited s (inr h) = closed_by_same s.exit_left s h

  close_buffer_open : (s : Session ring) → IsOpen ring s → close_buffer ring s ≡ s
  unfolding close_buffer closed_by
  close_buffer_open s h = ap (λ l. closed_by ring l s) h.left_is

  record_exit_open :
      (call : Call) (s : Session ring) (fs : Fs)
      → IsOpen ring s
      → record_exit ring call (s, fs) ≡ (s, fs)
  unfolding record_exit recorded_by
  record_exit_open call s fs h = ap (λ l. recorded_by ring l call (s, fs)) h.left_is

  record_exit_exiting :
      (call : Call) (s : Session ring) (fs : Fs)
      → IsExiting ring s
      → record_exit ring call (s, fs) ≡ (s, fs)
  unfolding record_exit recorded_by
  record_exit_exiting call s fs h = ap (λ l. recorded_by ring l call (s, fs)) h.left_is.1

  recorded_by-IsExited :
      (l : ExitLeft) (call : Call) (s : Session ring) (fs : Fs)
      → IsExited ring s
      → IsExited ring (recorded_by ring l call (s, fs)).0
        × ((recorded_by ring l call (s, fs)).0.info ≡ s.info)
  unfolding recorded_by
  recorded_by-IsExited nothing_left call s fs h = (h, refl)
  recorded_by-IsExited (to_close content) call s fs h = (h, refl)
  recorded_by-IsExited (to_record content) call s fs h = (
    record {
      status_is = h.status_is;
      code_is = h.code_is;
      closed_is = h.closed_is;
      once_is = h.once_is;
    },
    refl,
  )

  pub record_exit-IsExited :
      (call : Call) (st : Session ring × Fs)
      → IsExited ring st.0
      → IsExited ring (record_exit ring call st).0 × ((record_exit ring call st).0.info ≡ st.0.info)
  unfolding record_exit
  record_exit-IsExited call (s, fs) h = recorded_by-IsExited s.exit_left call s fs h

  pub step-IsExited :
      (e : Event) (st : Session ring × Fs)
      → IsExited ring st.0
      → IsExited ring (step ring e st).0 × ((step ring e st).0.info ≡ st.0.info)
  unfolding step exit give_up is_exit
  step-IsExited (exits code now) (s, fs) h = rw (exit_with_begun code _ now s h.once_is) (h, refl)
  step-IsExited (gives_up now) (s, fs) h = rw (exit_with_begun _ _ now s h.once_is) (h, refl)
  step-IsExited closes_buffer (s, fs) h = close_buffer-IsExited s (inr h)
  step-IsExited (records_exit call) st h = record_exit-IsExited call st h
  step-IsExited e st h =
      let same : IsSame ring st.0 (step ring e st).0 = step_same ring e st refl in
      (IsExited-same _ _ same h, same.info_same h.status_is)

  step-IsExiting :
      (e : Event) (st : Session ring × Fs)
      → IsExiting ring st.0
      → IsDecided ring (step ring e st).0 × ((step ring e st).0.info ≡ st.0.info)
  unfolding step exit give_up is_exit
  step-IsExiting (exits code now) (s, fs) h =
      rw (exit_with_begun code _ now s h.once_is) (inl h, refl)
  step-IsExiting (gives_up now) (s, fs) h = rw (exit_with_begun _ _ now s h.once_is) (inl h, refl)
  step-IsExiting closes_buffer (s, fs) h =
      let (closed, same) = close_buffer-IsExited s (inl h) in (inr closed, same)
  step-IsExiting (records_exit call) (s, fs) h = rw (record_exit_exiting call s fs h) (inl h, refl)
  step-IsExiting e st h =
      let same : IsSame ring st.0 (step ring e st).0 = step_same ring e st refl in
      (inl (IsExiting-same _ _ same h), same.info_same h.status_is)

  step-IsDecided :
      (e : Event) (st : Session ring × Fs)
      → IsDecided ring st.0
      → IsDecided ring (step ring e st).0 × ((step ring e st).0.info ≡ st.0.info)
  step-IsDecided e st (inl h) = step-IsExiting e st h
  step-IsDecided e st (inr h) = let (next, same) = step-IsExited e st h in (inr next, same)

  step-IsConsistent :
      (e : Event) (st : Session ring × Fs)
      → IsConsistent ring st.0
      → IsConsistent ring (step ring e st).0
  unfolding step exit give_up is_exit
  step-IsConsistent e st (inr h) = inr (step-IsDecided e st h).0
  step-IsConsistent (exits code now) (s, fs) (inl h) = inr (exit-IsDecided code _ now s (inl h))
  step-IsConsistent (gives_up now) (s, fs) (inl h) = inr (exit-IsDecided _ _ now s (inl h))
  step-IsConsistent closes_buffer (s, fs) (inl h) = rw (close_buffer_open s h) (inl h)
  step-IsConsistent (records_exit call) (s, fs) (inl h) = rw (record_exit_open call s fs h) (inl h)
  step-IsConsistent e st (inl h) = inl (IsOpen-same _ _ (step_same ring e st refl) h)

  pub steps-IsConsistent :
      (events : List Event) (st : Session ring × Fs)
      → IsConsistent ring st.0
      → IsConsistent ring (steps ring events st).0
  unfolding steps
  steps-IsConsistent [] st h = h
  steps-IsConsistent (e ∷ events) st h =
      steps-IsConsistent events (step ring e st) (step-IsConsistent e st h)

  pub steps-IsDecided :
      (events : List Event) (st : Session ring × Fs)
      → IsDecided ring st.0
      → IsDecided ring (steps ring events st).0 × ((steps ring events st).0.info ≡ st.0.info)
  unfolding steps
  steps-IsDecided [] st h = (h, refl)
  steps-IsDecided (e ∷ events) st h =
      let (next, same) = step-IsDecided e st h in
      let (last, rest) = steps-IsDecided events (step ring e st) next in (last, rest ∙ same)

  pub steps-IsExited :
      (events : List Event) (st : Session ring × Fs)
      → IsExited ring st.0
      → IsExited ring (steps ring events st).0 × ((steps ring events st).0.info ≡ st.0.info)
  unfolding steps
  steps-IsExited [] st h = (h, refl)
  steps-IsExited (e ∷ events) st h =
      let (next, same) = step-IsExited e st h in
      let (last, rest) = steps-IsExited events (step ring e st) next in (last, rest ∙ same)
