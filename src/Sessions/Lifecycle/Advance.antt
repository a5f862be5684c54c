-- ===== src/Sessions/Lifecycle/Advance.antt =====
-- What the operations of internal/session/session.go do to the metadata of a session. The buffer is
-- not looked at.
use interactive_process_mcp.Prelude.{
  ℕ, ℤ, Text, ◌≡◌, ◌≢◌, refl, sym, ◌∙◌, Bool, true, false, not, ◌&&◌, if◌then◌else◌, Option, none,
  some, List, [], ◌∷◌, arith, ◌⊎◌, inl, inr, if_cases,
}
use interactive_process_mcp.Api.{running, exited}
use interactive_process_mcp.Storage.{Fs}
use interactive_process_mcp.Messages.{Call}
use interactive_process_mcp.Buffer.Queue.{Ring}
use interactive_process_mcp.Sessions.{
  Config, Start, ExitLeft, nothing_left, to_close, to_record, closes_buffer, records_exit,
  closed_by, close_buffer, recorded_by, record_exit, exit_once_over, Session, Event, outputs,
  finds_done, exits, gives_up, resizes, sends, registers, unregisters, drains, sftp_ends, Ending,
  exit_with, exit, give_up, send_input, resize_pty, register_reader, unregister_reader, is_running,
  pump, stdout_pipe, stderr_pipe, step, steps, terminate, fresh,
}
use interactive_process_mcp.Sessions.Lifecycle.States.{IsSame, is_exit, step_same}

module _ (ring : Ring) where
  pub record IsLive (s : Session ring) : Type 0 where
    pub status_is : s.info.status ≡ running
    pub code_is : s.info.exit_code ≡ none
    pub once_is : s.exit_once ≡ false

  pub record IsOver (s : Session ring) : Type 0 where
    pub status_is : s.info.status ≡ exited
    pub code_is : s.info.exit_code ≢ none
    pub once_is : s.exit_once ≡ true

  abbrev pub IsSettled : Session ring → Type 0
  IsSettled s = IsLive s ⊎ IsOver s

  pub record Advances (s t : Session ring) : Type 0 where
    pub settled : IsSettled s → IsSettled t
    pub id_is : t.info.id ≡ s.info.id
    pub over : IsOver s → IsOver t
    pub final : IsOver s → t.info ≡ s.info

  pub stays : (s t : Session ring) → t.info ≡ s.info → t.exit_once ≡ s.exit_once → Advances s t
  stays s t info once = record {
    settled = λ h. elim h [
      | inl l ↦ inl (record {
        status_is = rw info l.status_is;
        code_is = rw info l.code_is;
        once_is = once ∙ l.once_is;
      })
      | inr o ↦ inr (still o)
    ];
    id_is = rw info refl;
    over = still;
    final = λ _. info;
  }
    where
      still : IsOver s → IsOver t
      still o = record {
        status_is = rw info o.status_is;
        code_is = rw info o.code_is;
        once_is = once ∙ o.once_is;
      }

  pub Advances-trans : (s t u : Session ring) → Advances s t → Advances t u → Advances s u
  Advances-trans s t u a b = record {
    settled = λ h. b.settled (a.settled h);
    id_is = b.id_is ∙ a.id_is;
    over = λ h. b.over (a.over h);
    final = λ h. b.final (a.over h) ∙ a.final h;
  }

  exit_with-Advances :
      (code : ℤ) (content : Text) (now : ℕ) (s : Session ring)
      → Advances s (exit_with ring code content now s)
  unfolding exit_with
  exit_with-Advances code content now s =
      if_cases (λ (t : Session ring). Advances s t) s.exit_once (λ _. stays s s refl refl)
        λ first. record {
          settled = λ _. inr (record { status_is = refl; code_is = λ e. cc; once_is = refl });
          id_is = refl;
          over = λ o. absurd (ground (arith, first, o.once_is));
          final = λ o. absurd (ground (arith, first, o.once_is));
        }

  closed_by-Advances : (l : ExitLeft) (s : Session ring) → Advances s (closed_by ring l s)
  unfolding closed_by
  closed_by-Advances nothing_left s = stays s s refl refl
  closed_by-Advances (to_close content) s = stays s _ refl refl
  closed_by-Advances (to_record content) s = stays s s refl refl

  close_buffer-Advances : (s : Session ring) → Advances s (close_buffer ring s)
  unfolding close_buffer
  close_buffer-Advances s = closed_by-Advances s.exit_left s

  recorded_by-Advances :
      (l : ExitLeft) (call : Call) (s : Session ring) (fs : Fs)
      → Advances s (recorded_by ring l call (s, fs)).0
  unfolding recorded_by
  recorded_by-Advances nothing_left call s fs = stays s s refl refl
  recorded_by-Advances (to_close content) call s fs = stays s s refl refl
  recorded_by-Advances (to_record content) call s fs = stays s _ refl refl

  record_exit-Advances :
      (call : Call) (st : Session ring × Fs) → Advances st.0 (record_exit ring call st).0
  unfolding record_exit
  record_exit-Advances call (s, fs) = recorded_by-Advances s.exit_left call s fs

  same-Advances : (s t : Session ring) → IsSame ring s t → t.info.id ≡ s.info.id → Advances s t
  same-Advances s t same id = record {
    settled = λ h. elim h [
      | inl l ↦ inl (record {
        status_is = same.status_same ∙ l.status_is;
        code_is = same.code_same ∙ l.code_is;
        once_is = same.once_same ∙ l.once_is;
      })
      | inr o ↦ inr (still o)
    ];
    id_is = id;
    over = still;
    final = λ o. same.info_same o.status_is;
  }
    where
      still : IsOver s → IsOver t
      still o = record {
        status_is = same.status_same ∙ o.status_is;
        code_is = λ e. o.code_is (sym same.code_same ∙ e);
        once_is = same.once_same ∙ o.once_is;
      }

  step_id :
      (e : Event) (st : Session ring × Fs)
      → is_exit ring e ≡ false
      → (step ring e st).0.info.id ≡ st.0.info.id
  unfolding step is_exit pump resize_pty send_input is_running register_reader unregister_reader
  step_id (outputs stdout_pipe p failed) (s, fs) h = ground arith
  step_id (outputs stderr_pipe p failed) (s, fs) h = ground arith
  step_id finds_done (s, fs) h = refl
  step_id (exits code now) (s, fs) h = cc
  step_id (gives_up now) (s, fs) h = cc
  step_id closes_buffer (s, fs) h = cc
  step_id (records_exit call) (s, fs) h = cc
  step_id (resizes rows cols resize_ok) (s, fs) h = ground arith
  step_id (sends text press_enter none call) (s, fs) h = ground arith
  step_id (sends text press_enter (some n) call) (s, fs) h = ground arith
  step_id registers (s, fs) h = refl
  step_id (unregisters id) (s, fs) h = refl
  step_id (drains id) (s, fs) h = refl
  step_id sftp_ends (s, fs) h = refl

  pub step-Advances : (e : Event) (st : Session ring × Fs) → Advances st.0 (step ring e st).0
  unfolding step exit give_up is_exit
  step-Advances (exits code now) (s, fs) = exit_with-Advances code _ now s
  step-Advances (gives_up now) (s, fs) = exit_with-Advances _ _ now s
  step-Advances closes_buffer (s, fs) = close_buffer-Advances s
  step-Advances (records_exit call) st = record_exit-Advances call st
  step-Advances e st = same-Advances _ _ (step_same ring e st refl) (step_id e st refl)

  pub steps-Advances :
      (events : List Event) (st : Session ring × Fs) → Advances st.0 (steps ring events st).0
  unfolding steps
  steps-Advances [] (s, fs) = stays s s refl refl
  steps-Advances (e ∷ events) st =
      Advances-trans _ _ _ (step-Advances e st) (steps-Advances events (step ring e st))

  exit_once_over-Advances :
      (run : Ending) (st : Session ring × Fs) → Advances st.0 (exit_once_over ring run st).0
  unfolding exit_once_over give_up
  exit_once_over-Advances run (s, fs) =
      let decided : Session ring = give_up ring run.now s in
      let exiting : Session ring × Fs = steps ring run.exiting (decided, fs) in
      let closed : Session ring × Fs = (close_buffer ring exiting.0, exiting.1) in
      let recording : Session ring × Fs = steps ring run.recording closed in
      Advances-trans s decided _ (exit_with-Advances _ _ run.now s) (
        Advances-trans decided exiting.0 _ (steps-Advances run.exiting (decided, fs)) (
          Advances-trans exiting.0 closed.0 _ (close_buffer-Advances exiting.0) (
            Advances-trans closed.0 recording.0 _ (steps-Advances run.recording closed)
              (record_exit-Advances run.call recording))))

  pub terminate-Advances :
      (force : Bool) (run : Ending) (st : Session ring × Fs)
      → Advances st.0 (terminate ring force run st).0
  unfolding terminate
  terminate-Advances force run (s, fs) =
      let begun : Session ring × Fs = (record s { terminate_once = true }, fs) in
      let waited : Session ring × Fs = if force then begun else steps ring run.grace begun in
      let went : Advances s begun.0 = stays s begun.0 refl refl in
      let waited_advances : Advances s waited.0 =
        if_cases (λ (r : Session ring × Fs). Advances s r.0) force (λ _. went)
          (λ _. Advances-trans s begun.0 _ went (steps-Advances run.grace begun)) in
      if_cases (λ (r : Session ring × Fs). Advances s r.0) s.terminate_once
        (λ _. stays s s refl refl)
        λ _.
          if_cases (λ (r : Session ring × Fs). Advances s r.0) (not force && run.done_in_grace)
            (λ _. waited_advances)
            λ _. Advances-trans s _ _ waited_advances (
              Advances-trans _ _ _ (steps-Advances run.closing waited)
                (exit_once_over-Advances run (steps ring run.closing waited)))

  pub fresh-IsLive :
      (cfg : Config) (msg_mgr : Option Text) (env : Start) → IsLive (fresh ring cfg msg_mgr env)
  unfolding fresh
  fresh-IsLive cfg msg_mgr env = record { status_is = refl; code_is = refl; once_is = refl }
