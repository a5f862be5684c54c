-- ===== src/Sessions/History.antt =====
-- What internal/session/session.go does to the message indexes of the store under `root`, for a session
-- whose message manager has that store, or that has none.
use interactive_process_mcp.Prelude.{
  ℕ, ℤ, ◌≡◌, refl, Bool, true, not, ◌&&◌, Option, none, some, List, [], ◌∷◌, Text, if_cases,
  if◌then◌else◌, All, arith, text_eq,
}
use interactive_process_mcp.Api
use interactive_process_mcp.Api.{MsgType}
use interactive_process_mcp.Strings.{is_empty}
use interactive_process_mcp.Storage.{Fs}
use interactive_process_mcp.Messages.{Call}
use interactive_process_mcp.Messages.Log.{Fits}
use interactive_process_mcp.Messages.Growth.{Grows, Grows-refl, Grows-trans, append-Grows}
use interactive_process_mcp.Buffer.{Read, returned, waiting, Round}
use interactive_process_mcp.Buffer.Queue.{Ring}
use interactive_process_mcp.Sessions.{
  Config, ExitLeft, nothing_left, to_close, to_record, closes_buffer, records_exit, closed_by,
  close_buffer, recorded_by, record_exit, exit_once_over, Session, Event, outputs, finds_done,
  exits, gives_up, resizes, sends, registers, unregisters, drains, sftp_ends, Ending, Start, Result,
  ok, err, note, exit_with, exit, give_up, pump, Pipe, stdout_pipe, stderr_pipe, send_input,
  is_running, resize_pty, register_reader, unregister_reader, step, steps, terminate, fresh, new,
}
use interactive_process_mcp.Sessions.Output.{
  read_output_for_reader, finish_read, deliver, received, shown,
}

-- The calls of Append that an event makes meet answers that fit.
abbrev pub EventFits : Text → Event → Type 0
EventFits root (records_exit call) = Fits root call
EventFits root (exits code now) = Unit
EventFits root (gives_up now) = Unit
EventFits root closes_buffer = Unit
EventFits root (sends text press_enter cut call) = Fits root call
EventFits root (outputs pipe p failed) = Unit
EventFits root finds_done = Unit
EventFits root (resizes rows cols resize_ok) = Unit
EventFits root registers = Unit
EventFits root (unregisters id) = Unit
EventFits root (drains id) = Unit
EventFits root sftp_ends = Unit

abbrev pub IsMine : Text → Option Text → Type 0
IsMine root none = Unit
IsMine root (some other) = other ≡ root

pub note-Grows :
    (root : Text) (mgr : Option Text) (call : Call) (session : Text) (type : MsgType)
    (content : Text) (fs : Fs)
    → IsMine root mgr
    → Fits root call
    → Grows root fs (note mgr call session type content fs)
unfolding note
note-Grows root none call session type content fs mine fits = Grows-refl root fs
note-Grows root (some other) call session type content fs mine fits =
    rw mine (append-Grows root call session type content fs fits)

module _ (root : Text) (ring : Ring) where
  -- From a session with this store to one with this store, and files that have grown.
  abbrev pub Goes : Session ring × Fs → Session ring × Fs → Type 0
  Goes a b = IsMine root a.0.msg_mgr → IsMine root b.0.msg_mgr × Grows root a.1 b.1

  pub Goes-trans : (a b c : Session ring × Fs) → Goes a b → Goes b c → Goes a c
  Goes-trans a b c f g mine =
      let (mid, grown) = f mine in
      let (end', more) = g mid in (end', Grows-trans root a.1 b.1 c.1 grown more)

  exit_with_mgr :
      (code : ℤ) (content : Text) (now : ℕ) (s : Session ring)
      → (exit_with ring code content now s).msg_mgr ≡ s.msg_mgr
  unfolding exit_with
  exit_with_mgr code content now s =
      if_cases (λ (t : Session ring). t.msg_mgr ≡ s.msg_mgr) s.exit_once (λ _. refl) λ _. refl

  closed_by_mgr : (l : ExitLeft) (s : Session ring) → (closed_by ring l s).msg_mgr ≡ s.msg_mgr
  unfolding closed_by
  closed_by_mgr nothing_left s = refl
  closed_by_mgr (to_close content) s = refl
  closed_by_mgr (to_record content) s = refl

  close_buffer_mgr : (s : Session ring) → (close_buffer ring s).msg_mgr ≡ s.msg_mgr
  unfolding close_buffer
  close_buffer_mgr s = closed_by_mgr s.exit_left s

  recorded_by-Goes :
      (l : ExitLeft) (call : Call) (st : Session ring × Fs)
      → Fits root call
      → Goes st (recorded_by ring l call st)
  unfolding recorded_by
  recorded_by-Goes nothing_left call st fits mine = (mine, Grows-refl root st.1)
  recorded_by-Goes (to_close content) call st fits mine = (mine, Grows-refl root st.1)
  recorded_by-Goes (to_record content) call (s, fs) fits mine =
      (mine, note-Grows root s.msg_mgr call s.info.id Api.msg_system content fs mine fits)

  record_exit-Goes :
      (call : Call) (st : Session ring × Fs) → Fits root call → Goes st (record_exit ring call st)
  unfolding record_exit
  record_exit-Goes call (s, fs) fits = recorded_by-Goes s.exit_left call (s, fs) fits

  pub send_input-Goes :
      (text : Text) (press_enter : Bool) (cut : Option ℕ) (call : Call) (st : Session ring × Fs)
      → Fits root call
      → Goes st (send_input ring text press_enter cut call st).1
  unfolding send_input
  send_input-Goes text press_enter none call (s, fs) fits mine =
      if_cases
        (λ (r : Result (Unit {0}) × (Session ring × Fs)).
          IsMine root r.1.0.msg_mgr × Grows root fs r.1.1)
        (is_running ring s)
        (λ _. (mine, note-Grows root s.msg_mgr call s.info.id Api.msg_input _ fs mine fits))
        λ _. (mine, Grows-refl root fs)
  send_input-Goes text press_enter (some n) call (s, fs) fits mine =
      if_cases
        (λ (r : Result (Unit {0}) × (Session ring × Fs)).
          IsMine root r.1.0.msg_mgr × Grows root fs r.1.1)
        (is_running ring s) (λ _. (mine, Grows-refl root fs)) λ _. (mine, Grows-refl root fs)

  pump_mgr :
      (pipe : Pipe) (p : Text) (failed : Bool) (s : Session ring)
      → (pump ring pipe p failed s).msg_mgr ≡ s.msg_mgr
  unfolding pump
  pump_mgr stdout_pipe p failed s =
      if_cases (λ (t : Session ring). t.msg_mgr ≡ s.msg_mgr) s.stdout (λ _. refl) λ _. refl
  pump_mgr stderr_pipe p failed s =
      if_cases (λ (t : Session ring). t.msg_mgr ≡ s.msg_mgr) s.stderr (λ _. refl) λ _. refl

  pub resize_pty_mgr :
      (rows cols : ℤ) (resize_ok : Bool) (s : Session ring)
      → (resize_pty ring rows cols resize_ok s).1.msg_mgr ≡ s.msg_mgr
  unfolding resize_pty
  resize_pty_mgr rows cols resize_ok s = ground arith

  -- Every step of a goroutine or a client.
  pub step-Goes : (e : Event) (st : Session ring × Fs) → EventFits root e → Goes st (step ring e st)
  unfolding step exit give_up register_reader unregister_reader
  step-Goes (outputs pipe p failed) (s, fs) fits mine =
      (rw (pump_mgr pipe p failed s) mine, Grows-refl root fs)
  step-Goes finds_done (s, fs) fits mine = (mine, Grows-refl root fs)
  step-Goes (exits code now) (s, fs) fits mine =
      (rw (exit_with_mgr code _ now s) mine, Grows-refl root fs)
  step-Goes (gives_up now) (s, fs) fits mine =
      (rw (exit_with_mgr _ _ now s) mine, Grows-refl root fs)
  step-Goes closes_buffer (s, fs) fits mine = (rw (close_buffer_mgr s) mine, Grows-refl root fs)
  step-Goes (records_exit call) st fits mine = record_exit-Goes call st fits mine
  step-Goes (resizes rows cols resize_ok) (s, fs) fits mine =
      (rw (resize_pty_mgr rows cols resize_ok s) mine, Grows-refl root fs)
  step-Goes (sends text press_enter cut call) st fits mine =
      send_input-Goes text press_enter cut call st fits mine
  step-Goes registers (s, fs) fits mine = (mine, Grows-refl root fs)
  step-Goes (unregisters id) (s, fs) fits mine = (mine, Grows-refl root fs)
  step-Goes (drains id) (s, fs) fits mine = (mine, Grows-refl root fs)
  step-Goes sftp_ends (s, fs) fits mine = (mine, Grows-refl root fs)

  pub steps-Goes :
      (events : List Event) (st : Session ring × Fs)
      → All (EventFits root) events
      → Goes st (steps ring events st)
  unfolding steps
  steps-Goes [] st fits mine = (mine, Grows-refl root st.1)
  steps-Goes (e ∷ events) st (fit, fits) mine =
      let next : Session ring × Fs = step ring e st in
      Goes-trans st next (steps ring events next) (step-Goes e st fit) (steps-Goes events next fits)
        mine

  pub record EndingFits (run : Ending) : Type 0 where
    pub grace : All (EventFits root) run.grace
    pub closing : All (EventFits root) run.closing
    pub exiting : All (EventFits root) run.exiting
    pub recording : All (EventFits root) run.recording
    pub call : Fits root run.call

  exit_once_over-Goes :
      (run : Ending) (st : Session ring × Fs)
      → EndingFits run
      → Goes st (exit_once_over ring run st)
  unfolding exit_once_over give_up
  exit_once_over-Goes run (s, fs) fits mine =
      let decided : Session ring × Fs = (give_up ring run.now s, fs) in
      let exiting : Session ring × Fs = steps ring run.exiting decided in
      let closed : Session ring × Fs = (close_buffer ring exiting.0, exiting.1) in
      let recording : Session ring × Fs = steps ring run.recording closed in
      let (first, grown) =
        steps-Goes run.exiting decided fits.exiting (rw (exit_with_mgr _ _ run.now s) mine) in
      let (last, more) =
        Goes-trans closed recording (record_exit ring run.call recording)
          (steps-Goes run.recording closed fits.recording)
          (record_exit-Goes run.call recording fits.call) (rw (close_buffer_mgr exiting.0) first) in
      (last, Grows-trans root fs exiting.1 _ grown more)

  pub terminate-Goes :
      (force : Bool) (run : Ending) (st : Session ring × Fs)
      → EndingFits run
      → Goes st (terminate ring force run st)
  unfolding terminate
  terminate-Goes force run (s, fs) fits mine =
      if_cases (λ (r : Session ring × Fs). IsMine root r.0.msg_mgr × Grows root fs r.1)
        s.terminate_once (λ _. (mine, Grows-refl root fs))
        λ _.
          if_cases (λ (r : Session ring × Fs). IsMine root r.0.msg_mgr × Grows root fs r.1)
            (not force && run.done_in_grace) (λ _. waited-Goes mine)
            λ _.
              Goes-trans (s, fs) waited (exit_once_over ring run closed) waited-Goes
                (Goes-trans waited closed (exit_once_over ring run closed)
                  (steps-Goes run.closing waited fits.closing)
                  (exit_once_over-Goes run closed fits))
                mine
    where
      begun : Session ring × Fs
      begun = (record s { terminate_once = true }, fs)

      waited : Session ring × Fs
      waited = if force then begun else steps ring run.grace begun

      closed : Session ring × Fs
      closed = steps ring run.closing waited

      waited-Goes : Goes (s, fs) waited
      waited-Goes mine' =
          if_cases (λ (r : Session ring × Fs). IsMine root r.0.msg_mgr × Grows root fs r.1) force
            (λ _. (mine', Grows-refl root fs)) λ _. steps-Goes run.grace begun fits.grace mine'

  pub record StartFits (start : Start) : Type 0 where
    pub early : All (EventFits root) start.early
    pub call : Fits root start.call

  -- The session that `New` returns.
  abbrev pub IsMineIn : Result (Session ring) → Type 0
  IsMineIn (ok s) = IsMine root s.msg_mgr
  IsMineIn (err e) = Unit

  pub new-Goes :
      (cfg : Config) (mgr : Option Text) (start : Start) (fs : Fs)
      → StartFits start
      → IsMine root mgr
      → IsMineIn (new ring cfg mgr start fs).0 × Grows root fs (new ring cfg mgr start fs).1
  unfolding new fresh
  new-Goes cfg mgr start fs fits mine =
      let early = steps-Goes start.early (fresh ring cfg mgr start, fs) fits.early mine in
      if_cases (λ (r : Result (Session ring) × Fs). IsMineIn r.0 × Grows root fs r.1)
        (not start.exec_ok) (λ _. (tt, Grows-refl root fs))
        λ _.
          if_cases (λ (r : Result (Session ring) × Fs). IsMineIn r.0 × Grows root fs r.1)
            (not start.sftp_ok) (λ _. (tt, early.1))
            λ _. (
              early.0,
              Grows-trans root fs _ _ early.1
                  (note-Grows root mgr start.call _ Api.msg_system _ _ mine fits.call),
            )

  -- What a read that has returned leaves.
  abbrev pub GoesIf : Session ring × Fs → Option (Result Text × (Session ring × Fs)) → Type 0
  GoesIf st none = Unit
  GoesIf st (some r) = Goes st r.1

  deliver-Goes :
      (strip_ansi : Bool) (max_lines : ℤ) (call : Call) (r : Result Text) (st : Session ring × Fs)
      → Fits root call
      → Goes st (deliver ring strip_ansi max_lines call r st).1
  unfolding deliver
  deliver-Goes strip_ansi max_lines call (err e) st fits mine = (mine, Grows-refl root st.1)
  deliver-Goes strip_ansi max_lines call (ok p) (s, fs) fits mine = (
    mine,
    if_cases (Grows root fs) (is_empty (shown strip_ansi max_lines p)) (λ _. Grows-refl root fs)
        λ _. note-Grows root s.msg_mgr call s.info.id Api.msg_output _ fs mine fits,
  )

  finish_read-GoesIf :
      (strip_ansi : Bool) (max_lines : ℤ) (call : Call) (r : Read ring) (st : Session ring × Fs)
      → Fits root call
      → GoesIf st (finish_read ring strip_ansi max_lines call r st)
  unfolding finish_read
  finish_read-GoesIf strip_ansi max_lines call (waiting b) st fits = tt
  finish_read-GoesIf strip_ansi max_lines call (returned outcome b) (s, fs) fits =
      deliver-Goes strip_ansi max_lines call (received outcome) (record s { buf = b }, fs) fits

  pub read_output_for_reader-GoesIf :
      (reader timeout : ℤ) (rounds : List Round) (strip_ansi : Bool) (max_lines : ℤ) (call : Call)
      (st : Session ring × Fs)
      → Fits root call
      → GoesIf st (read_output_for_reader ring reader timeout rounds strip_ansi max_lines call st)
  unfolding read_output_for_reader
  read_output_for_reader-GoesIf reader timeout rounds strip_ansi max_lines call (s, fs) fits =
      finish_read-GoesIf strip_ansi max_lines call _ (s, fs) fits
