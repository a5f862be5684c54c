-- ===== src/Mcp/Runs/Advance.antt =====
-- A session behind a read, a start and a cleanup of internal/session: further on, or as it was.
use interactive_process_mcp.Prelude.{
  ℤ, Text, ◌≡◌, refl, subst, Bool, not, Option, none, some, List, [], ◌∷◌, if_cases, text_eq, ◌==◌,
  Bool-cases, inl, inr,
}
use interactive_process_mcp.Prelude.Assoc.{Map, get, some_injective}
use interactive_process_mcp.Storage.{Fs}
use interactive_process_mcp.Messages.{Call}
use interactive_process_mcp.Buffer.{Read, returned, waiting, Round}
use interactive_process_mcp.Buffer.Queue.{Ring}
use interactive_process_mcp.Sessions
use interactive_process_mcp.Sessions.{
  Config, Session, Start, Event, Result, ok, err, Ending, is_running, sends, resizes, registers,
  unregisters, step, steps, send_input, new, fresh,
}
use interactive_process_mcp.Sessions.Output.{read_output_for_reader, finish_read, deliver, received}
use interactive_process_mcp.Sessions.Lifecycle.Advance.{
  Advances, Advances-trans, stays, steps-Advances, terminate-Advances,
}
use interactive_process_mcp.Sessions.Manager.{terminate_all}

module _ (ring : Ring) where
  -- A read that has returned has changed the buffer alone.
  abbrev pub IsRead : Session ring → Option (Result Text × (Session ring × Fs)) → Type 0
  IsRead s none = Unit
  IsRead s (some (r, (t, fs))) = Advances ring s t

  deliver-Advances :
      (strip_ansi : Bool) (max_lines : ℤ) (call : Call) (r : Result Text) (st : Session ring × Fs)
      → Advances ring st.0 (deliver ring strip_ansi max_lines call r st).1.0
  unfolding deliver
  deliver-Advances strip_ansi max_lines call (ok p) (s, fs) = stays ring s s refl refl
  deliver-Advances strip_ansi max_lines call (err e) (s, fs) = stays ring s s refl refl

  finish_read-IsRead :
      (strip_ansi : Bool) (max_lines : ℤ) (call : Call) (r : Read ring) (s : Session ring) (fs : Fs)
      → IsRead s (finish_read ring strip_ansi max_lines call r (s, fs))
  unfolding finish_read
  finish_read-IsRead strip_ansi max_lines call (waiting b) s fs = tt
  finish_read-IsRead strip_ansi max_lines call (returned o b) s fs =
      Advances-trans ring s (record s { buf = b }) _ (stays ring s _ refl refl)
        (deliver-Advances strip_ansi max_lines call (received o) (record s { buf = b }, fs))

  pub read_output_for_reader-IsRead :
      (reader timeout : ℤ) (rounds : List Round) (strip_ansi : Bool) (max_lines : ℤ) (call : Call)
      (s : Session ring) (fs : Fs)
      → IsRead s
          (read_output_for_reader ring reader timeout rounds strip_ansi max_lines call (s, fs))
  unfolding read_output_for_reader
  read_output_for_reader-IsRead reader timeout rounds strip_ansi max_lines call s fs =
      finish_read-IsRead strip_ansi max_lines call _ s fs

  -- A session that `New` returns.
  abbrev pub IsNew : Session ring → Result (Session ring) → Type 0
  IsNew s (ok t) = Advances ring s t
  IsNew s (err e) = Unit

  pub new-IsNew :
      (cfg : Config) (msg_mgr : Option Text) (start : Start) (fs : Fs)
      → IsNew (fresh ring cfg msg_mgr start) (new ring cfg msg_mgr start fs).0
  unfolding new
  new-IsNew cfg msg_mgr start fs =
      if_cases (λ (r : Result (Session ring) × Fs). IsNew (fresh ring cfg msg_mgr start) r.0)
        (not start.exec_ok) (λ _. tt)
        λ _.
          if_cases (λ (r : Result (Session ring) × Fs). IsNew (fresh ring cfg msg_mgr start) r.0)
            (not start.sftp_ok) (λ _. tt)
            (λ _. steps-Advances ring start.early (fresh ring cfg msg_mgr start, fs))

  one-Advances :
      (force : Bool) (end' : Ending) (events : List Event) (st : Session ring × Fs)
      → Advances ring st.0 (steps ring events (Sessions.terminate ring force end' st)).0
  one-Advances force end' events st =
      Advances-trans ring _ _ _ (terminate-Advances ring force end' st)
        (steps-Advances ring events (Sessions.terminate ring force end' st))

  -- A session behind `terminate_all` is one from before, further on.
  pub terminate_all-Advances :
      (force : Bool) (runs : Text → Ending) (later : Text → List Event)
      (sessions : Map Text (Session ring)) (fs : Fs) (j : Text) (t : Session ring)
      → get j (terminate_all ring force runs later (sessions, fs)).0 ≡ some t
      → (s : Session ring) × (get j sessions ≡ some s) × Advances ring s t
  unfolding terminate_all get
  terminate_all-Advances force runs later [] fs j t h = cc
  terminate_all-Advances force runs later ((id, s) ∷ sessions) fs j t h =
      let one : Session ring × Fs =
        steps ring (later id) (Sessions.terminate ring force (runs id) (s, fs)) in
      elim (Bool-cases (id == j)) [
        | inl same ↦
            let is : one.0 ≡ t = some_injective (rw same at h) in
            (
              s,
              rw same refl,
              subst (Advances ring s) is (one-Advances force (runs id) (later id) (s, fs)),
            )
        | inr other ↦
            let (u, there, a) =
              terminate_all-Advances force runs later sessions one.1 j t (rw other at h) in
            (u, rw other there, a)
      ]
