-- ===== src/Mcp/Runs/Outputs.antt =====
-- What the handlers that wait for output, and the one that starts a session, do to the message indexes.
use interactive_process_mcp.Prelude.{
  ℤ, Text, bytes, Bool, true, false, Option, none, some, [], if_cases, text_eq, Option-cases, inl,
  inr, pos,
}
use interactive_process_mcp.Prelude.Assoc.{get, put}
use interactive_process_mcp.Storage.{Fs}
use interactive_process_mcp.Messages.Growth.{Grows, Grows-refl, Grows-trans}
use interactive_process_mcp.Buffer.Queue.{Ring}
use interactive_process_mcp.Sessions.{Session, Result, ok, err, steps, send_input}
use interactive_process_mcp.Sessions.Output.{read_output_for_reader, read_output}
use interactive_process_mcp.Sessions.History.{
  IsMine, Goes, Goes-trans, GoesIf, steps-Goes, send_input-Goes, IsMineIn,
  read_output_for_reader-GoesIf,
}
use interactive_process_mcp.Sessions.Manager.{Manager, create}
use interactive_process_mcp.Sessions.Manager.History.{IsKept, get-IsMine, put-IsKept, create-Flows}
use interactive_process_mcp.Mcp.{
  Floats, Args, StartResult, starts, refused, start_request, get_bool, get_string,
}
use interactive_process_mcp.Mcp.Reads.{
  is_bad_timeout, replied, read_session, read_behind, handle_read_output, handle_send_and_read,
  initial_of, first_output, handle_start_process,
}
use interactive_process_mcp.Mcp.Handlers.{start_refused, started, World, State, session_id}
use interactive_process_mcp.Mcp.Runs.History.{WorldFits, FlowsIf}

module _ (root : Text) (floats : Floats) (ring : Ring) where
  -- Behind a read, from a session that has gone on since the call began.
  replied-FlowsIf :
      (id : Text) (reader : ℤ) (m : Manager ring) (a b : Session ring × Fs)
      (r : Option (Result Text × (Session ring × Fs)))
      → IsKept root ring m
      → IsMine root a.0.msg_mgr
      → Goes root ring a b
      → GoesIf root ring b r
      → FlowsIf root floats ring (m, a.1) (replied floats ring id reader m r)
  unfolding replied
  replied-FlowsIf id reader m a b none h mine went goes = tt
  replied-FlowsIf id reader m a b (some (r, st)) h mine went goes =
      let (end', grown) = Goes-trans root ring a b st went goes mine in
      (put-IsKept root ring id st.0 m h end', grown)

  read_session-FlowsIf :
      (args : Args floats) (w : World) (m : Manager ring) (a b : Session ring × Fs)
      → WorldFits root floats ring w
      → IsKept root ring m
      → IsMine root a.0.msg_mgr
      → Goes root ring a b
      → FlowsIf root floats ring (m, a.1) (read_session floats ring args w m b)
  unfolding read_session
  read_session-FlowsIf args w m a b fits h mine went =
      replied-FlowsIf _ _ m a b _ h mine went
        (read_output_for_reader-GoesIf root ring _ _ _ _ _ w.read_call b fits.read_call)

  pub read_output-FlowsIf :
      (args : Args floats) (w : World) (m : Manager ring) (fs : Fs)
      → WorldFits root floats ring w
      → IsKept root ring m
      → FlowsIf root floats ring (m, fs) (handle_read_output floats ring args w (m, fs))
  unfolding handle_read_output
  read_output-FlowsIf args w m fs fits h =
      if_cases (FlowsIf root floats ring (m, fs)) (is_bad_timeout floats ring args)
        (λ _. (h, Grows-refl root fs))
        λ _. elim (Option-cases (get (session_id floats ring args) m.sessions)) [
          | inl gone ↦ rw gone (h, Grows-refl root fs)
          | inr (s, there) ↦ rw there (
              read_session-FlowsIf args w m (s, fs) (s, fs) fits h
                (get-IsMine root ring _ s m h there) λ mine. (mine, Grows-refl root fs))
        ]

  read_behind-FlowsIf :
      (args : Args floats) (w : World) (m : Manager ring) (a : Session ring × Fs)
      (r : Result (Unit {0}) × (Session ring × Fs))
      → WorldFits root floats ring w
      → IsKept root ring m
      → IsMine root a.0.msg_mgr
      → Goes root ring a r.1
      → FlowsIf root floats ring (m, a.1) (read_behind floats ring args w m r)
  unfolding read_behind
  read_behind-FlowsIf args w m a (err e, (t, fs)) fits h mine went =
      let (end', grown) = went mine in (put-IsKept root ring _ t m h end', grown)
  read_behind-FlowsIf args w m a (ok _, st) fits h mine went =
      read_session-FlowsIf args w m a st fits h mine went

  pub send_and_read-FlowsIf :
      (args : Args floats) (w : World) (m : Manager ring) (fs : Fs)
      → WorldFits root floats ring w
      → IsKept root ring m
      → FlowsIf root floats ring (m, fs) (handle_send_and_read floats ring args w (m, fs))
  unfolding handle_send_and_read
  send_and_read-FlowsIf args w m fs fits h =
      if_cases (FlowsIf root floats ring (m, fs)) (is_bad_timeout floats ring args)
        (λ _. (h, Grows-refl root fs))
        λ _. elim (Option-cases (get (session_id floats ring args) m.sessions)) [
          | inl gone ↦ rw gone (h, Grows-refl root fs)
          | inr (s, there) ↦
              let text : Text = get_string floats args (bytes "text") [] in
              let press_enter : Bool = get_bool floats args (bytes "press_enter") false in
              rw there (
                read_behind-FlowsIf args w m (s, fs)
                  (send_input ring text press_enter w.cut w.call (s, fs)) fits h
                  (get-IsMine root ring _ s m h there)
                  (send_input-Goes root ring text press_enter w.cut w.call (s, fs) fits.call))
        ]

  first_output-FlowsIf :
      (w : World) (before : State ring) (r : Result (Session ring)) (m : Manager ring) (fs : Fs)
      → WorldFits root floats ring w
      → IsMineIn root ring r
      → IsKept root ring m
      → Grows root before.1 fs
      → FlowsIf root floats ring before (first_output floats ring w (r, (m, fs)))
  unfolding first_output read_output
  first_output-FlowsIf w before (err e) m fs fits mine h grown = (h, grown)
  first_output-FlowsIf w before (ok s) m fs fits mine h grown =
      go
        (read_output_for_reader ring mid.0.reader_id (pos 500000000) w.rounds true (pos 0)
          w.read_call mid)
        (read_output_for_reader-GoesIf root ring _ _ _ _ _ w.read_call mid fits.read_call)
    where
      mid : Session ring × Fs
      mid = steps ring w.meanwhile (s, fs)

      go :
          (o : Option (Result Text × (Session ring × Fs)))
          → GoesIf root ring mid o
          → FlowsIf root floats ring before (elim o [
            | none ↦ none
            | some (r, (t, fs')) ↦ some (
              started s.info.id s.info.pid (initial_of floats ring r),
              (record m { sessions = put s.info.id t m.sessions }, fs'),
            )
          ])
      go none goes = tt
      go (some (r, st)) goes =
          let (end', more) =
            Goes-trans root ring (s, fs) mid st
              (steps-Goes root ring w.meanwhile (s, fs) fits.meanwhile) goes mine in
          (
            put-IsKept root ring s.info.id st.0 m h end',
            Grows-trans root before.1 fs st.1 grown more,
          )

  pub start_process-FlowsIf :
      (args : Args floats) (w : World) (m : Manager ring) (fs : Fs)
      → WorldFits root floats ring w
      → IsKept root ring m
      → FlowsIf root floats ring (m, fs) (handle_start_process floats ring args w (m, fs))
  unfolding handle_start_process
  start_process-FlowsIf args w m fs fits h = go (start_request floats args)
    where
      go :
          (r : StartResult)
          → FlowsIf root floats ring
              (m, fs)
              (elim r [
                | refused e ↦ some (start_refused e, (m, fs))
                | starts cfg ↦ first_output floats ring w (create ring cfg w.start w.env (m, fs))
              ])
      go (refused e) = (h, Grows-refl root fs)
      go (starts cfg) =
          let (mine, kept, grown) =
            create-Flows root ring cfg w.start w.env m fs fits.start fits.env h in
          first_output-FlowsIf w (m, fs) _ _ _ fits mine kept grown
