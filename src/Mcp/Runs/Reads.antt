-- ===== src/Mcp/Runs/Reads.antt =====
-- The same for the handlers that wait for output, and for the one that starts a session.
use interactive_process_mcp.Prelude.{
  ℤ, Text, bytes, ◌≡◌, refl, Bool, true, false, Option, none, some, [], if_cases, text_eq,
  Option-cases, inl, inr, pos,
}
use interactive_process_mcp.Prelude.Assoc.{get, put, Every, put-Every}
use interactive_process_mcp.Storage.{Fs, Env}
use interactive_process_mcp.Buffer.Queue.{Ring}
use interactive_process_mcp.Sessions.{
  Config, Session, Start, Result, ok, err, sends, step, steps, send_input, fresh,
}
use interactive_process_mcp.Sessions.Output.{read_output_for_reader, read_output}
use interactive_process_mcp.Sessions.Lifecycle.Advance.{
  Advances, Advances-trans, stays, step-Advances, steps-Advances,
}
use interactive_process_mcp.Sessions.Manager.{Manager, add, create}
use interactive_process_mcp.Mcp.{
  Floats, Args, StartResult, starts, refused, start_request, get_bool, get_string,
}
use interactive_process_mcp.Mcp.Reads.{
  is_bad_timeout, replied, read_session, read_behind, handle_read_output, handle_send_and_read,
  initial_of, first_output, handle_start_process,
}
use interactive_process_mcp.Mcp.Handlers.{start_refused, started, World, session_id}
use interactive_process_mcp.Mcp.Runs.Advance.{
  IsRead, IsNew, read_output_for_reader-IsRead, new-IsNew,
}
use interactive_process_mcp.Mcp.Runs.Keeps.{Holds, HoldsBy, put-Holds}

module _ (floats : Floats) (ring : Ring) (Q : Text → Session ring → Type 0)
    (carry : (id : Text) (s t : Session ring) → Q id s → Advances ring s t → Q id t) where
  replied-HoldsBy :
      (id : Text) (reader : ℤ) (m : Manager ring) (s t : Session ring)
      (r : Option (Result Text × (Session ring × Fs)))
      → Every Q m.sessions
      → get id m.sessions ≡ some s
      → Advances ring s t
      → IsRead ring t r
      → HoldsBy floats ring Q carry (replied floats ring id reader m r)
  unfolding replied
  replied-HoldsBy id reader m s t none h there a b = tt
  replied-HoldsBy id reader m s t (some (r, (u, fs))) h there a b =
      put-Holds floats ring Q carry id s u m h there (Advances-trans ring s t u a b)

  pub read_output-HoldsBy :
      (args : Args floats) (w : World) (m : Manager ring) (fs : Fs)
      → Holds floats ring Q carry m
      → HoldsBy floats ring Q carry (handle_read_output floats ring args w (m, fs))
  unfolding handle_read_output read_session
  read_output-HoldsBy args w m fs h =
      if_cases (HoldsBy floats ring Q carry) (is_bad_timeout floats ring args) (λ _. h)
        λ _. elim (Option-cases (get (session_id floats ring args) m.sessions)) [
          | inl gone ↦ rw gone h
          | inr (s, there) ↦ rw there (
              replied-HoldsBy _ _ m s s _ h there (stays ring s s refl refl)
                (read_output_for_reader-IsRead ring _ _ _ _ _ _ s fs))
        ]

  -- Behind the input of a session that was found, whether it could be sent or not.
  read_behind-HoldsBy :
      (args : Args floats) (w : World) (m : Manager ring) (s : Session ring)
      (r : Result (Unit {0}) × (Session ring × Fs))
      → Holds floats ring Q carry m
      → get (session_id floats ring args) m.sessions ≡ some s
      → Advances ring s r.1.0
      → HoldsBy floats ring Q carry (read_behind floats ring args w m r)
  unfolding read_behind read_session
  read_behind-HoldsBy args w m s (err e, (t, fs)) h there a =
      put-Holds floats ring Q carry _ s t m h there a
  read_behind-HoldsBy args w m s (ok _, (t, fs)) h there a =
      replied-HoldsBy _ _ m s t _ h there a (read_output_for_reader-IsRead ring _ _ _ _ _ _ t fs)

  pub send_and_read-HoldsBy :
      (args : Args floats) (w : World) (m : Manager ring) (fs : Fs)
      → Holds floats ring Q carry m
      → HoldsBy floats ring Q carry (handle_send_and_read floats ring args w (m, fs))
  unfolding handle_send_and_read step
  send_and_read-HoldsBy args w m fs h =
      if_cases (HoldsBy floats ring Q carry) (is_bad_timeout floats ring args) (λ _. h)
        λ _. elim (Option-cases (get (session_id floats ring args) m.sessions)) [
          | inl gone ↦ rw gone h
          | inr (s, there) ↦
              let text : Text = get_string floats args (bytes "text") [] in
              let press_enter : Bool = get_bool floats args (bytes "press_enter") false in
              rw there (
                read_behind-HoldsBy args w m s
                  (send_input ring text press_enter w.cut w.call (s, fs)) h there
                  (step-Advances ring (sends text press_enter w.cut w.call) (s, fs)))
        ]

  module _ (IsFine : Start → Type 0)
      (born : (cfg : Config) (msg_mgr : Option Text) (start : Start) (s : Session ring)
        → IsFine start
        → Advances ring (fresh ring cfg msg_mgr start) s
        → Q s.info.id s) where
    -- A session that was just created satisfies what is asked for, and does so from then on.
    abbrev IsBorn : Result (Session ring) → Type 0
    IsBorn (ok s) = (t : Session ring) → Advances ring s t → Q s.info.id t
    IsBorn (err e) = Unit

    add-Holds :
        (cfg : Config) (start : Start) (env : Env) (m : Manager ring)
        (r : Result (Session ring) × Fs)
        → IsFine start
        → Holds floats ring Q carry m
        → IsNew ring (fresh ring cfg m.msg_mgr start) r.0
        → Every Q (add ring env m r).1.0.sessions × IsBorn (add ring env m r).0
    unfolding add
    add-Holds cfg start env m (err e, fs) fine h a = (h, tt)
    add-Holds cfg start env m (ok s, fs) fine h a =
        let q : Q s.info.id s = born cfg m.msg_mgr start s fine a in
        (put-Every Q s.info.id s m.sessions h q, λ t b. carry s.info.id s t q b)

    first_output-HoldsBy :
        (w : World) (r : Result (Session ring)) (m : Manager ring) (fs : Fs)
        → Every Q m.sessions
        → IsBorn r
        → HoldsBy floats ring Q carry (first_output floats ring w (r, (m, fs)))
    unfolding first_output read_output
    first_output-HoldsBy w (err e) m fs h b = h
    first_output-HoldsBy w (ok s) m fs h b =
        go
          (read_output_for_reader ring mid.0.reader_id (pos 500000000) w.rounds true (pos 0)
            w.read_call mid)
          (read_output_for_reader-IsRead ring _ _ _ _ _ _ mid.0 mid.1)
      where
        mid : Session ring × Fs
        mid = steps ring w.meanwhile (s, fs)

        go :
            (o : Option (Result Text × (Session ring × Fs)))
            → IsRead ring mid.0 o
            → HoldsBy floats ring Q carry (elim o [
              | none ↦ none
              | some (r, (t, fs')) ↦ some (
                started s.info.id s.info.pid (initial_of floats ring r),
                (record m { sessions = put s.info.id t m.sessions }, fs'),
              )
            ])
        go none a = tt
        go (some (r, (t, fs'))) a =
            put-Every Q s.info.id t m.sessions h
              (b t (Advances-trans ring s mid.0 t (steps-Advances ring w.meanwhile (s, fs)) a))

    pub start_process-HoldsBy :
        (args : Args floats) (w : World) (m : Manager ring) (fs : Fs)
        → IsFine w.start
        → Holds floats ring Q carry m
        → HoldsBy floats ring Q carry (handle_start_process floats ring args w (m, fs))
    unfolding handle_start_process create
    start_process-HoldsBy args w m fs fine h = go (start_request floats args)
      where
        go :
            (r : StartResult)
            → HoldsBy floats ring Q carry (elim r [
              | refused e ↦ some (start_refused e, (m, fs))
              | starts cfg ↦ first_output floats ring w (create ring cfg w.start w.env (m, fs))
            ])
        go (refused e) = h
        go (starts cfg) =
            let made =
              add-Holds cfg w.start w.env m _ fine h (new-IsNew ring cfg m.msg_mgr w.start fs) in
            first_output-HoldsBy w _ _ _ made.0 made.1
