-- ===== src/Mcp/Composition.antt =====
-- send_and_read of internal/mcp/handlers.go, against send_input and read_output.
pub mod Listed
mod Tests
use interactive_process_mcp.Prelude.{
  ℤ, Text, bytes, ◌≡◌, refl, sym, ap, ◌∙◌, Bool, true, false, Option, none, some, if◌then◌else◌,
  text_eq, Option-cases, inl, inr,
}
use interactive_process_mcp.Prelude.Assoc.{get, put, get-put, put-put, equals_refl}
use interactive_process_mcp.Storage.{Fs}
use interactive_process_mcp.Buffer.Queue.{Ring}
use interactive_process_mcp.Sessions.{Session, Result, ok, err}
use interactive_process_mcp.Sessions.Manager.{Manager}
use interactive_process_mcp.Mcp.{Floats, Args}
use interactive_process_mcp.Mcp.Handlers.{
  Reply, success, World, State, session_id, done, on_session, handle_send_input,
}
use interactive_process_mcp.Mcp.Reads.{
  is_bad_timeout, replied, read_session, read_behind, handle_read_output, handle_send_and_read,
}

module _ (floats : Floats) (ring : Ring) where
  -- A read behind a call that succeeded; the reply of any other call stands.
  abbrev pub then_read : Args floats → World → Reply × State ring → Option (Reply × State ring)
  then_read args w (success, st) = handle_read_output floats ring args w st
  then_read args w (reply, st) = some (reply, st)

  abbrev with_session : Text → Session ring → Manager ring → Manager ring
  with_session id s m = record m { sessions = put id s m.sessions }

  replied_again :
      (id : Text) (reader : ℤ) (s : Session ring) (m : Manager ring)
      (r : Option (Result Text × (Session ring × Fs)))
      → replied floats ring id reader (with_session id s m) r ≡ replied floats ring id reader m r
  unfolding replied
  replied_again id reader s m none = refl
  replied_again id reader s m (some (r, (t, fs))) = rw put-put refl

  found : (id : Text) (s : Session ring) (m : Manager ring) → get id (put id s m.sessions) ≡ some s
  found id s m = get-put id id s m.sessions ∙ rw (equals_refl id) refl

  behind :
      (args : Args floats) (w : World) (m : Manager ring)
      (r : Result (Unit {0}) × (Session ring × Fs))
      → is_bad_timeout floats ring args ≡ false
      → read_behind floats ring args w m r
        ≡ then_read args w
            (done floats ring r.0, (with_session (session_id floats ring args) r.1.0 m, r.1.1))
  unfolding read_behind handle_read_output read_session
  behind args w m (err e, (s, fs)) h = refl
  behind args w m (ok _, (s, fs)) h =
      rw (h, found (session_id floats ring args) s m)
        (sym (replied_again (session_id floats ring args) _ s m _))

  -- With a timeout in range, send_and_read is send_input, and behind its success read_output, with the
  -- same arguments; a failed send_input is its reply.
  pub send_and_read_lem :
      (args : Args floats) (w : World) (st : State ring)
      → is_bad_timeout floats ring args ≡ false
      → handle_send_and_read floats ring args w st
        ≡ then_read args w (handle_send_input floats ring args w st)
  unfolding handle_send_and_read handle_send_input on_session
  send_and_read_lem args w (m, fs) h =
      elim (Option-cases (get (session_id floats ring args) m.sessions)) [
        | inl gone ↦ rw (h, gone, on_session) refl
        | inr (s, there) ↦ rw (h, there, on_session) (behind args w m _ h)
      ]
