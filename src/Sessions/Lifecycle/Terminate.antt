-- ===== src/Sessions/Lifecycle/Terminate.antt =====
-- Terminate of internal/session/session.go, when it ends a session itself.
use interactive_process_mcp.Prelude.{◌≡◌, refl, Bool, true, false, ◌⊎◌, inl, inr}
use interactive_process_mcp.Storage.{Fs}
use interactive_process_mcp.Buffer.Queue.{Ring}
use interactive_process_mcp.Sessions.{Session, Ending, give_up, exit_once_over, terminate}
use interactive_process_mcp.Sessions.Lifecycle.States.{IsExited, IsConsistent, kept}
use interactive_process_mcp.Sessions.Lifecycle.Steps.{
  IsConsistent-same, exit-IsDecided, close_buffer-IsExited, record_exit-IsExited,
  steps-IsConsistent, steps-IsDecided, steps-IsExited,
}

module _ (ring : Ring) where
  abbrev begun : Session ring → Session ring
  begun s = record s { terminate_once = true }

  begun-IsConsistent : (s : Session ring) → IsConsistent ring s → IsConsistent ring (begun s)
  begun-IsConsistent s h = IsConsistent-same ring s _ (kept ring s _ refl refl refl refl) h

  exit_once_over-IsExited :
      (run : Ending) (st : Session ring × Fs)
      → IsConsistent ring st.0
      → IsExited ring (exit_once_over ring run st).0
  unfolding exit_once_over give_up
  exit_once_over-IsExited run (s, fs) h =
      let decided = steps-IsDecided ring run.exiting _ (exit-IsDecided ring _ _ run.now s h) in
      let closed = close_buffer-IsExited ring _ decided.0 in
      (record_exit-IsExited ring run.call _ (steps-IsExited ring run.recording (_, _) closed.0).0).0

  -- The first call of Terminate on a session whose status, exit code and buffer agree, when it is
  -- forced or the process outlives the grace period, leaves the session exited, with an exit code
  -- and a closed buffer, whatever happens while it waits.
  pub terminate-IsExited :
      (force : Bool) (run : Ending) (st : Session ring × Fs)
      → IsConsistent ring st.0
      → st.0.terminate_once ≡ false
      → force ≡ true ⊎ run.done_in_grace ≡ false
      → IsExited ring (terminate ring force run st).0
  unfolding terminate exit_once_over
  terminate-IsExited true run (s, fs) h first why = rw first (
      exit_once_over-IsExited run _
        (steps-IsConsistent ring run.closing (begun s, fs) (begun-IsConsistent s h)))
  terminate-IsExited false run (s, fs) h first (inl wrong) = cc
  terminate-IsExited false run (s, fs) h first (inr late) =
      rw (first, late)
        (exit_once_over-IsExited run _ (
          steps-IsConsistent ring run.closing _
            (steps-IsConsistent ring run.grace (begun s, fs) (begun-IsConsistent s h))))
