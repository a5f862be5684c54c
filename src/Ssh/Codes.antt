-- ===== src/Ssh/Codes.antt =====
-- The exit code of a process, from internal/sshserver/server.go to internal/sshclient/client.go.
use interactive_process_mcp.Prelude.{
  ℕ, zero, suc, ℤ, pos, negsuc, Text, ◌≡◌, ◌^◌, ◌%◌, ◌-◌, refl, Bool, false, not, ◌&&◌, Option,
  none, some, List, ◌∷◌,
}
use interactive_process_mcp.Ssh.Client.{Wait, clean, exit_error, failed, exit_code}
use interactive_process_mcp.Ssh.Server.{Exec, handle_session, state_code}

-- The 32 bits of a code, as Go's `uint32` takes them.
abbrev pub status_bits : ℤ → ℕ
status_bits (pos n) = n % 2 ^ 32
status_bits (negsuc n) = 2 ^ 32 - 1 - n % 2 ^ 32

-- What the client library makes of a status that arrives: 0 is a good end.
abbrev pub arrived : ℕ → Wait
arrived zero = clean
arrived (suc n) = exit_error (pos (suc n))

-- The connection between the two: the SSH server sends 32 bits of the code as the status of RFC 4254, and a
-- connection that ends without a status is no exit error.
pub record Transport : Type 0 where
  pub report : ℤ → Wait
  pub lost : Wait
  pub report-arrived : (code : ℤ) → report code ≡ arrived (status_bits code)
  pub lost-failed : lost ≡ failed

arrived_code : (n : ℕ) → exit_code (arrived n) ≡ pos n
unfolding exit_code
arrived_code zero = refl
arrived_code (suc n) = refl

-- What the client shows for a process state: a code that fits 32 bits as it is, and one below zero, that of
-- a process that a signal has ended, from 2 ^ 32 downwards.
abbrev pub shown_code : Option ℤ → ℤ
shown_code none = pos 127
shown_code (some (pos n)) = pos (n % 2 ^ 32)
shown_code (some (negsuc n)) = pos (2 ^ 32 - 1 - n % 2 ^ 32)

module _ (t : Transport) where
  reported : (code : ℤ) → exit_code (t.report code) ≡ pos (status_bits code)
  reported code = rw (t.report-arrived code) (arrived_code (status_bits code))

  -- What the client reports for a command that could be given its terminal, or needed none: 127 if there was
  -- no command to run, and otherwise the exit code of its process modulo 2 ^ 32, so that the code -1 of
  -- a process that a signal has ended is reported as 4294967295. A connection that is lost is reported
  -- as 0, as a good end is.
  pub exit_code_lem :
      (command : Text) (args : List Text) (is_pty : Bool) (exec : Exec)
      → (is_pty && not exec.pty_ok) ≡ false
      → (exit_code (t.report (handle_session (command ∷ args) is_pty exec).code)
          ≡ shown_code exec.process_state)
        × (exit_code t.lost ≡ pos 0)
  unfolding handle_session
  exit_code_lem command args is_pty exec pty =
      (rw pty (by_state exec.process_state), rw t.lost-failed (unfold exit_code in refl))
    where
      by_state : (state : Option ℤ) → exit_code (t.report (state_code state)) ≡ shown_code state
      by_state none = unfold state_code in reported (pos 127)
      by_state (some (pos n)) = unfold state_code in reported (pos n)
      by_state (some (negsuc n)) = unfold state_code in reported (negsuc n)
