-- ===== src/Ssh/Server.antt =====
-- internal/sshserver/server.go: which signals reach a process, what a session does and which code it
-- ends with, and the life of the server itself. `exec` is what the system answers.
use interactive_process_mcp.Prelude.{
  ℕ, negsuc, ◌%◌, ◌^◌, ◌-◌, ℤ, pos, Text, bytes, Bool, true, false, not, ◌&&◌, Option, none, some,
  List, [], ◌∷◌, ◌++◌, if◌then◌else◌, ◌==◌, text_eq,
}
use interactive_process_mcp.Strings.{lf, is_empty}

abbrev pub internal_password : Text
internal_password = bytes "interactive-process-internal"

pub data OsSignal : Type 0 where
  sigterm sigint sigkill sighup : OsSignal

-- `sshSignalToOSSig`: a signal of another name is none.
unfoldable pub ssh_signal_to_os_sig : Text → Option OsSignal
ssh_signal_to_os_sig sig =
    if sig == bytes "TERM"
    then some sigterm
    else if sig == bytes "INT"
    then some sigint
    else if sig == bytes "KILL"
    then some sigkill
    else if sig == bytes "HUP"
    then some sighup
    else none

-- Go's `uint16` of an int: 16 bits of it.
unfoldable pub uint16 : ℤ → ℕ
uint16 (pos n) = n % 2 ^ 16
uint16 (negsuc n) = 2 ^ 16 - 1 - n % 2 ^ 16

-- `pty.Winsize`, and the size of a terminal for a window of a height and a width.
pub record Winsize : Type 0 where
  pub rows : ℕ
  pub cols : ℕ

unfoldable pub winsize : ℤ → ℤ → Winsize
unfolding uint16
winsize height width = record { rows = uint16 height; cols = uint16 width }

-- The signals that the process is sent: each comes with whether the process was there by then.
unfoldable pub forward_signals : List (Text × Bool) → List OsSignal
forward_signals [] = []
forward_signals ((sig, has_process) ∷ signals) =
    let rest = forward_signals signals in
    let forwarded : List OsSignal = elim (ssh_signal_to_os_sig sig) [
      | none ↦ rest
      | some s ↦ s ∷ rest
    ] in
    if has_process then forwarded else rest

-- A run of the command: whether a terminal could be had for it, the text of the error, and the exit
-- code of its process state, if there is one.
pub record Exec : Type 0 where
  pub pty_ok : Bool
  pub error : Text
  pub process_state : Option ℤ

-- What the session writes of its own, and the code that it exits with.
pub record Ended : Type 0 where
  pub written : Text
  pub code : ℤ

-- The exit code of a command that has run: 127 if there was none to run.
unfoldable pub state_code : Option ℤ → ℤ
state_code none = pos 127
state_code (some code) = code

unfoldable pub handle_session : List Text → Bool → Exec → Ended
handle_session [] is_pty exec = record { written = bytes "no command" ++ lf ∷ []; code = pos 1 }
handle_session (command ∷ args) is_pty exec =
    if is_pty && not exec.pty_ok
    then record { written = exec.error ++ lf ∷ []; code = pos 1 }
    else record { written = []; code = state_code exec.process_state }

-- The password handler, and the password of `ClientConfig`.
unfoldable pub accepts : Text → Bool
accepts password = password == internal_password

abbrev pub client_password : Text
client_password = internal_password

pub record Server : Type 0 where
  pub addr : Text
  pub listener : Option Text
  pub started : Bool

unfoldable pub new : Text → Server
new addr = record {
  addr = if is_empty addr then bytes "127.0.0.1:0" else addr;
  listener = none;
  started = false;
}

-- `Addr`: the address of the listener.
unfoldable pub addr_of : Server → Text
addr_of s = elim s.listener [ none ↦ [] | some a ↦ a ]

-- `Start`: whether the host key is made and taken, and the address that the listener gets.
unfoldable pub start : Bool → Option Text → Server → Bool × Server
start key_ok none s = (false, s)
start key_ok (some a) s =
    if key_ok then (true, record s { listener = some a; started = true }) else (false, s)

-- `Stop`: whether the server is closed.
unfoldable pub stop : Server → Bool
stop s = s.started
