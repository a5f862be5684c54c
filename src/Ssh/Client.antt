-- ===== src/Ssh/Client.antt =====
-- internal/sshclient/client.go: the start of a command with its cleanup, the quoting of the command line,
-- and the exit code. What is opened and closed is a list of actions.
pub mod Cleanup
use interactive_process_mcp.Prelude.{
  ℕ, ℤ, pos, Text, bytes, Bool, true, false, not, ◌&&◌, ◌||◌, Option, none, some, List, [], ◌∷◌,
  ◌++◌, map, if◌then◌else◌, nat_eqb,
}
use interactive_process_mcp.Strings.{join}

pub data Resource : Type 0 where
  client session stdin stdout stderr : Resource

pub data Action : Type 0 where
  opens closes : Resource → Action

-- The answers to the steps of a start, and which of the two pipes can be closed.
pub record Answers : Type 0 where
  pub dial_ok : Bool
  pub session_ok : Bool
  pub stdin_ok : Bool
  pub stdout_ok : Bool
  pub stderr_ok : Bool
  pub pty_ok : Bool
  pub start_ok : Bool
  pub stdout_closer : Bool
  pub stderr_closer : Bool

pub data StartError : Type 0 where
  dial_failed session_failed stdin_failed stdout_failed : StartError
  stderr_failed pty_failed command_failed : StartError

pub data Result {ℓ} (A : Type ℓ) : Type ℓ where
  ok : A → Result A
  err : StartError → Result A

-- `closeIfCloser`.
abbrev pub close_if_closer : Bool → Resource → List Action
close_if_closer closer r = if closer then closes r ∷ [] else []

abbrev pub close_first : List Action
close_first = closes stdin ∷ closes session ∷ closes client ∷ []

-- `strings.ContainsAny` of one byte.
unfoldable pub is_any : Text → ℕ → Bool
is_any [] c = false
is_any (d ∷ chars) c = nat_eqb d c || is_any chars c

unfoldable pub contains_any : Text → Text → Bool
contains_any chars [] = false
contains_any chars (c ∷ s) = is_any chars c || contains_any chars s

-- The bytes that ask for quotes: a blank, a tab, a line feed, quotes, a backslash, and the marks of a
-- shell.
abbrev pub special : Text
special = b' ' ∷ 9 ∷ 10 ∷ 34 ∷ 39 ∷ 92 ∷ bytes "$|&;<>(){}[]*?#~`"

-- `strconv.Quote` is a parameter.
module _ (quote : Text → Text) where
  unfoldable pub quote_if_needed : Text → Text
  quote_if_needed s = if contains_any special s then quote s else s

  unfoldable pub shell_quote : Text → List Text → Text
  unfolding quote_if_needed
  shell_quote command args = join (b' ' ∷ []) (quote_if_needed command ∷ map quote_if_needed args)

  -- `Start`: its actions, and the command line that runs.
  unfoldable pub start : Text → List Text → Bool → Answers → List Action × Result Text
  start command args pty a =
      let out : List Action = close_if_closer a.stdout_closer stdout in
      let errs : List Action = close_if_closer a.stderr_closer stderr in
      let pipes : List Action =
        opens client ∷ opens session ∷ opens stdin ∷ opens stdout ∷ opens stderr ∷ [] in
      if not a.dial_ok
      then ([], err dial_failed)
      else if not a.session_ok
      then (opens client ∷ closes client ∷ [], err session_failed)
      else if not a.stdin_ok
      then (opens client ∷ opens session ∷ closes session ∷ closes client ∷ [], err stdin_failed)
      else if not a.stdout_ok
      then (opens client ∷ opens session ∷ opens stdin ∷ close_first, err stdout_failed)
      else if not a.stderr_ok
      then (
        opens client ∷ opens session ∷ opens stdin ∷ opens stdout ∷ out ++ close_first,
        err stderr_failed,
      )
      else if pty && not a.pty_ok
      then (pipes ++ (errs ++ (out ++ close_first)), err pty_failed)
      else if not a.start_ok
      then (pipes ++ (errs ++ (out ++ close_first)), err command_failed)
      else (pipes, ok (shell_quote command args))

-- `Close`, whatever the closing of a part answers.
abbrev pub close : List Action
close = close_first

-- How the wait for the remote command ended: well, with the status of an exit error, or otherwise.
pub data Wait : Type 0 where
  clean : Wait
  exit_error : ℤ → Wait
  failed : Wait

-- `ExitCode`, once the wait has ended.
unfoldable pub exit_code : Wait → ℤ
exit_code clean = pos 0
exit_code (exit_error n) = n
exit_code failed = pos 0

-- `NewSFTPClient`: the connection, then the SFTP session over it.
pub record SftpAnswers : Type 0 where
  pub dial_ok : Bool
  pub client_ok : Bool

unfoldable pub new_sftp_client : SftpAnswers → List Action × Bool
new_sftp_client a =
    if not a.dial_ok
    then ([], false)
    else if not a.client_ok
    then (opens client ∷ closes client ∷ [], false)
    else (opens client ∷ opens session ∷ [], true)
