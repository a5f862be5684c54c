-- ===== src/Ssh/Client/Cleanup.antt =====
-- What a start of internal/sshclient/client.go leaves open.
use interactive_process_mcp.Prelude.{
  Text, ◌≡◌, Bool, true, false, not, ◌&&◌, ◌||◌, List, [], ◌∷◌, arith,
}
use interactive_process_mcp.Ssh.Client.{
  Resource, client, session, stdin, stdout, stderr, Action, opens, closes, Answers, Result, ok, err,
  start,
}

abbrev same : Resource → Resource → Bool
same client client = true
same session session = true
same stdin stdin = true
same stdout stdout = true
same stderr stderr = true
same r s = false

-- Whether a resource is open behind some actions, given whether it was before.
abbrev pub is_open : Resource → Bool → List Action → Bool
is_open r before [] = before
is_open r before (opens s ∷ actions) = is_open r (same r s || before) actions
is_open r before (closes s ∷ actions) = is_open r (not (same r s) && before) actions

-- Whether a resource is to be closed: a pipe only if it can be.
abbrev pub is_closable : Answers → Resource → Bool
is_closable a stdout = a.stdout_closer
is_closable a stderr = a.stderr_closer
is_closable a r = true

-- What is left open: nothing that can be closed behind an error, everything behind a success, and then
-- nothing of the connection behind a close.
abbrev pub IsTidy : Answers → Resource → List Action × Result Text → Type 0
IsTidy a r (actions, err e) = is_closable a r ≡ true → is_open r false actions ≡ false
IsTidy a r (actions, ok line) = is_open r false actions ≡ true

-- A start that fails, at whichever step, has closed all that it had opened and can be closed; one that
-- succeeds has everything open.
pub start-IsTidy :
    (quote : Text → Text) (command : Text) (args : List Text) (pty : Bool) (a : Answers)
    (r : Resource)
    → IsTidy a r (start quote command args pty a)
unfolding start
start-IsTidy quote command args pty a client = ground arith
start-IsTidy quote command args pty a session = ground arith
start-IsTidy quote command args pty a stdin = ground arith
start-IsTidy quote command args pty a stdout = ground arith
start-IsTidy quote command args pty a stderr = ground arith
