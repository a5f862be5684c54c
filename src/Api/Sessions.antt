-- ===== src/Api/Sessions.antt =====
-- The document of a session (pkg/api/types.go), and what is read back from it.
use interactive_process_mcp.Prelude.{
  ℤ, ◌≡◌, refl, Text, Option, none, some, List, [], ◌∷◌, map, bytes, text_eqb, if◌then◌else◌,
}
use interactive_process_mcp.Json.{
  Value, null, num, str, instant, arr, obj, Fields, no_fields, member, text, lookup, as_text,
  as_int, as_instant, as_list, all_items, items, ◌>>=◌,
}
use interactive_process_mcp.Json.Utf8.{to_valid}
use interactive_process_mcp.Api.{SessionStatus, running, exited, error, Session}

abbrev pub status_name : SessionStatus → Text
status_name running = bytes "running"
status_name exited = bytes "exited"
status_name error = bytes "error"

-- A text that names no status is outside the model.
as_status : Text → Option SessionStatus
as_status s =
    if text_eqb s (bytes "running")
    then some running
    else if text_eqb s (bytes "exited")
    then some exited
    else if text_eqb s (bytes "error")
    then some error
    else none

status_of : Value → Option SessionStatus
unfolding as_status
status_of v = do s ← as_text v; as_status s

-- A slice of strings; `no_items` is written as null.
args_to_json : List Text → Value
unfolding items
args_to_json [] = null
args_to_json (a ∷ args) = arr (items text (a ∷ args))

-- `ExitCode` is a pointer.
code_to_json : Option ℤ → Value
code_to_json none = null
code_to_json (some code) = num code

code_of : Value → Option (Option ℤ)
code_of null = some none
code_of (num code) = some (some code)
code_of _ = none

pub session_to_json : Session → Value
session_to_json s = obj (
    member (bytes "id") (text s.id) (
      member (bytes "name") (text s.name) (
        member (bytes "command") (text s.command) (
          member (bytes "args") (args_to_json s.args) (
            member (bytes "mode") (text s.mode) (
              member (bytes "status") (str (status_name s.status)) (
                member (bytes "exit_code") (code_to_json s.exit_code) (
                  member (bytes "pid") (num s.pid) (
                    member (bytes "created_at") (instant s.created_at) (
                      member (bytes "updated_at") (instant s.updated_at) (
                        member (bytes "rows") (num s.rows)
                          (member (bytes "cols") (num s.cols) no_fields))))))))))))

session_of_fields : Fields → Option Session
unfolding lookup as_text as_int as_instant
session_of_fields fs = do
  id ← as_text (lookup (bytes "id") fs)
  name ← as_text (lookup (bytes "name") fs)
  command ← as_text (lookup (bytes "command") fs)
  args ← as_list as_text (lookup (bytes "args") fs)
  mode ← as_text (lookup (bytes "mode") fs)
  status ← status_of (lookup (bytes "status") fs)
  exit_code ← code_of (lookup (bytes "exit_code") fs)
  pid ← as_int (lookup (bytes "pid") fs)
  created_at ← as_instant (lookup (bytes "created_at") fs)
  updated_at ← as_instant (lookup (bytes "updated_at") fs)
  rows ← as_int (lookup (bytes "rows") fs)
  cols ← as_int (lookup (bytes "cols") fs)
  some (record {
    id = id;
    name = name;
    command = command;
    args = args;
    mode = mode;
    status = status;
    exit_code = exit_code;
    pid = pid;
    created_at = created_at;
    updated_at = updated_at;
    rows = rows;
    cols = cols;
  })

pub session_of_json : Value → Option Session
unfolding session_of_fields
session_of_json (obj fs) = session_of_fields fs
session_of_json _ = none

-- What marshalling keeps of a session: its texts as valid UTF-8.
abbrev pub valid_session : Session → Session
valid_session s = record s {
  id = to_valid s.id;
  name = to_valid s.name;
  command = to_valid s.command;
  args = map to_valid s.args;
  mode = to_valid s.mode;
}

status_of-status_name : (t : SessionStatus) → status_of (str (status_name t)) ≡ some t
unfolding status_of as_text
status_of-status_name running = refl
status_of-status_name exited = refl
status_of-status_name error = refl

code_of-to_json : (c : Option ℤ) → code_of (code_to_json c) ≡ some c
unfolding code_of code_to_json
code_of-to_json none = refl
code_of-to_json (some c) = refl

texts-items : (ts : List Text) → all_items as_text (items text ts) ≡ some (map to_valid ts)
unfolding all_items items as_text
texts-items [] = refl
texts-items (t ∷ ts) = rw (texts-items ts)

args-to_json : (ts : List Text) → as_list as_text (args_to_json ts) ≡ some (map to_valid ts)
unfolding args_to_json as_list
args-to_json [] = refl
args-to_json (t ∷ ts) = texts-items (t ∷ ts)

-- A stored session reads back with its texts made valid UTF-8, and all else as it was.
pub session_of_json-to_json :
    (s : Session) → session_of_json (session_to_json s) ≡ some (valid_session s)
unfolding session_of_json session_to_json
session_of_json-to_json s =
    rw (args-to_json s.args, status_of-status_name s.status, code_of-to_json s.exit_code)

unfoldable pub sessions_to_json : List Session → Value
unfolding items
sessions_to_json ss = arr (items session_to_json ss)

unfoldable pub sessions_of_json : Value → Option (List Session)
unfolding as_list
sessions_of_json = as_list session_of_json

sessions-items :
    (ss : List Session)
    → all_items session_of_json (items session_to_json ss) ≡ some (map valid_session ss)
unfolding all_items items
sessions-items [] = refl
sessions-items (s ∷ ss) = rw (session_of_json-to_json s, sessions-items ss)

-- So does the list of sessions.
pub sessions_of_json-to_json :
    (ss : List Session) → sessions_of_json (sessions_to_json ss) ≡ some (map valid_session ss)
unfolding sessions_of_json sessions_to_json
sessions_of_json-to_json ss = sessions-items ss
