-- ===== src/Storage/Tests.antt =====
-- Runs of internal/storage/store.go, and the theorems at concrete inputs.
use interactive_process_mcp.Prelude.{
  ◌≡◌, ◌≢◌, refl, ◌⊎◌, true, false, pos, none, some, List, [], ◌∷◌, Text, bytes, take, all, ◌==◌,
  text_eq, arith,
}
use interactive_process_mcp.Prelude.Assoc.{get}
use interactive_process_mcp.Json.{document, raw, num}
use interactive_process_mcp.Api.{Session, running, mode_pty, Message, msg_input}
use interactive_process_mcp.Storage.Samples.{good, no_rename, good-IsApart}
use interactive_process_mcp.Storage.{
  Fs, Env, is_valid_id, act_all, plan, atomic_write, save, save_sessions, save_message, validate_id,
}
use interactive_process_mcp.Storage.Atomic.{crash-IsAtomic}
use interactive_process_mcp.Storage.Log.{Saved, saves_sessions, saves_message, perform_all}
use interactive_process_mcp.Storage.Log.Kept.{IsLogged}
use interactive_process_mcp.Storage.Log.Refines.{perform_all-IsLogged}

abbrev greeting : Message
greeting = record {
  id = bytes "m1";
  session_id = bytes "s1";
  type = msg_input;
  content = bytes "hi";
  created_at = 5;
  byte_size = 2;
}

abbrev shell : Session
shell = record {
  id = bytes "s1";
  name = bytes "sh";
  command = bytes "sh";
  args = [];
  mode = mode_pty;
  status = running;
  exit_code = none;
  pid = pos 0;
  created_at = 1;
  updated_at = 2;
  rows = pos 24;
  cols = pos 80;
}

abbrev target : Text
target = bytes "data/x.json"

abbrev before : Fs
before = (target, raw (bytes "old")) ∷ []

traversal_refused : is_valid_id (bytes "../etc") ≡ false
unfolding is_valid_id all
traversal_refused = refl

crash-IsAtomic_example :
    (get target (act_all (take 2 (plan good target (document (num (pos 1)))).0) before)
      ≡ get target before)
    ⊎ ((get target (act_all (take 2 (plan good target (document (num (pos 1)))).0) before)
          ≡ some (document (num (pos 1))))
        × ((target == target) ≡ true))
crash-IsAtomic_example = crash-IsAtomic good target (num (pos 1)) before 2 target refl

abbrev three_saves : List (Env × Saved)
three_saves =
    (good, saves_sessions (shell ∷ []))
    ∷ (good, saves_message (bytes "s1") greeting)
    ∷ (no_rename, saves_sessions [])
    ∷ []

-- The list was saved twice, the second time in vain.
three_saves_log :
    (perform_all (bytes "data/") three_saves ([], [])).1
    ≡ saves_message (bytes "s1") greeting ∷ saves_sessions (shell ∷ []) ∷ []
unfolding perform_all save_sessions save_message save atomic_write plan validate_id is_valid_id all
three_saves_log = refl

perform_all-IsLogged_example :
    IsLogged
      (bytes "data/")
      (perform_all (bytes "data/") three_saves ([], [])).0
      (perform_all (bytes "data/") three_saves ([], [])).1
perform_all-IsLogged_example = perform_all-IsLogged (bytes "data/") three_saves (
  good-IsApart,
  (
    good-IsApart,
    (
      record {
        from_sessions = good-IsApart.from_sessions;
        from_index = good-IsApart.from_index;
        from_message = good-IsApart.from_message;
      },
      tt,
    ),
  ),
)

s1_ne_s2 : ◌≢◌ {A = Text} (bytes "s1") (bytes "s2")
s1_ne_s2 e = ground (arith, e)
