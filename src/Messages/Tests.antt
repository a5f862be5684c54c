-- ===== src/Messages/Tests.antt =====
-- A call of `Append` of internal/message/message.go, and the theorem about it.
use interactive_process_mcp.Prelude.{
  ◌≡◌, refl, true, [], ◌∷◌, ◌++◌, bytes, map, all, List, Text, ◌↔◌, ℕ, arith,
}
use interactive_process_mcp.Prelude.Assoc.{get, put, remove}
use interactive_process_mcp.Api.{Message, msg_input}
use interactive_process_mcp.Api.Documents.{valid_message, valid_entry}
use interactive_process_mcp.Storage.Samples.{good, no_rename, good-IsApart, no_rename-IsApart}
use interactive_process_mcp.Storage.{
  ok, load_message_index, save_message, save_message_index, save, atomic_write, plan, act, act_all,
  validate_id, is_valid_id, read_document, or_empty,
}
use interactive_process_mcp.Messages.{
  Call, message_for, entry_for, or_none, append, add_to_index, list, get_one,
}
use interactive_process_mcp.Messages.Append.{AreApart, append_lem}
use interactive_process_mcp.Messages.Mutexes.{
  Mutexes, no_mutexes, session_lock, session_locks, session_lock-same,
}
use interactive_process_mcp.Messages.Log.{Post, append_all, entries_of}
use interactive_process_mcp.Messages.Log.Refines.{IsRecorded, append_all-IsRecorded}

abbrev first_call : Call
first_call = record {
  id = bytes "m1";
  now = 7;
  readable = true;
  message_env = good;
  index_env = good;
}

abbrev first_message : Message
first_message = message_for first_call (bytes "s1") msg_input (bytes "hi")

first_AreApart : AreApart (bytes "data/") first_call (bytes "s1")
first_AreApart = record {
  message = refl;
  index = refl;
  index_of_message = refl;
  message_of_index = refl;
}

appended :
    (append (bytes "data/") first_call (bytes "s1") msg_input (bytes "hi") []).0 ≡ ok first_message
unfolding append add_to_index save_message save_message_index load_message_index save atomic_write
    plan act act_all validate_id is_valid_id all read_document or_empty get put remove
appended = refl

append_lem_example :
    (first_message ≡ first_message)
    × (list
          (bytes "data/")
          true
          (bytes "s1")
          (append (bytes "data/") first_call (bytes "s1") msg_input (bytes "hi") []).1
        ≡ ok (
            map valid_entry (
              or_none (load_message_index (bytes "data/") true (bytes "s1") [])
              ++ entry_for first_message ∷ [])))
    × (get_one
          (bytes "data/")
          true
          (bytes "s1")
          (bytes "m1")
          (append (bytes "data/") first_call (bytes "s1") msg_input (bytes "hi") []).1
        ≡ ok (valid_message first_message))
append_lem_example =
    append_lem (bytes "data/") first_call (bytes "s1") msg_input (bytes "hi") [] first_message
      first_AreApart appended

abbrev earlier : List Text
earlier = bytes "s2" ∷ bytes "s1" ∷ []

session_lock-same_example :
    let first : ℕ × Mutexes = session_lock (bytes "s1") (session_locks earlier no_mutexes) in
    let second : ℕ × Mutexes = session_lock (bytes "s2") (session_locks earlier first.1) in
    (first.0 ≡ second.0) ↔ (bytes "s1" ≡ bytes "s2")
session_lock-same_example = session_lock-same earlier earlier (bytes "s1") (bytes "s2")

-- The last of three calls cannot put its index into place.
abbrev posts : List Post
posts =
    record { call = first_call; session = bytes "s1"; type = msg_input; content = bytes "hi" }
    ∷ record {
      call = record first_call { id = bytes "m2" };
      session = bytes "s2";
      type = msg_input;
      content = bytes "ls";
    }
    ∷ record {
      call = record first_call { id = bytes "m3"; index_env = no_rename };
      session = bytes "s1";
      type = msg_input;
      content = bytes "exit";
    }
    ∷ []

append_all-IsRecorded_example :
    IsRecorded
      (bytes "data/")
      (append_all (bytes "data/") posts ([], [])).0
      (append_all (bytes "data/") posts ([], [])).1
append_all-IsRecorded_example =
    append_all-IsRecorded (bytes "data/") posts
      (
        record { readable = refl; message = good-IsApart; index = good-IsApart },
        (
          record { readable = refl; message = good-IsApart; index = good-IsApart },
          (record { readable = refl; message = good-IsApart; index = no_rename-IsApart }, tt),
        ),
      )
      (
        (λ e. ground (arith, e), (λ e. ground (arith, e), tt)),
        ((λ e. ground (arith, e), tt), (tt, tt)),
      )

posts_recorded :
    entries_of (bytes "s1") (append_all (bytes "data/") posts ([], [])).1
    ≡ entry_for first_message ∷ []
unfolding append_all entries_of append add_to_index save_message save_message_index
    load_message_index save atomic_write plan act act_all validate_id is_valid_id all read_document
    or_empty get put remove
posts_recorded = refl
