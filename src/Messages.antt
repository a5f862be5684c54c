-- ===== src/Messages.antt =====
-- internal/message/message.go. The manager's state is the store's file system; the lock of a session
-- makes the update of its index one step. IDs come from the uuid package and times from the clock.
pub mod Append
pub mod Growth
pub mod Interleaved
pub mod Log
pub mod Mutexes
mod Tests
use interactive_process_mcp.Prelude.{Bool, ℕ, List, [], ◌∷◌, ◌++◌, Text, length}
use interactive_process_mcp.Api.{MsgType, Message, MessageIndexEntry}
use interactive_process_mcp.Storage.{
  Result, ok, err, Error, Fs, Env, save_message, load_message_index, save_message_index,
  load_message, load_messages,
}

-- What a call of `Append` meets: the new ID, the time, whether the index can be read, and the answers
-- of the system to its two writes.
pub record Call : Type 0 where
  pub id : Text
  pub now : ℕ
  pub readable : Bool
  pub message_env : Env
  pub index_env : Env

abbrev pub message_for : Call → Text → MsgType → Text → Message
message_for call session type content = record {
  id = call.id;
  session_id = session;
  type = type;
  content = content;
  created_at = call.now;
  byte_size = length content;
}

abbrev pub entry_for : Message → MessageIndexEntry
entry_for msg = record {
  id = msg.id;
  type = msg.type;
  created_at = msg.created_at;
  byte_size = msg.byte_size;
}

-- An index that cannot be loaded counts as empty.
abbrev pub or_none : Result (List MessageIndexEntry) → List MessageIndexEntry
or_none (ok entries) = entries
or_none (err e) = []

abbrev pub replied : Message → Result (Unit {0}) × Fs → Result Message × Fs
replied msg (ok _, fs) = (ok msg, fs)
replied msg (err e, fs) = (err e, fs)

module _ (root : Text) where
  -- `Append` behind the write of the message.
  unfoldable pub add_to_index : Call → Text → Message → Fs → Result Message × Fs
  add_to_index call session msg fs =
      let entries : List MessageIndexEntry =
        or_none (load_message_index root call.readable session fs) in
      replied msg
        (save_message_index root call.index_env session (entries ++ entry_for msg ∷ []) fs)

  abbrev pub then_index : Call → Text → Message → Result (Unit {0}) × Fs → Result Message × Fs
  then_index call session msg (ok _, fs) = add_to_index call session msg fs
  then_index call session msg (err e, fs) = (err e, fs)

  unfoldable pub append : Call → Text → MsgType → Text → Fs → Result Message × Fs
  append call session type content fs =
      let msg : Message = message_for call session type content in
      then_index call session msg (save_message root call.message_env session msg fs)

  -- `List`.
  unfoldable pub list : Bool → Text → Fs → Result (List MessageIndexEntry)
  list readable session fs = load_message_index root readable session fs

  -- `Get`.
  unfoldable pub get_one : Bool → Text → Text → Fs → Result Message
  get_one readable session id fs = load_message root readable session id fs

  -- `GetMany`.
  unfoldable pub get_many : Bool → Text → List Text → Fs → List Message
  get_many readable session ids fs = load_messages root readable session ids fs
