-- ===== src/Messages/Log.antt =====
-- Calls of `Append` of internal/message/message.go, one behind the other, with the messages that they
-- reported as recorded, the oldest first.
pub mod Entries
pub mod Refines
pub mod Tracks
use interactive_process_mcp.Prelude.{
  ◌≡◌, ◌≢◌, refl, true, List, [], ◌∷◌, ◌++◌, Text, All, ◌==◌, text_eq, if◌then◌else◌,
}
use interactive_process_mcp.Api.{MsgType, Message, MessageIndexEntry}
use interactive_process_mcp.Storage.{Result, ok, err, Fs}
use interactive_process_mcp.Storage.Log.{IsApart}
use interactive_process_mcp.Messages.{Call, entry_for, append}

pub record Post : Type 0 where
  pub call : Call
  pub session : Text
  pub type : MsgType
  pub content : Text

-- A session and a message of it.
abbrev pub Recorded : Type 0
Recorded = Text × Message

abbrev pub with_reply : Text → Result Message → List Recorded → List Recorded
with_reply session (ok msg) log = log ++ (session, msg) ∷ []
with_reply session (err e) log = log

unfoldable pub append_all : Text → List Post → Fs × List Recorded → Fs × List Recorded
append_all root [] st = st
append_all root (p ∷ posts) (fs, log) =
    let r : Result Message × Fs = append root p.call p.session p.type p.content fs in
    append_all root posts (r.1, with_reply p.session r.0 log)

-- The entries of a session, in the order of the calls.
unfoldable pub entries_of : Text → List Recorded → List MessageIndexEntry
entries_of session [] = []
entries_of session ((other, msg) ∷ log) =
    let rest = entries_of session log in if other == session then entry_for msg ∷ rest else rest

-- The system lets the index be read, and names its temporary files as none of the store's.
pub record Fits (root : Text) (call : Call) : Type 0 where
  pub readable : call.readable ≡ true
  pub message : IsApart root call.message_env
  pub index : IsApart root call.index_env

-- Every call gets an ID of its own.
abbrev pub AreFresh : List Post → Type 0
AreFresh [] = Unit
AreFresh (p ∷ posts) = All (λ (q : Post). p.call.id ≢ q.call.id) posts × AreFresh posts
