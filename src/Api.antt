-- ===== src/Api.antt =====
-- pkg/api/types.go: the data that the program keeps, and the JSON documents that its tags describe.
-- An instant is a number; a `nil` slice and an empty one are the same here.
pub mod Documents
pub mod Sessions
use interactive_process_mcp.Prelude.{ℕ, ℤ, Text, Option, List, bytes}

pub data SessionStatus : Type 0 where
  running exited error : SessionStatus

-- Any text: a client's argument becomes a mode.
abbrev pub SessionMode : Type 0
SessionMode = Text

abbrev pub mode_pty : SessionMode
mode_pty = bytes "pty"

abbrev pub mode_pipe : SessionMode
mode_pipe = bytes "pipe"

pub record Session : Type 0 where
  pub id : Text
  pub name : Text
  pub command : Text
  pub args : List Text
  pub mode : SessionMode
  pub status : SessionStatus
  pub exit_code : Option ℤ
  pub pid : ℤ
  pub created_at : ℕ
  pub updated_at : ℕ
  pub rows : ℤ
  pub cols : ℤ

pub data MsgType : Type 0 where
  msg_input msg_output msg_system : MsgType

pub record Message : Type 0 where
  pub id : Text
  pub session_id : Text
  pub type : MsgType
  pub content : Text
  pub created_at : ℕ
  pub byte_size : ℕ

pub record MessageIndexEntry : Type 0 where
  pub id : Text
  pub type : MsgType
  pub created_at : ℕ
  pub byte_size : ℕ
