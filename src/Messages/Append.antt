-- ===== src/Messages/Append.antt =====
-- `Append` of internal/message/message.go: what is listed and read afterwards.
use interactive_process_mcp.Prelude.{
  ◌≡◌, refl, ◌∙◌, ap, true, false, List, [], ◌∷◌, ◌++◌, map, Text, ◌==◌, text_eq, arith,
}
use interactive_process_mcp.Api.{MsgType, Message, MessageIndexEntry}
use interactive_process_mcp.Api.Documents.{valid_message, valid_entry}
use interactive_process_mcp.Storage.{
  Result, ok, err, Fs, save_message, load_message_index, save_message_index, index_path,
  message_path,
}
use interactive_process_mcp.Storage.Atomic.{is_ok}
use interactive_process_mcp.Storage.RoundTrip.{load-save_message_index, load-save_message}
use interactive_process_mcp.Storage.Paths.{
  load_message_index-save_message, load_message-save_message_index,
}
use interactive_process_mcp.Messages.{
  Call, message_for, entry_for, or_none, replied, add_to_index, then_index, append, list, get_one,
}

-- The names that the system picks for temporary files are no names of the store's files in question.
pub record AreApart (root : Text) (call : Call) (session : Text) : Type 0 where
  pub message : (call.message_env.temp == message_path root session call.id) ≡ false
  pub index : (call.index_env.temp == index_path root session) ≡ false
  pub index_of_message : (call.message_env.temp == index_path root session) ≡ false
  pub message_of_index : (call.index_env.temp == message_path root session call.id) ≡ false

replied_ok :
    (msg : Message) (r : Result (Unit {0}) × Fs) (m : Message)
    → (replied msg r).0 ≡ ok m
    → (is_ok r.0 ≡ true) × (m ≡ msg) × ((replied msg r).1 ≡ r.1)
replied_ok msg (ok _, fs) m h = (refl, ground (arith, h), refl)
replied_ok msg (err e, fs) m h = cc

module _ (root : Text) (call : Call) (session : Text) (type : MsgType) (content : Text)
    (fs : Fs) where
  abbrev msg : Message
  msg = message_for call session type content

  abbrev first : Result (Unit {0}) × Fs
  first = save_message root call.message_env session msg fs

  abbrev listed : List MessageIndexEntry
  listed = or_none (load_message_index root call.readable session fs) ++ entry_for msg ∷ []

  index_first :
      AreApart root call session
      → load_message_index root call.readable session first.1
        ≡ load_message_index root call.readable session fs
  index_first a =
      load_message_index-save_message root call.message_env fs call.readable session msg session
        a.index_of_message

  then_index_ok :
      (r : Result (Unit {0}) × Fs) (m : Message)
      → (then_index root call session msg r).0 ≡ ok m
      → (is_ok r.0 ≡ true)
        × (then_index root call session msg r ≡ add_to_index root call session msg r.1)
  then_index_ok (ok _, fs') m h = (refl, refl)
  then_index_ok (err e, fs') m h = cc

  -- After a successful Append the index has one entry more, at its end, and all else that it had,
  -- texts made valid UTF-8; an index that could not be loaded counts as empty. The message is read
  -- back under its ID, and is the one that was returned.
  pub append_lem :
      (m : Message)
      → AreApart root call session
      → (append root call session type content fs).0 ≡ ok m
      → (m ≡ msg)
        × (list root true session (append root call session type content fs).1
            ≡ ok (map valid_entry listed))
        × (get_one root true session call.id (append root call session type content fs).1
            ≡ ok (valid_message msg))
  unfolding append list get_one
  append_lem m a h =
      let (saved, e) = then_index_ok first m h in
      let result : Result (Unit {0}) × Fs =
        save_message_index root call.index_env session
          (or_none (load_message_index root call.readable session first.1) ++ entry_for msg ∷ [])
          first.1 in
      let inner = replied_ok msg result m (unfold add_to_index in (rw e at h)) in
      let after : (append root call session type content fs).1 ≡ result.1 =
        ap (λ r. r.1) e ∙ unfold add_to_index in inner.2 in
      (
        inner.1,
        rw after (
            load-save_message_index root call.index_env first.1 session _ a.index inner.0
            ∙ rw (index_first a)),
        rw after (
            load_message-save_message_index root call.index_env first.1 true session _ session
              call.id a.message_of_index
            ∙ load-save_message root call.message_env fs session msg a.message saved),
      )
