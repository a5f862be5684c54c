-- ===== src/Storage/RoundTrip.antt =====
-- Saving and loading in internal/storage/store.go.
use interactive_process_mcp.Prelude.{
  ◌≡◌, refl, ◌∙◌, true, false, ◌&&◌, some, List, map, Text, Option, if_cases, if◌then◌else◌, ◌==◌,
  text_eq, text_eqb_refl,
}
use interactive_process_mcp.Prelude.Assoc.{get}
use interactive_process_mcp.Json.{Value, document}
use interactive_process_mcp.Api.{Session, Message, MessageIndexEntry}
use interactive_process_mcp.Api.Documents.{
  message_of_json, entries_of_json, valid_message, valid_entry, message_of_json-to_json,
  entries_of_json-to_json,
}
use interactive_process_mcp.Api.Sessions.{sessions_of_json, valid_session, sessions_of_json-to_json}
use interactive_process_mcp.Storage.{
  Result, ok, err, checked, Fs, Env, validate_id, save, read_document, or_empty, sessions_path,
  index_path, message_path, save_sessions, load_sessions, save_message_index, load_message_index,
  save_message, load_message,
}
use interactive_process_mcp.Storage.Atomic.{is_ok, get-atomic_write}

pub get-save :
    (env : Env) (path : Text) (v : Value) (fs : Fs) (q : Text)
    → (env.temp == q) ≡ false
    → get q (save env path v fs).1
      ≡ (if is_ok (save env path v fs).0 && path == q then some (document v) else get q fs)
unfolding save
get-save env path v fs q apart =
    if_cases
      (λ (r : Result (Unit {0}) × Fs).
        get q r.1 ≡ (if is_ok r.0 && path == q then some (document v) else get q fs))
      env.mkdir_ok (λ _. get-atomic_write env path v fs q apart) (λ _. refl)

pub checked_ok :
    (r : Result (Unit {0})) (fs : Fs) (s : Result (Unit {0}) × Fs)
    → is_ok (checked r fs s).0 ≡ true
    → r ≡ ok tt
checked_ok (ok _) fs s h = refl
checked_ok (err e) fs s h = cc

-- What a successful save leaves is read back, where the system lets it be read.
module _ {ℓ} {A : Type ℓ} (env : Env) (fs : Fs) (path : Text) (v : Value) where
  saved :
      (decode : Value → Option A) (a : A)
      → (env.temp == path) ≡ false
      → is_ok (save env path v fs).0 ≡ true
      → decode v ≡ some a
      → read_document true decode path (save env path v fs).1 ≡ ok a
  unfolding read_document
  saved decode a apart done e =
      let there : get path (save env path v fs).1 ≡ some (document v) =
        get-save env path v fs path apart ∙ rw (done, text_eqb_refl path) in
      rw (there, read_document) (rw (e, read_document))

module _ (root : Text) (env : Env) (fs : Fs) where
  -- A list of sessions that was saved without an error is loaded again, its texts made valid UTF-8.
  pub load-save_sessions :
      (sessions : List Session)
      → (env.temp == sessions_path root) ≡ false
      → is_ok (save_sessions root env sessions fs).0 ≡ true
      → load_sessions root true (save_sessions root env sessions fs).1
        ≡ ok (map valid_session sessions)
  unfolding save_sessions load_sessions
  load-save_sessions sessions apart done =
      rw (saved env fs _ _ sessions_of_json _ apart done (sessions_of_json-to_json sessions))
        (unfold or_empty in refl)

  -- So is an index.
  pub load-save_message_index :
      (session : Text) (entries : List MessageIndexEntry)
      → (env.temp == index_path root session) ≡ false
      → is_ok (save_message_index root env session entries fs).0 ≡ true
      → load_message_index root true session (save_message_index root env session entries fs).1
        ≡ ok (map valid_entry entries)
  unfolding save_message_index load_message_index
  load-save_message_index session entries apart done =
      let valid = checked_ok (validate_id session) fs _ done in
      rw
        (
          valid,
          saved env fs _ _ entries_of_json _ apart (rw valid at done)
              (entries_of_json-to_json entries),
        )
        (unfold or_empty in refl)

  -- A message that was saved without an error is loaded again under its ID, its texts made valid
  -- UTF-8.
  pub load-save_message :
      (session : Text) (msg : Message)
      → (env.temp == message_path root session msg.id) ≡ false
      → is_ok (save_message root env session msg fs).0 ≡ true
      → load_message root true session msg.id (save_message root env session msg fs).1
        ≡ ok (valid_message msg)
  unfolding save_message load_message
  load-save_message session msg apart done =
      let valid = checked_ok (validate_id session) fs _ done in
      let valid_msg = checked_ok (validate_id msg.id) fs _ (rw valid at done) in
      rw (valid, valid_msg)
        (saved env fs _ _ message_of_json _ apart (rw (valid, valid_msg) at done)
          (message_of_json-to_json msg))
