-- ===== src/Storage/Log/Kept.antt =====
-- What is loaded behind one save.
use interactive_process_mcp.Prelude.{
  ◌≡◌, ◌≢◌, refl, ◌∙◌, sym, true, false, ◌&&◌, Option, none, some, List, [], ◌∷◌, Text, inl, inr,
  Bool-cases, ◌==◌, text_eq, text_eqb_iff, arith, map,
}
use interactive_process_mcp.Prelude.Assoc.{get}
use interactive_process_mcp.Api.{Message}
use interactive_process_mcp.Api.Documents.{valid_message, valid_entry}
use interactive_process_mcp.Api.Sessions.{valid_session}
use interactive_process_mcp.Storage.{
  Result, ok, err, not_exist, Fs, Env, is_valid_id, load_sessions, load_message_index, load_message,
  read_document, or_empty, validate_id, sessions_path, index_path, message_path,
}
use interactive_process_mcp.Storage.Atomic.{is_ok}
use interactive_process_mcp.Storage.RoundTrip.{
  load-save_sessions, load-save_message_index, load-save_message,
}
use interactive_process_mcp.Storage.Paths.{
  load_same, load_index_same, text_ne, message_path-injective, message_path-ne-index_path,
}
use interactive_process_mcp.Storage.Log.{
  Saved, saves_sessions, saves_index, saves_message, place, perform, IsApart, last_sessions,
  last_index, last_message,
}
use interactive_process_mcp.Storage.Log.Places.{
  sessions_path-ne-index_path, sessions_path-ne-message_path, index_path-injective, HasValidIds,
  get-perform_ne,
}

-- A message that was never saved does not exist.
unfoldable pub loaded : Option Message → Result Message
loaded none = err not_exist
loaded (some msg) = ok (valid_message msg)

module _ (root : Text) where
  -- The files and the log agree.
  pub record IsLogged (fs : Fs) (log : List Saved) : Type 0 where
    pub sessions_are : load_sessions root true fs ≡ ok (map valid_session (last_sessions log))
    pub index_is :
        (session : Text)
        → is_valid_id session ≡ true
        → load_message_index root true session fs ≡ ok (map valid_entry (last_index session log))
    pub message_is :
        (session id : Text)
        → is_valid_id session ≡ true
        → is_valid_id id ≡ true
        → load_message root true session id fs ≡ loaded (last_message session id log)

  pub empty-IsLogged : IsLogged [] []
  unfolding load_sessions load_message_index load_message read_document or_empty validate_id
      last_sessions last_index last_message loaded get
  empty-IsLogged = record {
    sessions_are = refl;
    index_is = λ session vs. rw vs refl;
    message_is = λ session id vs vi. rw (vs, vi) refl;
  }

  load_sessions_same :
      (fs fs' : Fs)
      → get (sessions_path root) fs ≡ get (sessions_path root) fs'
      → load_sessions root true fs ≡ load_sessions root true fs'
  unfolding load_sessions read_document
  load_sessions_same fs fs' e = rw (e, read_document)

  -- A save that fails changes nothing that can be read.
  pub failed-IsLogged :
      (env : Env) (op : Saved) (fs : Fs) (log : List Saved)
      → IsApart root env
      → is_ok (perform root env op fs).0 ≡ false
      → IsLogged fs log
      → IsLogged (perform root env op fs).1 log
  failed-IsLogged env op fs log apart failed h = record {
    sessions_are =
        load_sessions_same _ fs (
          get-perform_ne root env op fs _ apart.from_sessions
            (λ done. ground (arith, done, failed)))
        ∙ h.sessions_are;
    index_is = λ session vs.
        load_index_same root true session _ fs (λ v.
          get-perform_ne root env op fs _ (apart.from_index session)
            (λ done. ground (arith, done, failed)))
        ∙ h.index_is session vs;
    message_is = λ session id vs vi.
        load_same root true session id _ fs (λ v w.
          get-perform_ne root env op fs _ (apart.from_message session id)
            (λ done. ground (arith, done, failed)))
        ∙ h.message_is session id vs vi;
  }

  pub sessions_after :
      (env : Env) (op : Saved) (fs : Fs) (log : List Saved)
      → IsApart root env
      → is_ok (perform root env op fs).0 ≡ true
      → IsLogged fs log
      → load_sessions root true (perform root env op fs).1
        ≡ ok (map valid_session (last_sessions (op ∷ log)))
  unfolding last_sessions
  sessions_after env (saves_sessions sessions) fs log apart done h =
      load-save_sessions root env fs sessions apart.from_sessions done
  sessions_after env (saves_index session entries) fs log apart done h =
      load_sessions_same _ fs (
        get-perform_ne root env (saves_index session entries) fs _ apart.from_sessions
          (λ _. text_ne _ _ (λ e. sessions_path-ne-index_path root session (sym e))))
      ∙ h.sessions_are
  sessions_after env (saves_message session msg) fs log apart done h =
      load_sessions_same _ fs (
        get-perform_ne root env (saves_message session msg) fs _ apart.from_sessions
          (λ _. text_ne _ _ (λ e. sessions_path-ne-message_path root session msg.id (sym e))))
      ∙ h.sessions_are

  index_elsewhere :
      (env : Env) (op : Saved) (fs : Fs) (log : List Saved) (s : Text)
      → IsApart root env
      → (is_ok (perform root env op fs).0 ≡ true → place root op ≢ index_path root s)
      → is_valid_id s ≡ true
      → IsLogged fs log
      → load_message_index root true s (perform root env op fs).1
        ≡ ok (map valid_entry (last_index s log))
  index_elsewhere env op fs log s apart other vs h =
      load_index_same root true s _ fs
        (λ v. get-perform_ne root env op fs _ (apart.from_index s) λ done. text_ne _ _ (other done))
      ∙ h.index_is s vs

  pub index_after :
      (env : Env) (op : Saved) (fs : Fs) (log : List Saved) (s : Text)
      → IsApart root env
      → is_ok (perform root env op fs).0 ≡ true
      → HasValidIds op
      → is_valid_id s ≡ true
      → IsLogged fs log
      → load_message_index root true s (perform root env op fs).1
        ≡ ok (map valid_entry (last_index s (op ∷ log)))
  unfolding last_index
  index_after env (saves_sessions sessions) fs log s apart done ids vs h =
      index_elsewhere env (saves_sessions sessions) fs log s apart
        (λ _. sessions_path-ne-index_path root s) vs h
  index_after env (saves_message session msg) fs log s apart done (v, w) vs h =
      index_elsewhere env (saves_message session msg) fs log s apart
        (λ _. message_path-ne-index_path root session msg.id s v vs) vs h
  index_after env (saves_index session entries) fs log s apart done ids vs h =
      elim (Bool-cases (session == s)) [
        | inl same ↦
            rw (same, sym ((text_eqb_iff session s).0 same))
              (load-save_message_index root env fs session entries (apart.from_index session) done)
        | inr other ↦ rw other (
            index_elsewhere env (saves_index session entries) fs log s apart
              (λ _ e. ground (
                arith,
                other,
                (text_eqb_iff session s).1 (index_path-injective root session s ids vs e),
              ))
              vs h)
      ]

  message_elsewhere :
      (env : Env) (op : Saved) (fs : Fs) (log : List Saved) (s id : Text)
      → IsApart root env
      → (is_ok (perform root env op fs).0 ≡ true → place root op ≢ message_path root s id)
      → is_valid_id s ≡ true
      → is_valid_id id ≡ true
      → IsLogged fs log
      → load_message root true s id (perform root env op fs).1 ≡ loaded (last_message s id log)
  message_elsewhere env op fs log s id apart other vs vi h =
      load_same root true s id _ fs (λ v w.
        get-perform_ne root env op fs _ (apart.from_message s id) λ done. text_ne _ _ (other done))
      ∙ h.message_is s id vs vi

  pub message_after :
      (env : Env) (op : Saved) (fs : Fs) (log : List Saved) (s id : Text)
      → IsApart root env
      → is_ok (perform root env op fs).0 ≡ true
      → HasValidIds op
      → is_valid_id s ≡ true
      → is_valid_id id ≡ true
      → IsLogged fs log
      → load_message root true s id (perform root env op fs).1
        ≡ loaded (last_message s id (op ∷ log))
  unfolding last_message loaded
  message_after env (saves_sessions sessions) fs log s id apart done ids vs vi h =
      message_elsewhere env (saves_sessions sessions) fs log s id apart
        (λ _. sessions_path-ne-message_path root s id) vs vi h
  message_after env (saves_index session entries) fs log s id apart done ids vs vi h =
      message_elsewhere env (saves_index session entries) fs log s id apart
        (λ _ e. message_path-ne-index_path root s id session vs ids (sym e)) vs vi h
  message_after env (saves_message session msg) fs log s id apart done (v, w) vs vi h =
      elim (Bool-cases ((session == s) && (msg.id == id))) [
        | inl same ↦
            rw
              (
                same,
                sym ((text_eqb_iff session s).0 (ground (arith, same))),
                sym ((text_eqb_iff msg.id id).0 (ground (arith, same))),
              )
              (load-save_message root env fs session msg (apart.from_message session msg.id) done)
        | inr other ↦ rw other (
            message_elsewhere env (saves_message session msg) fs log s id apart
              (λ _ e.
                let both = message_path-injective root session msg.id s id v w vs vi e in
                ground (
                  arith,
                  other,
                  (text_eqb_iff session s).1 both.0,
                  (text_eqb_iff msg.id id).1 both.1,
                ))
              vs vi h)
      ]
