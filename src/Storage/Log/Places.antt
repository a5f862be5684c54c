-- ===== src/Storage/Log/Places.antt =====
-- The places of the files of internal/storage/store.go, and what a save does to the other places.
use interactive_process_mcp.Prelude.{
  ◌≡◌, ◌≢◌, ◌∙◌, true, false, Text, bytes, inl, inr, Bool-cases, ◌==◌, text_eq, arith,
}
use interactive_process_mcp.Prelude.Assoc.{get}
use interactive_process_mcp.Storage.{
  Fs, Env, is_valid_id, validate_id, sessions_path, index_path, message_path, save_sessions,
  save_message_index, save_message,
}
use interactive_process_mcp.Storage.Atomic.{is_ok}
use interactive_process_mcp.Storage.RoundTrip.{get-save}
use interactive_process_mcp.Storage.Paths.{append_cancel, cut, valid_avoids_slash, valid_bytes}
use interactive_process_mcp.Storage.Log.{
  Saved, saves_sessions, saves_index, saves_message, place, perform,
}

pub sessions_path-ne-index_path :
    (root session : Text) → sessions_path root ≢ index_path root session
sessions_path-ne-index_path root session e = ground (arith, append_cancel root _ _ e)

pub sessions_path-ne-message_path :
    (root session id : Text) → sessions_path root ≢ message_path root session id
sessions_path-ne-message_path root session id e = ground (arith, append_cancel root _ _ e)

pub index_path-injective :
    (root session session' : Text)
    → is_valid_id session ≡ true
    → is_valid_id session' ≡ true
    → index_path root session ≡ index_path root session'
    → session ≡ session'
index_path-injective root session session' vs vs' e =
    (cut b'/' session session' _ _ (valid_avoids_slash session (valid_bytes session vs))
      (valid_avoids_slash session' (valid_bytes session' vs'))
      (append_cancel (bytes "messages/") _ _ (append_cancel root _ _ e))).0

-- The IDs a save was given, if it succeeded, were valid.
abbrev pub HasValidIds : Saved → Type 0
HasValidIds (saves_sessions sessions) = Unit
HasValidIds (saves_index session entries) = is_valid_id session ≡ true
HasValidIds (saves_message session msg) = (is_valid_id session ≡ true) × (is_valid_id msg.id ≡ true)

pub perform-HasValidIds :
    (root : Text) (env : Env) (op : Saved) (fs : Fs)
    → is_ok (perform root env op fs).0 ≡ true
    → HasValidIds op
unfolding save_message_index save_message validate_id
perform-HasValidIds root env (saves_sessions sessions) fs done = tt
perform-HasValidIds root env (saves_index session entries) fs done =
    elim (Bool-cases (is_valid_id session)) [ inl vs ↦ vs | inr bad ↦ cc (rw bad at done) ]
perform-HasValidIds root env (saves_message session msg) fs done =
    elim (Bool-cases (is_valid_id session)) [
      | inr bad ↦ cc (rw bad at done)
      | inl vs ↦ elim (Bool-cases (is_valid_id msg.id)) [
        | inr bad ↦ cc (rw (vs, bad) at done)
        | inl vi ↦ (vs, vi)
      ]
    ]

-- A place keeps its file through a save that fails or is about another place.
pub get-perform_ne :
    (root : Text) (env : Env) (op : Saved) (fs : Fs) (q : Text)
    → (env.temp == q) ≡ false
    → (is_ok (perform root env op fs).0 ≡ true → (place root op == q) ≡ false)
    → get q (perform root env op fs).1 ≡ get q fs
unfolding save_sessions save_message_index save_message validate_id
get-perform_ne root env (saves_sessions sessions) fs q apart ne =
    get-save env _ _ fs q apart ∙ ground (arith, ne)
get-perform_ne root env (saves_index session entries) fs q apart ne =
    elim (Bool-cases (is_valid_id session)) [
      | inr bad ↦ rw bad
      | inl vs ↦ rw vs (get-save env _ _ fs q apart ∙ ground (arith, rw vs at ne))
    ]
get-perform_ne root env (saves_message session msg) fs q apart ne =
    elim (Bool-cases (is_valid_id session)) [
      | inr bad ↦ rw bad
      | inl vs ↦ elim (Bool-cases (is_valid_id msg.id)) [
        | inr bad ↦ simp (vs, bad)
        | inl vi ↦ simp (vs, vi) (get-save env _ _ fs q apart ∙ ground (arith, rw (vs, vi) at ne))
      ]
    ]
