-- ===== src/Storage/Paths.antt =====
-- The paths of internal/storage/store.go, and `validateID`.
use interactive_process_mcp.Prelude.{
  ℕ, ◌≡◌, ◌≢◌, refl, ◌∙◌, sym, Bool, true, false, not, List, [], ◌∷◌, ◌++◌, Text, bytes, nat_eqb,
  all, inl, inr, Bool-cases, ◌==◌, text_eq, text_eqb_iff, arith, ◌⊎◌,
}
use interactive_process_mcp.Prelude.Assoc.{get}
use interactive_process_mcp.Api.{Message, MessageIndexEntry}
use interactive_process_mcp.Storage.{
  Fs, Env, is_id_byte, is_valid_id, validate_id, read_document, index_path, message_path,
  save_message, load_message, save_message_index, load_message_index,
}
use interactive_process_mcp.Storage.RoundTrip.{get-save}

abbrev avoids : ℕ → Text → Bool
avoids sep = all (λ c. not (nat_eqb c sep))

-- The part in front of the first separator is determined.
pub cut :
    (sep : ℕ) (s t a b : Text)
    → avoids sep s ≡ true
    → avoids sep t ≡ true
    → s ++ sep ∷ a ≡ t ++ sep ∷ b
    → (s ≡ t) × (a ≡ b)
unfolding all
cut sep [] [] a b hs ht e = (refl, cc)
cut sep [] (d ∷ t) a b hs ht e = ground arith
cut sep (c ∷ s) [] a b hs ht e = ground arith
cut sep (c ∷ s) (d ∷ t) a b hs ht e =
    let rest = cut sep s t a b (ground arith) (ground arith) (ground arith) in
    (ground (arith, rest.0), rest.1)

pub append_cancel : (r a b : Text) → r ++ a ≡ r ++ b → a ≡ b
append_cancel [] a b e = e
append_cancel (c ∷ r) a b e = append_cancel r a b (ground arith)

-- Valid IDs have no slash and no dot.
pub valid_avoids_slash : (id : Text) → all is_id_byte id ≡ true → avoids b'/' id ≡ true
unfolding all
valid_avoids_slash [] h = refl
valid_avoids_slash (c ∷ id) h = ground (arith, valid_avoids_slash id)

valid_avoids_dot : (id : Text) → all is_id_byte id ≡ true → avoids b'.' id ≡ true
unfolding all
valid_avoids_dot [] h = refl
valid_avoids_dot (c ∷ id) h = ground (arith, valid_avoids_dot id)

pub valid_bytes : (id : Text) → is_valid_id id ≡ true → all is_id_byte id ≡ true
unfolding is_valid_id
valid_bytes [] h = cc
valid_bytes (c ∷ id) h = h

-- Two messages have one path only if they are of one session and have one ID.
pub message_path-injective :
    (root session id session' id' : Text)
    → is_valid_id session ≡ true
    → is_valid_id id ≡ true
    → is_valid_id session' ≡ true
    → is_valid_id id' ≡ true
    → message_path root session id ≡ message_path root session' id'
    → (session ≡ session') × (id ≡ id')
message_path-injective root session id session' id' vs vi vs' vi' e =
    let below = append_cancel (bytes "messages/") _ _ (append_cancel root _ _ e) in
    let at_slash =
      cut b'/' session session' _ _ (valid_avoids_slash session (valid_bytes session vs))
        (valid_avoids_slash session' (valid_bytes session' vs')) below in
    let at_dot =
      cut b'.' id id' (bytes "json") (bytes "json") (valid_avoids_dot id (valid_bytes id vi))
        (valid_avoids_dot id' (valid_bytes id' vi'))
        (append_cancel (bytes "messages/") _ _ at_slash.1) in
    (at_slash.0, at_dot.0)

-- No message is stored at the path of an index.
pub message_path-ne-index_path :
    (root session id session' : Text)
    → is_valid_id session ≡ true
    → is_valid_id session' ≡ true
    → message_path root session id ≢ index_path root session'
message_path-ne-index_path root session id session' vs vs' e =
    let below = append_cancel (bytes "messages/") _ _ (append_cancel root _ _ e) in
    let at_slash =
      cut b'/' session session' _ _ (valid_avoids_slash session (valid_bytes session vs))
        (valid_avoids_slash session' (valid_bytes session' vs')) below in
    ground (arith, at_slash.1)

-- Loading reads nothing but the file of the message.
pub load_same :
    (root : Text) (readable : Bool) (session id : Text) (fs fs' : Fs)
    → (is_valid_id session ≡ true
        → is_valid_id id ≡ true
        → get (message_path root session id) fs ≡ get (message_path root session id) fs')
    → load_message root readable session id fs ≡ load_message root readable session id fs'
unfolding load_message validate_id read_document
load_same root readable session id fs fs' h = elim (Bool-cases (is_valid_id session)) [
  | inr bad ↦ rw bad
  | inl vs ↦ elim (Bool-cases (is_valid_id id)) [
    | inr bad ↦ rw (vs, bad)
    | inl vi ↦ rw (vs, vi) (rw (h vs vi, read_document))
  ]
]

get-save_message_ne :
    (root : Text) (env : Env) (fs : Fs) (session : Text) (msg : Message) (q : Text)
    → (env.temp == q) ≡ false
    → (is_valid_id session ≡ true
        → is_valid_id msg.id ≡ true
        → (message_path root session msg.id == q) ≡ false)
    → get q (save_message root env session msg fs).1 ≡ get q fs
unfolding save_message validate_id
get-save_message_ne root env fs session msg q apart ne = elim (Bool-cases (is_valid_id session)) [
  | inr bad ↦ rw bad
  | inl vs ↦ elim (Bool-cases (is_valid_id msg.id)) [
    | inr bad ↦ simp (vs, bad)
    | inl vi ↦ simp (vs, vi) (get-save env _ _ fs q apart ∙ ground (arith, ne vs vi))
  ]
]

-- Saving a message leaves every other message as it was, whether the save succeeds or not.
pub load-save_message_ne :
    (root : Text) (env : Env) (fs : Fs) (readable : Bool) (session : Text) (msg : Message)
    (session' id : Text)
    → (env.temp == message_path root session' id) ≡ false
    → ((session ≢ session') ⊎ (msg.id ≢ id))
    → load_message root readable session' id (save_message root env session msg fs).1
      ≡ load_message root readable session' id fs
load-save_message_ne root env fs readable session msg session' id apart differ =
    load_same root readable session' id _ fs λ vs' vi'.
      get-save_message_ne root env fs session msg (message_path root session' id) apart λ vs vi.
        elim (Bool-cases (message_path root session msg.id == message_path root session' id)) [
          | inr other ↦ other
          | inl same ↦
              let both =
                message_path-injective root session msg.id session' id vs vi vs' vi'
                  ((text_eqb_iff _ _).0 same) in
              absurd (elim differ [ inl d ↦ d both.0 | inr d ↦ d both.1 ])
        ]

pub load_index_same :
    (root : Text) (readable : Bool) (session : Text) (fs fs' : Fs)
    → (is_valid_id session ≡ true
        → get (index_path root session) fs ≡ get (index_path root session) fs')
    → load_message_index root readable session fs ≡ load_message_index root readable session fs'
unfolding load_message_index validate_id read_document
load_index_same root readable session fs fs' h = elim (Bool-cases (is_valid_id session)) [
  | inr bad ↦ rw bad
  | inl vs ↦ rw vs (rw (h vs, read_document))
]

get-save_message_index_ne :
    (root : Text) (env : Env) (fs : Fs) (session : Text) (entries : List MessageIndexEntry)
    (q : Text)
    → (env.temp == q) ≡ false
    → (is_valid_id session ≡ true → (index_path root session == q) ≡ false)
    → get q (save_message_index root env session entries fs).1 ≡ get q fs
unfolding save_message_index validate_id
get-save_message_index_ne root env fs session entries q apart ne =
    elim (Bool-cases (is_valid_id session)) [
      | inr bad ↦ rw bad
      | inl vs ↦ rw vs (get-save env _ _ fs q apart ∙ ground (arith, ne vs))
    ]

pub text_ne : (s t : Text) → s ≢ t → (s == t) ≡ false
text_ne s t h = elim (Bool-cases (s == t)) [
  | inl same ↦ absurd (h ((text_eqb_iff s t).0 same))
  | inr other ↦ other
]

-- Saving a message leaves every index as it was.
pub load_message_index-save_message :
    (root : Text) (env : Env) (fs : Fs) (readable : Bool) (session : Text) (msg : Message)
    (session' : Text)
    → (env.temp == index_path root session') ≡ false
    → load_message_index root readable session' (save_message root env session msg fs).1
      ≡ load_message_index root readable session' fs
load_message_index-save_message root env fs readable session msg session' apart =
    load_index_same root readable session' _ fs λ vs'.
      get-save_message_ne root env fs session msg _ apart
        λ vs vi. text_ne _ _ (message_path-ne-index_path root session msg.id session' vs vs')

-- Saving an index leaves every message as it was.
pub load_message-save_message_index :
    (root : Text) (env : Env) (fs : Fs) (readable : Bool) (session : Text)
    (entries : List MessageIndexEntry) (session' id : Text)
    → (env.temp == message_path root session' id) ≡ false
    → load_message root readable session' id (save_message_index root env session entries fs).1
      ≡ load_message root readable session' id fs
load_message-save_message_index root env fs readable session entries session' id apart =
    load_same root readable session' id _ fs λ vs' vi'.
      get-save_message_index_ne root env fs session entries _ apart
        λ vs. text_ne _ _ (λ e. message_path-ne-index_path root session' id session vs' vs (sym e))
