-- ===== src/Storage.antt =====
-- internal/storage/store.go over a file system of its own. Paths are texts, as `filepath.Join` makes
-- them: the store's `root` is what Join leaves of the data directory, with the slash behind it, or
-- nothing for the current directory. The lock makes each operation one step.
pub mod Atomic
pub mod Log
pub mod Paths
pub mod RoundTrip
pub mod Samples
mod Tests
use interactive_process_mcp.Prelude.{
  ℕ, Bool, true, false, not, ◌&&◌, ◌||◌, Option, none, some, List, [], ◌∷◌, ◌++◌, Text, bytes, leb,
  nat_eqb, all, if◌then◌else◌, text_eq,
}
use interactive_process_mcp.Prelude.Assoc.{Map, get, put, remove}
use interactive_process_mcp.Json.{Value, File, document, raw}
use interactive_process_mcp.Api.{Session, Message, MessageIndexEntry}
use interactive_process_mcp.Api.Documents.{
  message_to_json, message_of_json, entries_to_json, entries_of_json,
}
use interactive_process_mcp.Api.Sessions.{sessions_to_json, sessions_of_json}

pub data Error : Type 0 where
  invalid_id : Text → Error
  not_exist os_error bad_document : Error

pub data Result {ℓ} (A : Type ℓ) : Type ℓ where
  ok : A → Result A
  err : Error → Result A

infixl 5 ◌>>=◌
abbrev pub ◌>>=◌ {ℓ κ} : {A : Type ℓ} {B : Type κ} → Result A → (A → Result B) → Result B
ok a >>= f = f a
err e >>= f = err e

abbrev pub Fs : Type 0
Fs = Map Text File

-- What the operating system answers during a write, and the name that `CreateTemp` picks.
pub record Env : Type 0 where
  pub mkdir_ok : Bool
  pub create_ok : Bool
  pub write_ok : Bool
  pub sync_ok : Bool
  pub close_ok : Bool
  pub chmod_ok : Bool
  pub rename_ok : Bool
  pub remove_ok : Bool
  pub partial : Text
  pub temp : Text

abbrev pub is_id_byte : ℕ → Bool
is_id_byte c =
    (leb b'a' c && leb c b'z')
    || ((leb b'A' c && leb c b'Z')
        || ((leb b'0' c && leb c b'9') || (nat_eqb c b'_' || nat_eqb c b'-')))

-- `^[a-zA-Z0-9_-]+$`
unfoldable pub is_valid_id : Text → Bool
is_valid_id [] = false
is_valid_id (c ∷ id) = all is_id_byte (c ∷ id)

unfoldable pub validate_id : Text → Result (Unit {0})
unfolding is_valid_id
validate_id id = if is_valid_id id then ok tt else err (invalid_id id)

-- The steps on the file system that `atomicWriteFile` takes.
pub data Action : Type 0 where
  creates : Text → Action
  fills : Text → File → Action
  removes : Text → Action
  renames : Text → Text → Action

unfoldable pub act : Action → Fs → Fs
act (creates p) fs = put p (raw []) fs
act (fills p f) fs = put p f fs
act (removes p) fs = remove p fs
act (renames p q) fs = elim (get p fs) [ none ↦ fs | some f ↦ put q f (remove p fs) ]

unfoldable pub act_all : List Action → Fs → Fs
act_all [] fs = fs
act_all (a ∷ actions) fs = act_all actions (act a fs)

-- `os.Remove(tmp)`, whose error is ignored.
abbrev cleanup : Env → List Action
cleanup env = if env.remove_ok then removes env.temp ∷ [] else []

-- `atomicWriteFile`: its steps and its result.
unfoldable pub plan : Env → Text → File → List Action × Result (Unit {0})
plan env path doc =
    let opened : Action = creates env.temp in
    let full : Action = fills env.temp doc in
    if not env.create_ok
    then ([], err os_error)
    else if not env.write_ok
    then (opened ∷ fills env.temp (raw env.partial) ∷ cleanup env, err os_error)
    else if not env.sync_ok || (not env.close_ok || not env.chmod_ok)
    then (opened ∷ full ∷ cleanup env, err os_error)
    else if not env.rename_ok
    then (opened ∷ full ∷ [], err os_error)
    else (opened ∷ full ∷ renames env.temp path ∷ [], ok tt)

unfoldable pub atomic_write : Env → Text → Value → Fs → Result (Unit {0}) × Fs
unfolding plan act act_all
atomic_write env path v fs =
    let (actions, result) = plan env path (document v) in (result, act_all actions fs)

-- `os.ReadFile` and `json.Unmarshal`; `readable` is whether the system lets an existing file be read.
unfoldable pub read_document {ℓ} : {A : Type ℓ} → Bool → (Value → Option A) → Text → Fs → Result A
read_document readable decode path fs = elim (get path fs) [
  | none ↦ err not_exist
  | some (raw s) ↦ if readable then err bad_document else err os_error
  | some (document v) ↦
      if readable then elim (decode v) [ none ↦ err bad_document | some a ↦ ok a ] else err os_error
]

-- A file that does not exist stands for an empty list.
unfoldable pub or_empty {ℓ} : {A : Type ℓ} → Result (List A) → Result (List A)
or_empty (err not_exist) = ok []
or_empty r = r

abbrev pub sessions_path : Text → Text
sessions_path root = root ++ bytes "sessions.json"

abbrev pub index_path : Text → Text → Text
index_path root session = root ++ (bytes "messages/" ++ (session ++ bytes "/index.json"))

abbrev pub message_path : Text → Text → Text → Text
message_path root session id =
    root ++ (bytes "messages/" ++ (session ++ (bytes "/messages/" ++ (id ++ bytes ".json"))))

-- `initDir`, then the write.
unfoldable pub save : Env → Text → Value → Fs → Result (Unit {0}) × Fs
save env path v fs = if env.mkdir_ok then atomic_write env path v fs else (err os_error, fs)

abbrev pub checked : Result (Unit {0}) → Fs → Result (Unit {0}) × Fs → Result (Unit {0}) × Fs
checked (ok _) fs r = r
checked (err e) fs r = (err e, fs)

module _ (root : Text) where
  unfoldable pub save_sessions : Env → List Session → Fs → Result (Unit {0}) × Fs
  save_sessions env sessions = save env (sessions_path root) (sessions_to_json sessions)

  unfoldable pub load_sessions : Bool → Fs → Result (List Session)
  load_sessions readable fs =
      or_empty (read_document readable sessions_of_json (sessions_path root) fs)

  unfoldable pub save_message_index :
      Env → Text → List MessageIndexEntry → Fs → Result (Unit {0}) × Fs
  save_message_index env session entries fs =
      checked (validate_id session) fs
        (save env (index_path root session) (entries_to_json entries) fs)

  unfoldable pub load_message_index : Bool → Text → Fs → Result (List MessageIndexEntry)
  load_message_index readable session fs = do
    _ ← validate_id session
    or_empty (read_document readable entries_of_json (index_path root session) fs)

  unfoldable pub save_message : Env → Text → Message → Fs → Result (Unit {0}) × Fs
  save_message env session msg fs = checked (validate_id session) fs (
      checked (validate_id msg.id) fs
        (save env (message_path root session msg.id) (message_to_json msg) fs))

  unfoldable pub load_message : Bool → Text → Text → Fs → Result Message
  load_message readable session id fs = do
    _ ← validate_id session
    _ ← validate_id id
    read_document readable message_of_json (message_path root session id) fs

  -- Messages that cannot be read are left out.
  unfoldable pub load_messages : Bool → Text → List Text → Fs → List Message
  unfolding load_message
  load_messages readable session [] fs = []
  load_messages readable session (id ∷ ids) fs =
      let rest = load_messages readable session ids fs in
      elim (load_message readable session id fs) [ ok msg ↦ msg ∷ rest | err e ↦ rest ]
