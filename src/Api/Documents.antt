-- ===== src/Api/Documents.antt =====
-- The documents of pkg/api/types.go by their member names, and what is read back from them.
use interactive_process_mcp.Prelude.{
  ℕ, pos, negsuc, ◌≡◌, refl, Text, Option, none, some, List, [], ◌∷◌, map, bytes, text_eqb,
  if◌then◌else◌,
}
use interactive_process_mcp.Json.{
  Value, num, str, instant, arr, obj, Fields, no_fields, member, text, lookup, as_text, as_int,
  as_instant, as_list, all_items, items, ◌>>=◌,
}
use interactive_process_mcp.Json.Utf8.{to_valid}
use interactive_process_mcp.Api.{
  MsgType, msg_input, msg_output, msg_system, Message, MessageIndexEntry,
}

abbrev pub type_name : MsgType → Text
type_name msg_input = bytes "input"
type_name msg_output = bytes "output"
type_name msg_system = bytes "system"

-- A text that names no type is outside the model.
as_type : Text → Option MsgType
as_type s =
    if text_eqb s (bytes "input")
    then some msg_input
    else if text_eqb s (bytes "output")
    then some msg_output
    else if text_eqb s (bytes "system")
    then some msg_system
    else none

type_of : Value → Option MsgType
unfolding as_type
type_of v = do s ← as_text v; as_type s

size_of : Value → Option ℕ
size_of v = do n ← as_int v; (elim n [ pos k ↦ some k | negsuc k ↦ none ])

unfoldable pub entry_to_json : MessageIndexEntry → Value
entry_to_json e = obj (
    member (bytes "id") (text e.id) (
      member (bytes "type") (str (type_name e.type)) (
        member (bytes "created_at") (instant e.created_at)
          (member (bytes "byte_size") (num (pos e.byte_size)) no_fields))))

entry_of_fields : Fields → Option MessageIndexEntry
unfolding lookup as_text as_int as_instant type_of size_of
entry_of_fields fs = do
  id ← as_text (lookup (bytes "id") fs)
  type ← type_of (lookup (bytes "type") fs)
  created_at ← as_instant (lookup (bytes "created_at") fs)
  byte_size ← size_of (lookup (bytes "byte_size") fs)
  some (record { id = id; type = type; created_at = created_at; byte_size = byte_size })

unfoldable pub entry_of_json : Value → Option MessageIndexEntry
unfolding entry_of_fields
entry_of_json (obj fs) = entry_of_fields fs
entry_of_json _ = none

unfoldable pub message_to_json : Message → Value
message_to_json m = obj (
    member (bytes "id") (text m.id) (
      member (bytes "session_id") (text m.session_id) (
        member (bytes "type") (str (type_name m.type)) (
          member (bytes "content") (text m.content) (
            member (bytes "created_at") (instant m.created_at)
              (member (bytes "byte_size") (num (pos m.byte_size)) no_fields))))))

message_of_fields : Fields → Option Message
unfolding lookup as_text as_int as_instant type_of size_of
message_of_fields fs = do
  id ← as_text (lookup (bytes "id") fs)
  session_id ← as_text (lookup (bytes "session_id") fs)
  type ← type_of (lookup (bytes "type") fs)
  content ← as_text (lookup (bytes "content") fs)
  created_at ← as_instant (lookup (bytes "created_at") fs)
  byte_size ← size_of (lookup (bytes "byte_size") fs)
  some (record {
    id = id;
    session_id = session_id;
    type = type;
    content = content;
    created_at = created_at;
    byte_size = byte_size;
  })

unfoldable pub message_of_json : Value → Option Message
unfolding message_of_fields
message_of_json (obj fs) = message_of_fields fs
message_of_json _ = none

-- What marshalling keeps of a message: its texts as valid UTF-8.
abbrev pub valid_message : Message → Message
valid_message m = record m {
  id = to_valid m.id;
  session_id = to_valid m.session_id;
  content = to_valid m.content;
}

abbrev pub valid_entry : MessageIndexEntry → MessageIndexEntry
valid_entry e = record e { id = to_valid e.id }

as_type-type_name : (t : MsgType) → as_type (type_name t) ≡ some t
unfolding as_type
as_type-type_name msg_input = refl
as_type-type_name msg_output = refl
as_type-type_name msg_system = refl

-- A stored message reads back with its texts made valid UTF-8, and all else as it was.
pub message_of_json-to_json :
    (m : Message) → message_of_json (message_to_json m) ≡ some (valid_message m)
unfolding message_of_json message_to_json
message_of_json-to_json m = rw (as_type-type_name m.type)

entry_of_json-to_json :
    (e : MessageIndexEntry) → entry_of_json (entry_to_json e) ≡ some (valid_entry e)
unfolding entry_of_json entry_to_json
entry_of_json-to_json e = rw (as_type-type_name e.type)

unfoldable pub entries_to_json : List MessageIndexEntry → Value
unfolding items
entries_to_json es = arr (items entry_to_json es)

unfoldable pub entries_of_json : Value → Option (List MessageIndexEntry)
unfolding as_list
entries_of_json = as_list entry_of_json

all_items-items :
    (es : List MessageIndexEntry)
    → all_items entry_of_json (items entry_to_json es) ≡ some (map valid_entry es)
unfolding all_items items
all_items-items [] = refl
all_items-items (e ∷ es) = rw (entry_of_json-to_json e, all_items-items es)

-- So does an index.
pub entries_of_json-to_json :
    (es : List MessageIndexEntry) → entries_of_json (entries_to_json es) ≡ some (map valid_entry es)
unfolding entries_of_json entries_to_json
entries_of_json-to_json es = all_items-items es
