-- ===== src/Mcp/Composition/Tests.antt =====
-- send_and_read, and send_input with what is listed behind it, at a concrete server.
use interactive_process_mcp.Prelude.{◌≡◌, refl, some, [], ◌∷◌, ◌++◌, bytes, map, all, text_eq}
use interactive_process_mcp.Prelude.Assoc.{get, put, remove}
use interactive_process_mcp.Strings.{is_empty}
use interactive_process_mcp.Api.Documents.{valid_message, valid_entry}
use interactive_process_mcp.Storage.{
  load_message_index, save_message, save_message_index, save, atomic_write, plan, act, act_all,
  validate_id, is_valid_id, read_document, or_empty,
}
use interactive_process_mcp.Messages.{entry_for, append, add_to_index}
use interactive_process_mcp.Buffer.Sample.{sample_ring}
use interactive_process_mcp.Sessions.{Session, fresh, is_running}
use interactive_process_mcp.Sessions.Manager.{Manager}
use interactive_process_mcp.Mcp.{
  Args, text_arg, get_string, get_bool, get_float64, get_string_slice, as_text_or, as_bool_or,
  as_float_or, as_texts, message_ids,
}
use interactive_process_mcp.Mcp.Samples.{integers, call, shell, registry, world, request}
use interactive_process_mcp.Mcp.Handlers.{
  Reply, success, index, messages, World, State, handle_send_input,
}
use interactive_process_mcp.Mcp.Queries.{handle_list_messages, handle_get_message}
use interactive_process_mcp.Mcp.Reads.{handle_send_and_read}
use interactive_process_mcp.Mcp.Composition.{then_read, send_and_read_lem}
use interactive_process_mcp.Mcp.Composition.Listed.{IsSent, found, sent, send_input-listed}

send_and_read_lem_example :
    handle_send_and_read integers sample_ring request world (registry, [])
    ≡ then_read integers sample_ring request world
        (handle_send_input integers sample_ring request world (registry, []))
unfolding get get_float64 as_float_or
send_and_read_lem_example = send_and_read_lem integers sample_ring request world (registry, []) refl

-- The shell keeps its messages, and the call gets an ID of its own.
abbrev keeping : Session sample_ring
keeping = record (shell (bytes "s1")) { msg_mgr = some (bytes "data/") }

abbrev keeping_manager : Manager sample_ring
keeping_manager = record registry { sessions = (bytes "s1", keeping) ∷ [] }

abbrev fresh_world : World
fresh_world = record world { call = record call { id = bytes "m1" } }

abbrev later : Args integers
later =
    (bytes "session_id", text_arg (bytes "s1")) ∷ (bytes "message_id", text_arg (bytes "m1")) ∷ []

request-IsSent :
    IsSent integers sample_ring (bytes "data/") request fresh_world keeping_manager [] keeping
unfolding get get_string get_bool as_text_or as_bool_or is_running append add_to_index save_message
    save_message_index load_message_index save atomic_write plan act act_all validate_id is_valid_id
    all read_document or_empty put remove fresh
request-IsSent = record {
  there = refl;
  runs = refl;
  own_id = refl;
  keeps = refl;
  written = refl;
  apart = record { message = refl; index = refl; index_of_message = refl; message_of_index = refl };
  kept = refl;
}

send_input-listed_example :
    let r : Reply × State sample_ring =
      handle_send_input integers sample_ring request fresh_world (keeping_manager, []) in
    (r.0 ≡ success)
    × (handle_list_messages integers sample_ring (bytes "data/") later fresh_world r.1
        ≡ index (
            map valid_entry (
              found integers sample_ring (bytes "data/") request fresh_world []
              ++ entry_for (sent integers sample_ring (bytes "data/") request fresh_world) ∷ [])))
    × (handle_get_message integers sample_ring (bytes "data/") later fresh_world r.1
        ≡ messages
            (valid_message (sent integers sample_ring (bytes "data/") request fresh_world) ∷ []))
unfolding get get_string as_text_or message_ids get_string_slice as_texts is_empty
send_input-listed_example =
    send_input-listed integers sample_ring (bytes "data/") request later fresh_world fresh_world
      keeping_manager [] keeping request-IsSent refl refl refl
