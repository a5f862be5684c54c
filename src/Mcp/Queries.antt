-- ===== src/Mcp/Queries.antt =====
-- The handlers of internal/mcp/handlers.go that list sessions and read messages. `root` is the root of
-- the message manager's store.
use interactive_process_mcp.Prelude.{Text, List}
use interactive_process_mcp.Storage
use interactive_process_mcp.Storage.{Fs}
use interactive_process_mcp.Messages.{list, get_many}
use interactive_process_mcp.Api.{MessageIndexEntry}
use interactive_process_mcp.Buffer.Queue.{Ring}
use interactive_process_mcp.Sessions.Manager.{list_all}
use interactive_process_mcp.Mcp.{Floats, Args, message_ids}
use interactive_process_mcp.Mcp.Handlers.{
  Reply, infos, index, messages, storage_error, World, State, session_id,
}

abbrev pub index_reply : Storage.Result (List MessageIndexEntry) → Reply
index_reply (Storage.ok entries) = index entries
index_reply (Storage.err e) = storage_error e

module _ (floats : Floats) (ring : Ring) (root : Text) where
  unfoldable pub handle_list_sessions : State ring → Reply
  handle_list_sessions st = infos (list_all ring st.0.sessions)

  unfoldable pub handle_list_messages : Args floats → World → State ring → Reply
  handle_list_messages args w st =
      index_reply (list root w.readable (session_id floats ring args) st.1)

  unfoldable pub handle_get_message : Args floats → World → State ring → Reply
  handle_get_message args w st =
      messages
        (get_many root w.readable (session_id floats ring args) (message_ids floats args) st.1)
