-- ===== src/Mcp/Composition/Listed.antt =====
-- send_input of internal/mcp/handlers.go, and what list_messages and get_message reply behind it.
use interactive_process_mcp.Prelude.{
  Text, bytes, ◌≡◌, refl, true, false, none, some, List, [], ◌∷◌, ◌++◌, map, if◌then◌else◌, text_eq,
}
use interactive_process_mcp.Prelude.Assoc.{get}
use interactive_process_mcp.Strings.{lf}
use interactive_process_mcp.Api.{Message, MessageIndexEntry, msg_input}
use interactive_process_mcp.Api.Documents.{valid_message, valid_entry}
use interactive_process_mcp.Storage.{ok, Fs, load_message_index, load_messages}
use interactive_process_mcp.Messages.{message_for, entry_for, or_none, append, get_one, get_many}
use interactive_process_mcp.Messages.Append.{AreApart, append_lem}
use interactive_process_mcp.Buffer.Queue.{Ring}
use interactive_process_mcp.Sessions.{Session, is_running, note, send_input}
use interactive_process_mcp.Sessions.Manager.{Manager}
use interactive_process_mcp.Mcp.{Floats, Args, get_string, get_bool, message_ids}
use interactive_process_mcp.Mcp.Handlers.{
  Reply, success, index, messages, World, State, session_id, on_session, handle_send_input,
}
use interactive_process_mcp.Mcp.Queries.{handle_list_messages, handle_get_message}

module _ (floats : Floats) (ring : Ring) (root : Text) where
  -- What send_input writes to the process.
  abbrev pub line : Args floats → Text
  line args =
      let text : Text = get_string floats args (bytes "text") [] in
      if get_bool floats args (bytes "press_enter") false then text ++ lf ∷ [] else text

  -- The message that is kept of it.
  abbrev pub sent : Args floats → World → Message
  sent args w = message_for w.call (session_id floats ring args) msg_input (line args)

  -- The index as the call finds it, empty if it cannot be loaded.
  abbrev pub found : Args floats → World → Fs → List MessageIndexEntry
  found args w fs =
      or_none (load_message_index root w.call.readable (session_id floats ring args) fs)

  -- A running session under its own ID, which keeps its messages in the store, and a call whose write and
  -- whose message succeed.
  pub record IsSent (args : Args floats) (w : World) (m : Manager ring) (fs : Fs) (s : Session ring)
      : Type 0 where
    pub there : get (session_id floats ring args) m.sessions ≡ some s
    pub runs : is_running ring s ≡ true
    pub own_id : s.info.id ≡ session_id floats ring args
    pub keeps : s.msg_mgr ≡ some root
    pub written : w.cut ≡ none
    pub apart : AreApart root w.call (session_id floats ring args)
    pub kept :
        (append root w.call (session_id floats ring args) msg_input (line args) fs).0
        ≡ ok (sent args w)

  one_message :
      (session id : Text) (fs : Fs) (msg : Message)
      → get_one root true session id fs ≡ ok msg
      → get_many root true session (id ∷ []) fs ≡ msg ∷ []
  unfolding get_one get_many load_messages
  one_message session id fs msg h = rw (h, load_messages) refl

  behind :
      (args : Args floats) (w : World) (m : Manager ring) (fs : Fs) (s : Session ring)
      → IsSent args w m fs s
      → ((handle_send_input floats ring args w (m, fs)).0 ≡ success)
        × ((handle_send_input floats ring args w (m, fs)).1.1
            ≡ (append root w.call (session_id floats ring args) msg_input (line args) fs).1)
  unfolding handle_send_input on_session send_input note
  behind args w m fs s h =
      rw (h.there, on_session, send_input, h.runs, h.written, h.keeps, h.own_id) (refl, refl)

  -- After a call of send_input to a running session, whose write and whose message succeed, the reply is a
  -- success; list_messages then replies the entries that the call found in the index with that of the
  -- input behind them, and get_message, asked for the new ID, the input itself, texts made valid UTF-8.
  pub send_input-listed :
      (args later : Args floats) (w v : World) (m : Manager ring) (fs : Fs) (s : Session ring)
      → IsSent args w m fs s
      → session_id floats ring later ≡ session_id floats ring args
      → message_ids floats later ≡ w.call.id ∷ []
      → v.readable ≡ true
      → let r : Reply × State ring = handle_send_input floats ring args w (m, fs) in
        (r.0 ≡ success)
        × (handle_list_messages floats ring root later v r.1
            ≡ index (map valid_entry (found args w fs ++ entry_for (sent args w) ∷ [])))
        × (handle_get_message floats ring root later v r.1
            ≡ messages (valid_message (sent args w) ∷ []))
  unfolding handle_list_messages handle_get_message
  send_input-listed args later w v m fs s h same ids readable =
      let (replies, files) = behind args w m fs s h in
      let (_, listed, got) =
        append_lem root w.call (session_id floats ring args) msg_input (line args) fs (sent args w)
          h.apart h.kept in
      (
        replies,
        rw (files, same, readable, listed) refl,
        rw (files, same, ids, readable, one_message _ _ _ _ got) refl,
      )
