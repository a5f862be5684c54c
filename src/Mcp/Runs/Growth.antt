-- ===== src/Mcp/Runs/Growth.antt =====
-- The message indexes of the store in a run of the server.
use interactive_process_mcp.Prelude.{
  Text, ◌≡◌, true, Option, none, some, List, [], ◌∷◌, All, Option-cases, inl, inr, text_eq,
}
use interactive_process_mcp.Prelude.Assoc.{get}
use interactive_process_mcp.Api.{MessageIndexEntry}
use interactive_process_mcp.Storage.{Fs, is_valid_id}
use interactive_process_mcp.Storage.Log.{IsApart}
use interactive_process_mcp.Messages.Growth.{HasIndex, StartsIndex, Grows, Grows-refl, Grows-trans}
use interactive_process_mcp.Buffer.Queue.{Ring}
use interactive_process_mcp.Sessions.Files.{Remote}
use interactive_process_mcp.Sessions.History.{EventFits, EndingFits, steps-Goes}
use interactive_process_mcp.Sessions.Manager.{Manager}
use interactive_process_mcp.Sessions.Manager.History.{
  IsKept, get-IsMine, put-IsKept, cleanup_all-Flows,
}
use interactive_process_mcp.Mcp.{Floats, Args}
use interactive_process_mcp.Mcp.FileTools.{Library}
use interactive_process_mcp.Mcp.Handlers.{Reply, World, State}
use interactive_process_mcp.Mcp.Tools.{
  Tool, beside, start_process_tool, send_input_tool, read_output_tool, background_send_tool,
  send_and_read_tool, get_session_info_tool, terminate_process_tool, delete_session_tool,
  resize_pty_tool, register_reader_tool, unregister_reader_tool, Whole, call_tool,
}
use interactive_process_mcp.Mcp.Runs.{Input, calls, acts, cleans_up, after, feed, run}
use interactive_process_mcp.Mcp.Runs.History.{
  WorldFits, FlowsIf, send_input-Flows, resize_pty-Flows, register_reader-Flows,
  unregister_reader-Flows, get_session_info-Flows, terminate_process-Flows, delete_session-Flows,
}
use interactive_process_mcp.Mcp.Runs.Outputs.{
  read_output-FlowsIf, send_and_read-FlowsIf, start_process-FlowsIf,
}

-- The answers of the system to every write of an input fit.
abbrev pub InputFits : (root : Text) (floats : Floats) (ring : Ring) → Input floats → Type 0
InputFits root floats ring (calls tool args w) = WorldFits root floats ring w
InputFits root floats ring (acts id events) = All (EventFits root) events
InputFits root floats ring (cleans_up force runs later env) =
    ((id : Text) → EndingFits root ring (runs id))
    × ((id : Text) → All (EventFits root) (later id))
    × IsApart root env

module _ (root : Text) (floats : Floats) (ring : Ring) (lib : Library) where
  abbrev GoesOn : Whole ring → Whole ring → Type 0
  GoesOn a b = IsKept root ring b.0.0 × Grows root a.0.1 b.0.1

  beside-GoesOn :
      (m : Manager ring) (fs : Fs) (remote : Remote) (o : Option (Reply × State ring))
      → IsKept root ring m
      → FlowsIf root floats ring (m, fs) o
      → GoesOn
          ((m, fs), remote)
          (after floats ring lib root ((m, fs), remote) (beside floats ring lib root remote o))
  beside-GoesOn m fs remote none h k = (h, Grows-refl root fs)
  beside-GoesOn m fs remote (some r) h k = k

  call_tool-GoesOn :
      (tool : Tool) (args : Args floats) (w : World) (whole : Whole ring)
      → WorldFits root floats ring w
      → IsKept root ring whole.0.0
      → GoesOn whole
          (after floats ring lib root whole (call_tool floats ring lib root tool args w whole))
  unfolding call_tool
  call_tool-GoesOn start_process_tool args w ((m, fs), remote) fits h =
      beside-GoesOn m fs remote _ h (start_process-FlowsIf root floats ring args w m fs fits h)
  call_tool-GoesOn send_input_tool args w ((m, fs), remote) fits h =
      send_input-Flows root floats ring args w m fs fits h
  call_tool-GoesOn read_output_tool args w ((m, fs), remote) fits h =
      beside-GoesOn m fs remote _ h (read_output-FlowsIf root floats ring args w m fs fits h)
  call_tool-GoesOn background_send_tool args w ((m, fs), remote) fits h =
      send_input-Flows root floats ring args w m fs fits h
  call_tool-GoesOn send_and_read_tool args w ((m, fs), remote) fits h =
      beside-GoesOn m fs remote _ h (send_and_read-FlowsIf root floats ring args w m fs fits h)
  call_tool-GoesOn get_session_info_tool args w ((m, fs), remote) fits h =
      get_session_info-Flows root floats ring args m fs h
  call_tool-GoesOn terminate_process_tool args w ((m, fs), remote) fits h =
      terminate_process-Flows root floats ring args w m fs fits h
  call_tool-GoesOn delete_session_tool args w ((m, fs), remote) fits h =
      delete_session-Flows root floats ring args w m fs fits h
  call_tool-GoesOn resize_pty_tool args w ((m, fs), remote) fits h =
      resize_pty-Flows root floats ring args w m fs h
  call_tool-GoesOn register_reader_tool args w ((m, fs), remote) fits h =
      register_reader-Flows root floats ring args m fs h
  call_tool-GoesOn unregister_reader_tool args w ((m, fs), remote) fits h =
      unregister_reader-Flows root floats ring args m fs h
  call_tool-GoesOn tool args w ((m, fs), remote) fits h = (h, Grows-refl root fs)

  feed-GoesOn :
      (i : Input floats) (whole : Whole ring)
      → InputFits root floats ring i
      → IsKept root ring whole.0.0
      → GoesOn whole (feed floats ring lib root i whole)
  unfolding feed
  feed-GoesOn (calls tool args w) whole fits h = call_tool-GoesOn tool args w whole fits h
  feed-GoesOn (acts id events) ((m, fs), remote) fits h = elim (Option-cases (get id m.sessions)) [
    | inl gone ↦ rw (gone, feed) (h, Grows-refl root fs)
    | inr (s, there) ↦
        let (mine, grown) =
          steps-Goes root ring events (s, fs) fits (get-IsMine root ring id s m h there) in
        rw (there, feed) (put-IsKept root ring id _ m h mine, grown)
  ]
  feed-GoesOn (cleans_up force runs later env) ((m, fs), remote) fits h =
      cleanup_all-Flows root ring force runs later env m fs fits.0 fits.1 fits.2 h

  run-GoesOn :
      (inputs : List (Input floats)) (whole : Whole ring)
      → All (InputFits root floats ring) inputs
      → IsKept root ring whole.0.0
      → GoesOn whole (run floats ring lib root inputs whole)
  unfolding run
  run-GoesOn [] whole fits h = (h, Grows-refl root whole.0.1)
  run-GoesOn (i ∷ inputs) whole fits h =
      let next : Whole ring = feed floats ring lib root i whole in
      let (kept, grown) = feed-GoesOn i whole fits.0 h in
      let (end', more) = run-GoesOn inputs next fits.1 kept in
      (end', Grows-trans root whole.0.1 next.0.1 _ grown more)

  -- In any run of the server, of tool calls, goroutines of the sessions and cleanups in any order, in which
  -- writes may fail at any step, no index that could be loaded at the beginning loses, changes or moves an
  -- entry, whatever is called on whichever session: later the index of a valid session ID is the earlier
  -- one, of entries with valid UTF-8, with more entries behind it, or none. The manager and the sessions
  -- that are there at the beginning keep their messages and the list of sessions in the one store, or
  -- nowhere; an index can be read whenever a message is appended, and the temporary files have none of the
  -- names of the store.
  pub run-Grows :
      (inputs : List (Input floats)) (whole : Whole ring) (s : Text)
      (entries : List MessageIndexEntry)
      → All (InputFits root floats ring) inputs
      → IsKept root ring whole.0.0
      → is_valid_id s ≡ true
      → HasIndex root s entries whole.0.1
      → StartsIndex root s entries (run floats ring lib root inputs whole).0.1
  run-Grows inputs whole s entries fits h vs there =
      (run-GoesOn inputs whole fits h).1 s entries vs there
