-- ===== src/Mcp/Runs/Every.antt =====
-- The same for a call of any tool, and for a run of the server.
use interactive_process_mcp.Prelude.{
  Text, Option, none, some, List, [], ◌∷◌, All, text_eq, Option-cases, inl, inr,
}
use interactive_process_mcp.Prelude.Assoc.{get, Every}
use interactive_process_mcp.Storage.{Fs}
use interactive_process_mcp.Buffer.Queue.{Ring}
use interactive_process_mcp.Sessions.{Config, Session, Start, fresh}
use interactive_process_mcp.Sessions.Files.{Remote}
use interactive_process_mcp.Sessions.Lifecycle.Advance.{Advances}
use interactive_process_mcp.Sessions.Manager.{Manager}
use interactive_process_mcp.Mcp.{Floats, Args}
use interactive_process_mcp.Mcp.FileTools.{Library}
use interactive_process_mcp.Mcp.Handlers.{Reply, World, State}
use interactive_process_mcp.Mcp.Tools.{
  Tool, beside, start_process_tool, send_input_tool, read_output_tool, background_send_tool,
  send_and_read_tool, get_session_info_tool, terminate_process_tool, delete_session_tool,
  resize_pty_tool, register_reader_tool, unregister_reader_tool, Whole, call_tool,
}
use interactive_process_mcp.Mcp.Runs.{Input, StartsWell, calls, acts, cleans_up, after, feed, run}
use interactive_process_mcp.Mcp.Runs.Keeps.{
  HoldsBy, send_input-Holds, resize_pty-Holds, register_reader-Holds, unregister_reader-Holds,
  get_session_info-Holds, terminate_process-Holds, delete_session-Holds, acts-Holds,
  cleanup_all-Holds,
}
use interactive_process_mcp.Mcp.Runs.Reads.{
  read_output-HoldsBy, send_and_read-HoldsBy, start_process-HoldsBy,
}

module _ (floats : Floats) (ring : Ring) (lib : Library) (root : Text)
    (Q : Text → Session ring → Type 0)
    (carry : (id : Text) (s t : Session ring) → Q id s → Advances ring s t → Q id t)
    (IsFine : Start → Type 0)
    (born : (cfg : Config) (msg_mgr : Option Text) (start : Start) (s : Session ring)
      → IsFine start
      → Advances ring (fresh ring cfg msg_mgr start) s
      → Q s.info.id s) where
  abbrev pub EveryIn : Whole ring → Type 0
  EveryIn whole = Every Q whole.0.0.sessions

  beside-EveryIn :
      (m : Manager ring) (fs : Fs) (remote : Remote) (o : Option (Reply × State ring))
      → Every Q m.sessions
      → HoldsBy floats ring Q carry o
      → EveryIn
          (after floats ring lib root ((m, fs), remote) (beside floats ring lib root remote o))
  beside-EveryIn m fs remote none h k = h
  beside-EveryIn m fs remote (some r) h k = k

  call_tool-EveryIn :
      (tool : Tool) (args : Args floats) (w : World) (whole : Whole ring)
      → IsFine w.start
      → EveryIn whole
      → EveryIn
          (after floats ring lib root whole (call_tool floats ring lib root tool args w whole))
  unfolding call_tool
  call_tool-EveryIn start_process_tool args w ((m, fs), remote) fine h =
      beside-EveryIn m fs remote _ h
        (start_process-HoldsBy floats ring Q carry IsFine born args w m fs fine h)
  call_tool-EveryIn send_input_tool args w ((m, fs), remote) fine h =
      send_input-Holds floats ring Q carry args w m fs h
  call_tool-EveryIn read_output_tool args w ((m, fs), remote) fine h =
      beside-EveryIn m fs remote _ h (read_output-HoldsBy floats ring Q carry args w m fs h)
  call_tool-EveryIn background_send_tool args w ((m, fs), remote) fine h =
      send_input-Holds floats ring Q carry args w m fs h
  call_tool-EveryIn send_and_read_tool args w ((m, fs), remote) fine h =
      beside-EveryIn m fs remote _ h (send_and_read-HoldsBy floats ring Q carry args w m fs h)
  call_tool-EveryIn get_session_info_tool args w ((m, fs), remote) fine h =
      get_session_info-Holds floats ring Q carry args m fs h
  call_tool-EveryIn terminate_process_tool args w ((m, fs), remote) fine h =
      terminate_process-Holds floats ring Q carry args w m fs h
  call_tool-EveryIn delete_session_tool args w ((m, fs), remote) fine h =
      delete_session-Holds floats ring Q carry args w m fs h
  call_tool-EveryIn resize_pty_tool args w ((m, fs), remote) fine h =
      resize_pty-Holds floats ring Q carry args w m fs h
  call_tool-EveryIn register_reader_tool args w ((m, fs), remote) fine h =
      register_reader-Holds floats ring Q carry args m fs h
  call_tool-EveryIn unregister_reader_tool args w ((m, fs), remote) fine h =
      unregister_reader-Holds floats ring Q carry args m fs h
  call_tool-EveryIn tool args w ((m, fs), remote) fine h = h

  feed-EveryIn :
      (i : Input floats) (whole : Whole ring)
      → StartsWell floats IsFine i
      → EveryIn whole
      → EveryIn (feed floats ring lib root i whole)
  unfolding feed
  feed-EveryIn (calls tool args w) whole fine h = call_tool-EveryIn tool args w whole fine h
  feed-EveryIn (acts id events) ((m, fs), remote) fine h = elim (Option-cases (get id m.sessions)) [
    | inl gone ↦ rw (gone, feed) h
    | inr (s, there) ↦ rw (there, feed) (acts-Holds floats ring Q carry id events m fs s h there)
  ]
  feed-EveryIn (cleans_up force runs later env) ((m, fs), remote) fine h =
      cleanup_all-Holds floats ring Q carry force runs later env m fs h

  pub run-EveryIn :
      (inputs : List (Input floats)) (whole : Whole ring)
      → All (StartsWell floats IsFine) inputs
      → EveryIn whole
      → EveryIn (run floats ring lib root inputs whole)
  unfolding run
  run-EveryIn [] whole fine h = h
  run-EveryIn (i ∷ inputs) whole fine h =
      run-EveryIn inputs (feed floats ring lib root i whole) fine.1 (feed-EveryIn i whole fine.0 h)
