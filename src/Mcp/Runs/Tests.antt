-- ===== src/Mcp/Runs/Tests.antt =====
-- A run of a server that starts empty: a shell is started, prints and exits, and is resized too late.
use interactive_process_mcp.Prelude.{
  ◌≡◌, ◌≢◌, ◌∙◌, refl, all, pos, false, none, some, List, [], ◌∷◌, bytes, text_eq, text_eqb_iff,
}
use interactive_process_mcp.Prelude.Assoc.{get, put, map_values}
use interactive_process_mcp.Buffer.Sample.{sample_ring}
use interactive_process_mcp.Sessions.{
  Session, Event, outputs, finds_done, exits, closes_buffer, records_exit, closed_by, close_buffer,
  recorded_by, record_exit, stdout_pipe, steps, step, exit, exit_with, pump, new, fresh, note,
  resize_pty, is_running,
}
use interactive_process_mcp.Sessions.Lifecycle.Advance.{IsSettled, IsOver}
use interactive_process_mcp.Sessions.Manager.{create, add, persist}
use interactive_process_mcp.Mcp.{
  Args, text_arg, start_request, get_string, starts_or, validate_start_params, mode_of, rows_of,
  get_int, get_float64, cols_of, as_text_or, as_float_or, get_string_slice, as_texts,
}
use interactive_process_mcp.Mcp.Handlers.{handle_resize_pty, on_session}
use interactive_process_mcp.Mcp.Reads.{handle_start_process, first_output}
use interactive_process_mcp.Sessions.Output.{
  read_output, read_output_for_reader, finish_read, received, deliver,
}
use interactive_process_mcp.Buffer
use interactive_process_mcp.Buffer.{wait_loop, drain, new_reader, write, close}
use interactive_process_mcp.Mcp.Samples.{integers, library, world, call, shell, start}
use interactive_process_mcp.Mcp.Tools.{Whole, start_process_tool, resize_pty_tool, call_tool}
use interactive_process_mcp.Mcp.Runs.{Input, calls, acts, feed, run}
use interactive_process_mcp.Json.Utf8.{to_valid-ascii}
use interactive_process_mcp.Api.{MessageIndexEntry, msg_input}
use interactive_process_mcp.Storage.{
  Fs, save_message_index, save, atomic_write, plan, validate_id, is_valid_id,
}
use interactive_process_mcp.Storage.RoundTrip.{load-save_message_index}
use interactive_process_mcp.Storage.Samples.{good, good-IsApart}
use interactive_process_mcp.Messages.{Call}
use interactive_process_mcp.Messages.Log.{Fits}
use interactive_process_mcp.Messages.Growth.{HasIndex, StartsIndex}
use interactive_process_mcp.Mcp.Handlers.{World}
use interactive_process_mcp.Mcp.Tools.{read_output_tool}
use interactive_process_mcp.Mcp.Runs.History.{WorldFits}
use interactive_process_mcp.Mcp.Runs.Growth.{run-Grows}
use interactive_process_mcp.Mcp.Runs.Sound.{run-IsSound, run-final}

abbrev over : List Event
over =
    outputs stdout_pipe (bytes "hi") false
    ∷ finds_done
    ∷ exits (pos 3) 9
    ∷ closes_buffer
    ∷ records_exit call
    ∷ []

abbrev command : Args integers
command = (bytes "command", text_arg (bytes "sh")) ∷ []

abbrev session : Args integers
session = (bytes "session_id", text_arg (bytes "s3")) ∷ []

abbrev day : List (Input integers)
day =
    calls start_process_tool command world
    ∷ acts (bytes "s3") over
    ∷ calls resize_pty_tool session world
    ∷ []

abbrev nothing_yet : Whole sample_ring
nothing_yet = ((record { sessions = []; msg_mgr = none; store = none }, []), [])

abbrev ended : Session sample_ring
ended = (steps sample_ring over (shell (bytes "s3"), [])).0

run-IsSound_example : (ended.info.id ≡ bytes "s3") × IsSettled sample_ring ended
unfolding run feed call_tool get put handle_resize_pty on_session handle_start_process start_request
    get_string starts_or validate_start_params mode_of rows_of get_int get_float64 cols_of create
    add persist new fresh first_output read_output read_output_for_reader finish_read received
    deliver steps step pump exit exit_with close_buffer closed_by record_exit recorded_by note
    resize_pty is_running sample_ring Buffer.read wait_loop drain Buffer.new new_reader write close
    map_values as_text_or as_float_or get_string_slice as_texts
run-IsSound_example =
    run-IsSound integers sample_ring library [] day nothing_yet (bytes "s3") ended refl refl

abbrev exited_whole : Whole sample_ring
exited_whole =
    ((record { sessions = (bytes "s3", ended) ∷ []; msg_mgr = none; store = none }, []), [])

abbrev evening : List (Input integers)
evening =
    calls resize_pty_tool session (record world { start = start (bytes "s4") })
    ∷ acts (bytes "s3") (exits (pos 7) 12 ∷ [])
    ∷ []

other_id : bytes "s4" ≢ bytes "s3"
other_id e = cc ((text_eqb_iff (bytes "s4") (bytes "s3")).1 e)

ended-IsOver : IsOver sample_ring ended
unfolding steps step pump exit exit_with close_buffer closed_by record_exit recorded_by fresh note
ended-IsOver = record { status_is = refl; code_is = λ e. cc; once_is = refl }

run-final_example : ended.info ≡ ended.info
unfolding run feed call_tool get put handle_resize_pty on_session get_string get_int get_float64
    steps step pump exit exit_with close_buffer closed_by record_exit recorded_by note resize_pty
    is_running fresh as_text_or as_float_or
run-final_example =
    run-final integers sample_ring library [] evening exited_whole (bytes "s3") ended ended
      (other_id, (tt, tt)) refl ended-IsOver refl

abbrev calling : Call
calling = record call { id = bytes "m9" }

calling-Fits : Fits (bytes "data/") calling
calling-Fits = record { readable = refl; message = good-IsApart; index = good-IsApart }

-- A world in which messages are kept.
abbrev keeping : World
keeping = record world {
  call = calling;
  read_call = calling;
  ending = record {
    grace = [];
    done_in_grace = false;
    closing = [];
    exiting = [];
    recording = [];
    now = 3;
    call = calling;
  };
  start = record (start (bytes "s3")) { call = calling };
}

keeping-WorldFits : WorldFits (bytes "data/") integers sample_ring keeping
keeping-WorldFits = record {
  call = calling-Fits;
  read_call = calling-Fits;
  ending = record { grace = tt; closing = tt; exiting = tt; recording = tt; call = calling-Fits };
  env = good-IsApart;
  start = record { early = tt; call = calling-Fits };
  meanwhile = tt;
}

abbrev old_entry : MessageIndexEntry
old_entry = record { id = bytes "m1"; type = msg_input; created_at = 4; byte_size = 2 }

abbrev old_files : Fs
old_files = (save_message_index (bytes "data/") good (bytes "s3") (old_entry ∷ []) []).1

old_files-HasIndex : HasIndex (bytes "data/") (bytes "s3") (old_entry ∷ []) old_files
unfolding save_message_index save atomic_write plan validate_id is_valid_id all
old_files-HasIndex = record {
  index_is =
      load-save_message_index (bytes "data/") good [] (bytes "s3") (old_entry ∷ [])
        (good-IsApart.from_index (bytes "s3")) refl
      ∙ rw (to_valid-ascii (bytes "m1") refl) refl;
  are_valid = rw (to_valid-ascii (bytes "m1") refl) refl;
}

abbrev kept_whole : Whole sample_ring
kept_whole = (
  (
    record { sessions = []; msg_mgr = some (bytes "data/"); store = some (bytes "data/") },
    old_files,
  ),
  [],
)

abbrev kept_day : List (Input integers)
kept_day =
    calls start_process_tool command keeping
    ∷ acts (bytes "s3") (
        outputs stdout_pipe (bytes "hi") false
        ∷ finds_done
        ∷ exits (pos 3) 9
        ∷ closes_buffer
        ∷ records_exit calling
        ∷ [])
    ∷ calls read_output_tool session keeping
    ∷ []

run-Grows_example :
    StartsIndex
      (bytes "data/")
      (bytes "s3")
      (old_entry ∷ [])
      (run integers sample_ring library (bytes "data/") kept_day kept_whole).0.1
unfolding is_valid_id all
run-Grows_example =
    run-Grows (bytes "data/") integers sample_ring library kept_day kept_whole (bytes "s3")
      (old_entry ∷ [])
      (keeping-WorldFits, ((tt, (tt, (tt, (tt, (calling-Fits, tt))))), (keeping-WorldFits, tt)))
      (record { msg_mgr = refl; store = refl; sessions = tt }) refl old_files-HasIndex
