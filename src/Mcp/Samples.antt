-- ===== src/Mcp/Samples.antt =====
-- A server with two sessions that the tests share; its numbers are integers.
use interactive_process_mcp.Prelude.{
  refl, ℤ, pos, ltb_ℤ, true, false, none, some, [], ◌∷◌, bytes, Text,
}
use interactive_process_mcp.Api.{mode_pty}
use interactive_process_mcp.Storage.Samples.{good}
use interactive_process_mcp.Messages.{Call}
use interactive_process_mcp.Buffer.Sample.{sample_ring}
use interactive_process_mcp.Sessions.{Session, Start, fresh}
use interactive_process_mcp.Sessions.Manager.{Manager}
use interactive_process_mcp.Mcp.{Floats, Args, text_arg, bool_arg}
use interactive_process_mcp.Mcp.FileTools.{Library}
use interactive_process_mcp.Mcp.Handlers.{World}

abbrev pub integers : Floats
integers = record {
  Float = ℤ;
  of_int = λ n. n;
  to_int = λ n. n;
  less = ltb_ℤ;
  tenth = pos 1;
  duration = λ n. n;
}

abbrev pub library : Library
library = record {
  codec = record {
    encode = λ p. p;
    decode = λ p. some p;
    encoded_len = λ n. n;
    decode-encode = λ p. refl;
    length-encode = λ p. refl;
    encoded_len_mono = λ m n h. h;
  };
  dir = λ p. bytes "/";
  format = λ t. [];
}

abbrev pub call : Call
call = record { id = []; now = 0; readable = true; message_env = good; index_env = good }

abbrev pub start : Text → Start
start id = record {
  id = id;
  created = 1;
  updated = 2;
  exec_ok = true;
  sftp_ok = true;
  early = [];
  call = call;
}

abbrev pub shell : Text → Session sample_ring
shell id =
    fresh sample_ring
      (record {
        command = bytes "sh";
        args = [];
        mode = mode_pty;
        name = [];
        rows = pos 24;
        cols = pos 80;
      })
      none (start id)

abbrev pub registry : Manager sample_ring
registry = record {
  sessions = (bytes "s1", shell (bytes "s1")) ∷ (bytes "s2", shell (bytes "s2")) ∷ [];
  msg_mgr = none;
  store = none;
}

abbrev pub world : World
world = record {
  cut = none;
  resize_ok = true;
  call = call;
  ending = record {
    grace = [];
    done_in_grace = false;
    closing = [];
    exiting = [];
    recording = [];
    now = 3;
    call = call;
  };
  env = good;
  start = start (bytes "s3");
  meanwhile = [];
  rounds = record { expired = true; cancelled = false; meanwhile = [] } ∷ [];
  read_call = call;
  readable = true;
  answers = record {
    mkdir_ok = true;
    create_ok = true;
    cut = none;
    stat_ok = true;
    open_ok = true;
    read_ok = true;
  };
  listing = none;
}

abbrev pub request : Args integers
request =
    (bytes "session_id", text_arg (bytes "s1"))
    ∷ (bytes "text", text_arg (bytes "ls"))
    ∷ (bytes "press_enter", bool_arg true)
    ∷ []
