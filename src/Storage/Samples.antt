-- ===== src/Storage/Samples.antt =====
-- Answers of the system that the tests share: every call of a write succeeds, or all but the renaming.
use interactive_process_mcp.Prelude.{refl, true, false, [], bytes, arith}
use interactive_process_mcp.Storage.{Env, index_path, message_path}
use interactive_process_mcp.Storage.Paths.{text_ne}
use interactive_process_mcp.Storage.Log.{IsApart}

abbrev pub good : Env
good = record {
  mkdir_ok = true;
  create_ok = true;
  write_ok = true;
  sync_ok = true;
  close_ok = true;
  chmod_ok = true;
  rename_ok = true;
  remove_ok = true;
  partial = [];
  temp = bytes "data/.tmp-1";
}

abbrev pub no_rename : Env
no_rename = record good { rename_ok = false }

pub good-IsApart : IsApart (bytes "data/") good
good-IsApart = record {
  from_sessions = refl;
  from_index =
      λ session. text_ne good.temp (index_path (bytes "data/") session) λ e. ground (arith, e);
  from_message = λ session id.
      text_ne good.temp (message_path (bytes "data/") session id) λ e. ground (arith, e);
}

pub no_rename-IsApart : IsApart (bytes "data/") no_rename
no_rename-IsApart = record {
  from_sessions = good-IsApart.from_sessions;
  from_index = good-IsApart.from_index;
  from_message = good-IsApart.from_message;
}
