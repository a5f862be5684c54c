-- ===== src/Messages/Interleaved/Tests.antt =====
-- Two calls of `Append` of internal/message/message.go at the same time: both save their messages before
-- either takes the lock.
use mathlib.Core.List.{Memᴰ}
use interactive_process_mcp.Prelude.{ℕ, zero, suc, ◌≡◌, refl, true, [], Text, bytes, all}
use interactive_process_mcp.Prelude.Assoc.{get, put, remove}
use interactive_process_mcp.Api.{MsgType, msg_input}
use interactive_process_mcp.Json.Utf8.{to_valid}
use interactive_process_mcp.Storage.Samples.{good}
use interactive_process_mcp.Storage.{
  ok, load_message_index, save_message, save_message_index, save, atomic_write, plan, act, act_all,
  validate_id, is_valid_id, read_document, or_empty,
}
use interactive_process_mcp.Messages.{Call, entry_for, list}
use interactive_process_mcp.Messages.Append.{AreApart}
use interactive_process_mcp.Messages.Interleaved.{
  Run, begin, msg, saves, locks, loads, writes, unlocks, Reach, here, next, indexed,
}
use interactive_process_mcp.Messages.Interleaved.Lossless.{appends-lossless}

abbrev calls : ℕ → Call
calls zero = record {
  id = bytes "m1";
  now = 7;
  readable = true;
  message_env = good;
  index_env = good;
}
calls (suc i) = record {
  id = bytes "m2";
  now = 8;
  readable = true;
  message_env = good;
  index_env = good;
}

abbrev types : ℕ → MsgType
types i = msg_input

abbrev contents : ℕ → Text
contents i = bytes "hi"

calls-AreApart : (i : ℕ) → AreApart (bytes "data/") (calls i) (bytes "s1")
calls-AreApart zero = record {
  message = refl;
  index = refl;
  index_of_message = refl;
  message_of_index = refl;
}
calls-AreApart (suc i) = record {
  message = refl;
  index = refl;
  index_of_message = refl;
  message_of_index = refl;
}

calls_readable : (i : ℕ) → (calls i).readable ≡ true
calls_readable zero = refl
calls_readable (suc i) = refl

abbrev day : (s : Run) × Reach (bytes "data/") (bytes "s1") calls types contents (begin []) s
unfolding save_message save_message_index load_message_index save atomic_write plan act act_all
    validate_id is_valid_id all read_document or_empty get put remove
day = (
  _,
  next
      (next
        (next
          (next (next (next (next here (saves 0 refl)) (saves 1 refl)) (locks 1 refl refl))
            (loads 1 refl))
          (writes 1 _ refl))
        (unlocks 1 _ refl))
      (locks 0 refl refl),
)

appends-lossless_example :
    let entries = indexed (bytes "data/") (bytes "s1") calls types contents [] day.0.history in
    (list (bytes "data/") true (bytes "s1") day.0.fs ≡ ok entries)
    × Memᴰ (entry_for (msg (bytes "data/") (bytes "s1") calls types contents 1)) entries
unfolding day save_message save_message_index load_message_index save atomic_write plan act act_all
    validate_id is_valid_id all read_document or_empty get put remove to_valid
appends-lossless_example =
    appends-lossless (bytes "data/") (bytes "s1") calls types contents [] calls-AreApart
      calls_readable [] day.0 1 _ refl refl day.1 refl
