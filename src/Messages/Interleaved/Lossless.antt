-- ===== src/Messages/Interleaved/Lossless.antt =====
-- The entries of an index and the interleaving of the appends of internal/message/message.go.
use mathlib.Core.List.{Memᴰ}
use interactive_process_mcp.Prelude.{ℕ, Text, ◌≡◌, refl, true, List}
use interactive_process_mcp.Api.{MsgType, Message, MessageIndexEntry}
use interactive_process_mcp.Json.Utf8.{to_valid}
use interactive_process_mcp.Storage.{ok, Fs, load_message_index}
use interactive_process_mcp.Messages.{Call, entry_for, list}
use interactive_process_mcp.Messages.Append.{AreApart}
use interactive_process_mcp.Messages.Interleaved.{
  returned, Run, begin, msg, Append, saves, locks, loads, writes, unlocks, Reach, here, next,
  indexed,
}
use interactive_process_mcp.Messages.Interleaved.Kept.{IsKept, entry-kept}
use interactive_process_mcp.Messages.Interleaved.Steps.{
  saves-IsKept, locks-IsKept, loads-IsKept, writes-IsKept, unlocks-IsKept,
}

module _ (root session : Text) (calls : ℕ → Call) (types : ℕ → MsgType) (contents : ℕ → Text)
    (start : List MessageIndexEntry) (apart : (i : ℕ) → AreApart root (calls i) session)
    (readable : (i : ℕ) → (calls i).readable ≡ true) where
  Append-IsKept :
      (s t : Run)
      → Append root session calls types contents s t
      → IsKept root session calls types contents start s
      → IsKept root session calls types contents start t
  Append-IsKept s t (saves i e) k =
      saves-IsKept root session calls types contents start apart readable s i e k
  Append-IsKept s t (locks i e free) k =
      locks-IsKept root session calls types contents start apart readable s i e free k
  Append-IsKept s t (loads i e) k =
      loads-IsKept root session calls types contents start apart readable s i e k
  Append-IsKept s t (writes i entries e) k =
      writes-IsKept root session calls types contents start apart readable s i entries e k
  Append-IsKept s t (unlocks i r e) k =
      unlocks-IsKept root session calls types contents start apart readable s i r e k

  begin-IsKept :
      (fs : Fs)
      → load_message_index root true session fs ≡ ok start
      → IsKept root session calls types contents start (begin fs)
  unfolding indexed
  begin-IsKept fs h = record {
    index_is = h;
    holder = λ j e. absurd (cc);
    fresh = λ j entries e. absurd (cc);
    noted = λ j m e. absurd (cc);
  }

  Reach-IsKept :
      (fs : Fs) (s : Run)
      → load_message_index root true session fs ≡ ok start
      → Reach root session calls types contents (begin fs) s
      → IsKept root session calls types contents start s
  Reach-IsKept fs s h here = begin-IsKept fs h
  Reach-IsKept fs s h (next r a) = Append-IsKept _ _ a (Reach-IsKept fs _ h r)

  -- Appends to one session at the same time, interleaved in any way, lose no entry: at every moment the
  -- index is the one that the appends leave whose index was written, one behind the other, and the
  -- entry of each call that has returned its message is in it. The index is readable all along, the
  -- temporary files have names of their own, and the new IDs are valid UTF-8.
  pub appends-lossless :
      (fs : Fs) (s : Run) (i : ℕ) (m : Message)
      → to_valid (calls i).id ≡ (calls i).id
      → load_message_index root true session fs ≡ ok start
      → Reach root session calls types contents (begin fs) s
      → s.place i ≡ returned (ok m)
      → let entries : List MessageIndexEntry =
          indexed root session calls types contents start s.history in
        (list root true session s.fs ≡ ok entries)
        × Memᴰ (entry_for (msg root session calls types contents i)) entries
  unfolding list
  appends-lossless fs s i m valid h r back =
      let k = Reach-IsKept fs s h r in
      (
        k.index_is,
        entry-kept root session calls types contents start s.history i valid
            (k.noted i m (rw back refl)),
      )
