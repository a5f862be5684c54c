-- ===== src/Messages/Interleaved.antt =====
-- Goroutines that call `Append` of internal/message/message.go for one session at a time, each in its
-- steps, in any order: the message is saved without the session's lock, the index read and written
-- with it. `sessionLock` gives all of them one mutex.
pub mod Kept
pub mod Steps
pub mod Lossless
mod Tests
use interactive_process_mcp.Prelude.{
  ℕ, Text, ◌≡◌, Bool, true, Option, none, some, List, [], ◌∷◌, ◌++◌, map, if◌then◌else◌, nat_eqb,
}
use interactive_process_mcp.Api.{MsgType, Message, MessageIndexEntry}
use interactive_process_mcp.Api.Documents.{valid_entry}
use interactive_process_mcp.Storage.{
  Result, ok, err, Fs, save_message, load_message_index, save_message_index,
}
use interactive_process_mcp.Storage.Atomic.{is_ok}
use interactive_process_mcp.Messages.{Call, message_for, entry_for, or_none, replied}

-- Where a call stands: before the write of its message, behind it, with the lock, with the index that it
-- read, with the index written, and back.
pub data Place : Type 0 where
  begun saved locked : Place
  loaded : List MessageIndexEntry → Place
  written returned : Result Message → Place

abbrev pub update {ℓ} : {A : Type ℓ} → (ℕ → A) → ℕ → A → ℕ → A
update f i a j = if nat_eqb i j then a else f j

-- `lock` is who holds the session's mutex, `history` whose index was written, the last one first.
pub record Run : Type 0 where
  pub fs : Fs
  pub lock : Option ℕ
  pub place : ℕ → Place
  pub history : List ℕ

abbrev pub begin : Fs → Run
begin fs = record { fs = fs; lock = none; place = λ i. begun; history = [] }

-- What goroutine `i` passes to `Append`, and what its call meets.
module _ (root session : Text) (calls : ℕ → Call) (types : ℕ → MsgType) (contents : ℕ → Text) where
  abbrev pub msg : ℕ → Message
  msg i = message_for (calls i) session (types i) (contents i)

  abbrev pub first : ℕ → Fs → Result (Unit {0}) × Fs
  first i fs = save_message root (calls i).message_env session (msg i) fs

  abbrev pub second : ℕ → List MessageIndexEntry → Fs → Result (Unit {0}) × Fs
  second i entries fs =
      save_message_index root (calls i).index_env session (entries ++ entry_for (msg i) ∷ []) fs

  abbrev pub behind_message : Result (Unit {0}) → Place
  behind_message (ok _) = saved
  behind_message (err e) = returned (err e)

  pub data Append (s : Run) : Run → Type 0 where
    saves :
        (i : ℕ)
        → s.place i ≡ begun
        → Append s (record s {
          fs = (first i s.fs).1;
          place = update s.place i (behind_message (first i s.fs).0);
        })
    locks :
        (i : ℕ)
        → s.place i ≡ saved
        → s.lock ≡ none
        → Append s (record s { lock = some i; place = update s.place i locked })
    loads :
        (i : ℕ)
        → s.place i ≡ locked
        → Append s (record s {
          place =
              update s.place i
                (loaded (or_none (load_message_index root (calls i).readable session s.fs)));
        })
    writes :
        (i : ℕ) (entries : List MessageIndexEntry)
        → s.place i ≡ loaded entries
        → Append s (record s {
          fs = (second i entries s.fs).1;
          place = update s.place i (written (replied (msg i) (second i entries s.fs)).0);
          history = if is_ok (second i entries s.fs).0 then i ∷ s.history else s.history;
        })
    unlocks :
        (i : ℕ) (r : Result Message)
        → s.place i ≡ written r
        → Append s (record s { lock = none; place = update s.place i (returned r) })

  pub data Reach (s : Run) : Run → Type 0 where
    here : Reach s s
    next : {t u : Run} → Reach s t → Append t u → Reach s u

  -- The index that the appends of a history leave, one behind the other.
  unfoldable pub indexed : List MessageIndexEntry → List ℕ → List MessageIndexEntry
  indexed start [] = start
  indexed start (i ∷ history) = map valid_entry (indexed start history ++ entry_for (msg i) ∷ [])
