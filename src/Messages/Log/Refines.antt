-- ===== src/Messages/Log/Refines.antt =====
-- A sequence of calls of Append of internal/message/message.go and its log.
use interactive_process_mcp.Prelude.{
  ◌≡◌, ◌≢◌, refl, ◌∙◌, true, some, List, [], ◌∷◌, Text, All, text_eq,
}
use interactive_process_mcp.Api.{Message}
use interactive_process_mcp.Api.Documents.{valid_message}
use interactive_process_mcp.Storage.{Result, ok, err, Fs, is_valid_id}
use interactive_process_mcp.Storage.Log.{last_index, last_message}
use interactive_process_mcp.Storage.Log.Kept.{empty-IsLogged, loaded}
use interactive_process_mcp.Messages.{
  Call, message_for, replied, add_to_index, then_index, append, list, get_one,
}
use interactive_process_mcp.Messages.Log.{
  Post, Recorded, with_reply, append_all, entries_of, Fits, AreFresh,
}
use interactive_process_mcp.Messages.Log.Entries.{at_end-All, zip-All, HasIds}
use interactive_process_mcp.Messages.Log.Tracks.{IsTracked, listed, append-Tracks}

module _ (root : Text) where
  -- What the files of a log of recorded messages give back.
  pub record IsRecorded (fs : Fs) (log : List Recorded) : Type 0 where
    pub index_is : (s : Text) → is_valid_id s ≡ true → list root true s fs ≡ ok (entries_of s log)
    pub messages_are :
        All (λ (q : Recorded). get_one root true q.0 q.1.id fs ≡ ok (valid_message q.1)) log

  abbrev Avoids : List Recorded → Post → Type 0
  Avoids log p = All (λ (q : Recorded). q.1.id ≢ p.call.id) log

  replied-Avoids :
      (p : Post) (msg : Message) (r : Result (Unit {0}) × Fs) (session : Text) (log : List Recorded)
      → msg.id ≢ p.call.id
      → Avoids log p
      → Avoids (with_reply session (replied msg r).0 log) p
  replied-Avoids p msg (err e, fs) session log other h = h
  replied-Avoids p msg (ok _, fs) session log other h =
      at_end-All (λ (q : Recorded). q.1.id ≢ p.call.id) log (session, msg) h other

  then-Avoids :
      (p : Post) (call : Call) (msg : Message) (r : Result (Unit {0}) × Fs) (session : Text)
      (log : List Recorded)
      → msg.id ≢ p.call.id
      → Avoids log p
      → Avoids (with_reply session (then_index root call session msg r).0 log) p
  unfolding add_to_index
  then-Avoids p call msg (err e, fs) session log other h = h
  then-Avoids p call msg (ok _, fs) session log other h = replied-Avoids p msg _ session log other h

  append-Avoids :
      (p q : Post) (fs : Fs) (log : List Recorded)
      → p.call.id ≢ q.call.id
      → Avoids log q
      → Avoids (with_reply p.session (append root p.call p.session p.type p.content fs).0 log) q
  unfolding append
  append-Avoids p q fs log other h =
      then-Avoids q p.call (message_for p.call p.session p.type p.content) _ p.session log other h

  append_all-IsTracked :
      (posts : List Post) (fs : Fs) (log : List Recorded)
      → All (λ (p : Post). Fits root p.call) posts
      → AreFresh posts
      → All (Avoids log) posts
      → IsTracked root fs log
      → IsTracked root (append_all root posts (fs, log)).0 (append_all root posts (fs, log)).1
  unfolding append_all
  append_all-IsTracked [] fs log fits fresh avoids h = h
  append_all-IsTracked (p ∷ posts) fs log (fit, fits) (new, fresh) (avoid, avoids) h =
      append_all-IsTracked posts _ _ fits fresh
        (zip-All (λ (q : Post). p.call.id ≢ q.call.id) (Avoids log) (Avoids _)
          (λ q other old. append-Avoids p q fs log other old) posts new avoids)
        (append-Tracks root p fs log fit avoid h)

  recorded : (fs : Fs) (log : List Recorded) → IsTracked root fs log → IsRecorded fs log
  unfolding list get_one loaded
  recorded fs log (saves, h) = record {
    index_is = λ s vs. listed root fs saves log s h vs;
    messages_are =
        zip-All (λ (q : Recorded). last_message q.0 q.1.id saves ≡ some q.1) HasIds
          (λ (q : Recorded). get_one root true q.0 q.1.id fs ≡ ok (valid_message q.1))
          (λ q there ids. h.logged.message_is q.0 q.1.id ids.0 ids.1 ∙ rw there refl) log h.messages
          h.ids;
  }

  any-Avoids : (posts : List Post) → All (Avoids []) posts
  any-Avoids [] = tt
  any-Avoids (p ∷ posts) = (tt, any-Avoids posts)

  -- From an empty file system on, after any sequence of calls of Append for any sessions, each of which may
  -- fail at any step of its two writes, where each call gets an ID of its own, the index can be read and the
  -- temporary files have none of the names of the store: List gives for every valid session ID exactly the
  -- entries of the calls for it that reported success, in their order and unchanged, and Get reads the
  -- message of each of them back, its texts made valid UTF-8.
  pub append_all-IsRecorded :
      (posts : List Post)
      → All (λ (p : Post). Fits root p.call) posts
      → AreFresh posts
      → IsRecorded (append_all root posts ([], [])).0 (append_all root posts ([], [])).1
  append_all-IsRecorded posts fits fresh = recorded _ _ (
      append_all-IsTracked posts [] [] fits fresh (any-Avoids posts) (
        [],
        record {
          logged = empty-IsLogged root;
          indices = λ s. unfold last_index entries_of in refl;
          messages = tt;
          ids = tt;
        },
      ))
