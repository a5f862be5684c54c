-- ===== src/Messages/Log/Tracks.antt =====
-- A call of Append of internal/message/message.go as two saves in the log of the store.
use interactive_process_mcp.Prelude.{
  ◌≡◌, ◌≢◌, ◌⊎◌, refl, ◌∙◌, sym, ap, true, false, ◌&&◌, some, List, [], ◌∷◌, ◌++◌, Text, All, ◌==◌,
  text_eq, text_eqb_iff, text_eqb_refl, if◌then◌else◌, arith, inl, inr, Bool-cases,
}
use interactive_process_mcp.Api.{Message}
use interactive_process_mcp.Storage.{Result, ok, err, Fs, is_valid_id, load_message_index}
use interactive_process_mcp.Storage.Atomic.{is_ok}
use interactive_process_mcp.Storage.Log.{
  Saved, saves_index, saves_message, last_index, last_message,
}
use interactive_process_mcp.Storage.Log.Places.{perform-HasValidIds}
use interactive_process_mcp.Storage.Log.Kept.{IsLogged}
use interactive_process_mcp.Storage.Log.Refines.{step-IsLogged}
use interactive_process_mcp.Messages.{
  message_for, entry_for, replied, add_to_index, then_index, append,
}
use interactive_process_mcp.Messages.Log.{Post, Recorded, with_reply, entries_of, Fits}
use interactive_process_mcp.Messages.Log.Entries.{
  at_end-All, zip-All, entries_of_end, entries_of-valid, HasIds,
}

module _ (root : Text) where
  -- The log of what was recorded beside a log of the saves.
  pub record Tracks (fs : Fs) (saves : List Saved) (log : List Recorded) : Type 0 where
    pub logged : IsLogged root fs saves
    pub indices : (s : Text) → last_index s saves ≡ entries_of s log
    pub messages : All (λ (p : Recorded). last_message p.0 p.1.id saves ≡ some p.1) log
    pub ids : All HasIds log

  pub listed :
      (fs : Fs) (saves : List Saved) (log : List Recorded) (s : Text)
      → Tracks fs saves log
      → is_valid_id s ≡ true
      → load_message_index root true s fs ≡ ok (entries_of s log)
  listed fs saves log s h vs =
      h.logged.index_is s vs ∙ rw (h.indices s) (ap ok (entries_of-valid s log h.ids))

  -- Some log of saves fits the files.
  abbrev pub IsTracked : Fs → List Recorded → Type 0
  IsTracked fs log = (saves : List Saved) × Tracks fs saves log

  module _ (p : Post) where
    abbrev pub msg : Message
    msg = message_for p.call p.session p.type p.content

    index_last :
        (saves : List Saved) (log : List Recorded) (s : Text)
        → ((t : Text) → last_index t saves ≡ entries_of t log)
        → last_index s
            (saves_index p.session (entries_of p.session log ++ entry_for msg ∷ []) ∷ saves)
          ≡ entries_of s (log ++ (p.session, msg) ∷ [])
    unfolding last_index
    index_last saves log s h = entry (Bool-cases (p.session == s))
      where
        entry :
            ((p.session == s) ≡ true) ⊎ ((p.session == s) ≡ false)
            → (if p.session == s
                then entries_of p.session log ++ entry_for msg ∷ []
                else last_index s saves)
              ≡ entries_of s (log ++ (p.session, msg) ∷ [])
        entry (inl same) =
            rw (entries_of_end s p.session msg log, same, (text_eqb_iff p.session s).0 same) refl
        entry (inr other) = rw (entries_of_end s p.session msg log, other) (h s)

    messages_last :
        (saves : List Saved) (log : List Recorded)
        → All (λ (q : Recorded). q.1.id ≢ p.call.id) log
        → All (λ (q : Recorded). last_message q.0 q.1.id saves ≡ some q.1) log
        → All
            (λ (q : Recorded).
              last_message q.0 q.1.id (saves_message p.session msg ∷ saves) ≡ some q.1)
            log
    unfolding last_message
    messages_last saves log fresh h =
        zip-All (λ (q : Recorded). q.1.id ≢ p.call.id)
          (λ (q : Recorded). last_message q.0 q.1.id saves ≡ some q.1)
          (λ (q : Recorded).
            last_message q.0 q.1.id (saves_message p.session msg ∷ saves) ≡ some q.1)
          (λ q other kept. elim (Bool-cases ((p.session == q.0) && (p.call.id == q.1.id))) [
            | inl same ↦
                absurd (other (sym ((text_eqb_iff p.call.id q.1.id).0 (ground (arith, same)))))
            | inr differ ↦ rw differ kept
          ])
          log fresh h

    behind_index :
        (fs : Fs) (saves : List Saved) (log : List Recorded) (r : Result (Unit {0}) × Fs)
        → HasIds (p.session, msg)
        → last_message p.session msg.id saves ≡ some msg
        → Tracks fs saves log
        → IsLogged root r.1 (
            if is_ok r.0
            then saves_index p.session (entries_of p.session log ++ entry_for msg ∷ []) ∷ saves
            else saves)
        → IsTracked (replied msg r).1 (with_reply p.session (replied msg r).0 log)
    unfolding last_message
    behind_index fs saves log (err e, fs') ids there h logged =
        (saves, record { logged = logged; indices = h.indices; messages = h.messages; ids = h.ids })
    behind_index fs saves log (ok _, fs') ids there h logged = (
      saves_index p.session (entries_of p.session log ++ entry_for msg ∷ []) ∷ saves,
      record {
        logged = logged;
        indices = λ s. index_last saves log s h.indices;
        messages =
            at_end-All (λ (q : Recorded). last_message q.0 q.1.id saves ≡ some q.1) log
              (p.session, msg) h.messages there;
        ids = at_end-All HasIds log (p.session, msg) h.ids ids;
      },
    )

    add_to_index-Tracks :
        (fs : Fs) (saves : List Saved) (log : List Recorded)
        → Fits root p.call
        → HasIds (p.session, msg)
        → last_message p.session msg.id saves ≡ some msg
        → Tracks fs saves log
        → IsTracked
            (add_to_index root p.call p.session msg fs).1
            (with_reply p.session (add_to_index root p.call p.session msg fs).0 log)
    unfolding add_to_index
    add_to_index-Tracks fs saves log fits ids there h =
        rw (fits.readable, listed fs saves log p.session h ids.0)
          (behind_index fs saves log _ ids there h (
            step-IsLogged root p.call.index_env
              (saves_index p.session (entries_of p.session log ++ entry_for msg ∷ [])) fs saves
              fits.index h.logged))

    behind_message :
        (saves : List Saved) (log : List Recorded) (r : Result (Unit {0}) × Fs)
        → Fits root p.call
        → All (λ (q : Recorded). q.1.id ≢ p.call.id) log
        → (is_ok r.0 ≡ true → HasIds (p.session, msg))
        → ((s : Text) → last_index s saves ≡ entries_of s log)
        → All (λ (q : Recorded). last_message q.0 q.1.id saves ≡ some q.1) log
        → All HasIds log
        → IsLogged root r.1 (if is_ok r.0 then saves_message p.session msg ∷ saves else saves)
        → IsTracked
            (then_index root p.call p.session msg r).1
            (with_reply p.session (then_index root p.call p.session msg r).0 log)
    unfolding last_message last_index
    behind_message saves log (err e, fs) fits fresh valid indices messages ids logged =
        (saves, record { logged = logged; indices = indices; messages = messages; ids = ids })
    behind_message saves log (ok _, fs) fits fresh valid indices messages ids logged =
        add_to_index-Tracks fs (saves_message p.session msg ∷ saves) log fits (valid refl)
          (rw (text_eqb_refl p.session, text_eqb_refl p.call.id))
          (record {
            logged = logged;
            indices = indices;
            messages = messages_last saves log fresh messages;
            ids = ids;
          })

    pub append-Tracks :
        (fs : Fs) (log : List Recorded)
        → Fits root p.call
        → All (λ (q : Recorded). q.1.id ≢ p.call.id) log
        → IsTracked fs log
        → IsTracked
            (append root p.call p.session p.type p.content fs).1
            (with_reply p.session (append root p.call p.session p.type p.content fs).0 log)
    unfolding append
    append-Tracks fs log fits fresh (saves, h) =
        behind_message saves log _ fits fresh
          (λ done.
            perform-HasValidIds root p.call.message_env (saves_message p.session msg) fs done)
          h.indices h.messages h.ids
          (step-IsLogged root p.call.message_env (saves_message p.session msg) fs saves fits.message
            h.logged)
