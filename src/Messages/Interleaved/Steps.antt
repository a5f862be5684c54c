-- ===== src/Messages/Interleaved/Steps.antt =====
-- Each step of an append of internal/message/message.go against what the lock keeps.
use mathlib.Core.List.{Memᴰ}
use interactive_process_mcp.Prelude.{
  ℕ, Text, ◌≡◌, refl, ◌∙◌, true, Bool-cases, inl, inr, none, some, List, ◌∷◌, if◌then◌else◌,
  text_eq, arith,
}
use interactive_process_mcp.Api.{MsgType, Message, MessageIndexEntry}
use interactive_process_mcp.Storage.{Result, ok, err, Fs, load_message_index}
use interactive_process_mcp.Storage.Atomic.{is_ok}
use interactive_process_mcp.Storage.RoundTrip.{load-save_message_index}
use interactive_process_mcp.Storage.Paths.{load_message_index-save_message}
use interactive_process_mcp.Messages.{Call, or_none, replied}
use interactive_process_mcp.Messages.Append.{AreApart}
use interactive_process_mcp.Messages.Interleaved.{
  begun, saved, locked, loaded, written, returned, update, Run, first, second, behind_message,
  indexed,
}
use interactive_process_mcp.Messages.Interleaved.Kept.{
  update-cases, load_message_index-failed, is_inside, result_of, message, now_indexed, IsKept,
  outside, no_index, no_result,
}

module _ (root session : Text) (calls : ℕ → Call) (types : ℕ → MsgType) (contents : ℕ → Text)
    (start : List MessageIndexEntry) where
  kept_result :
      (j : ℕ) (r : Result (Unit {0}) × Fs) (m : Message)
      → (replied (message root session calls types contents start j) r).0 ≡ ok m
      → is_ok r.0 ≡ true
  kept_result j (ok _, fs) m h = refl
  kept_result j (err e, fs) m h = cc

  module _ (apart : (i : ℕ) → AreApart root (calls i) session)
      (readable : (i : ℕ) → (calls i).readable ≡ true) where
    pub saves-IsKept :
        (s : Run) (i : ℕ)
        → s.place i ≡ begun
        → IsKept root session calls types contents start s
        → IsKept root session calls types contents start (record s {
          fs = (first root session calls types contents i s.fs).1;
          place = update s.place i (
              behind_message root session calls types contents
                (first root session calls types contents i s.fs).0);
        })
    saves-IsKept s i e k =
        let r = first root session calls types contents i s.fs in
        record {
          index_is =
              load_message_index-save_message root (calls i).message_env s.fs true session
                (message root session calls types contents start i) session
                (apart i).index_of_message
              ∙ k.index_is;
          holder = λ j.
              update-cases (λ j p. is_inside p ≡ true → s.lock ≡ some j) s.place i _ j
                (λ h. absurd (outside root session calls types contents start r.0 h))
                (λ _. k.holder j);
          fresh = λ j entries.
              update-cases
                (λ j p.
                  p ≡ loaded entries
                  → entries ≡ now_indexed root session calls types contents start s.history)
                s.place i _ j
                (λ h. absurd (no_index root session calls types contents start r.0 entries h))
                (λ _. k.fresh j entries);
          noted = λ j m.
              update-cases (λ j p. result_of p ≡ some (ok m) → Memᴰ j s.history) s.place i _ j
                (λ h. absurd (no_result root session calls types contents start r.0 m h))
                (λ _. k.noted j m);
        }

    pub locks-IsKept :
        (s : Run) (i : ℕ)
        → s.place i ≡ saved
        → s.lock ≡ none
        → IsKept root session calls types contents start s
        → IsKept root session calls types contents start
            (record s { lock = some i; place = update s.place i locked })
    locks-IsKept s i e free k = record {
      index_is = k.index_is;
      holder = λ j.
          update-cases (λ j p. is_inside p ≡ true → some i ≡ some j) s.place i _ j (λ _. refl)
            (λ _ h. ground (arith, free, k.holder j h));
      fresh = λ j entries.
          update-cases
            (λ j p.
              p ≡ loaded entries
              → entries ≡ now_indexed root session calls types contents start s.history)
            s.place i _ j (λ h. ground (arith, h)) (λ _. k.fresh j entries);
      noted = λ j m.
          update-cases (λ j p. result_of p ≡ some (ok m) → Memᴰ j s.history) s.place i _ j
            (λ h. absurd (ground (arith, h))) (λ _. k.noted j m);
    }

    pub loads-IsKept :
        (s : Run) (i : ℕ)
        → s.place i ≡ locked
        → IsKept root session calls types contents start s
        → IsKept root session calls types contents start (record s {
          place =
              update s.place i
                (loaded (or_none (load_message_index root (calls i).readable session s.fs)));
        })
    loads-IsKept s i e k = record {
      index_is = k.index_is;
      holder = λ j.
          update-cases (λ j p. is_inside p ≡ true → s.lock ≡ some j) s.place i _ j
            (λ _. k.holder i (rw e refl)) (λ _. k.holder j);
      fresh = λ j entries.
          update-cases
            (λ j p.
              p ≡ loaded entries
              → entries ≡ now_indexed root session calls types contents start s.history)
            s.place i _ j (λ h. ground (arith, rw (readable i, k.index_is) at h))
            (λ _. k.fresh j entries);
      noted = λ j m.
          update-cases (λ j p. result_of p ≡ some (ok m) → Memᴰ j s.history) s.place i _ j
            (λ h. absurd (ground (arith, h))) (λ _. k.noted j m);
    }

    -- Two calls are not inside at once.
    alone :
        (s : Run) (i j : ℕ)
        → is_inside (s.place i) ≡ true
        → is_inside (s.place j) ≡ true
        → IsKept root session calls types contents start s
        → j ≡ i
    alone s i j a b k = ground (arith, k.holder i a, k.holder j b)

    pub writes-IsKept :
        (s : Run) (i : ℕ) (entries : List MessageIndexEntry)
        → s.place i ≡ loaded entries
        → IsKept root session calls types contents start s
        → let r : Result (Unit {0}) × Fs =
            second root session calls types contents i entries s.fs in
          IsKept root session calls types contents start (record s {
            fs = r.1;
            place =
                update s.place i
                  (written (replied (message root session calls types contents start i) r).0);
            history = if is_ok r.0 then i ∷ s.history else s.history;
          })
    unfolding indexed
    writes-IsKept s i entries e k =
        let r : Result (Unit {0}) × Fs = second root session calls types contents i entries s.fs in
        let old : List ℕ = s.history in
        elim (Bool-cases (is_ok r.0)) [
          | inl done ↦ rw done (record {
            index_is =
                load-save_message_index root (calls i).index_env s.fs session _ (apart i).index done
                ∙ rw (k.fresh i entries e) refl;
            holder = λ j.
                update-cases (λ j p. is_inside p ≡ true → s.lock ≡ some j) s.place i _ j
                  (λ _. k.holder i (rw e refl)) (λ _. k.holder j);
            fresh = λ j es.
                update-cases
                  (λ j p.
                    p ≡ loaded es
                    → es ≡ now_indexed root session calls types contents start (i ∷ old))
                  s.place i _ j (λ h. absurd (ground (arith, h)))
                  (λ ne h. absurd (ne (alone s i j (rw e refl) (rw h refl) k)));
            noted = λ j m.
                update-cases (λ j p. result_of p ≡ some (ok m) → Memᴰ j (i ∷ old)) s.place i _ j
                  (λ _. Memᴰ.head refl) (λ _ h. Memᴰ.tail (k.noted j m h));
          })
          | inr failed ↦ rw failed (record {
            index_is =
                load_message_index-failed root (calls i).index_env s.fs session _ (apart i).index
                  failed
                ∙ k.index_is;
            holder = λ j.
                update-cases (λ j p. is_inside p ≡ true → s.lock ≡ some j) s.place i _ j
                  (λ _. k.holder i (rw e refl)) (λ _. k.holder j);
            fresh = λ j es.
                update-cases
                  (λ j p.
                    p ≡ loaded es → es ≡ now_indexed root session calls types contents start old)
                  s.place i _ j (λ h. absurd (ground (arith, h))) (λ _. k.fresh j es);
            noted = λ j m.
                update-cases (λ j p. result_of p ≡ some (ok m) → Memᴰ j old) s.place i _ j
                  (λ h. absurd (ground (arith, failed, kept_result i r m (ground (arith, h)))))
                  (λ _. k.noted j m);
          })
        ]

    pub unlocks-IsKept :
        (s : Run) (i : ℕ) (r : Result Message)
        → s.place i ≡ written r
        → IsKept root session calls types contents start s
        → IsKept root session calls types contents start
            (record s { lock = none; place = update s.place i (returned r) })
    unlocks-IsKept s i r e k = record {
      index_is = k.index_is;
      holder = λ j.
          update-cases (λ j p. is_inside p ≡ true → none ≡ some j) s.place i _ j
            (λ h. absurd (ground (arith, h))) (λ ne h. absurd (ne (alone s i j (rw e refl) h k)));
      fresh = λ j es.
          update-cases
            (λ j p.
              p ≡ loaded es → es ≡ now_indexed root session calls types contents start s.history)
            s.place i _ j (λ h. absurd (ground (arith, h))) (λ _. k.fresh j es);
      noted = λ j m.
          update-cases (λ j p. result_of p ≡ some (ok m) → Memᴰ j s.history) s.place i _ j
            (λ h. k.noted i m (rw e h)) (λ _. k.noted j m);
    }
