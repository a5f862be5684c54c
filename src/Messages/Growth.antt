-- ===== src/Messages/Growth.antt =====
-- The indexes of internal/message/message.go before and behind a call of Append, and a save of the session
-- list.
use interactive_process_mcp.Prelude.{
  ◌≡◌, refl, ◌∙◌, sym, ap, true, false, List, [], ◌∷◌, ◌++◌, map, append-nil, append_assoc, Text,
  ◌==◌, text_eq, text_eqb_iff, inl, inr, Bool-cases, arith,
}
use interactive_process_mcp.Json.Utf8.{to_valid-ascii}
use interactive_process_mcp.Api
use interactive_process_mcp.Api.{MsgType, Message, MessageIndexEntry}
use interactive_process_mcp.Api.Documents.{valid_entry}
use interactive_process_mcp.Storage.{
  Result, ok, err, Fs, Env, is_valid_id, save_message_index, load_message_index, save_sessions,
  index_path,
}
use interactive_process_mcp.Storage.Atomic.{is_ok}
use interactive_process_mcp.Storage.Paths.{
  valid_bytes, load_index_same, load_message_index-save_message, text_ne,
}
use interactive_process_mcp.Storage.RoundTrip.{load-save_message_index}
use interactive_process_mcp.Storage.Log.{
  Saved, saves_sessions, saves_index, saves_message, place, perform, IsApart,
}
use interactive_process_mcp.Storage.Log.Places.{
  perform-HasValidIds, get-perform_ne, sessions_path-ne-index_path, index_path-injective,
}
use interactive_process_mcp.Messages.{
  Call, message_for, entry_for, or_none, replied, add_to_index, then_index, append,
}
use interactive_process_mcp.Messages.Log.{Fits}
use interactive_process_mcp.Messages.Log.Entries.{ascii}

map-append {ℓ κ} :
    {A : Type ℓ} {B : Type κ} (f : A → B) (xs ys : List A) → map f (xs ++ ys) ≡ map f xs ++ map f ys
map-append f [] ys = refl
map-append f (x ∷ xs) ys = ap (λ zs. f x ∷ zs) (map-append f xs ys)

-- Entries that a file keeps as they are.
abbrev pub AreValid : List MessageIndexEntry → Type 0
AreValid entries = map valid_entry entries ≡ entries

AreValid-append : (es fs : List MessageIndexEntry) → AreValid es → AreValid fs → AreValid (es ++ fs)
AreValid-append es fs h g = map-append valid_entry es fs ∙ rw (h, g) refl

module _ (root : Text) where
  -- The index of a session.
  pub record HasIndex (s : Text) (entries : List MessageIndexEntry) (fs : Fs) : Type 0 where
    pub index_is : load_message_index root true s fs ≡ ok entries
    pub are_valid : AreValid entries

  -- The index of a session begins with these entries.
  abbrev pub StartsIndex : Text → List MessageIndexEntry → Fs → Type 0
  StartsIndex s entries fs = (more : List MessageIndexEntry) × HasIndex s (entries ++ more) fs

  -- Every index of valid entries is in the later files with more entries at its end, or none.
  abbrev pub Grows : Fs → Fs → Type 0
  Grows fs fs' =
      (s : Text) (entries : List MessageIndexEntry)
      → is_valid_id s ≡ true
      → HasIndex s entries fs
      → StartsIndex s entries fs'

  unchanged :
      (s : Text) (entries : List MessageIndexEntry) (fs fs' : Fs)
      → load_message_index root true s fs' ≡ load_message_index root true s fs
      → HasIndex s entries fs
      → StartsIndex s entries fs'
  unchanged s entries fs fs' e h = (
    [],
    record {
      index_is = e ∙ (h.index_is ∙ ap ok (sym (append-nil entries)));
      are_valid = rw (append-nil entries) h.are_valid;
    },
  )

  pub Grows-refl : (fs : Fs) → Grows fs fs
  Grows-refl fs s entries vs h = unchanged s entries fs fs refl h

  pub Grows-trans : (a b c : Fs) → Grows a b → Grows b c → Grows a c
  Grows-trans a b c f g s entries vs h =
      let (more, mid) = f s entries vs h in
      let (rest, end') = g s (entries ++ more) vs mid in
      (more ++ rest, rw (sym (append_assoc entries more rest)) end')

  elsewhere :
      (env : Env) (op : Saved) (fs : Fs) (s : Text)
      → IsApart root env
      → (is_ok (perform root env op fs).0 ≡ true → (place root op == index_path root s) ≡ false)
      → load_message_index root true s (perform root env op fs).1
        ≡ load_message_index root true s fs
  elsewhere env op fs s apart other =
      load_index_same root true s _ fs
        λ v. get-perform_ne root env op fs _ (apart.from_index s) other

  pub save_sessions-Grows :
      (env : Env) (sessions : List Api.Session) (fs : Fs)
      → IsApart root env
      → Grows fs (save_sessions root env sessions fs).1
  save_sessions-Grows env sessions fs apart s entries vs h =
      unchanged s entries fs _
        (elsewhere env (saves_sessions sessions) fs s apart
          λ _. text_ne _ _ (sessions_path-ne-index_path root s))
        h

  replied_files : (msg : Message) (r : Result (Unit {0}) × Fs) → (replied msg r).1 ≡ r.1
  replied_files msg (ok _, fs) = refl
  replied_files msg (err e, fs) = refl

  -- The index of the session itself gets the new entry, any other index stays.
  save_index-Grows :
      (env : Env) (session : Text) (old : List MessageIndexEntry) (e : MessageIndexEntry) (fs : Fs)
      → IsApart root env
      → ((entries : List MessageIndexEntry)
          → load_message_index root true session fs ≡ ok entries
          → old ≡ entries)
      → AreValid (e ∷ [])
      → Grows fs (save_message_index root env session (old ++ e ∷ []) fs).1
  save_index-Grows env session old e fs apart is valid s entries vs h =
      elim (Bool-cases (is_ok (save_message_index root env session (old ++ e ∷ []) fs).0)) [
        | inr failed ↦
            unchanged s entries fs _
              (elsewhere env (saves_index session (old ++ e ∷ [])) fs s apart
                λ done. ground (arith, done, failed))
              h
        | inl done ↦ elim (Bool-cases (session == s)) [
          | inr other ↦
              unchanged s entries fs _
                (elsewhere env (saves_index session (old ++ e ∷ [])) fs s apart λ _.
                  text_ne _ _ λ (same : index_path root session ≡ index_path root s). ground (
                    arith,
                    other,
                    (text_eqb_iff session s).1 (
                        index_path-injective root session s
                          (perform-HasValidIds root env (saves_index session (old ++ e ∷ [])) fs
                            done)
                          vs same),
                  ))
                h
          | inl same ↦
              let eq : session ≡ s = (text_eqb_iff session s).0 same in
              let olds : old ≡ entries = is entries (rw eq h.index_is) in
              let all_valid : AreValid (entries ++ e ∷ []) =
                AreValid-append entries (e ∷ []) h.are_valid valid in
              (
                e ∷ [],
                record {
                  index_is = rw (sym eq) (
                      load-save_message_index root env fs session (old ++ e ∷ [])
                        (apart.from_index session) done
                      ∙ rw olds (ap ok all_valid));
                  are_valid = all_valid;
                },
              )
        ]
      ]

  or_none_ok :
      (r : Result (List MessageIndexEntry)) (entries : List MessageIndexEntry)
      → r ≡ ok entries
      → or_none r ≡ entries
  or_none_ok (ok old) entries h = ground (arith, h)
  or_none_ok (err e) entries h = cc

  entry-AreValid : (msg : Message) → is_valid_id msg.id ≡ true → AreValid (entry_for msg ∷ [])
  entry-AreValid msg vi = rw (to_valid-ascii msg.id (ascii msg.id (valid_bytes msg.id vi))) refl

  add_to_index-Grows :
      (call : Call) (session : Text) (msg : Message) (fs : Fs)
      → Fits root call
      → is_valid_id msg.id ≡ true
      → Grows fs (add_to_index root call session msg fs).1
  unfolding add_to_index
  add_to_index-Grows call session msg fs fits vi =
      rw (fits.readable, replied_files msg)
        (save_index-Grows call.index_env session _ (entry_for msg) fs fits.index
          (λ entries is. or_none_ok _ entries is) (entry-AreValid msg vi))

  then_index-Grows :
      (call : Call) (session : Text) (msg : Message) (fs : Fs) (r : Result (Unit {0}) × Fs)
      → Fits root call
      → (is_ok r.0 ≡ true → is_valid_id msg.id ≡ true)
      → Grows fs r.1
      → Grows fs (then_index root call session msg r).1
  then_index-Grows call session msg fs (err e, fs') fits valid h = h
  then_index-Grows call session msg fs (ok _, fs') fits valid h =
      Grows-trans fs fs' _ h (add_to_index-Grows call session msg fs' fits (valid refl))

  -- A call of Append, which may fail at any step, lets every index grow.
  pub append-Grows :
      (call : Call) (session : Text) (type : MsgType) (content : Text) (fs : Fs)
      → Fits root call
      → Grows fs (append root call session type content fs).1
  unfolding append
  append-Grows call session type content fs fits =
      let msg : Message = message_for call session type content in
      then_index-Grows call session msg fs _ fits
        (λ done. (perform-HasValidIds root call.message_env (saves_message session msg) fs done).1)
        λ s entries vs h.
          unchanged s entries fs _
            (load_message_index-save_message root call.message_env fs true session msg s
              (fits.message.from_index s))
            h
