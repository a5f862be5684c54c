-- ===== src/Messages/Interleaved/Kept.antt =====
-- The interleavings of the appends of internal/message/message.go, step by step.
use mathlib.Core.List.{Memᴰ}
use mathlib.Core.List.Memᴰ
use interactive_process_mcp.Prelude.{
  ℕ, Text, ◌≡◌, ◌≢◌, refl, ap, subst, ◌∙◌, Bool, true, false, Option, none, some, List, [], ◌∷◌,
  if_cases, nat_eqb, nat_eqb_iff, ◌==◌, text_eq, arith,
}
use interactive_process_mcp.Api.{MsgType, Message, MessageIndexEntry}
use interactive_process_mcp.Api.Documents.{valid_entry}
use interactive_process_mcp.Json.Utf8.{to_valid}
use interactive_process_mcp.Storage.{
  Result, ok, err, Fs, Env, validate_id, index_path, load_message_index, save_message_index,
}
use interactive_process_mcp.Storage.Atomic.{is_ok}
use interactive_process_mcp.Storage.RoundTrip.{get-save}
use interactive_process_mcp.Storage.Paths.{load_index_same}
use interactive_process_mcp.Messages.{Call, entry_for}
use interactive_process_mcp.Messages.Interleaved.{
  Place, locked, loaded, written, returned, update, Run, msg, behind_message, indexed,
}

pub update-cases {ℓ κ} :
    {A : Type ℓ} (P : ℕ → A → Type κ) (f : ℕ → A) (i : ℕ) (a : A) (j : ℕ)
    → P i a
    → (j ≢ i → P j (f j))
    → P j (update f i a j)
update-cases P f i a j new old =
    if_cases (P j) (nat_eqb i j) (λ e. subst (λ k. P k a) ((nat_eqb_iff i j).0 e) new)
      λ e. old (λ same. ground (arith, e, nat_eqb_iff i j, same))

-- A write of the index that fails leaves it as it was.
pub load_message_index-failed :
    (root : Text) (env : Env) (fs : Fs) (session : Text) (entries : List MessageIndexEntry)
    → (env.temp == index_path root session) ≡ false
    → is_ok (save_message_index root env session entries fs).0 ≡ false
    → load_message_index root true session (save_message_index root env session entries fs).1
      ≡ load_message_index root true session fs
unfolding save_message_index validate_id
load_message_index-failed root env fs session entries apart failed =
    load_index_same root true session _ fs λ valid.
      let failing = rw valid at failed in rw valid (get-save env _ _ fs _ apart ∙ rw failing refl)

abbrev pub is_inside : Place → Bool
is_inside locked = true
is_inside (loaded entries) = true
is_inside (written r) = true
is_inside _ = false

abbrev pub result_of : Place → Option (Result Message)
result_of (written r) = some r
result_of (returned r) = some r
result_of _ = none

module _ (root session : Text) (calls : ℕ → Call) (types : ℕ → MsgType) (contents : ℕ → Text)
    (start : List MessageIndexEntry) where
  abbrev pub message : ℕ → Message
  message = msg root session calls types contents

  abbrev pub now_indexed : List ℕ → List MessageIndexEntry
  now_indexed = indexed root session calls types contents start

  pub record IsKept (s : Run) : Type 0 where
    pub index_is : load_message_index root true session s.fs ≡ ok (now_indexed s.history)
    pub holder : (j : ℕ) → is_inside (s.place j) ≡ true → s.lock ≡ some j
    pub fresh :
        (j : ℕ) (entries : List MessageIndexEntry)
        → s.place j ≡ loaded entries
        → entries ≡ now_indexed s.history
    pub noted : (j : ℕ) (m : Message) → result_of (s.place j) ≡ some (ok m) → Memᴰ j s.history

  same :
      (i : ℕ)
      → to_valid (calls i).id ≡ (calls i).id
      → entry_for (message i) ≡ valid_entry (entry_for (message i))
  same i ascii = rw ascii refl

  pub outside :
      (r : Result (Unit {0}))
      → is_inside (behind_message root session calls types contents r) ≡ true
      → ⊥
  outside (ok _) h = cc
  outside (err e) h = cc

  pub no_index :
      (r : Result (Unit {0})) (entries : List MessageIndexEntry)
      → behind_message root session calls types contents r ≡ loaded entries
      → ⊥
  no_index (ok _) entries h = cc
  no_index (err e) entries h = cc

  pub no_result :
      (r : Result (Unit {0})) (m : Message)
      → result_of (behind_message root session calls types contents r) ≡ some (ok m)
      → ⊥
  no_result (ok _) m h = cc
  no_result (err e) m h = cc

  pub entry-kept :
      (history : List ℕ) (i : ℕ)
      → to_valid (calls i).id ≡ (calls i).id
      → Memᴰ i history
      → Memᴰ (entry_for (message i)) (now_indexed history)
  unfolding indexed
  entry-kept [] i ascii m = elim m [ ]
  entry-kept (j ∷ history) i ascii (Memᴰ.head e) = Memᴰ.cast (same i ascii) (
      Memᴰ.map valid_entry
        (Memᴰ.append_right (now_indexed history) (Memᴰ.head (ap (λ k. entry_for (message k)) e))))
  entry-kept (j ∷ history) i ascii (Memᴰ.tail m) =
      Memᴰ.cast (same i ascii)
        (Memᴰ.map valid_entry (Memᴰ.append_left _ (entry-kept history i ascii m)))
