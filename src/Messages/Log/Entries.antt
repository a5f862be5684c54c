-- ===== src/Messages/Log/Entries.antt =====
-- The entries of a session among the messages that Append of internal/message/message.go recorded.
use interactive_process_mcp.Prelude.{
  ◌≡◌, refl, true, List, [], ◌∷◌, ◌++◌, map, Text, All, all, ltb, ◌==◌, text_eq, if◌then◌else◌,
  arith, inl, inr, Bool-cases,
}
use interactive_process_mcp.Json.Utf8.{to_valid-ascii}
use interactive_process_mcp.Api.{Message}
use interactive_process_mcp.Api.Documents.{valid_entry}
use interactive_process_mcp.Storage.{is_id_byte, is_valid_id}
use interactive_process_mcp.Storage.Paths.{valid_bytes}
use interactive_process_mcp.Messages.{entry_for}
use interactive_process_mcp.Messages.Log.{Recorded, entries_of}

pub ascii : (id : Text) → all is_id_byte id ≡ true → all (λ c. ltb c 0x80) id ≡ true
unfolding all
ascii [] h = refl
ascii (c ∷ id) h = ground (arith, ascii id)

pub at_end-All {ℓ κ} :
    {A : Type ℓ} (P : A → Type κ) (xs : List A) (x : A) → All P xs → P x → All P (xs ++ x ∷ [])
at_end-All P [] x h p = (p, tt)
at_end-All P (y ∷ xs) x (q, h) p = (q, at_end-All P xs x h p)

pub zip-All {ℓ κ ι μ} :
    {A : Type ℓ} (P : A → Type κ) (Q : A → Type ι) (R : A → Type μ)
    → ((x : A) → P x → Q x → R x)
    → (xs : List A) → All P xs
    → All Q xs
    → All R xs
zip-All P Q R f [] h g = tt
zip-All P Q R f (x ∷ xs) (p, h) (q, g) = (f x p q, zip-All P Q R f xs h g)

pub entries_of_end :
    (s t : Text) (msg : Message) (log : List Recorded)
    → entries_of s (log ++ (t, msg) ∷ [])
      ≡ (if t == s then entries_of s log ++ entry_for msg ∷ [] else entries_of s log)
unfolding entries_of
entries_of_end s t msg [] = elim (Bool-cases (t == s)) [
  | inl same ↦ rw same refl
  | inr other ↦ rw other refl
]
entries_of_end s t msg ((u, m) ∷ log) = elim (Bool-cases (u == s)) [
  | inl here ↦ elim (Bool-cases (t == s)) [
    | inl same ↦ simp (here, same, entries_of_end s t msg log)
    | inr other ↦ simp (here, other, entries_of_end s t msg log)
  ]
  | inr there ↦ simp (there, entries_of_end s t msg log)
]

abbrev pub HasIds : Recorded → Type 0
HasIds (session, msg) = (is_valid_id session ≡ true) × (is_valid_id msg.id ≡ true)

-- Nothing in the index of a session is changed by the way through a file.
pub entries_of-valid :
    (s : Text) (log : List Recorded)
    → All HasIds log
    → map valid_entry (entries_of s log) ≡ entries_of s log
unfolding entries_of
entries_of-valid s [] h = refl
entries_of-valid s ((t, msg) ∷ log) ((vs, vi), h) = elim (Bool-cases (t == s)) [
  | inl same ↦
      simp (
        same,
        entries_of-valid s log h,
        to_valid-ascii msg.id (ascii msg.id (valid_bytes msg.id vi)),
      )
  | inr other ↦ simp (other, entries_of-valid s log h)
]
