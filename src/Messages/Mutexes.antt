-- ===== src/Messages/Mutexes.antt =====
-- `sessionLock` of internal/message/message.go: the mutexes of the sessions, by number.
use interactive_process_mcp.Prelude.{
  ℕ, ◌+◌, ◌<◌, Text, ◌≡◌, sym, ap, ◌∙◌, ◌↔◌, none, some, List, [], ◌∷◌, Option-cases, inl, inr,
  text_eq, text_eqb_iff, text_eqb_refl, arith,
}
use interactive_process_mcp.Prelude.Assoc.{Map, get, put, get-put, some_injective}

-- `next` is a mutex that nobody has yet.
pub record Mutexes : Type 0 where
  pub session : Map Text ℕ
  pub next : ℕ

abbrev pub no_mutexes : Mutexes
no_mutexes = record { session = []; next = 0 }

unfoldable pub session_lock : Text → Mutexes → ℕ × Mutexes
session_lock id m = elim (get id m.session) [
  | none ↦ (m.next, record { session = put id m.next m.session; next = m.next + 1 })
  | some mu ↦ (mu, m)
]

-- The mutexes behind calls for sessions, one after the other.
unfoldable pub session_locks : List Text → Mutexes → Mutexes
session_locks [] m = m
session_locks (id ∷ ids) m = session_locks ids (session_lock id m).1

record IsValid (m : Mutexes) : Type 0 where
  bounded : (id : Text) (mu : ℕ) → get id m.session ≡ some mu → mu < m.next
  distinct :
      (id other : Text) (mu : ℕ)
      → get id m.session ≡ some mu
      → get other m.session ≡ some mu
      → id ≡ other

session_lock-IsValid : (id : Text) (m : Mutexes) → IsValid m → IsValid (session_lock id m).1
unfolding session_lock
session_lock-IsValid id m h = elim (Option-cases (get id m.session)) [
  | inr (mu, there) ↦ rw (there, session_lock) h
  | inl gone ↦
      rw (gone, session_lock)
        (record {
          bounded = λ k mu e. ground (arith, rw get-put at e, h.bounded k mu);
          distinct = λ k l mu e f. ground (
            arith,
            rw get-put at e,
            rw get-put at f,
            h.distinct k l mu,
            h.bounded k mu,
            h.bounded l mu,
            text_eqb_iff id k,
            text_eqb_iff id l,
          );
        })
]

no_mutexes-IsValid : IsValid no_mutexes
unfolding get
no_mutexes-IsValid = record { bounded = λ id mu h. cc; distinct = λ id other mu h. cc }

session_locks-IsValid : (ids : List Text) (m : Mutexes) → IsValid m → IsValid (session_locks ids m)
unfolding session_locks
session_locks-IsValid [] m h = h
session_locks-IsValid (id ∷ ids) m h = session_locks-IsValid ids _ (session_lock-IsValid id m h)

-- The mutex that a session has got.
session_lock-get :
    (id : Text) (m : Mutexes) → get id (session_lock id m).1.session ≡ some (session_lock id m).0
unfolding session_lock
session_lock-get id m = elim (Option-cases (get id m.session)) [
  | inr (mu, there) ↦ rw (there, session_lock) there
  | inl gone ↦ rw (gone, session_lock) (get-put _ _ _ _ ∙ rw (text_eqb_refl id))
]

get-session_lock :
    (other id : Text) (mu : ℕ) (m : Mutexes)
    → get id m.session ≡ some mu
    → get id (session_lock other m).1.session ≡ some mu
unfolding session_lock
get-session_lock other id mu m h = elim (Option-cases (get other m.session)) [
  | inr (mu', there) ↦ rw (there, session_lock) h
  | inl gone ↦
      rw (gone, session_lock) (get-put _ _ _ _ ∙ ground (arith, gone, h, text_eqb_iff other id))
]

get-session_locks :
    (ids : List Text) (id : Text) (mu : ℕ) (m : Mutexes)
    → get id m.session ≡ some mu
    → get id (session_locks ids m).session ≡ some mu
unfolding session_locks
get-session_locks [] id mu m h = h
get-session_locks (other ∷ ids) id mu m h =
    get-session_locks ids id mu _ (get-session_lock other id mu m h)

-- Two calls of `sessionLock` give the same mutex exactly if they are for the same session, whatever
-- calls came before and between.
pub session_lock-same :
    (before between : List Text) (id other : Text)
    → let first : ℕ × Mutexes = session_lock id (session_locks before no_mutexes) in
      let second : ℕ × Mutexes = session_lock other (session_locks between first.1) in
      (first.0 ≡ second.0) ↔ (id ≡ other)
session_lock-same before between id other =
    let first : ℕ × Mutexes = session_lock id (session_locks before no_mutexes) in
    let middle : Mutexes = session_locks between first.1 in
    let second : ℕ × Mutexes = session_lock other middle in
    let valid = session_lock-IsValid other middle (
      session_locks-IsValid between first.1
        (session_lock-IsValid id _ (session_locks-IsValid before no_mutexes no_mutexes-IsValid))) in
    let mine : get id second.1.session ≡ some first.0 =
      get-session_lock other id first.0 middle
        (get-session_locks between id first.0 first.1 (session_lock-get id _)) in
    let other_one : get other second.1.session ≡ some second.0 = session_lock-get other middle in
    (
      λ e. valid.distinct id other first.0 mine (other_one ∙ ap some (sym e)),
      λ e. some_injective (sym mine ∙ (ap (λ k. get k second.1.session) e ∙ other_one)),
    )
