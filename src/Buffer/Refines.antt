-- ===== src/Buffer/Refines.antt =====
-- The contract of the buffer of internal/buffer/buffer.go: every reader has a log of its own, which
-- grows with each write since it registered and is emptied by its own reads.
use mathlib.Core.Option
use interactive_process_mcp.Prelude.{
  ℕ, ◌+◌, ◌≡◌, refl, ap, ◌∙◌, sym, ℤ, pos, Text, Bool, true, false, Option, none, some, List, [],
  ◌∷◌, ◌++◌, inl, inr, Option-cases, Bool-cases, arith, if◌then◌else◌, ◌==◌, int_eq, int_eqb_iff,
}
use interactive_process_mcp.Prelude.Assoc.{get}
use interactive_process_mcp.Buffer.Queue.{Ring, last, last-append_last, last-eq_self}
use interactive_process_mcp.Buffer.{
  Buffer, Op, writes, registers, unregisters, drains, closes, new, new_reader, write, apply,
  apply_all,
}
use interactive_process_mcp.Buffer.View.{
  IsValid, view, new-IsValid, apply-IsValid, view-write, view-new_reader, view-unregister,
  view-drain,
}

pub record Logs : Type 0 where
  pub log : ℤ → Option Text
  pub next : ℕ
  pub shut : Bool

abbrev pub no_logs : Logs
no_logs = record { log = λ id. none; next = 0; shut = false }

unfoldable pub promise : Op → Logs → Logs
promise (writes p) s =
    if s.shut then s else record s { log = λ id. Option.map (λ c. c ++ p) (s.log id) }
promise registers s =
    if s.shut
    then s
    else record s { log = λ id. if pos s.next == id then some [] else s.log id; next = s.next + 1 }
promise (unregisters gone) s = record s { log = λ id. if gone == id then none else s.log id }
promise (drains other) s = record s {
  log = λ id. if other == id then Option.map (λ _. []) (s.log id) else s.log id;
}
promise closes s = record s { shut = true }

unfoldable pub promise_all : List Op → Logs → Logs
promise_all [] s = s
promise_all (op ∷ ops) s = promise_all ops (promise op s)

module _ (ring : Ring) where
  pub record Refines (b : Buffer ring) (s : Logs) : Type 0 where
    pub unread : (id : ℤ) → view ring b id ≡ Option.map (last b.size) (s.log id)
    pub next : b.next_id ≡ s.next
    pub shut : b.closed ≡ s.shut

  size-write : (p : Text) (b : Buffer ring) → (write ring p b).1.size ≡ b.size
  unfolding write
  size-write [] b = refl
  size-write (c ∷ p) b = ground arith

  size-new_reader : (b : Buffer ring) → (new_reader ring b).1.size ≡ b.size
  unfolding new_reader
  size-new_reader b = ground arith

  pub size-apply : (op : Op) (b : Buffer ring) → (apply ring op b).size ≡ b.size
  unfolding apply
  size-apply (writes p) b = size-write p b
  size-apply registers b = size-new_reader b
  size-apply (unregisters gone) b = refl
  size-apply (drains other) b = elim (Option-cases (get other b.readers)) [
    | inl gone ↦ rw (gone, apply) refl
    | inr (rb, there) ↦ rw (there, apply) refl
  ]
  size-apply closes b = refl

  write-closed : (p : Text) (b : Buffer ring) → b.closed ≡ true → (write ring p b).1 ≡ b
  unfolding write
  write-closed [] b h = refl
  write-closed (c ∷ p) b h = simp h

  new_reader-closed : (b : Buffer ring) → b.closed ≡ true → (new_reader ring b).1 ≡ b
  unfolding new_reader
  new_reader-closed b h = simp h

  closed-write : (p : Text) (b : Buffer ring) → (write ring p b).1.closed ≡ b.closed
  unfolding write
  closed-write [] b = refl
  closed-write (c ∷ p) b = ground arith

  next_id-write : (p : Text) (b : Buffer ring) → (write ring p b).1.next_id ≡ b.next_id
  unfolding write
  next_id-write [] b = refl
  next_id-write (c ∷ p) b = ground arith

  -- The unread bytes of an open buffer after a write, against the logs.
  writes-Refines :
      (p : Text) (b : Buffer ring) (s : Logs)
      → IsValid ring b
      → Refines b s
      → b.closed ≡ false
      → (id : ℤ)
      → view ring (write ring p b).1 id
        ≡ Option.map (last b.size) (Option.map (λ c. c ++ p) (s.log id))
  writes-Refines p b s v r shut id = elim (Option-cases (s.log id)) [
    | inl gone ↦ view-write ring b id p v shut ∙ rw (r.unread id, gone)
    | inr (c, there) ↦
        view-write ring b id p v shut
        ∙ rw (r.unread id, there) (ap some (last-append_last b.size c p))
  ]

  if-last :
      (here : Bool) (n : ℕ) (o q : Option Text)
      → Option.map (last n) (if here then o else q)
        ≡ (if here then Option.map (last n) o else Option.map (last n) q)
  if-last here n o q = ground arith

  pub apply-Refines :
      (op : Op) (b : Buffer ring) (s : Logs)
      → IsValid ring b
      → Refines b s
      → Refines (apply ring op b) (promise op s)
  unfolding apply promise
  apply-Refines (writes p) b s v r = elim (Bool-cases b.closed) [
    | inl shut ↦ simp (write-closed p b shut, sym r.shut ∙ shut) r
    | inr open' ↦ simp (sym r.shut ∙ open') (record {
      unread = λ id. rw (size-write p b) (writes-Refines p b s v r open' id);
      next = next_id-write p b ∙ r.next;
      shut = closed-write p b ∙ open';
    })
  ]
  apply-Refines registers b s v r = elim (Bool-cases b.closed) [
    | inl shut ↦ simp (new_reader-closed b shut, sym r.shut ∙ shut) r
    | inr open' ↦ simp (sym r.shut ∙ open') (record {
      unread = λ id. rw (size-new_reader b) (
          ground (
            arith,
            view-new_reader ring b id open',
            r.next,
            r.unread id,
            last-eq_self {A = ℕ} b.size [] (omega arith),
          ));
      next = unfold new_reader in ground (arith, r.next);
      shut = unfold new_reader in ground (arith, r.shut);
    })
  ]
  apply-Refines (unregisters gone) b s v r = record {
    unread = λ id. view-unregister ring b id gone ∙ rw (if-last, r.unread id);
    next = r.next;
    shut = r.shut;
  }
  apply-Refines (drains other) b s v r = elim (Option-cases (get other b.readers)) [
    | inl gone ↦
        rw (gone, apply)
          (record {
            unread = λ id.
                unfold view in
                ground (arith, gone, r.unread id, r.unread other, int_eqb_iff other id);
            next = r.next;
            shut = r.shut;
          })
    | inr (rb, there) ↦
        rw (there, apply)
          (record {
            unread = λ id.
                view-drain ring b id other rb
                ∙ unfold view in
                  ground (arith, there, r.unread id, r.unread other, int_eqb_iff other id);
            next = r.next;
            shut = r.shut;
          })
  ]
  apply-Refines closes b s v r = record {
    unread = unfold view in r.unread;
    next = r.next;
    shut = refl;
  }

  apply_all-Refines :
      (ops : List Op) (b : Buffer ring) (s : Logs)
      → IsValid ring b
      → Refines b s
      → Refines (apply_all ring ops b) (promise_all ops s)
  unfolding apply_all promise_all
  apply_all-Refines [] b s v r = r
  apply_all-Refines (op ∷ ops) b s v r =
      apply_all-Refines ops (apply ring op b) (promise op s) (apply-IsValid ring op b v)
        (apply-Refines op b s v r)

  pub new-Refines : (max_bytes : ℤ) → Refines (new ring max_bytes) no_logs
  unfolding new view get
  new-Refines max_bytes = record { unread = λ id. refl; next = refl; shut = refl }

  -- Whatever was done to a new buffer, each reader holds the newest bytes of its own log, up to the
  -- capacity, and no other reader holds anything.
  pub history-Refines :
      (max_bytes : ℤ) (ops : List Op)
      → Refines (apply_all ring ops (new ring max_bytes)) (promise_all ops no_logs)
  history-Refines max_bytes ops =
      apply_all-Refines ops (new ring max_bytes) no_logs (new-IsValid ring max_bytes)
        (new-Refines max_bytes)
