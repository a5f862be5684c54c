-- ===== src/Buffer/Reading.antt =====
-- `Read` of internal/buffer/buffer.go: what a call returns, and when.
use interactive_process_mcp.Prelude.{
  ℕ, ◌≡◌, ◌≢◌, ◌⊎◌, refl, ap, ◌∙◌, sym, ℤ, pos, Text, true, false, not, ◌||◌, Option, none, some,
  List, [], ◌∷◌, leb_ℤ, inl, inr, Option-cases, arith, if_cases, int_eq,
}
use interactive_process_mcp.Prelude.Assoc.{get, put, equals_refl}
use interactive_process_mcp.Buffer.Queue.{Ring}
use interactive_process_mcp.Buffer.{
  Buffer, Outcome, read_bytes, nothing, failed, err_closed, err_reader, eof, Read, returned,
  waiting, drains, Round, drain, settle, finish, must_wait, wait_loop, read, apply, apply_all,
}
use interactive_process_mcp.Buffer.View.{view, view-drain, drain-eq}

module _ (ring : Ring) (id : ℤ) where
  -- What an outcome says of the reader at the moment of the return.
  abbrev pub Explains : Outcome → Buffer ring → Type 0
  Explains (read_bytes p) b = (p ≢ []) × (view ring b id ≡ some [])
  Explains nothing b = (view ring b id ≡ some []) × (b.closed ≡ false)
  Explains (failed eof) b = (view ring b id ≡ some []) × (b.closed ≡ true)
  Explains (failed err_reader) b = view ring b id ≡ none
  Explains (failed err_closed) b = ⊥

  abbrev pub IsExplained : Read ring → Type 0
  IsExplained (returned o b) = Explains o b
  IsExplained (waiting b) = (view ring b id ≡ some []) × (b.closed ≡ false)

  module _ (b : Buffer ring) (rb : ring.RingBuffer) (there : get id b.readers ≡ some rb) where
    view-get : view ring b id ≡ some (ring.contents rb)
    unfolding view
    view-get = rw there

    settle_empty :
        (empty : Read ring) → ring.contents rb ≡ [] → settle ring id (drain ring rb) empty b ≡ empty
    unfolding settle
    settle_empty empty e =
        let dry : (drain ring rb).0 ≡ none = drain-eq ring rb ∙ rw e in rw (dry, settle)

    drained : Buffer ring
    drained = record b { readers = put id (drain ring rb).1 b.readers }

    apply-drains : apply ring (drains id) b ≡ drained
    unfolding apply drained
    apply-drains = rw (there, apply)

    view-drained : view ring drained id ≡ some []
    unfolding drained
    view-drained = view-drain ring b id id rb ∙ rw (equals_refl id)

    settle_bytes :
        (empty : Read ring) (c : ℕ) (p : Text)
        → ring.contents rb ≡ c ∷ p
        → settle ring id (drain ring rb) empty b ≡ returned (read_bytes (c ∷ p)) drained
    unfolding settle drained
    settle_bytes empty c p e =
        let full : (drain ring rb).0 ≡ some (c ∷ p) = drain-eq ring rb ∙ rw e (ground arith) in
        rw (full, settle)

    must_wait-eq :
        must_wait ring rb b ≡ (elim (ring.contents rb) [ [] ↦ not b.closed | _ ∷ _ ↦ false ])
    unfolding must_wait
    must_wait-eq = ground (arith, ring.size-contents rb)

    settle-IsExplained :
        (empty : Read ring) (p : Text)
        → ring.contents rb ≡ p
        → (p ≡ [] → IsExplained empty)
        → IsExplained (settle ring id (drain ring rb) empty b)
    settle-IsExplained empty [] e h = rw (settle_empty empty e) (h refl)
    settle-IsExplained empty (c ∷ p) e h = rw (settle_bytes empty c p e) ((λ q. cc), view-drained)

    view_empty : ring.contents rb ≡ [] → view ring b id ≡ some []
    view_empty e = view-get ∙ ap some e

    finish-IsExplained :
        (p : Text)
        → ring.contents rb ≡ p
        → must_wait ring rb b ≡ false
        → IsExplained (finish ring id rb b)
    unfolding finish
    finish-IsExplained p e m = settle-IsExplained _ p e λ dry.
        let shut : b.closed ≡ true = ground (arith, must_wait-eq, m, e, dry) in
        simp shut (view_empty (e ∙ dry), refl)

    must_wait_empty : must_wait ring rb b ≡ true → (view ring b id ≡ some []) × (b.closed ≡ false)
    must_wait_empty m = go (ring.contents rb) refl
      where
        go : (p : Text) → ring.contents rb ≡ p → (view ring b id ≡ some []) × (b.closed ≡ false)
        go [] e = (view_empty e, ground (arith, must_wait-eq, m, e))
        go (c ∷ p) e = ground (arith, must_wait-eq, m, e)

  wait_loop-IsExplained :
      (rounds : List Round) (b : Buffer ring) → IsExplained (wait_loop ring rounds id b)
  unfolding wait_loop
  wait_loop-IsExplained [] b = elim (Option-cases (get id b.readers)) [
    | inl gone ↦ rw (gone, wait_loop) (unfold view in rw gone)
    | inr (rb, there) ↦
        rw (there, wait_loop)
          (if_cases IsExplained (must_wait ring rb b) (must_wait_empty b rb there)
            (finish-IsExplained b rb there _ refl))
  ]
  wait_loop-IsExplained (r ∷ rounds) b =
      let rest = wait_loop-IsExplained rounds (apply_all ring r.meanwhile b) in
      elim (Option-cases (get id b.readers)) [
        | inl gone ↦ rw (gone, wait_loop) (unfold view in rw gone)
        | inr (rb, there) ↦
            rw (there, wait_loop)
              (if_cases IsExplained (must_wait ring rb b)
                (λ m.
                  if_cases IsExplained (r.expired || r.cancelled)
                    (λ _. must_wait_empty b rb there m) (λ _. rest))
                (finish-IsExplained b rb there _ refl))
      ]

  -- Whatever happens during a call of Read: when it returns bytes there are some, and nothing is left
  -- unread; end of file only once the buffer is closed and the reader has nothing unread; an invalid
  -- ID only if there is no such reader; and the call waits, or ends with nothing, only while the
  -- buffer is open and the reader has nothing unread.
  pub read-IsExplained :
      (timeout : ℤ) (rounds : List Round) (b : Buffer ring)
      → IsExplained (read ring id timeout rounds b)
  unfolding read
  read-IsExplained timeout rounds b = elim (Option-cases (get id b.readers)) [
    | inl gone ↦ rw (gone, read) (unfold view in rw gone)
    | inr (rb, there) ↦
        rw (there, read)
          (settle-IsExplained b rb there _ _ refl λ dry.
            if_cases IsExplained b.closed (λ shut. (view_empty b rb there dry, shut))
              λ open'.
                if_cases IsExplained (leb_ℤ timeout (pos 0))
                  (λ _. (view_empty b rb there dry, open')) λ _. wait_loop-IsExplained rounds b)
  ]

  abbrev pub HasReturned : Read ring → Type 0
  HasReturned (returned o b) = Unit {0}
  HasReturned (waiting b) = ⊥

  -- Some turn of the loop sees the deadline passed, or the context cancelled.
  abbrev pub IsTimed : List Round → Type 0
  IsTimed [] = ⊥
  IsTimed (r ∷ rounds) = ((r.expired || r.cancelled) ≡ true) ⊎ IsTimed rounds

  settle-HasReturned :
      (d : Option Text × ring.RingBuffer) (empty : Read ring) (b : Buffer ring)
      → HasReturned empty
      → HasReturned (settle ring id d empty b)
  unfolding settle
  settle-HasReturned (some p, rb) empty b h = tt
  settle-HasReturned (none, rb) empty b h = h

  wait_loop-HasReturned :
      (rounds : List Round) (b : Buffer ring)
      → IsTimed rounds
      → HasReturned (wait_loop ring rounds id b)
  unfolding wait_loop finish
  wait_loop-HasReturned [] b t = absurd t
  wait_loop-HasReturned (r ∷ rounds) b t =
      let later = wait_loop-HasReturned rounds (apply_all ring r.meanwhile b) in
      elim (Option-cases (get id b.readers)) [
        | inl gone ↦ rw (gone, wait_loop) tt
        | inr (rb, there) ↦
            rw (there, wait_loop)
              (if_cases HasReturned (must_wait ring rb b)
                (λ _.
                  if_cases HasReturned (r.expired || r.cancelled) (λ _. tt)
                    λ early. elim t [ inl now ↦ cc | inr rest ↦ later rest ])
                (λ _. settle-HasReturned (drain ring rb) _ b tt))
      ]

  -- A call of Read returns once a turn of its loop sees the deadline passed or the context cancelled.
  pub read-HasReturned :
      (timeout : ℤ) (rounds : List Round) (b : Buffer ring)
      → IsTimed rounds
      → HasReturned (read ring id timeout rounds b)
  unfolding read
  read-HasReturned timeout rounds b t = elim (Option-cases (get id b.readers)) [
    | inl gone ↦ rw (gone, read) tt
    | inr (rb, there) ↦
        rw (there, read)
          (settle-HasReturned (drain ring rb) _ b (
            if_cases HasReturned b.closed (λ _. tt)
              λ _.
                if_cases HasReturned (leb_ℤ timeout (pos 0)) (λ _. tt)
                  λ _. wait_loop-HasReturned rounds b t))
  ]

  -- Unread bytes are returned at once, all of them and whatever the timeout, also after a close; only
  -- this reader is changed.
  pub read_at_once :
      (timeout : ℤ) (rounds : List Round) (b : Buffer ring) (c : ℕ) (p : Text)
      → view ring b id ≡ some (c ∷ p)
      → read ring id timeout rounds b ≡ returned (read_bytes (c ∷ p)) (apply ring (drains id) b)
  unfolding read
  read_at_once timeout rounds b c p h = elim (Option-cases (get id b.readers)) [
    | inl gone ↦ absurd (unfold view in ground (arith, gone, h))
    | inr (rb, there) ↦
        rw (there, read)
          (settle_bytes b rb there _ c p (unfold view in ground (arith, there, h))
            ∙ ap (returned (read_bytes (c ∷ p))) (sym (apply-drains b rb there)))
  ]
