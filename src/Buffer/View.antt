-- ===== src/Buffer/View.antt =====
-- What the readers of a buffer hold: each operation of internal/buffer/buffer.go as an equation on
-- the unread bytes of every reader.
use mathlib.Core.Option
use interactive_process_mcp.Prelude.{
  ℕ, ◌+◌, ◌≤◌, ◌<◌, ◌≡◌, refl, ap, ◌∙◌, sym, ℤ, pos, pos_part, neg_part, Text, true, false, Option,
  none, some, [], ◌∷◌, ◌++◌, length, inl, inr, Option-cases, arith, if◌then◌else◌, ◌==◌, int_eq,
  ltb, append-nil, if_cases, drop-eq_nil, take-eq_self,
}
use interactive_process_mcp.Prelude.Assoc.{
  get, put, get-put, get-remove, get-map_values, Every, put-Every, remove-Every, map_values-Every,
  equals_refl,
}
use interactive_process_mcp.Buffer.Queue.{Ring, last, length-last, last-eq_self}
use interactive_process_mcp.Buffer.{
  Buffer, Result, ok, Op, writes, registers, unregisters, drains, closes, new, new_reader,
  unregister, write, drain, apply,
}

module _ (ring : Ring) where
  -- What holds of every registered ring buffer.
  pub record Fits (size next : ℕ) (id : ℤ) (rb : ring.RingBuffer) : Type 0 where
    pub known : (neg_part id ≡ 0) × (pos_part id < next)
    pub sized : ring.capacity rb ≡ size
    pub overwriting : ring.overwrites rb ≡ true
    pub bounded : length (ring.contents rb) ≤ size

  pub record IsValid (b : Buffer ring) : Type 0 where
    pub fits : Every (Fits b.size b.next_id) b.readers

  -- The unread bytes of a reader; `none` where there is no such reader.
  unfoldable pub view : Buffer ring → ℤ → Option Text
  view b id = Option.map ring.contents (get id b.readers)

  Fits-fresh :
      (size next : ℕ) → Fits size (next + 1) (pos next) (ring.set_overwrite (ring.create size) true)
  Fits-fresh size next = record {
    known = (refl, omega arith);
    sized = ring.capacity-set_overwrite _ true ∙ ring.capacity-create size;
    overwriting = ring.overwrites-set_overwrite _ true;
    bounded = rw (ring.contents-set_overwrite, ring.contents-create) (omega arith);
  }

  module _ (size next : ℕ) (id : ℤ) (rb : ring.RingBuffer) (f : Fits size next id rb) where
    Fits-later : Fits size (next + 1) id rb
    Fits-later = record {
      known = (f.known.0, omega arith);
      sized = f.sized;
      overwriting = f.overwriting;
      bounded = f.bounded;
    }

    Fits-write : (p : Text) → Fits size next id (ring.write rb p)
    Fits-write p = record {
      known = f.known;
      sized = ring.capacity-write rb p ∙ f.sized;
      overwriting = ring.overwrites-write rb p ∙ f.overwriting;
      bounded =
          rw (ring.contents-write rb p f.overwriting, f.sized)
            (length-last size (ring.contents rb ++ p));
    }

  module _ (rb : ring.RingBuffer) where
    -- A drain takes all the bytes at once, and fails on an empty ring buffer only.
    pub drain-eq :
        (drain ring rb).0
        ≡ (if ltb 0 (length (ring.contents rb)) then some (ring.contents rb) else none)
    unfolding drain
    drain-eq = ground (
      arith,
      ring.size-contents rb,
      ring.read-take rb (ring.size rb),
      take-eq_self (ring.size rb) (ring.contents rb),
    )

    pub contents-drain : ring.contents (drain ring rb).1 ≡ []
    unfolding drain
    contents-drain = ground (
      arith,
      ring.size-contents rb,
      ring.contents-read rb (ring.size rb),
      drop-eq_nil (ring.size rb) (ring.contents rb),
      drop-eq_nil 0 (ring.contents rb),
    )

    capacity-drain : ring.capacity (drain ring rb).1 ≡ ring.capacity rb
    unfolding drain
    capacity-drain = ground (arith, ring.capacity-read rb (ring.size rb))

    overwrites-drain : ring.overwrites (drain ring rb).1 ≡ ring.overwrites rb
    unfolding drain
    overwrites-drain = ground (arith, ring.overwrites-read rb (ring.size rb))

  Fits-drain :
      (size next : ℕ) (id : ℤ) (rb : ring.RingBuffer)
      → Fits size next id rb
      → Fits size next id (drain ring rb).1
  Fits-drain size next id rb f = record {
    known = f.known;
    sized = capacity-drain rb ∙ f.sized;
    overwriting = overwrites-drain rb ∙ f.overwriting;
    bounded = rw contents-drain (omega arith);
  }

  pub new-IsValid : (max_bytes : ℤ) → IsValid (new ring max_bytes)
  unfolding new get
  new-IsValid max_bytes = record { fits = λ k v h. cc }

  -- Every operation keeps each registered ring buffer at the size of the buffer, in overwrite mode,
  -- with no more bytes than fit, under an ID that was handed out.
  pub apply-IsValid : (op : Op) (b : Buffer ring) → IsValid b → IsValid (apply ring op b)
  unfolding apply
  apply-IsValid (writes []) b h = h
  apply-IsValid (writes (c ∷ p)) b h =
      if_cases (λ (r : Result (Unit {0}) × Buffer ring). IsValid r.1) b.closed (λ _. h)
        λ _. record {
          fits =
              map_values-Every _ _ b.readers (λ k v e. Fits-write _ _ k v (h.fits k v e) (c ∷ p));
        }
  apply-IsValid registers b h =
      if_cases (λ (r : Result ℤ × Buffer ring). IsValid r.1) b.closed (λ _. h)
        λ _. record {
          fits =
              put-Every _ (pos b.next_id) _ b.readers
                (λ k v e. Fits-later b.size b.next_id k v (h.fits k v e))
                (Fits-fresh b.size b.next_id);
        }
  apply-IsValid (unregisters id) b h = record { fits = remove-Every _ id b.readers h.fits }
  apply-IsValid (drains id) b h = elim (Option-cases (get id b.readers)) [
    | inl gone ↦ rw (gone, apply) h
    | inr (rb, there) ↦
        rw (there, apply)
          (record {
            fits = put-Every _ id _ b.readers h.fits (Fits-drain _ _ id rb (h.fits id rb there));
          })
  ]
  apply-IsValid closes b h = record { fits = h.fits }

  -- The unread bytes after each operation.
  module _ (b : Buffer ring) (id : ℤ) where
    pub view-write :
        (p : Text)
        → IsValid b
        → b.closed ≡ false
        → view (write ring p b).1 id ≡ Option.map (λ c. last b.size (c ++ p)) (view b id)
    unfolding view write
    view-write [] h shut = elim (Option-cases (get id b.readers)) [
      | inl gone ↦ rw gone
      | inr (rb, there) ↦
          rw there (ap some (sym (rw append-nil (last-eq_self _ _ (h.fits id rb there).bounded))))
    ]
    view-write (c ∷ p) h shut = elim (Option-cases (get id b.readers)) [
      | inl gone ↦ simp (shut, get-map_values, gone)
      | inr (rb, there) ↦
          let f = h.fits id rb there in
          simp (shut, get-map_values, there)
            (rw (ring.contents-write rb (c ∷ p) f.overwriting, f.sized))
    ]

    pub view-new_reader :
        b.closed ≡ false
        → view (new_reader ring b).1 id ≡ (if pos b.next_id == id then some [] else view b id)
    unfolding view new_reader
    view-new_reader shut =
        simp (shut, get-put)
          (ground (
            arith,
            ring.contents-create b.size,
            ring.contents-set_overwrite (ring.create b.size) true,
          ))

    pub view-unregister :
        (gone : ℤ) → view (unregister ring gone b) id ≡ (if gone == id then none else view b id)
    unfolding view unregister
    view-unregister gone = rw get-remove (ground arith)

    pub view-drain :
        (other : ℤ) (rb : ring.RingBuffer)
        → view (record b { readers = put other (drain ring rb).1 b.readers }) id
          ≡ (if other == id then some [] else view b id)
    unfolding view
    view-drain other rb = rw get-put (ground (arith, contents-drain rb))

  -- A registration with an open buffer hands out an ID that names no reader yet, and the new reader
  -- has nothing unread, whatever was written before.
  pub new_reader_fresh :
      (b : Buffer ring)
      → IsValid b
      → b.closed ≡ false
      → ((new_reader ring b).0 ≡ ok (pos b.next_id))
        × (view b (pos b.next_id) ≡ none)
        × (view (new_reader ring b).1 (pos b.next_id) ≡ some [])
  new_reader_fresh b h shut = (
    unfold new_reader in simp shut,
    unfold view in
        elim (Option-cases (get (pos b.next_id) b.readers)) [
          | inl gone ↦ rw gone
          | inr (rb, there) ↦ absurd (omega (arith, (h.fits _ rb there).known))
        ],
    view-new_reader b (pos b.next_id) shut ∙ rw (equals_refl (pos b.next_id)),
  )
