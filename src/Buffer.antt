-- ===== src/Buffer.antt =====
-- internal/buffer/buffer.go: the multi-reader buffer between a process and its readers.
-- The mutex makes each operation one step; what others do while a reader waits is the `meanwhile`
-- of a round. Reader IDs are Go ints that do not wrap.
pub mod Queue
pub mod Sample
pub mod View
pub mod Refines
pub mod Wakeup
pub mod Reading
mod Tests
use interactive_process_mcp.Prelude.{
  ℕ, zero, ◌+◌, ◌*◌, ℤ, pos, negsuc, Text, Bool, true, false, not, ◌&&◌, ◌||◌, Option, none, some,
  List, [], ◌∷◌, if◌then◌else◌, leb_ℤ, nat_eqb, int_eq, pos_part, ltb,
}
use interactive_process_mcp.Prelude.Assoc.{Map, get, put, remove, map_values}
use Queue.{Ring}

abbrev pub default_max_bytes : ℕ
default_max_bytes = 1024 * 1024

pub data Error : Type 0 where
  err_closed err_reader eof : Error

pub data Result {ℓ} (A : Type ℓ) : Type ℓ where
  ok : A → Result A
  err : Error → Result A

pub record Buffer (ring : Ring) : Type 0 where
  pub size : ℕ
  pub readers : Map ℤ ring.RingBuffer
  pub next_id : ℕ
  pub closed : Bool

-- The outcome of `Read`: bytes, nothing before the deadline, or an error.
pub data Outcome : Type 0 where
  read_bytes : Text → Outcome
  nothing : Outcome
  failed : Error → Outcome

-- A call of `Read` that has returned, or one that still waits.
pub data Read (ring : Ring) : Type 0 where
  returned : Outcome → Buffer ring → Read ring
  waiting : Buffer ring → Read ring

-- What another goroutine may do to the buffer.
pub data Op : Type 0 where
  writes : Text → Op
  registers : Op
  unregisters : ℤ → Op
  drains : ℤ → Op
  closes : Op

-- One turn of the waiting loop: what its tests see, and what happens while it waits.
pub record Round : Type 0 where
  pub expired : Bool
  pub cancelled : Bool
  pub meanwhile : List Op

module _ (ring : Ring) where
  unfoldable pub new : ℤ → Buffer ring
  new max_bytes = record {
    size = if leb_ℤ max_bytes (pos 0) then default_max_bytes else pos_part max_bytes;
    readers = [];
    next_id = 0;
    closed = false;
  }

  unfoldable pub new_reader : Buffer ring → Result ℤ × Buffer ring
  new_reader b = if b.closed then (err err_closed, b) else (
    ok (pos b.next_id),
    record b {
      readers = put (pos b.next_id) (ring.set_overwrite (ring.create b.size) true) b.readers;
      next_id = b.next_id + 1;
    },
  )

  unfoldable pub unregister : ℤ → Buffer ring → Buffer ring
  unregister id b = record b { readers = remove id b.readers }

  unfoldable pub write : Text → Buffer ring → Result (Unit {0}) × Buffer ring
  write [] b = (ok tt, b)
  write (c ∷ p) b =
      if b.closed
      then (err err_closed, b)
      else (ok tt, record b { readers = map_values (λ rb. ring.write rb (c ∷ p)) b.readers })

  -- All the bytes of one ring buffer, and the ring buffer that is left.
  unfoldable pub drain : ring.RingBuffer → Option Text × ring.RingBuffer
  drain rb =
      if ltb 0 (ring.size rb)
      then (some (ring.read rb (ring.size rb)).0, (ring.read rb (ring.size rb)).1)
      else (none, rb)

  -- A drained reader `id` returns its bytes, an empty one what is given beside them.
  settle : ℤ → Option Text × ring.RingBuffer → Read ring → Buffer ring → Read ring
  settle id (some p, rb) empty b =
      returned (read_bytes p) (record b { readers = put id rb b.readers })
  settle id (none, rb) empty b = empty

  -- Once the loop has ended, by data or by a close.
  finish : ℤ → ring.RingBuffer → Buffer ring → Read ring
  unfolding settle drain
  finish id rb b = settle id (drain rb) (returned (if b.closed then failed eof else nothing) b) b

  must_wait : ring.RingBuffer → Buffer ring → Bool
  must_wait rb b = nat_eqb (ring.size rb) 0 && not b.closed

  unfoldable pub has_more : ℤ → Buffer ring → Bool
  has_more id b = elim (get id b.readers) [ none ↦ false | some rb ↦ ltb 0 (ring.size rb) ]

  unfoldable pub close : Buffer ring → Buffer ring
  close b = record b { closed = true }

  unfoldable pub apply : Op → Buffer ring → Buffer ring
  unfolding new_reader unregister write drain close
  apply (writes p) b = (write p b).1
  apply registers b = (new_reader b).1
  apply (unregisters id) b = unregister id b
  apply (drains id) b = elim (get id b.readers) [
    | none ↦ b
    | some rb ↦ record b { readers = put id (drain rb).1 b.readers }
  ]
  apply closes b = close b

  unfoldable pub apply_all : List Op → Buffer ring → Buffer ring
  apply_all [] b = b
  apply_all (op ∷ ops) b = apply_all ops (apply op b)

  -- The waiting loop. After each wait the reader must still be there; with no round left the call
  -- is still waiting.
  unfoldable pub wait_loop : List Round → ℤ → Buffer ring → Read ring
  unfolding finish must_wait
  wait_loop [] id b = elim (get id b.readers) [
    | none ↦ returned (failed err_reader) b
    | some rb ↦ if must_wait rb b then waiting b else finish id rb b
  ]
  wait_loop (r ∷ rounds) id b =
      let rest = wait_loop rounds id (apply_all r.meanwhile b) in
      elim (get id b.readers) [
        | none ↦ returned (failed err_reader) b
        | some rb ↦
            if must_wait rb b
            then (if r.expired || r.cancelled then returned nothing b else rest)
            else finish id rb b
      ]

  unfoldable pub read : ℤ → ℤ → List Round → Buffer ring → Read ring
  unfolding settle drain wait_loop
  read id timeout rounds b =
      let waited = wait_loop rounds id b in
      elim (get id b.readers) [
        | none ↦ returned (failed err_reader) b
        | some rb ↦
            settle id (drain rb)
              (if b.closed
                then returned (failed eof) b
                else if leb_ℤ timeout (pos 0)
                then returned nothing b
                else waited)
              b
      ]
