-- ===== src/Sessions/Manager/Locks.antt =====
-- The lock of internal/session/manager.go under `CleanupAll`, which takes it for reading, and again in
-- `ListAll`, beside a client that takes it for writing (`Create`, `Delete`) and others that read. The lock
-- is Go's: while a writer waits or writes, a reader waits.
use interactive_process_mcp.Prelude.{ℕ, suc, Bool, true, false, ◌≡◌, refl, arith}

-- Where `CleanupAll` stands: before the lock, with it, in `ListAll` with it twice, behind `ListAll`, and
-- without it again.
pub data Place : Type 0 where
  starting listing nested listed released : Place

pub data Writer : Type 0 where
  idle queued writing : Writer

-- `readers` is how many others read.
pub record Holders : Type 0 where
  pub place : Place
  pub writer : Writer
  pub readers : ℕ

abbrev pub begin : Holders
begin = record { place = starting; writer = idle; readers = 0 }

-- Whether `CleanupAll` holds the lock.
abbrev pub is_held : Place → Bool
is_held starting = false
is_held listing = true
is_held nested = true
is_held listed = true
is_held released = false

pub data Move (s : Holders) : Holders → Type 0 where
  locks : s.place ≡ starting → s.writer ≡ idle → Move s (record s { place = listing })
  locks_again : s.place ≡ listing → s.writer ≡ idle → Move s (record s { place = nested })
  lists : s.place ≡ nested → Move s (record s { place = listed })
  unlocks : s.place ≡ listed → Move s (record s { place = released })
  other_locks : s.writer ≡ idle → Move s (record s { readers = suc s.readers })
  other_unlocks : {n : ℕ} → s.readers ≡ suc n → Move s (record s { readers = n })
  writer_asks : s.writer ≡ idle → Move s (record s { writer = queued })
  writer_enters :
      s.writer ≡ queued
      → s.readers ≡ 0
      → is_held s.place ≡ false
      → Move s (record s { writer = writing })
  writer_leaves : s.writer ≡ writing → Move s (record s { writer = idle })

pub data Reach (s : Holders) : Holders → Type 0 where
  here : Reach s s
  next : {t u : Holders} → Reach s t → Move t u → Reach s u

-- Nobody reads while the writer writes.
record IsExclusive (s : Holders) : Type 0 where
  alone : s.writer ≡ writing → is_held s.place ≡ false
  no_readers : s.writer ≡ writing → s.readers ≡ 0

Move-IsExclusive : {s t : Holders} → Move s t → IsExclusive s → IsExclusive t
Move-IsExclusive (locks p w) h = record {
  alone = λ e. absurd (ground (arith, w, e));
  no_readers = h.no_readers;
}
Move-IsExclusive (locks_again p w) h = record {
  alone = λ e. absurd (ground (arith, w, e));
  no_readers = h.no_readers;
}
Move-IsExclusive (lists p) h = record {
  alone = λ e. absurd (ground (arith, p, h.alone e));
  no_readers = h.no_readers;
}
Move-IsExclusive (unlocks p) h = record { alone = λ e. refl; no_readers = h.no_readers }
Move-IsExclusive (other_locks w) h = record {
  alone = h.alone;
  no_readers = λ e. absurd (ground (arith, w, e));
}
Move-IsExclusive (other_unlocks r) h = record {
  alone = h.alone;
  no_readers = λ e. absurd (ground (arith, r, h.no_readers e));
}
Move-IsExclusive (writer_asks w) h = record {
  alone = λ e. absurd (ground (arith, e));
  no_readers = λ e. absurd (ground (arith, e));
}
Move-IsExclusive (writer_enters w none_left free) h = record {
  alone = λ e. free;
  no_readers = λ e. none_left;
}
Move-IsExclusive (writer_leaves w) h = record {
  alone = λ e. absurd (ground (arith, e));
  no_readers = λ e. absurd (ground (arith, e));
}

Reach-IsExclusive : {s t : Holders} → Reach s t → IsExclusive s → IsExclusive t
Reach-IsExclusive here h = h
Reach-IsExclusive (next r m) h = Move-IsExclusive m (Reach-IsExclusive r h)

-- `CleanupAll` holds the lock and asks for it again while a writer waits.
abbrev pub IsStuck : Holders → Type 0
IsStuck s = (s.place ≡ listing) × (s.writer ≡ queued)

Move-IsStuck : {s t : Holders} → Move s t → IsStuck s → IsStuck t
Move-IsStuck (locks p w) h = absurd (ground (arith, p, h.0))
Move-IsStuck (locks_again p w) h = absurd (ground (arith, w, h.1))
Move-IsStuck (lists p) h = absurd (ground (arith, p, h.0))
Move-IsStuck (unlocks p) h = absurd (ground (arith, p, h.0))
Move-IsStuck (other_locks w) h = h
Move-IsStuck (other_unlocks r) h = h
Move-IsStuck (writer_asks w) h = absurd (ground (arith, w, h.1))
Move-IsStuck (writer_enters w none_left free) h = absurd (ground (arith, h.0, free))
Move-IsStuck (writer_leaves w) h = absurd (ground (arith, w, h.1))

Reach-IsStuck : {s t : Holders} → IsStuck s → Reach s t → IsStuck t
Reach-IsStuck h here = h
Reach-IsStuck h (next r m) = Move-IsStuck m (Reach-IsStuck h r)

-- What becomes of a `CleanupAll` about to list the sessions, by what the writer does.
abbrev pub Fate : Holders → Writer → Type 0
Fate s idle = (t : Holders) × Reach s t × (t.place ≡ released)
Fate s queued = (t : Holders) → Reach s t → IsStuck t
Fate s writing = ⊥

fate : (s : Holders) (w : Writer) → IsExclusive s → s.place ≡ listing → s.writer ≡ w → Fate s w
fate s idle h p e = (_, next (next (next here (locks_again p e)) (lists refl)) (unlocks refl), refl)
fate s queued h p e = λ t r. Reach-IsStuck (p, e) r
fate s writing h p e = absurd (ground (arith, p, h.alone e))

-- A `CleanupAll` that holds the lock and is about to list the sessions can give it back if no writer has
-- asked for it meanwhile. If one has, neither of them ever goes on, whatever anyone does. No writer
-- holds it.
pub writer-Fate : (s : Holders) → Reach begin s → s.place ≡ listing → Fate s s.writer
writer-Fate s r p = fate s s.writer (Reach-IsExclusive r begin-IsExclusive) p refl
  where
    begin-IsExclusive : IsExclusive begin
    begin-IsExclusive = record { alone = λ e. refl; no_readers = λ e. refl }
