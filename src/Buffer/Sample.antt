-- ===== src/Buffer/Sample.antt =====
-- A ring buffer that meets the description of the dependency: the bytes in order, with the capacity
-- and the flag.
use interactive_process_mcp.Prelude.{
  ℕ, ◌≡◌, refl, Bool, true, false, [], ◌++◌, Text, length, take, drop, if◌then◌else◌, arith,
}
use interactive_process_mcp.Buffer.Queue.{Ring, last}

pub record Bytes : Type 0 where
  pub unread : Text
  pub limit : ℕ
  pub flag : Bool

abbrev kept : Bool → ℕ → Text → Text
kept f n p = if f then last n p else take n p

pub push : Bytes → Text → Bytes
push r p = record r { unread = kept r.flag r.limit (r.unread ++ p) }

pub unread-push :
    (r : Bytes) (p : Text) → r.flag ≡ true → (push r p).unread ≡ last r.limit (r.unread ++ p)
unfolding push
unread-push r p h = ground arith

unfoldable pub sample_ring : Ring
unfolding push
sample_ring = record {
  RingBuffer = Bytes;
  create = λ n. record { unread = []; limit = n; flag = false };
  set_overwrite = λ r f. record r { flag = f };
  write = push;
  size = λ r. length r.unread;
  read = λ r n. (take n r.unread, record r { unread = drop n r.unread });
  contents = λ r. r.unread;
  capacity = λ r. r.limit;
  overwrites = λ r. r.flag;
  contents-create = λ n. refl;
  capacity-create = λ n. refl;
  contents-set_overwrite = λ r f. refl;
  capacity-set_overwrite = λ r f. refl;
  overwrites-set_overwrite = λ r f. refl;
  contents-write = unread-push;
  capacity-write = λ r p. refl;
  overwrites-write = λ r p. refl;
  size-contents = λ r. refl;
  read-take = λ r n. refl;
  contents-read = λ r n. refl;
  capacity-read = λ r n. refl;
  overwrites-read = λ r n. refl;
}
