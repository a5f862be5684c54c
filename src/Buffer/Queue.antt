-- ===== src/Buffer/Queue.antt =====
-- The interface of github.com/smallnest/ringbuffer, a dependency of internal/buffer/buffer.go.
-- The program relies on a byte queue of fixed capacity that, once its overwrite flag is set, makes
-- room for a write by dropping the oldest bytes.
use interactive_process_mcp.Prelude.{
  ℕ, zero, suc, ◌+◌, ◌-◌, ◌≤◌, ◌≡◌, refl, sym, ap, ◌∙◌, Bool, true, List, [], ◌∷◌, ◌++◌, Text,
  length, take, drop, length-drop, length-append, arith,
}
use native.Mathlib.Nat.{zero-add, suc-add}

-- The newest `n` entries.
abbrev pub last {ℓ} : {A : Type ℓ} → ℕ → List A → List A
last n xs = drop (length xs - n) xs

pub record Ring : Type 1 where
  pub RingBuffer : Type 0
  pub create : ℕ → RingBuffer
  pub set_overwrite : RingBuffer → Bool → RingBuffer
  pub write : RingBuffer → Text → RingBuffer
  pub size : RingBuffer → ℕ
  pub read : RingBuffer → ℕ → Text × RingBuffer
  -- What the documentation describes: the unread bytes, the capacity and the flag.
  pub contents : RingBuffer → Text
  pub capacity : RingBuffer → ℕ
  pub overwrites : RingBuffer → Bool
  pub contents-create : (n : ℕ) → contents (create n) ≡ []
  pub capacity-create : (n : ℕ) → capacity (create n) ≡ n
  pub contents-set_overwrite :
      (r : RingBuffer) (f : Bool) → contents (set_overwrite r f) ≡ contents r
  pub capacity-set_overwrite :
      (r : RingBuffer) (f : Bool) → capacity (set_overwrite r f) ≡ capacity r
  pub overwrites-set_overwrite : (r : RingBuffer) (f : Bool) → overwrites (set_overwrite r f) ≡ f
  pub contents-write :
      (r : RingBuffer) (p : Text)
      → overwrites r ≡ true
      → contents (write r p) ≡ last (capacity r) (contents r ++ p)
  pub capacity-write : (r : RingBuffer) (p : Text) → capacity (write r p) ≡ capacity r
  pub overwrites-write : (r : RingBuffer) (p : Text) → overwrites (write r p) ≡ overwrites r
  pub size-contents : (r : RingBuffer) → size r ≡ length (contents r)
  pub read-take : (r : RingBuffer) (n : ℕ) → (read r n).0 ≡ take n (contents r)
  pub contents-read : (r : RingBuffer) (n : ℕ) → contents (read r n).1 ≡ drop n (contents r)
  pub capacity-read : (r : RingBuffer) (n : ℕ) → capacity (read r n).1 ≡ capacity r
  pub overwrites-read : (r : RingBuffer) (n : ℕ) → overwrites (read r n).1 ≡ overwrites r

module _ {ℓ} {A : Type ℓ} where
  drop-nil : (m : ℕ) → drop {A = A} m [] ≡ []
  drop-nil zero = refl
  drop-nil (suc m) = refl

  drop-drop : (k m : ℕ) (xs : List A) → drop m (drop k xs) ≡ drop (k + m) xs
  drop-drop zero m xs = rw zero-add
  drop-drop (suc k) m [] = rw suc-add (drop-nil m)
  drop-drop (suc k) m (x ∷ xs) = rw suc-add (drop-drop k m xs)

  drop-append_left : (k : ℕ) (xs ys : List A) → k ≤ length xs → drop k (xs ++ ys) ≡ drop k xs ++ ys
  drop-append_left zero xs ys h = refl
  drop-append_left (suc k) [] ys h = absurd (omega arith)
  drop-append_left (suc k) (x ∷ xs) ys h = drop-append_left k xs ys (omega arith)

  pub length-last : (n : ℕ) (xs : List A) → length (last n xs) ≤ n
  length-last n xs = omega (arith, length-drop (length xs - n) xs)

  pub last-eq_self : (n : ℕ) (xs : List A) → length xs ≤ n → last n xs ≡ xs
  last-eq_self n xs h = let e : length xs - n ≡ 0 = omega arith in rw e

  -- Dropping the oldest early or late leaves the same.
  pub last-append_last : (n : ℕ) (xs ys : List A) → last n (last n xs ++ ys) ≡ last n (xs ++ ys)
  last-append_last n xs ys =
      let k : ℕ = length xs - n in
      let m : ℕ = length (drop k xs ++ ys) - n in
      let same : k + m ≡ length (xs ++ ys) - n =
        omega (arith, length-append (drop k xs) ys, length-append xs ys, length-drop k xs) in
      ap (drop m) (sym (drop-append_left k xs ys (omega arith)))
      ∙ drop-drop k m (xs ++ ys)
      ∙ ap (λ i. drop i (xs ++ ys)) same
