-- ===== src/Prelude/Assoc.antt =====
-- Go's maps: association lists whose first entry of a key counts.
use mathlib.Core.Path.{◌≡◌, refl, subst, subst₂}
use mathlib.Core.Logic.{◌⊎◌, inl, inr}
use mathlib.Core.Bool.{true, false}
use mathlib.Core.List.{List, [], ◌∷◌}
use mathlib.Core.Option.{Option, none, some}
use mathlib.Core.Option
use native.Mathlib.Omega.{arith}
use interactive_process_mcp.Prelude.Tests.{if◌then◌else◌, Bool-cases, Option-cases}
use interactive_process_mcp.Prelude.Equality.{Comparable, ◌==◌}

abbrev pub Map {ℓ κ} : Type ℓ → Type κ → Type (ℓ ⊔ κ)
Map K V = List (K × V)

pub equals_refl {ℓ} : {K : Type ℓ} ⦃e : Comparable K⦄ (k : K) → (k == k) ≡ true
equals_refl ⦃e⦄ k = (e.equals_iff k k).1 refl

module _ {ℓ κ} {K : Type ℓ} {V : Type κ} ⦃e : Comparable K⦄ where
  unfoldable pub get : K → Map K V → Option V
  get k [] = none
  get k ((j, v) ∷ m) = if j == k then some v else get k m

  unfoldable pub put : K → V → Map K V → Map K V
  put k v [] = (k, v) ∷ []
  put k v ((j, w) ∷ m) = if j == k then (k, v) ∷ m else (j, w) ∷ put k v m

  -- Go's `delete`.
  unfoldable pub remove : K → Map K V → Map K V
  remove k [] = []
  remove k ((j, v) ∷ m) = let rest = remove k m in if j == k then rest else (j, v) ∷ rest

  pub get-put :
      (k j : K) (v : V) (m : Map K V) → get j (put k v m) ≡ (if k == j then some v else get j m)
  unfolding get put
  get-put k j v [] = refl
  get-put k j v ((i, w) ∷ m) =
      ground (arith, e.equals_iff k j, e.equals_iff i k, e.equals_iff i j, get-put k j v m)

  pub put-put : (k : K) (v w : V) (m : Map K V) → put k w (put k v m) ≡ put k w m
  unfolding put
  put-put k v w [] = ground (arith, e.equals_iff k k)
  put-put k v w ((i, u) ∷ m) = ground (arith, e.equals_iff k k, e.equals_iff i k, put-put k v w m)

  pub get-remove : (k j : K) (m : Map K V) → get j (remove k m) ≡ (if k == j then none else get j m)
  unfolding get remove
  get-remove k j [] = ground arith
  get-remove k j ((i, w) ∷ m) =
      ground (arith, e.equals_iff k j, e.equals_iff i k, e.equals_iff i j, get-remove k j m)

module _ {ℓ κ μ} {K : Type ℓ} {V : Type κ} {W : Type μ} ⦃e : Comparable K⦄ where
  -- A loop that visits every value.
  unfoldable pub map_values : (V → W) → Map K V → Map K W
  map_values f [] = []
  map_values f ((k, v) ∷ m) = (k, f v) ∷ map_values f m

  pub get-map_values :
      (f : V → W) (k : K) (m : Map K V) → get k (map_values f m) ≡ Option.map f (get k m)
  unfolding get map_values
  get-map_values f k [] = refl
  get-map_values f k ((j, v) ∷ m) = ground (arith, get-map_values f k m)

pub some_injective {ℓ} : {A : Type ℓ} {a b : A} → some a ≡ some b → a ≡ b
some_injective h = cc

-- A predicate that holds at every key that is found.
abbrev pub Every {ℓ κ μ} :
    {K : Type ℓ} {V : Type κ} ⦃e : Comparable K⦄ → (K → V → Type μ) → Map K V → Type (ℓ ⊔ κ ⊔ μ)
Every {K} {V} P m = (k : K) (v : V) → get k m ≡ some v → P k v

module _ {ℓ κ μ} {K : Type ℓ} {V : Type κ} ⦃e : Comparable K⦄ (P : K → V → Type μ) where
  pub put-Every : (k : K) (v : V) (m : Map K V) → Every P m → P k v → Every P (put k v m)
  put-Every k v m h p j w found = go (Bool-cases (k == j))
    where
      go : ((k == j) ≡ true) ⊎ ((k == j) ≡ false) → P j w
      go (inl same) =
          let at : some v ≡ some w = rw same at (rw get-put at found) in
          subst₂ P ((e.equals_iff k j).0 same) (some_injective at) p
      go (inr other) = h j w (rw other at (rw get-put at found))

  pub remove-Every : (k : K) (m : Map K V) → Every P m → Every P (remove k m)
  remove-Every k m h j w found = elim (Bool-cases (k == j)) [
    | inl same ↦ cc (rw same at (rw get-remove at found))
    | inr other ↦ h j w (rw other at (rw get-remove at found))
  ]

module _ {ℓ κ μ ν} {K : Type ℓ} {V : Type κ} {W : Type μ} ⦃e : Comparable K⦄ where
  pub map_values-Every :
      (P : K → W → Type ν) (f : V → W) (m : Map K V)
      → Every (λ k v. P k (f v)) m
      → Every P (map_values f m)
  map_values-Every P f m h j w found = elim (Option-cases (get j m)) [
    | inl gone ↦ cc (rw gone at (rw get-map_values at found))
    | inr (v, there) ↦
        let at : some (f v) ≡ some w = rw there at (rw get-map_values at found) in
        subst (P j) (some_injective at) (h j v there)
  ]
