-- ===== src/Storage/Atomic.antt =====
-- `atomicWriteFile` of internal/storage/store.go: its steps, and what a crash between them leaves.
use interactive_process_mcp.Prelude.{
  ℕ, zero, suc, ◌≡◌, refl, ◌∙◌, ap, sym, ◌⊎◌, inl, inr, Bool, true, false, not, ◌&&◌, ◌||◌, some,
  List, [], ◌∷◌, Text, take, length, take-eq_self, All, Bool-cases, if◌then◌else◌, if_cases, ◌==◌,
  text_eq, text_eqb_refl, arith,
}
use interactive_process_mcp.Prelude.Assoc.{get, get-put, get-remove}
use interactive_process_mcp.Json.{Value, File, document, raw}
use interactive_process_mcp.Storage.{
  Result, ok, err, os_error, Fs, Env, Action, creates, fills, removes, renames, act, act_all, plan,
  atomic_write,
}

abbrev pub is_ok {ℓ} : {A : Type ℓ} → Result A → Bool
is_ok (ok a) = true
is_ok (err e) = false

module _ (temp q : Text) (apart : (temp == q) ≡ false) where
  -- A step on the temporary file alone.
  abbrev IsTemporary : Action → Type 0
  IsTemporary (creates p) = p ≡ temp
  IsTemporary (fills p f) = p ≡ temp
  IsTemporary (removes p) = p ≡ temp
  IsTemporary (renames p r) = ⊥

  get-act : (a : Action) (fs : Fs) → IsTemporary a → get q (act a fs) ≡ get q fs
  unfolding act
  get-act (creates p) fs h = rw (h, get-put, apart)
  get-act (fills p f) fs h = rw (h, get-put, apart)
  get-act (removes p) fs h = rw (h, get-remove, apart)
  get-act (renames p r) fs h = absurd h

  -- Such steps leave every other file alone, wherever they stop.
  get-act_all :
      (n : ℕ) (actions : List Action) (fs : Fs)
      → All IsTemporary actions
      → get q (act_all (take n actions) fs) ≡ get q fs
  unfolding act_all
  get-act_all zero actions fs h = refl
  get-act_all (suc n) [] fs h = refl
  get-act_all (suc n) (a ∷ actions) fs h = get-act_all n actions (act a fs) h.1 ∙ get-act a fs h.0

-- The file that is found after the temporary one was renamed.
get-renames :
    (temp path q : Text) (f : File) (fs : Fs)
    → (temp == q) ≡ false
    → get temp fs ≡ some f
    → get q (act (renames temp path) fs) ≡ (if path == q then some f else get q fs)
unfolding act
get-renames temp path q f fs apart there = rw (there, act, get-put, get-remove, apart)

take-nil : (n : ℕ) → take {A = Action} n [] ≡ []
take-nil zero = refl
take-nil (suc n) = refl

module _ (env : Env) (path : Text) (doc : File) (fs : Fs) (q : Text)
    (apart : (env.temp == q) ≡ false) where
  abbrev opened : List Action
  opened = creates env.temp ∷ fills env.temp doc ∷ []

  abbrev written : List Action
  written = creates env.temp ∷ fills env.temp doc ∷ renames env.temp path ∷ []

  abbrev abandoned : File → List Action
  abandoned f =
      creates env.temp ∷ fills env.temp f ∷ (if env.remove_ok then removes env.temp ∷ [] else [])

  -- What the steps and the result of a write mean for a file: wherever a run of the steps stops, the
  -- file is as before, or it is the one written and is new; at the end it is new on success only.
  pub record IsAtomic (run : List Action × Result (Unit {0})) : Type 0 where
    pub stops :
        (n : ℕ)
        → (get q (act_all (take n run.0) fs) ≡ get q fs)
          ⊎ ((get q (act_all (take n run.0) fs) ≡ some doc) × ((path == q) ≡ true))
    pub ends : get q (act_all run.0 fs) ≡ (if is_ok run.1 && path == q then some doc else get q fs)

  -- A failed write touches the temporary file only.
  fails-IsAtomic :
      (actions : List Action)
      → All (IsTemporary env.temp q apart) actions
      → IsAtomic (actions, err os_error)
  fails-IsAtomic actions h = record {
    stops = λ k. inl (get-act_all env.temp q apart k actions fs h);
    ends =
        ap (λ as'. get q (act_all as' fs))
          (sym (take-eq_self (length actions) actions (omega arith)))
        ∙ get-act_all env.temp q apart (length actions) actions fs h;
  }

  -- The steps of a failed write, which end with an attempt to remove the temporary file.
  abandoned-IsAtomic : (f : File) → IsAtomic (abandoned f, err os_error)
  abandoned-IsAtomic f = fails-IsAtomic (abandoned f) (elim (Bool-cases env.remove_ok) [
    | inl removed ↦ rw removed (refl, (refl, (refl, tt)))
    | inr stays ↦ rw stays (refl, (refl, tt))
  ])

  after_rename : get q (act_all written fs) ≡ (if path == q then some doc else get q fs)
  unfolding act_all
  after_rename =
      get-renames env.temp path q doc (act_all opened fs) apart filled
      ∙ ap (λ o. if path == q then some doc else o)
          (get-act_all env.temp q apart 2 opened fs (refl, (refl, tt)))
    where
      filled : get env.temp (act_all opened fs) ≡ some doc
      filled = unfold act in rw (get-put, text_eqb_refl env.temp)

  written-IsAtomic : IsAtomic (written, ok tt)
  written-IsAtomic = record { stops = stop; ends = after_rename }
    where
      renamed :
          ((path == q) ≡ true) ⊎ ((path == q) ≡ false)
          → (get q (act_all written fs) ≡ get q fs)
            ⊎ ((get q (act_all written fs) ≡ some doc) × ((path == q) ≡ true))
      renamed (inl here) = inr (after_rename ∙ rw here, here)
      renamed (inr other) = inl (after_rename ∙ rw other)

      stop :
          (n : ℕ)
          → (get q (act_all (take n written) fs) ≡ get q fs)
            ⊎ ((get q (act_all (take n written) fs) ≡ some doc) × ((path == q) ≡ true))
      stop zero = inl (get-act_all env.temp q apart 0 opened fs (refl, (refl, tt)))
      stop (suc zero) = inl (get-act_all env.temp q apart 1 opened fs (refl, (refl, tt)))
      stop (suc (suc zero)) = inl (get-act_all env.temp q apart 2 opened fs (refl, (refl, tt)))
      stop (suc (suc (suc n))) = rw (take-nil n) (renamed (Bool-cases (path == q)))

  plan-IsAtomic : IsAtomic (plan env path doc)
  unfolding plan
  plan-IsAtomic =
      if_cases IsAtomic (not env.create_ok) (λ _. fails-IsAtomic [] tt)
        λ _.
          if_cases IsAtomic (not env.write_ok) (λ _. abandoned-IsAtomic (raw env.partial))
            λ _.
              if_cases IsAtomic (not env.sync_ok || (not env.close_ok || not env.chmod_ok))
                (λ _. abandoned-IsAtomic doc)
                λ _.
                  if_cases IsAtomic (not env.rename_ok)
                    (λ _. fails-IsAtomic opened (refl, (refl, tt))) λ _. written-IsAtomic

module _ (env : Env) (path : Text) (v : Value) (fs : Fs) where
  -- A crash between any two steps of a write leaves every file but the temporary one as it was, or,
  -- for the file that is written, complete and new.
  pub crash-IsAtomic :
      (n : ℕ) (q : Text)
      → (env.temp == q) ≡ false
      → (get q (act_all (take n (plan env path (document v)).0) fs) ≡ get q fs)
        ⊎ ((get q (act_all (take n (plan env path (document v)).0) fs) ≡ some (document v))
            × ((path == q) ≡ true))
  crash-IsAtomic n q apart = (plan-IsAtomic env path (document v) fs q apart).stops n

  pub get-atomic_write :
      (q : Text)
      → (env.temp == q) ≡ false
      → get q (atomic_write env path v fs).1 ≡ (
          if is_ok (atomic_write env path v fs).0 && path == q then some (document v) else get q fs)
  unfolding atomic_write
  get-atomic_write q apart = (plan-IsAtomic env path (document v) fs q apart).ends

  -- A write succeeds exactly if every call to the system does.
  pub is_ok-atomic_write : is_ok (atomic_write env path v fs).0 ≡ (
      env.create_ok
      && (env.write_ok && (env.sync_ok && (env.close_ok && (env.chmod_ok && env.rename_ok)))))
  unfolding atomic_write plan
  is_ok-atomic_write = ground arith

  -- Where only the rename fails, the write fails and its temporary file stays behind, complete.
  pub temp_left :
      env.create_ok ≡ true
      → env.write_ok ≡ true
      → (env.sync_ok && (env.close_ok && env.chmod_ok)) ≡ true
      → env.rename_ok ≡ false
      → ((atomic_write env path v fs).0 ≡ err os_error)
        × (get env.temp (atomic_write env path v fs).1 ≡ some (document v))
  unfolding atomic_write plan
  temp_left c w rest failed =
      let closed : (not env.sync_ok || (not env.close_ok || not env.chmod_ok)) ≡ false =
        ground arith in
      simp (c, w, closed, failed) (refl, unfold act_all act in rw (get-put, text_eqb_refl env.temp))
