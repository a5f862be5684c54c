-- ===== src/Sessions/Manager/History.antt =====
-- What internal/session/manager.go does to the message indexes of the store under `root`, over sessions that
-- keep their messages there, or nowhere.
use interactive_process_mcp.Prelude.{
  ◌≡◌, Bool, Option, none, some, List, [], ◌∷◌, Text, All, if_cases, ◌==◌, text_eq, inl, inr,
  Option-cases, Bool-cases,
}
use interactive_process_mcp.Prelude.Assoc.{Map, get, put, remove, some_injective}
use interactive_process_mcp.Api
use interactive_process_mcp.Storage.{Fs, Env}
use interactive_process_mcp.Storage.Log.{IsApart}
use interactive_process_mcp.Messages.Growth.{Grows, Grows-refl, Grows-trans, save_sessions-Grows}
use interactive_process_mcp.Buffer.Queue.{Ring}
use interactive_process_mcp.Sessions
use interactive_process_mcp.Sessions.{
  Config, Session, Event, Ending, Start, Result, ok, err, is_running, new, steps,
}
use interactive_process_mcp.Sessions.History.{
  IsMine, EventFits, Goes-trans, steps-Goes, EndingFits, terminate-Goes, StartFits, IsMineIn,
  new-Goes,
}
use interactive_process_mcp.Sessions.Manager.{
  Manager, DeleteResult, persist, add, create, put_back, terminate, delete, terminate_all,
  cleanup_all,
}

module _ (root : Text) (ring : Ring) where
  abbrev pub AreMine : Map Text (Session ring) → Type 0
  AreMine = All (λ (p : Text × Session ring). IsMine root p.1.msg_mgr)

  get_in-IsMine :
      (id : Text) (s : Session ring) (sessions : Map Text (Session ring))
      → AreMine sessions
      → get id sessions ≡ some s
      → IsMine root s.msg_mgr
  unfolding get
  get_in-IsMine id s [] h there = cc
  get_in-IsMine id s ((j, t) ∷ sessions) (mine, h) there = elim (Bool-cases (j == id)) [
    | inl same ↦ rw (some_injective (rw same at there)) at mine
    | inr other ↦ get_in-IsMine id s sessions h (rw other at there)
  ]

  put-AreMine :
      (id : Text) (s : Session ring) (sessions : Map Text (Session ring))
      → AreMine sessions
      → IsMine root s.msg_mgr
      → AreMine (put id s sessions)
  unfolding put
  put-AreMine id s [] h mine = (mine, tt)
  put-AreMine id s ((j, t) ∷ sessions) (first, h) mine =
      if_cases AreMine (j == id) (λ _. (mine, h)) λ _. (first, put-AreMine id s sessions h mine)

  remove-AreMine :
      (id : Text) (sessions : Map Text (Session ring))
      → AreMine sessions
      → AreMine (remove id sessions)
  unfolding remove
  remove-AreMine id [] h = tt
  remove-AreMine id ((j, t) ∷ sessions) (first, h) =
      if_cases AreMine (j == id) (λ _. remove-AreMine id sessions h)
        λ _. (first, remove-AreMine id sessions h)

  -- The manager and all its sessions keep what they keep in this store.
  pub record IsKept (m : Manager ring) : Type 0 where
    pub msg_mgr : IsMine root m.msg_mgr
    pub store : IsMine root m.store
    pub sessions : AreMine m.sessions

  abbrev pub Flows : Manager ring × Fs → Manager ring × Fs → Type 0
  Flows a b = IsKept a.0 → IsKept b.0 × Grows root a.1 b.1

  pub get-IsMine :
      (id : Text) (s : Session ring) (m : Manager ring)
      → IsKept m
      → get id m.sessions ≡ some s
      → IsMine root s.msg_mgr
  get-IsMine id s m h there = get_in-IsMine id s m.sessions h.sessions there

  pub put-IsKept :
      (id : Text) (s : Session ring) (m : Manager ring)
      → IsKept m
      → IsMine root s.msg_mgr
      → IsKept (record m { sessions = put id s m.sessions })
  put-IsKept id s m h mine = record {
    msg_mgr = h.msg_mgr;
    store = h.store;
    sessions = put-AreMine id s m.sessions h.sessions mine;
  }

  persist-Grows :
      (store : Option Text) (env : Env) (sessions : List Api.Session) (fs : Fs)
      → IsMine root store
      → IsApart root env
      → Grows root fs (persist ring store env sessions fs)
  unfolding persist
  persist-Grows none env sessions fs mine apart = Grows-refl root fs
  persist-Grows (some other) env sessions fs mine apart =
      rw mine (save_sessions-Grows root env sessions fs apart)

  -- The session that was created, and what it leaves.
  add-Flows :
      (env : Env) (m : Manager ring) (fs : Fs) (r : Result (Session ring) × Fs)
      → IsApart root env
      → IsKept m
      → IsMineIn root ring r.0 × Grows root fs r.1
      → IsMineIn root ring (add ring env m r).0
        × IsKept (add ring env m r).1.0
        × Grows root fs (add ring env m r).1.1
  unfolding add
  add-Flows env m fs (err e, fs') apart h (mine, grown) = (tt, h, grown)
  add-Flows env m fs (ok s, fs') apart h (mine, grown) = (
    mine,
    put-IsKept s.info.id s m h mine,
    Grows-trans root fs fs' _ grown (persist-Grows m.store env _ fs' h.store apart),
  )

  pub create-Flows :
      (cfg : Config) (start : Start) (env : Env) (m : Manager ring) (fs : Fs)
      → StartFits root ring start
      → IsApart root env
      → IsKept m
      → IsMineIn root ring (create ring cfg start env (m, fs)).0
        × IsKept (create ring cfg start env (m, fs)).1.0
        × Grows root fs (create ring cfg start env (m, fs)).1.1
  unfolding create
  create-Flows cfg start env m fs fits apart h =
      add-Flows env m fs _ apart h (new-Goes root ring cfg m.msg_mgr start fs fits h.msg_mgr)

  pub terminate-Flows :
      (id : Text) (force : Bool) (run : Ending) (env : Env) (m : Manager ring) (fs : Fs)
      → EndingFits root ring run
      → IsApart root env
      → Flows (m, fs) (terminate ring id force run env (m, fs))
  unfolding terminate put_back
  terminate-Flows id force run env m fs fits apart h = elim (Option-cases (get id m.sessions)) [
    | inl gone ↦ rw (gone, terminate) (h, Grows-refl root fs)
    | inr (s, there) ↦
        let (mine, grown) =
          terminate-Goes root ring force run (s, fs) fits (get-IsMine id s m h there) in
        rw (there, terminate)
          (
            put-IsKept id _ m h mine,
            Grows-trans root fs _ _ grown (persist-Grows m.store env _ _ h.store apart),
          )
  ]

  pub delete-Flows :
      (id : Text) (env : Env) (m : Manager ring) (fs : Fs)
      → IsApart root env
      → Flows (m, fs) (delete ring id env (m, fs)).1
  unfolding delete
  delete-Flows id env m fs apart h = elim (Option-cases (get id m.sessions)) [
    | inl gone ↦ rw (gone, delete) (h, Grows-refl root fs)
    | inr (s, there) ↦
        rw (there, delete)
          (if_cases (λ (r : DeleteResult × (Manager ring × Fs)). IsKept r.1.0 × Grows root fs r.1.1)
            (is_running ring s) (λ _. (h, Grows-refl root fs))
            λ _. (
              record {
                msg_mgr = h.msg_mgr;
                store = h.store;
                sessions = remove-AreMine id m.sessions h.sessions;
              },
              persist-Grows m.store env _ fs h.store apart,
            ))
  ]

  terminate_all-AreMine :
      (force : Bool) (runs : Text → Ending) (later : Text → List Event)
      (sessions : Map Text (Session ring)) (fs : Fs)
      → ((id : Text) → EndingFits root ring (runs id))
      → ((id : Text) → All (EventFits root) (later id))
      → AreMine sessions
      → AreMine (terminate_all ring force runs later (sessions, fs)).0
        × Grows root fs (terminate_all ring force runs later (sessions, fs)).1
  unfolding terminate_all
  terminate_all-AreMine force runs later [] fs ends fits h = (tt, Grows-refl root fs)
  terminate_all-AreMine force runs later ((id, s) ∷ sessions) fs ends fits (mine, h) =
      let ended : Session ring × Fs = Sessions.terminate ring force (runs id) (s, fs) in
      let one : Session ring × Fs = steps ring (later id) ended in
      let (first, grown) =
        Goes-trans root ring (s, fs) ended one
          (terminate-Goes root ring force (runs id) (s, fs) (ends id))
          (steps-Goes root ring (later id) ended (fits id)) mine in
      let (rest, more) = terminate_all-AreMine force runs later sessions one.1 ends fits h in
      ((first, rest), Grows-trans root fs one.1 _ grown more)

  pub cleanup_all-Flows :
      (force : Bool) (runs : Text → Ending) (later : Text → List Event) (env : Env)
      (m : Manager ring) (fs : Fs)
      → ((id : Text) → EndingFits root ring (runs id))
      → ((id : Text) → All (EventFits root) (later id))
      → IsApart root env
      → Flows (m, fs) (cleanup_all ring force runs later env (m, fs))
  unfolding cleanup_all
  cleanup_all-Flows force runs later env m fs ends fits apart h =
      let (mine, grown) =
        terminate_all-AreMine force runs later m.sessions fs ends fits h.sessions in
      (
        record { msg_mgr = h.msg_mgr; store = h.store; sessions = mine },
        Grows-trans root fs _ _ grown (persist-Grows m.store env _ _ h.store apart),
      )
