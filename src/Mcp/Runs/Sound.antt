-- ===== src/Mcp/Runs/Sound.antt =====
-- The sessions of the registry in any run of the server, and the metadata of one that has exited.
use interactive_process_mcp.Prelude.{
  Text, ◌≡◌, ◌≢◌, refl, sym, ◌∙◌, ap, subst, Option, some, List, [], ◌∷◌, All, text_eq, inl,
}
use interactive_process_mcp.Prelude.Assoc.{get, some_injective}
use interactive_process_mcp.Buffer.Queue.{Ring}
use interactive_process_mcp.Sessions.{Config, Session, Start, fresh}
use interactive_process_mcp.Sessions.Lifecycle.Advance.{IsSettled, IsOver, Advances, fresh-IsLive}
use interactive_process_mcp.Mcp.{Floats}
use interactive_process_mcp.Mcp.FileTools.{Library}
use interactive_process_mcp.Mcp.Tools.{Whole}
use interactive_process_mcp.Mcp.Runs.{Input, StartsWell, calls, acts, cleans_up, run}
use interactive_process_mcp.Mcp.Runs.Every.{run-EveryIn}

module _ (floats : Floats) (ring : Ring) (lib : Library) (root : Text) where
  -- Registered under its own ID, with a status, an exit code and an exit guard that agree.
  abbrev pub IsSound : Text → Session ring → Type 0
  IsSound id s = (s.info.id ≡ id) × IsSettled ring s

  carries-IsSound :
      (id : Text) (s t : Session ring) → IsSound id s → Advances ring s t → IsSound id t
  carries-IsSound id s t h a = (a.id_is ∙ h.0, a.settled h.1)

  born-IsSound :
      (cfg : Config) (msg_mgr : Option Text) (start : Start) (s : Session ring)
      → Unit {0}
      → Advances ring (fresh ring cfg msg_mgr start) s
      → IsSound s.info.id s
  born-IsSound cfg msg_mgr start s fine a =
      (refl, a.settled (inl (fresh-IsLive ring cfg msg_mgr start)))

  any_start : (inputs : List (Input floats)) → All (StartsWell floats (λ start. Unit {0})) inputs
  any_start [] = tt
  any_start (calls tool args w ∷ inputs) = (tt, any_start inputs)
  any_start (acts id events ∷ inputs) = (tt, any_start inputs)
  any_start (cleans_up force runs later env ∷ inputs) = (tt, any_start inputs)

  -- From an empty registry on, whatever tools are called, with whatever arguments and answers of the
  -- system, and whatever the goroutines of the sessions and the cleanup do in between, every session of the
  -- registry stands under its own ID, and is either running without an exit code and before its exit, or
  -- exited with an exit code and behind it.
  pub run-IsSound :
      (inputs : List (Input floats)) (whole : Whole ring) (id : Text) (s : Session ring)
      → whole.0.0.sessions ≡ []
      → get id (run floats ring lib root inputs whole).0.0.sessions ≡ some s
      → (s.info.id ≡ id) × IsSettled ring s
  unfolding get
  run-IsSound inputs whole id s empty found =
      run-EveryIn floats ring lib root IsSound carries-IsSound (λ start. Unit {0}) born-IsSound
        inputs whole (any_start inputs) (λ k v h. absurd (cc (rw empty at h))) id s found

  -- The session `k`, if it is in the registry, has exited with this metadata.
  abbrev IsFinal : Text → Session ring → Text → Session ring → Type 0
  IsFinal k s id t = id ≡ k → IsOver ring t × (t.info ≡ s.info)

  carries-IsFinal :
      (k : Text) (s : Session ring) (id : Text) (t u : Session ring)
      → IsFinal k s id t
      → Advances ring t u
      → IsFinal k s id u
  carries-IsFinal k s id t u h a e = let (over, same) = h e in (a.over over, a.final over ∙ same)

  born-IsFinal :
      (k : Text) (s : Session ring) (cfg : Config) (msg_mgr : Option Text) (start : Start)
      (t : Session ring)
      → start.id ≢ k
      → Advances ring (fresh ring cfg msg_mgr start) t
      → IsFinal k s t.info.id t
  unfolding fresh
  born-IsFinal k s cfg msg_mgr start t other a e = absurd (other (sym a.id_is ∙ e))

  -- Once a session has exited, its metadata, the exit code included, never changes again: in whatever
  -- run, if it is still in the registry, it is as it was. A new session gets another ID.
  pub run-final :
      (inputs : List (Input floats)) (whole : Whole ring) (id : Text) (s t : Session ring)
      → All (StartsWell floats (λ (start : Start). start.id ≢ id)) inputs
      → get id whole.0.0.sessions ≡ some s
      → IsOver ring s
      → get id (run floats ring lib root inputs whole).0.0.sessions ≡ some t
      → t.info ≡ s.info
  run-final inputs whole id s t fine there over found =
      (run-EveryIn floats ring lib root (IsFinal id s) (carries-IsFinal id s)
        (λ start. start.id ≢ id) (born-IsFinal id s) inputs whole fine
        (λ k v h e.
          let is : s ≡ v =
            some_injective (sym there ∙ subst (λ j. get j whole.0.0.sessions ≡ some v) e h) in
          (subst (IsOver ring) is over, ap (λ (u : Session ring). u.info) (sym is)))
        id t found refl).1
