-- ===== src/Storage/Log/Refines.antt =====
-- A sequence of saves of internal/storage/store.go and its log.
use interactive_process_mcp.Prelude.{
  List, [], ◌∷◌, Text, inl, inr, Bool-cases, text_eq, All, if◌then◌else◌,
}
use interactive_process_mcp.Storage.{Fs, Env}
use interactive_process_mcp.Storage.Atomic.{is_ok}
use interactive_process_mcp.Storage.Log.{Saved, perform, perform_all, IsApart}
use interactive_process_mcp.Storage.Log.Places.{HasValidIds, perform-HasValidIds}
use interactive_process_mcp.Storage.Log.Kept.{
  IsLogged, empty-IsLogged, failed-IsLogged, sessions_after, index_after, message_after,
}

module _ (root : Text) where
  -- One save keeps the files and the log together.
  pub step-IsLogged :
      (env : Env) (op : Saved) (fs : Fs) (log : List Saved)
      → IsApart root env
      → IsLogged root fs log
      → IsLogged root
          (perform root env op fs).1
          (if is_ok (perform root env op fs).0 then op ∷ log else log)
  step-IsLogged env op fs log apart h = elim (Bool-cases (is_ok (perform root env op fs).0)) [
    | inr failed ↦ rw failed (failed-IsLogged root env op fs log apart failed h)
    | inl done ↦
        let ids : HasValidIds op = perform-HasValidIds root env op fs done in
        rw done (record {
          sessions_are = sessions_after root env op fs log apart done h;
          index_is = λ s vs. index_after root env op fs log s apart done ids vs h;
          message_is = λ s id vs vi. message_after root env op fs log s id apart done ids vs vi h;
        })
  ]

  replay-IsLogged :
      (ops : List (Env × Saved)) (fs : Fs) (log : List Saved)
      → All (λ (op : Env × Saved). IsApart root op.0) ops
      → IsLogged root fs log
      → IsLogged root (perform_all root ops (fs, log)).0 (perform_all root ops (fs, log)).1
  unfolding perform_all
  replay-IsLogged [] fs log apart h = h
  replay-IsLogged ((env, op) ∷ ops) fs log (apart, rest) h =
      replay-IsLogged ops _ _ rest (step-IsLogged env op fs log apart h)

  -- From an empty file system on, after any sequence of saves, of which each may fail at any step, and
  -- whose temporary files have none of the names of the store, the session list, the index of every
  -- session with a valid ID and every message under valid IDs are loaded as the last save of it that
  -- succeeded left them, their texts made valid UTF-8; a list that was never saved is empty, and a
  -- message that was never saved does not exist.
  pub perform_all-IsLogged :
      (ops : List (Env × Saved))
      → All (λ (op : Env × Saved). IsApart root op.0) ops
      → IsLogged root (perform_all root ops ([], [])).0 (perform_all root ops ([], [])).1
  perform_all-IsLogged ops apart = replay-IsLogged ops [] [] apart (empty-IsLogged root)
