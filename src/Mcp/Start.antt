-- ===== src/Mcp/Start.antt =====
-- What a start request of internal/mcp/handlers.go guarantees the manager.
use interactive_process_mcp.Prelude.{
  pos, bytes, ◌≡◌, ◌≢◌, ◌⊎◌, refl, ◌∙◌, none, some, [], if◌then◌else◌, ◌≤ℤ◌, text_eq, text_eqb_iff,
  arith, inl, inr, Option-cases,
}
use interactive_process_mcp.Strings.{is_empty}
use interactive_process_mcp.Strings.Lines.{is_empty-nil}
use interactive_process_mcp.Api.{mode_pty, mode_pipe}
use interactive_process_mcp.Sessions.{Config}
use interactive_process_mcp.Mcp.{
  Floats, Args, get_string, mode_of, config_of, validate_start_params, StartError, no_command,
  starts, refused, starts_or, start_request,
}

pub record IsStartable (cfg : Config) : Type 0 where
  pub command_given : cfg.command ≢ []
  pub mode_known : (cfg.mode ≡ mode_pty) ⊎ (cfg.mode ≡ mode_pipe)
  pub rows_least : pos 1 ≤ℤ cfg.rows
  pub rows_most : cfg.rows ≤ℤ pos 1000
  pub cols_least : pos 1 ≤ℤ cfg.cols
  pub cols_most : cfg.cols ≤ℤ pos 1000

module _ (floats : Floats) (args : Args floats) where
  valid_params :
      validate_start_params floats args ≡ none
      → get_string floats args (bytes "command") [] ≢ []
      → IsStartable (config_of floats args)
  unfolding validate_start_params
  valid_params h given =
      let pty = text_eqb_iff (mode_of floats args) mode_pty in
      let pipe = text_eqb_iff (mode_of floats args) mode_pipe in
      record {
        command_given = given;
        mode_known = ground (arith, pty, pipe);
        rows_least = ground arith;
        rows_most = ground arith;
        cols_least = ground arith;
        cols_most = ground arith;
      }

  params_valid : IsStartable (config_of floats args) → validate_start_params floats args ≡ none
  unfolding validate_start_params
  params_valid u =
      let pty = text_eqb_iff (mode_of floats args) mode_pty in
      let pipe = text_eqb_iff (mode_of floats args) mode_pipe in
      ground (arith, pty, pipe, u.mode_known, u.rows_least, u.rows_most, u.cols_least, u.cols_most)

  start_fine :
      validate_start_params floats args ≡ none
      → start_request floats args ≡ (
          if is_empty (get_string floats args (bytes "command") [])
          then refused no_command
          else starts (config_of floats args))
  unfolding start_request starts_or
  start_fine fine = rw (fine, start_request) refl

  start_bad :
      (e : StartError)
      → validate_start_params floats args ≡ some e
      → start_request floats args ≡ (
          if is_empty (get_string floats args (bytes "command") [])
          then refused no_command
          else refused e)
  unfolding start_request starts_or
  start_bad e bad = rw (bad, start_request) refl

  started :
      (cfg : Config)
      → start_request floats args ≡ starts cfg
      → (cfg ≡ config_of floats args) × IsStartable (config_of floats args)
  started cfg h =
      let empty = is_empty-nil (get_string floats args (bytes "command") []) in
      elim (Option-cases (validate_start_params floats args)) [
        | inl fine ↦
            let e = start_fine fine in
            (ground (arith, e, h), valid_params fine (ground (arith, e, h, empty)))
        | inr (e, bad) ↦ absurd (ground (arith, start_bad e bad, h))
      ]

  -- A start request reaches the manager exactly if its command is given, its mode is pty or pipe and
  -- its rows and columns are from 1 to 1000; what the manager is given is then the configuration that
  -- was checked.
  pub start_request_lem :
      ((cfg : Config)
        → start_request floats args ≡ starts cfg
        → (cfg ≡ config_of floats args) × IsStartable cfg)
      × (IsStartable (config_of floats args)
          → start_request floats args ≡ starts (config_of floats args))
  start_request_lem = (
    λ cfg h. let (same, valid) = started cfg h in (same, rw same valid),
    λ u.
        start_fine (params_valid u)
        ∙ ground
            (arith, u.command_given, is_empty-nil (get_string floats args (bytes "command") [])),
  )
