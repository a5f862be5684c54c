-- ===== src/Main/Status.antt =====
-- The exit status of cmd/server/main.go.
use interactive_process_mcp.Prelude.{
  Text, ◌≡◌, ◌↔◌, refl, Bool, true, false, Option, none, some, arith,
}
use interactive_process_mcp.Config
use interactive_process_mcp.Config.{Config, validate, IsUsable, validate_iff}
use interactive_process_mcp.Ssh.Server
use interactive_process_mcp.Main.{
  Answers, Served, ended, closed, failed, exit_status, serve, configured, main, address,
}

-- The MCP server has ended well, or was closed behind a signal.
abbrev pub IsRegular : Bool → Served → Type 0
IsRegular signalled ended = Unit
IsRegular signalled closed = signalled ≡ true
IsRegular signalled failed = ⊥

exit_status_iff :
    (signalled : Bool) (served : Served)
    → (exit_status signalled served ≡ 0) ↔ IsRegular signalled served
exit_status_iff signalled ended = (λ _. tt, λ _. refl)
exit_status_iff true closed = (λ _. refl, λ _. refl)
exit_status_iff false closed = ground arith
exit_status_iff signalled failed = ground arith

serve_iff :
    (cfg : Config) (a : Answers) (key_ok : Bool) (listens : Option Text) (ssh : Server.Server)
    → ((serve cfg a (Server.start key_ok listens ssh)).1 ≡ 0)
      ↔ ((key_ok ≡ true) × ((addr : Text) × (listens ≡ some addr)) × IsRegular a.signalled a.served)
unfolding serve Server.start
serve_iff cfg a key_ok none ssh =
    (λ h. absurd (ground (arith, h)), λ h. absurd (ground (arith, h.1.1)))
serve_iff cfg a false (some addr) ssh =
    (λ h. absurd (ground (arith, h)), λ h. absurd (ground (arith, h.0)))
serve_iff cfg a true (some addr) ssh =
    let regular = exit_status_iff a.signalled a.served in
    (λ h. (refl, (addr, refl), regular.0 h), λ h. regular.1 h.2)

-- The program ends with status 0 exactly if its configuration is usable, the SSH server has its host key
-- and its listener, and the MCP server ended without an error or was closed behind a signal.
pub main_iff :
    (cfg : Config) (a : Answers)
    → ((main cfg a).1 ≡ 0) ↔ (
        IsUsable cfg
        × (a.key_ok ≡ true)
        × ((addr : Text) × (a.listens ≡ some addr))
        × IsRegular a.signalled a.served)
unfolding main configured
main_iff cfg a = go (validate cfg) refl
  where
    go :
        (r : Config.Result (Unit {0}))
        → validate cfg ≡ r
        → ((configured cfg a r).1 ≡ 0) ↔ (
            IsUsable cfg
            × (a.key_ok ≡ true)
            × ((addr : Text) × (a.listens ≡ some addr))
            × IsRegular a.signalled a.served)
    go (Config.err e) is = (
      λ h. absurd (ground (arith, h)),
      λ h. absurd (ground (arith, is, (validate_iff cfg).1 h.0)),
    )
    go (Config.ok u) is =
        let served =
          serve_iff cfg a a.key_ok a.listens (Server.new (address cfg.ssh_host cfg.ssh_port)) in
        (
          λ h. let t = served.0 h in ((validate_iff cfg).0 is, t.0, t.1, t.2),
          λ h. served.1 (h.1, h.2, h.3),
        )
