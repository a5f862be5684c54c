-- ===== src/Main.antt =====
-- cmd/server/main.go: the log handler, and the run of the program from its configuration to its exit.
-- Flags are parsed before; `Answers` is what the servers and the system answer.
pub mod Status
mod Tests
use interactive_process_mcp.Prelude.{
  ℕ, ℤ, Text, bytes, ◌≡◌, ◌≢◌, refl, Bool, true, false, ◌&&◌, Option, none, some, List, [], ◌∷◌,
  ◌++◌, if◌then◌else◌, ◌==◌, text_eq,
}
use interactive_process_mcp.Strings.{decimal}
use interactive_process_mcp.Config
use interactive_process_mcp.Config.{Config, validate, IsUsable, validate_iff}
use interactive_process_mcp.Ssh.Server

pub data Level : Type 0 where
  debug info warn error : Level

pub record LogHandler : Type 0 where
  pub is_json : Bool
  pub level : Level

unfoldable pub level_of : Text → Level
level_of s =
    if s == bytes "debug"
    then debug
    else if s == bytes "warn"
    then warn
    else if s == bytes "error"
    then error
    else info

unfoldable pub build_log_handler : Config → LogHandler
build_log_handler cfg = record {
  is_json = cfg.log_format == bytes "json";
  level = level_of cfg.log_level;
}

-- How the MCP server's `Start` returns.
pub data Served : Type 0 where
  ended closed failed : Served

pub record Answers : Type 0 where
  pub key_ok : Bool
  pub listens : Option Text
  pub signalled : Bool
  pub served : Served

pub data Action : Type 0 where
  logs_with : LogHandler → Action
  listens_ssh : Text → Action
  serves : Text → Action
  cleans_up stops_ssh stops_mcp : Action

abbrev pub address : Text → ℤ → Text
address host port = host ++ (bytes ":" ++ decimal port)

-- What a signal makes the program do before the MCP server returns.
abbrev pub shutdown : Bool → List Action
shutdown signalled = if signalled then cleans_up ∷ stops_ssh ∷ stops_mcp ∷ [] else []

abbrev pub exit_status : Bool → Served → ℕ
exit_status signalled ended = 0
exit_status signalled closed = if signalled then 0 else 1
exit_status signalled failed = 1

-- Behind the start of the SSH server.
unfoldable pub serve : Config → Answers → Bool × Server.Server → List Action × ℕ
serve cfg a (false, ssh) = ([], 1)
serve cfg a (true, ssh) = (
  listens_ssh (Server.addr_of ssh) ∷ serves (address cfg.host cfg.port) ∷ shutdown a.signalled,
  exit_status a.signalled a.served,
)

-- Behind the validation of the configuration.
unfoldable pub configured : Config → Answers → Config.Result (Unit {0}) → List Action × ℕ
unfolding serve
configured cfg a (Config.err e) = ([], 2)
configured cfg a (Config.ok _) =
    let ssh : Server.Server = Server.new (address cfg.ssh_host cfg.ssh_port) in
    let r : List Action × ℕ = serve cfg a (Server.start a.key_ok a.listens ssh) in
    (logs_with (build_log_handler cfg) ∷ r.0, r.1)

unfoldable pub main : Config → Answers → List Action × ℕ
unfolding configured
main cfg a = configured cfg a (validate cfg)
