-- ===== src/Main/Tests.antt =====
-- Runs of the program at concrete answers.
use interactive_process_mcp.Prelude.{Text, ◌↔◌, ◌≡◌, refl, pos, true, false, some, [], ◌∷◌, bytes}
use interactive_process_mcp.Strings.{decimal, digits}
use interactive_process_mcp.Config.{default, validate, is_one_of}
use interactive_process_mcp.Ssh.Server
use interactive_process_mcp.Config.{IsUsable}
use interactive_process_mcp.Main.Status.{IsRegular, main_iff}
use interactive_process_mcp.Main.{
  Answers, closed, main, configured, serve, build_log_handler, level_of, logs_with, listens_ssh,
  serves, cleans_up, stops_ssh, stops_mcp, info,
}

abbrev stopped : Answers
stopped = record {
  key_ok = true;
  listens = some (bytes "127.0.0.1:40000");
  signalled = true;
  served = closed;
}

shutdown_test : main default stopped ≡ (
  logs_with (record { is_json = false; level = info })
      ∷ listens_ssh (bytes "127.0.0.1:40000")
      ∷ serves (bytes "127.0.0.1:8080")
      ∷ cleans_up
      ∷ stops_ssh
      ∷ stops_mcp
      ∷ [],
  0,
)
unfolding main configured serve validate is_one_of build_log_handler level_of decimal digits
    Server.new Server.start Server.addr_of
shutdown_test = refl

port_test : (main (record default { port = pos 0 }) stopped).1 ≡ 2
unfolding main configured validate
port_test = refl

main_iff_example : ((main default stopped).1 ≡ 0) ↔ (
    IsUsable default
    × (true ≡ true)
    × ((addr : Text) × (some (bytes "127.0.0.1:40000") ≡ some addr))
    × IsRegular true closed)
main_iff_example = main_iff default stopped
