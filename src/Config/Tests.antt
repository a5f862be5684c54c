-- ===== src/Config/Tests.antt =====
-- Runs of the configuration's checks at concrete inputs.
use interactive_process_mcp.Prelude.{◌≡◌, refl, pos}
use interactive_process_mcp.Config.{validate, err, bad_port, default, is_one_of}

high_port : validate (record default { port = pos 65536 }) ≡ err (bad_port (pos 65536))
unfolding validate is_one_of
high_port = refl
