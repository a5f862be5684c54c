-- ===== src/Mcp/Isolation/Tests.antt =====
-- A tool call at a concrete server.
use interactive_process_mcp.Prelude.{refl, [], bytes, text_eq}
use interactive_process_mcp.Prelude.Assoc.{get}
use interactive_process_mcp.Buffer.Sample.{sample_ring}
use interactive_process_mcp.Mcp.{get_string, as_text_or}
use interactive_process_mcp.Mcp.Samples.{integers, library, registry, world, request}
use interactive_process_mcp.Mcp.Tools.{send_input_tool, call_tool}
use interactive_process_mcp.Mcp.Isolation.{IsUntouched, call_tool-isolated}

call_tool-isolated_example :
    IsUntouched integers sample_ring library []
      (bytes "s2")
      ((registry, []), [])
      (call_tool integers sample_ring library [] send_input_tool request world ((registry, []), []))
unfolding get get_string as_text_or
call_tool-isolated_example =
    call_tool-isolated integers sample_ring library [] send_input_tool request world
      ((registry, []), []) (bytes "s2") refl refl
