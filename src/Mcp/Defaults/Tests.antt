-- ===== src/Mcp/Defaults/Tests.antt =====
-- The defaults of a tool at a concrete server.
use interactive_process_mcp.Prelude.{All, [], text_eq}
use interactive_process_mcp.Buffer.Sample.{sample_ring}
use interactive_process_mcp.Mcp.Samples.{integers, library}
use interactive_process_mcp.Mcp.Tools.{resize_pty_tool, params}
use interactive_process_mcp.Mcp.Defaults.{IsDefault, params-IsDefault}

params-IsDefault_example :
    All (IsDefault integers sample_ring library [] resize_pty_tool) (params resize_pty_tool)
params-IsDefault_example = params-IsDefault integers sample_ring library [] resize_pty_tool
