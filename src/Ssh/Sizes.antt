-- ===== src/Ssh/Sizes.antt =====
-- The size of a terminal, from the arguments of start_process of internal/mcp/handlers.go through
-- internal/sshclient/client.go to internal/sshserver/server.go.
use interactive_process_mcp.Prelude.{ℕ, ℤ, pos, negsuc, ◌≡◌, ◌<◌, ◌^◌, ◌≤ℤ◌, ap, arith}
use interactive_process_mcp.Sessions.{Config}
use interactive_process_mcp.Mcp.{Floats, Args, starts, start_request}
use interactive_process_mcp.Mcp.Start.{IsStartable, start_request_lem}
use interactive_process_mcp.Ssh.Server.{Winsize, uint16, winsize}

-- What RFC 4254 says of a window's height and width on their way: numbers of 32 bits arrive as they are.
pub record Channel : Type 0 where
  pub convey : ℤ → ℤ
  pub convey-same : (n : ℕ) → n < 2 ^ 32 → convey (pos n) ≡ pos n

module _ (c : Channel) where
  conveyed : (n : ℤ) → pos 1 ≤ℤ n → n ≤ℤ pos 1000 → pos (uint16 (c.convey n)) ≡ n
  unfolding uint16
  conveyed (pos n) least most = rw (c.convey-same n (omega arith)) (ap pos (omega arith))
  conveyed (negsuc n) least most = absurd (omega arith)

  -- Every start request that reaches the manager, whatever its arguments, asks for a size that its terminal
  -- gets as it was asked for: neither the 32 bits of the channel nor the 16 bits of the terminal cut it.
  pub start_size :
      (floats : Floats) (args : Args floats) (cfg : Config)
      → start_request floats args ≡ starts cfg
      → let size : Winsize = winsize (c.convey cfg.rows) (c.convey cfg.cols) in
        (pos size.rows ≡ cfg.rows) × (pos size.cols ≡ cfg.cols)
  unfolding winsize
  start_size floats args cfg h =
      let u : IsStartable cfg = ((start_request_lem floats args).0 cfg h).1 in
      (conveyed cfg.rows u.rows_least u.rows_most, conveyed cfg.cols u.cols_least u.cols_most)
