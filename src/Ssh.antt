-- ===== src/Ssh.antt =====
-- The two ends of the internal SSH connection: internal/sshclient/client.go and
-- internal/sshserver/server.go. What golang.org/x/crypto/ssh, gliderlabs/ssh, os/exec and creack/pty
-- answer is given to each operation.
pub mod Client
pub mod Server
pub mod Sizes
pub mod Codes
mod Tests
