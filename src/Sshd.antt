-- ===== src/Sshd.antt =====
-- internal/sshd: the SSH server, by its connections, sessions and configuration.
pub mod Connection
pub mod Session
pub mod ServerConfig
pub mod Server
