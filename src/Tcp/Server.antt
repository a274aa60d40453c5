-- ===== src/Tcp/Server.antt =====
-- `struct tcp_server_ctx` and the functions of tcp_server.c over it. The display name, the thread
-- handle and the messages on the terminal are left out: no other state depends on them.
pub mod Monad
pub mod Setup
pub mod Transfer
pub mod Thread
pub mod Flow
pub mod Hangup
pub mod Pass
pub mod Lifecycle
pub mod Host
pub mod Ends
