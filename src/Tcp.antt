-- ===== src/Tcp.antt =====
-- src/mcu/test_suites/libs/tcp_server/tcp_server.c: the byte buffers between the simulation thread
-- and the socket thread (Buffer), and the server over the operating system's calls (Server).
pub mod Queue
pub mod Buffer
pub mod Threads
pub mod Os
pub mod Server
pub mod Tests
pub mod FlowTests
pub mod Lifetime
