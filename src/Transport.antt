-- ===== src/Transport.antt =====
-- src/transport: the connections to brokers and name servers.
pub mod TcpTransport
pub mod TcpRemotingClient
