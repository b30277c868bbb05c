-- ===== src/Network.antt =====
-- The network layer under Src/Network.
pub mod Protocol
pub mod TcpSession
pub mod UdpSession
pub mod MessageProcessor
pub mod NetworkService
