-- ===== src/Network/UdpSession.antt =====
-- Src/Network/UdpSession.hpp: datagrams, and the reassembly of images from their fragments. The DTLS
-- session is an interface; what the session does to the outside is a list of effects.
pub mod Fragments
pub mod Packets
pub mod Reassembly
pub mod Missing
mod Examples
