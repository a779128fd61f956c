-- ===== src/Rsp.antt =====
-- src/rsp/rsp_packet.{h,cc} and src/rsp/rsp.{h,cc}: packets of the GDB remote serial protocol and
-- their exchange over a socket.
pub mod Packet
pub mod Socket
pub mod Connection
pub mod Laws
