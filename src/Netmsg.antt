-- ===== src/Netmsg.antt =====
-- netmsg/netmsg.cc, the program that carries Mach messages over a network stream.
pub mod RunQueues
pub mod Session
pub mod Translate
pub mod Deliver
pub mod Transmit
pub mod Serve
pub mod Rely
pub mod Ports
pub mod OutOfLine
pub mod Stream
pub mod MsgIds
pub mod Audit
pub mod Debug
