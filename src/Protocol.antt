-- ===== src/Protocol.antt =====
-- The wire protocol, include/spraybus/networking/protocol.hpp: the enums, the 16-byte header and
-- its factories, the packet constructor and the message view. A byte is a number below 256.
pub mod Enum
pub mod Header
pub mod Message
pub mod Layout
pub mod RoundTrip
pub mod Print
mod Tests
