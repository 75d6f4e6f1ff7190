-- ===== src/Networking.antt =====
-- spraybus::networking: the wrappers around ENet, for servers and for clients.
pub mod Server
pub mod Client
