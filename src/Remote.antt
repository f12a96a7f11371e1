-- ===== src/Remote.antt =====
-- What a client gets from a call over the socket, for every call of libirpc.c.
pub mod Fits
pub mod Setup
pub mod Plain
pub mod Devices
pub mod Transfer
pub mod Sockets
pub mod Call
pub mod Keeps
pub mod Received
pub mod Opens
