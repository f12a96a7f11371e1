-- ===== src/Tests.antt =====
-- A concrete tpl, concrete hosts and a concrete system of sockets, and the theorems applied to them.
mod Codec
mod Devices
mod Host
mod Witnesses
mod Handles
mod Schedules
mod Network
mod Sockets
mod Books
mod Clients
mod Search
mod Eight
mod Leaks
