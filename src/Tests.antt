-- ===== src/Tests.antt =====
-- Runs of the code on concrete inputs, and the theorems at such inputs.
mod Addresses
mod Buffers
mod Messages
mod Registries
mod Frames
mod Caches
mod Queues
mod Calls
mod Sockets
mod Async
mod Memberships
mod Ciphers
mod Dispatches
