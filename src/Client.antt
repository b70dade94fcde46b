-- ===== src/Client.antt =====
-- swap-client/src: the client's side of a swap, driven to its end.
pub mod Reverse
pub mod Submarine
mod Examples
