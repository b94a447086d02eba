-- ===== src/Publicip.antt =====
-- pkg/publicip: the two ways to obtain the public address, and the turns they take.
pub mod Cycle
pub mod Http
pub mod Dns
