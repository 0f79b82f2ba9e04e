-- ===== src/Net.antt =====
-- src/net: the connection of one player.
pub mod Connection
pub mod Interactive
