-- ===== src/Relay.antt =====
-- core/voidz_core/relay: the wire formats and the engines that carry the traffic.
pub mod Bytes
pub mod Address
pub mod Vless
pub mod Trojan
pub mod Socks
pub mod Gate
pub mod Uplink
pub mod Opening
pub mod Stream
pub mod Uploads
pub mod Downlink
pub mod Sessions
pub mod Flow
pub mod Aead
