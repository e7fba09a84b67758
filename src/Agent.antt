-- ===== src/Agent.antt =====
-- The crate syncer-agent: the command line and the exchange between peers.
pub mod Crates
pub mod PathCodec
pub mod RequestSigning
pub mod PeerCrypto
pub mod Profile
pub mod PeerStore
pub mod FileSystem
pub mod Manifests
pub mod Handler
pub mod PeerServer
pub mod PeerClient
pub mod Commands
