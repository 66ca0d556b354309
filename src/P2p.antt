-- ===== src/P2p.antt =====
-- tests/dev/p2p_server: the sessions that a server accepts, the client that connects to a server,
-- the peers of a node, and the messages that they exchange. A thread runs one handler at a time,
-- so that the locks are left out, and so is log output.
pub mod Buffer
pub mod Socket
pub mod Session
pub mod Reading
pub mod Framing
pub mod Row
pub mod Header
pub mod Body
pub mod Frames
pub mod Delivery
pub mod Steps
pub mod Client
pub mod Sending
pub mod Peers
pub mod Registry
pub mod Server
pub mod Owners
pub mod Notify
pub mod NotifyRead
pub mod Node
pub mod Outcome
pub mod Handshake
pub mod Broadcast
pub mod ClientFraming
pub mod ClientHeader
pub mod ClientSteps
pub mod ClientServe
pub mod ClientDelivery
pub mod Start
pub mod Lifetime
