-- ===== src/Net.antt =====
-- src/ustevent/net: sockets, the operations that wait for their readiness, streams and addresses.
pub mod Error
pub mod Protocal
pub mod Platform
pub mod TcpSocket
pub mod EventOperation
pub mod ReadStream
pub mod IpAddress
pub mod WriteStream
pub mod TcpAddress
pub mod EventObject
pub mod TcpConnection
pub mod TcpDialer
pub mod TcpListener
pub mod EpollSelector
pub mod NetContext
pub mod MultiplexingContextStrategy
pub mod Buffer
mod Tests
mod TcpTests
mod ContextTests
