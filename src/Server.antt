-- ===== src/Server.antt =====
-- server/: the resolver. Config is server/config.go; World is what a request reads and changes; Rotate and
-- Records are parts of server/server.go; Forward is server/forwarding.go; Serve is the handler
-- `ServeDNS` of server/server.go.
pub mod Config
pub mod World
pub mod Forward
pub mod Rotate
pub mod Records
pub mod Serve
pub mod Tracks
pub mod Tally
pub mod Session
pub mod Listen
pub mod Threads
