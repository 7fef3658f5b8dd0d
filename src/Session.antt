-- ===== src/Session.antt =====
-- packages/dubbo-node/src/http2-session-manager.ts: one connection of HTTP/2, opened on demand,
-- kept alive by PING frames while streams are open, verified before it is used again after a
-- pause, and closed when it has been idle. Time is in milliseconds. A timer is told by whether it is
-- running. Destroying and closing sockets is Node's, and left out.
pub mod Ready
pub mod Manager
