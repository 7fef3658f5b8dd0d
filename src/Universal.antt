-- ===== src/Universal.antt =====
-- packages/dubbo/src/protocol/content-type-matcher.ts and universal-handler.ts: which protocol's
-- handler answers a request.
pub mod Matcher
pub mod Negotiate
