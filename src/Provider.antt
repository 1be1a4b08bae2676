-- ===== src/Provider.antt =====
-- The rate providers of internal/provider: the two HTTP clients, the Redis decorator and the
-- facade that tries them in turn.
pub mod Http
pub mod Cached
pub mod Facade
pub mod Quiet
pub mod Order
pub mod Hits
