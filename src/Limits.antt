-- ===== src/Limits.antt =====
-- The rate limiters: messaging/limiter.py and providers/rate_limit.py. Times, and lengths of time,
-- are numbers; a call reads the clock once, and what it reads is an argument.
pub mod Window
pub mod Requests
pub mod Messages
