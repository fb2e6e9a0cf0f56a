-- ===== src/Auth.antt =====
-- Authentication, pkg/auth: its rate limiter and the roles of users.
pub mod RateLimit
pub mod Roles
