-- ===== src/Accounts.antt =====
-- The accounts of the panel: internal/auth, the handlers of internal/api/handlers_auth.go and
-- handlers_admin_users.go, the middleware authMiddleware and requireRole of internal/api/server.go, and
-- the first administrator of cmd/server/seed_admin.go. Texts are lists of bytes, times Unix seconds. JWT
-- and bcrypt are a record; a body is an argument, nothing where its binding is refused. The writes to the
-- audit log are left out.
pub mod Users
pub mod Access
pub mod Handlers
mod Gate
mod Login
mod Revocation
mod Tests
