-- ===== src/Token.antt =====
-- The life of the OAuth token pair (services/token_service.py, domain/models.py,
-- infrastructure/repositories/token_repository.py): a row in Postgres, a cached access token, a
-- stash for a rotation in progress and a lock in Redis, and the endpoint that rotates the pair.
pub mod Exec
pub mod Service
pub mod Refresh
pub mod Crash
pub mod Answer
pub mod Access
