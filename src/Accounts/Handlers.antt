-- ===== src/Accounts/Handlers.antt =====
-- The handlers of users.py that change the directory, passed on from the children.
mod Groups
mod Roles
mod Users
unfoldable pub use Groups.*
unfoldable pub use Roles.*
unfoldable pub use Users.*
