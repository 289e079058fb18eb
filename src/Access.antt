-- ===== src/Access.antt =====
-- Who may do what where: paths in the project tree, the scopes held on them, the gates of apps, and
-- the tree of projects itself (src/accounts/users.rs, src/content/slug.rs, src/content/store.rs,
-- src/content/serve.rs).
mod Tests
pub mod Paths
pub mod Scopes
pub mod Gates
pub mod Folders
