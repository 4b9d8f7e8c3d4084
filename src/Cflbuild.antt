-- ===== src/Cflbuild.antt =====
-- The editor of a user's list of conferences, soft/cmd/cflbuild.
pub mod Heap
pub mod Chain
pub mod Links
pub mod Sort
pub mod Walks
pub mod Tokens
pub mod Public
pub mod Editor
pub mod Commands
pub mod Load
mod Examples
