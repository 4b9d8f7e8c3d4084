-- ===== src/Bbsread.antt =====
-- soft/cmd/bbsread: a reader of PicoSpan conferences, with the participation file of its user.
pub mod Parse
pub mod Part
pub mod Sum
pub mod PartFile
pub mod Args
pub mod Item
pub mod Rfp
pub mod Main
pub mod Forget
mod Examples
