-- ===== src/Bank.antt =====
-- soft/apps/bank/bank.c: the bank of M-Net.
pub mod Cells
pub mod Trans
pub mod World
pub mod Locks
pub mod Ledger
pub mod Teller
pub mod Bankers
pub mod Rich
pub mod Desk
pub mod Main
mod Examples
