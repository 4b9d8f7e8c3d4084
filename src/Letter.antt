-- ===== src/Letter.antt =====
-- soft/games/letter/letter.c: the game of guessing a word by the letters that agree.
pub mod Terminal
pub mod Words
pub mod Scores
pub mod Main
mod Examples
