-- ===== src/Lexer.antt =====
-- zownc/crates/zown-lexer/src/lib.rs: the lexer. `State` has the cursor and the character classes,
-- `Read` a function for each `read_*` method, `Loop` the method `tokens` and `lex`.
pub mod State
pub mod Read
pub mod Loop
pub mod Cursor
pub mod Spelling
pub mod Took
pub mod Found
pub mod Sound
mod Tests
pub use State.*
pub use Read.*
pub use Loop.*
