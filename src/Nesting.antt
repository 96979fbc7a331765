-- ===== src/Nesting.antt =====
-- my_socket/build_support/cpplint.py, the nesting of blocks: _BlockInfo and its subclasses, and
-- class NestingState.
pub mod Blocks
pub mod Ends
pub mod Template
pub mod Braces
pub mod State
pub mod Heads
pub mod Update
mod Tests
