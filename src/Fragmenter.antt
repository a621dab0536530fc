-- ===== src/Fragmenter.antt =====
-- src/fragmenter.rs: documents cut into overlapping fragments. The children are the parts of the
-- fragmenter and, for the theorems, what they show.
pub mod Chars
pub mod Breakpoints
pub mod Documents
pub mod Trim
pub mod Ends
pub mod Cuts
pub mod Covers
pub mod Limits
pub mod Budget
pub mod Bodies
pub mod Blocks
pub mod Chunks
mod Examples
