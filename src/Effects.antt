-- ===== src/Effects.antt =====
-- What the program asks of its surroundings, and programs as values over it.
mod Errors
mod Objects
mod Ops
mod Programs
pub mod Logic
pub mod Returns
pub use Errors.*
pub use Objects.*
pub use Ops.*
unfoldable pub use Programs.*
