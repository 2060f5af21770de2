-- ===== src/Machine.antt =====
-- The device state, the history of calls, and the commands in which the handlers are written.
mod Status
mod Calls
mod Device
mod Answers
mod Commands
mod Ledger
pub use Status.*
unfoldable pub use Calls.*
pub use Device.*
pub use Answers.*
unfoldable pub use Commands.*
pub use Ledger.*
