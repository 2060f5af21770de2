-- ===== src/Power.antt =====
-- Power and Plug and Play of the functional device object (src/xeniface/fdo.c).
pub mod Adapter
pub mod Transitions
pub mod Sessions
pub mod Balance
pub mod Cycle
pub mod Descent
pub mod Pnp
pub mod Requests
pub mod Keeping
pub mod Failures
pub mod KeepingPnp
pub mod KeepingPower
pub mod Histories
