-- ===== src/Wmi.antt =====
-- src/xeniface/wmi.c: WMI access to the store.
pub mod Unicode
pub mod Buffer
pub mod Text
pub mod Session
pub mod Watch
pub mod Sessions
pub mod Create
pub mod Methods
pub mod Values
pub mod Siblings
pub mod Soundness
pub mod Histories
