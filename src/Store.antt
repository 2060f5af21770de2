-- ===== src/Store.antt =====
-- src/xeniface/ioctl_store.c: the xenstore for user mode.
pub mod Strings
pub mod Values
pub mod Permissions
pub mod Watches
