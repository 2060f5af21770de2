-- ===== src/Gnttab.antt =====
-- src/xeniface/ioctl_gnttab.c: memory shared with other domains.
pub mod Pages
pub mod Grant
pub mod Revoke
pub mod ForeignMap
pub mod Cancel
