-- ===== src/XenControl.antt =====
-- src/xencontrol/xencontrol.c, the library through which programs reach the driver.
pub mod Session
pub mod Evtchn
pub mod Gnttab
pub mod Store
pub mod Calls
pub mod Delivery
pub mod Refusal
