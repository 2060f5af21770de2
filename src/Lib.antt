-- ===== src/Lib.antt =====
-- xeniface, the driver that gives user mode of a Windows guest access to Xen: the store, event
-- channels, grant tables, suspend events, the shared info page and the log. The parts are the
-- IOCTL handlers of the driver, its power and Plug and Play state machine, its threads, the
-- sessions that it keeps for clients of WMI, and xencontrol, the library through which programs
-- reach the driver.
--
-- A request comes to XenIfaceIoctl (src/xeniface/ioctls.c) with a control code, goes to one
-- handler, and is completed unless the handler leaves it pending. The handlers keep four lists
-- in the device extension XENIFACE_FDO: store watches, event channels, suspend events, and the
-- pending IRPs of the grant and map requests. The entries of the first three belong to a file
-- object, and XenIfaceCleanup frees them with it. A pending IRP owns shared or mapped pages
-- until it is revoked, unmapped or cancelled; it stands in a cancel-safe queue
-- (src/xeniface/irp_queue.c).
--
-- Power and Plug and Play IRPs move the device between D0, where it holds five interfaces of
-- XENBUS, a suspend callback, a grant cache and its announcement in the store, and D3, where it
-- holds nothing; removal and power-down run XenIfaceCleanup for all file objects, and the late
-- suspend callback fires the suspend events. A client of WMI opens sessions, each with a
-- transaction, watches and a thread that waits for them; a suspend takes the watches and
-- transactions of all sessions away, and a resume sets the watches anew. The blocks that WMI
-- passes are laid out by AccessWmiBuffer, and their strings converted between UTF-16 and UTF-8
-- (src/xeniface/wmi.c).
--
-- A program calls the functions of src/xencontrol/xencontrol.c, which pack its arguments into
-- the structures that the handlers read, and keep a list of the requests that the driver leaves
-- pending.
--
-- The files:
--   Common, Common/Tests, Common/Lists: shared names, tests on numbers, lists.
--   Machine: the state. Machine/Device has the contexts of src/xeniface/ioctls.h and the lists
--     of XENIFACE_FDO (src/xeniface/fdo.h); Machine/Calls the history of the calls that the
--     driver makes and the resources that they hand out and take back; Machine/Answers what
--     Windows and XENBUS answer, the parameter `Kernel`; Machine/Commands the commands over a
--     device and a history; Machine/Ledger what is stated of a run.
--   Dispatch: XenIfaceIoctl (src/xeniface/ioctls.c); Dispatch/Histories has sequences of
--     requests, clean-ups and cancellations.
--   UserBuffer: __CaptureUserBuffer (src/xeniface/ioctls.c).
--   Store/Strings, Store/Values, Store/Permissions, Store/Watches: src/xeniface/ioctl_store.c.
--   Evtchn: src/xeniface/ioctl_evtchn.c.
--   Gnttab/Pages, Gnttab/Grant, Gnttab/Revoke, Gnttab/ForeignMap, Gnttab/Cancel:
--     src/xeniface/ioctl_gnttab.c.
--   Suspend: src/xeniface/ioctl_suspend.c. Misc: src/xeniface/ioctl_sharedinfo.c and IoctlLog.
--     Cleanup: XenIfaceCleanup. ContextList: the loop that RemoveWatch and Deregister share.
--   IrpQueue: src/xeniface/irp_queue.c; the routines of Windows that call it are the parameter
--     `IoCsq`.
--   Distribution: the announcement of the driver in the store, FdoSetDistribution and
--     FdoClearDistribution (src/xeniface/fdo.c). Ansi: the byte strings of src/xeniface/util.h,
--     and the strings of a directory.
--   Power: the rest of src/xeniface/fdo.c. Power/Adapter has the state and the parameter
--     `Platform`; Power/Transitions FdoD3ToD0, FdoD0ToD3 and the system transitions,
--     Power/Sessions the first two with the sessions, which they resume and suspend; Power/Pnp
--     and Power/Requests the handlers of IRP_MJ_PNP and IRP_MJ_POWER. In Power/Cycle,
--     Power/Descent, Power/Balance, Power/Keeping, Power/KeepingPnp, Power/KeepingPower,
--     Power/Histories and Power/Failures are proofs.
--   Thread: src/xeniface/thread.c, as the steps of the owner and of the thread;
--     Thread/Invariant and Thread/Liveness reason on their interleavings.
--   Mutex: src/xeniface/mutex.h, as the steps of any number of threads; Mutex/Exclusion
--     reasons on their interleavings.
--   Wmi: src/xeniface/wmi.c. Wmi/Unicode has the conversions of code points, Wmi/Text
--     GetUTF8String, Wmi/Buffer AccessWmiBuffer; Wmi/Session the sessions, the look-ups, and the
--     parameter `Wmi`, which is what Windows and XENBUS answer; Wmi/Watch the watches of a
--     session and the rounds of WatchCallbackThread; Wmi/Sessions removal, suspend and resume;
--     Wmi/Create CreateNewSession; Wmi/Methods the methods that change a session, on a request
--     whose string is read from the memory of its buffer; Wmi/Values RemoveValue and SetValue;
--     Wmi/Siblings the search of GetNextSibling; Wmi/Soundness and Wmi/Histories reason on
--     sequences of all these.
--   XenControl: src/xencontrol/xencontrol.c. XenControl/Session has XcOpen, XcClose and the
--     call of DeviceIoControl, the parameter `Win32`; XenControl/Evtchn, XenControl/Gnttab and
--     XenControl/Store the functions; XenControl/Calls sequences of calls; XenControl/Delivery
--     and XenControl/Refusal put the driver's XenIfaceIoctl in the place of the parameter.
--   Examples: a concrete platform, and each theorem at a concrete input.
--
-- A handler is a command: it goes on with a value, leaves by a `return` with its reply, fails an
-- ASSERT, or has undefined behaviour. A label of the source, such as fail7, is a function of
-- that name. The name of a definition is that of the C function in lower case:
-- IoctlStoreAddWatch is `ioctl_store_add_watch`. A session that is looked up comes with the
-- sessions before and behind it. A LIST_ENTRY chain is a list, a pointer or handle is a number,
-- NULL is `none`, and a ULONG product or sum is taken modulo 2 ^ 32. Structure sizes are those
-- of x64. The input buffer is the structure that the handler reads from it, or a list of bytes.
--
-- The loops of the handlers are recursions on the list, the bytes or the count that the source
-- runs over, so no fuel is needed and every command ends. The loops of GetUTF8String take the
-- number of units as fuel, and those of CreateNewSession, which have no bound in the source, a
-- fuel that counts the sessions or the bytes of the name; without fuel they are undefined, and
-- the theorems on them show that it is enough. The function that a thread runs is one step,
-- which the thread may take at any time; that it comes is assumed only once the thread is
-- alerted.
--
-- The calls of XENBUS_STORE(Printf) with a text of the caller as their format are undefined
-- where the text has a conversion. Not modelled: locks, IRQL (but for what FdoD3ToD0 and
-- FdoD0ToD3 raise and assert) and the interleavings that they rule out (one handler runs at a
-- time), debug output, and the bytes of user memory behind a captured pointer, which are an
-- argument. ASSERT evaluates its argument in a checked build only, as in src/xeniface/assert.h;
-- the field `dbg` of `Kernel` tells the builds apart. Of src/xeniface/fdo.c the creation and
-- destruction of the device object, its resource lists, and the hand-over of IRPs to the power
-- threads are left out: a handler runs when its IRP arrives, and the handlers of IRP_MJ_PNP and
-- IRP_MJ_POWER are those of a device without sessions. Driver entry (src/xeniface/driver.c),
-- what the methods of WMI that read the store write to their output, the queries of WMI and its
-- dispatch (src/xeniface/wmi.c), the contents of the strings that are copied for a session, the
-- registry helpers, the co-installer, the agent and the test program are not modelled.
pub mod Common
pub mod Machine
pub mod ContextList
pub mod Suspend
pub mod Ansi
pub mod Distribution
pub mod Power
pub mod Thread
pub mod Mutex
pub mod XenControl
pub mod Evtchn
pub mod IrpQueue
pub mod UserBuffer
pub mod Gnttab
pub mod Store
pub mod Misc
pub mod Cleanup
pub mod Wmi
pub mod Dispatch
pub mod Examples
