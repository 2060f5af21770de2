-- ===== src/Machine/Status.antt =====
-- NTSTATUS values as 32-bit patterns, with the values of the Windows headers.
use qubes_vmm_xen_win_pvdriv.Common.{ℕ, Bool, ltb}

abbrev pub NtStatus : Type 0
NtStatus = ℕ

-- NT_SUCCESS: the pattern is not negative as a signed 32-bit integer.
abbrev pub nt_success : NtStatus → Bool
nt_success s = ltb s 0x8000_0000

abbrev pub status_success : NtStatus
status_success = 0

abbrev pub status_pending : NtStatus
status_pending = 0x103

abbrev pub status_buffer_overflow : NtStatus
status_buffer_overflow = 0x8000_0005

abbrev pub status_unsuccessful : NtStatus
status_unsuccessful = 0xC000_0001

abbrev pub status_invalid_parameter : NtStatus
status_invalid_parameter = 0xC000_000D

abbrev pub status_invalid_device_request : NtStatus
status_invalid_device_request = 0xC000_0010

abbrev pub status_no_memory : NtStatus
status_no_memory = 0xC000_0017

abbrev pub status_insufficient_resources : NtStatus
status_insufficient_resources = 0xC000_009A

abbrev pub status_device_not_ready : NtStatus
status_device_not_ready = 0xC000_00A3

abbrev pub status_cancelled : NtStatus
status_cancelled = 0xC000_0120

abbrev pub status_invalid_buffer_size : NtStatus
status_invalid_buffer_size = 0xC000_0206

abbrev pub status_not_found : NtStatus
status_not_found = 0xC000_0225
