-- ===== src/Examples/Sessions.antt =====
-- A history of the sessions of src/xeniface/wmi.c.
use qubes_vmm_xen_win_pvdriv.Common.{All, [], arith, if◌then◌else◌, refl, ◌+◌, ◌==◌, ◌∷◌, ◌≡◌}
use qubes_vmm_xen_win_pvdriv.Machine.{Machine, NtStatus, Run, acquired, ok, one, pool, released}
use qubes_vmm_xen_win_pvdriv.Examples.{machine}
use qubes_vmm_xen_win_pvdriv.Examples.Wmi.{wmi, wmi-NamesDiffer, wmi-TakesBack}
use qubes_vmm_xen_win_pvdriv.Store.Strings.{c_string}
use qubes_vmm_xen_win_pvdriv.Wmi.Buffer.{access_field, access_loop, access_wmi_buffer}
use qubes_vmm_xen_win_pvdriv.Wmi.Session.{
  Sessions, equal_strings, find_session_by_instance_locked, sessions_owned,
}
use qubes_vmm_xen_win_pvdriv.Wmi.Watch.{session_add_watch_locked, start_watch}
use qubes_vmm_xen_win_pvdriv.Wmi.Create.{
  allocate_or_null, create_new_session, get_instance_name, instance_name_of, name_loop,
  new_session_id, session_named, session_numbered, session_thread, try_name, with_name, xmasprintf,
  xmasprintf_loop,
}
use qubes_vmm_xen_win_pvdriv.Wmi.Methods.{
  InBuffer, add_session, add_session_at, base_execute_add_session, clone_unicode_string,
  created_or_freed, get_counted_unicode_string, get_unicode_string, one_string,
  session_execute_set_watch, set_watch, set_watch_at, unicode_loop, units,
}
use qubes_vmm_xen_win_pvdriv.Wmi.Methods.Ledger.{IsSound}
use qubes_vmm_xen_win_pvdriv.Wmi.Methods.Sound.{
  IsDocumentedWmi, Method, add_session_to, execute, set_watch_in,
}
use qubes_vmm_xen_win_pvdriv.Wmi.Histories.{
  SessionReach, SessionReach-accounts, SessionStep, method, no_session, one_more,
}

wmi-IsDocumentedWmi : IsDocumentedWmi wmi
wmi-IsDocumentedWmi = record {
  takes_back = wmi-TakesBack;
  threads = record { starts = λ _. refl };
  names = wmi-NamesDiffer;
}

-- The input of a request: the string "s".
abbrev in_buffer : InBuffer
in_buffer = record { address = 64; size = 4; word = λ a. if a == 64 then 2 else b's' }

abbrev start : Machine
start = record { fdo = machine.fdo; trace = [] }

abbrev nothing : Sessions
nothing = record { count = 0; head = [] }

-- Where a method ends.
abbrev end_of : Run (NtStatus × Sessions) → Sessions × Machine
end_of (ok q n) = (q.1, n)
end_of _ = (nothing, start)

abbrev add : Method
add = add_session_to in_buffer 128 4

abbrev set : Method
set = set_watch_in in_buffer (0 ∷ b's' ∷ [])

abbrev added : Sessions × Machine
added = end_of (execute wmi add nothing start)

abbrev watched : Sessions × Machine
watched = end_of (execute wmi set added.0 added.1)

add_step : SessionStep wmi nothing start added.0 added.1
unfolding execute base_execute_add_session add_session_at one_string access_wmi_buffer access_loop
    access_field units allocate_or_null add_session created_or_freed create_new_session name_loop
    try_name xmasprintf xmasprintf_loop with_name instance_name_of get_instance_name
    find_session_by_instance_locked session_named session_numbered new_session_id session_thread
add_step =
    method {x = nothing} {y = added.0} {m = start} {n = added.1} add (omega arith) (omega arith)
      (refl, refl)

added_reached : SessionReach wmi start added.0 added.1
added_reached = one_more no_session add_step

set_step : SessionStep wmi added.0 added.1 watched.0 watched.1
unfolding execute base_execute_add_session add_session_at one_string access_wmi_buffer access_loop
    access_field units allocate_or_null add_session created_or_freed create_new_session name_loop
    try_name xmasprintf xmasprintf_loop with_name instance_name_of get_instance_name
    find_session_by_instance_locked session_named session_numbered new_session_id session_thread
    session_execute_set_watch set_watch_at clone_unicode_string get_counted_unicode_string
    get_unicode_string unicode_loop set_watch session_add_watch_locked start_watch c_string
    equal_strings
set_step =
    method {x = added.0} {y = watched.0} {m = added.1} {n = watched.1} set (omega arith)
      (omega arith) (refl, refl)

SessionReach-accounts_example :
    (acquired (pool 100) watched.1.trace
      ≡ released (pool 100) watched.1.trace + sessions_owned (pool 100) watched.0.head)
    × All IsSound watched.0.head
unfolding one
SessionReach-accounts_example =
    SessionReach-accounts (pool 100) (λ _. refl) wmi machine.fdo watched.0 watched.1
      wmi-IsDocumentedWmi (one_more added_reached set_step)
