-- ===== src/Suspend/Firing.antt =====
-- SuspendEventFire: the events that a resume sets.
use qubes_vmm_xen_win_pvdriv.Common.{List, [], ap, map, refl, reverse, sym, ◌++◌, ◌∙◌, ◌∷◌, ◌≡◌}
use qubes_vmm_xen_win_pvdriv.Machine.{Machine, SuspendContext, ok, set_event}
use qubes_vmm_xen_win_pvdriv.Suspend.{set_events, suspend_event_fire}
use mathlib.Core.List.{reverse-cons, append_assoc}

set_events_lem :
    (l : List SuspendContext) (m : Machine)
    → set_events l m
      ≡ ok tt (record m { trace = reverse (map (λ c. set_event c.event) l) ++ m.trace })
unfolding set_events
set_events_lem [] m = refl
set_events_lem (c ∷ cs) m =
    let events = map (λ c'. set_event c'.event) cs in
    set_events_lem cs (record m { trace = set_event c.event ∷ m.trace })
    ∙ ap (λ t. ok tt (record m { trace = t }))
        (sym (
          ap (λ t. t ++ m.trace) (reverse-cons (set_event c.event) events)
          ∙ append_assoc (reverse events) (set_event c.event ∷ []) m.trace))

-- SuspendEventFire ends and sets the event of each registered context once, in the order of the
-- list, and changes no list.
pub suspend_event_fire_lem :
    (m : Machine)
    → suspend_event_fire m
      ≡ ok tt (record m {
        trace = reverse (map (λ c. set_event c.event) m.fdo.suspend_list) ++ m.trace;
      })
unfolding suspend_event_fire
suspend_event_fire_lem m = set_events_lem m.fdo.suspend_list m
