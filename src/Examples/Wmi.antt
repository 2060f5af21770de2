-- ===== src/Examples/Wmi.antt =====
-- Runs of the sessions, the strings and the buffers of src/xeniface/wmi.c.
use qubes_vmm_xen_win_pvdriv.Common.{
  All, ap, if◌then◌else◌, ltb, suc, zero, ◌≤◌, ◌<◌, ◌^◌, List, Option, [], arith, false, length,
  none, refl, some, true, ℕ, ◌%◌, ◌++◌, ◌+◌, ◌*◌, ◌∷◌, ◌≡◌, ◌&&◌, leb,
}
use qubes_vmm_xen_win_pvdriv.Machine.{
  Changes, Goes, nt_success, pool, status_success, status_unsuccessful, store_watch, undefined,
}
use qubes_vmm_xen_win_pvdriv.Examples.{fresh, granted, kernel, kernel-Reliable, machine}
use qubes_vmm_xen_win_pvdriv.Wmi.Unicode.{
  count_utf8_from_utf32, utf16_from_utf32, utf32_from_utf16, utf32_from_utf8, utf8_from_utf32,
}
use qubes_vmm_xen_win_pvdriv.Wmi.Unicode.RoundTrip.{kept, utf16_loss, utf8_round_trip}
use qubes_vmm_xen_win_pvdriv.Wmi.Buffer.{
  Field, access_field, access_loop, access_wmi_buffer, wmi_buffer, wmi_item, wmi_string, wmi_uint32,
}
use qubes_vmm_xen_win_pvdriv.Wmi.Buffer.Layout.{
  access_wmi_buffer_fits, access_wmi_buffer-read_string, extent,
}
use qubes_vmm_xen_win_pvdriv.Wmi.Buffer.Places.{Laid, access_wmi_buffer-Laid}
use qubes_vmm_xen_win_pvdriv.Wmi.Text.{get_utf8_string}
use qubes_vmm_xen_win_pvdriv.Wmi.Text.Conversion.{
  Converted, Decodes, code_point, end_of_string, get_utf8_string-Converted,
  get_utf8_string_overruns, utf8_size,
}
use qubes_vmm_xen_win_pvdriv.Wmi.Session.{
  Sessions, UnicodeString, Wmi, XenStoreSession, XenStoreWatch, sessions_owned,
}
use qubes_vmm_xen_win_pvdriv.Wmi.Sessions.{wmi_sessions_suspend_all}
use qubes_vmm_xen_win_pvdriv.Wmi.Sessions.Ledger.{TakesBack}
use qubes_vmm_xen_win_pvdriv.Wmi.Sessions.Suspension.{
  AllSame, IsSuspended, wmi_sessions_suspend_all-Changes,
}
use qubes_vmm_xen_win_pvdriv.Wmi.Create.{create_new_session}
use qubes_vmm_xen_win_pvdriv.Wmi.Create.Names.{NamesDiffer}
use qubes_vmm_xen_win_pvdriv.Wmi.Create.Creation.{Created, create_new_session-Created}

abbrev pub wmi : Wmi
wmi = record {
  kernel = kernel;
  unicode_to_ansi = λ t text. granted (fresh t, text);
  ansi_to_unicode = λ t text. record {
    status = if ltb (length text) 1000 then status_success else status_unsuccessful;
    out = (fresh t, text);
  };
  session_name = λ ansi count. count ∷ ansi;
  instance_name = granted;
  suggested_length = 40;
  copy_string = λ text. status_success;
  transaction_start = λ t. granted (fresh t);
  transaction_end = λ t x commit. granted true;
  printf = λ t x path format. status_success;
  remove = λ t x path. status_success;
  create_system_thread = λ t. granted (fresh t + 1, fresh t);
}

pub wmi-TakesBack : TakesBack wmi
wmi-TakesBack = record { reliable = kernel-Reliable; ends = λ _ _ _. refl }

short_size :
    (n : ℕ)
    → nt_success (if ltb (suc n) 1000 then status_success else status_unsuccessful) ≡ true
    → 2 ≤ (40 + 2 + 2 * suc n) % 2 ^ 16
short_size n h = ground (arith, h)

pub wmi-NamesDiffer : NamesDiffer wmi
wmi-NamesDiffer = record {
  differ = λ ansi i j text p q. cc (p.named, q.named);
  sized = λ ansi i t good. short_size (length ansi) good;
}

true_not_false : false ≡ true → ⊥
true_not_false e = cc

abbrev watch : (address : ℕ) → Option ℕ → XenStoreWatch
watch address handle = record {
  address = address;
  path = record { buffer = address + 1; text = b'p' ∷ [] };
  suspendcount = 2;
  finished = false;
  watchhandle = handle;
}

abbrev session : (address id : ℕ) → List XenStoreWatch → XenStoreSession
session address id watches = record {
  address = address;
  id = id;
  stringid = record { buffer = address + 1; text = b's' ∷ [] };
  instancename = record { buffer = address + 2; text = 0 ∷ b's' ∷ [] };
  transaction = some (address + 3);
  watches = watches;
  watchcount = length watches;
  mapchanged = false;
  closing = false;
  suspended = false;
  watch_thread = address + 4;
}

abbrev two_watches : XenStoreSession
two_watches = session 10 65535 (watch 20 (some 25) ∷ watch 30 (some 35) ∷ [])

abbrev pub sessions : Sessions
sessions = record { count = 2; head = two_watches ∷ session 40 0 [] ∷ [] }

abbrev pub stopped : Sessions
stopped = record { count = 1; head = session 10 3 (watch 30 none ∷ []) ∷ [] }

abbrev name : UnicodeString
name = record { buffer = 90; text = b's' ∷ [] }

create_new_session_example :
    Goes
      (Created (pool 90) sessions name machine)
      (λ _ _. ⊥)
      (create_new_session wmi sessions name machine)
create_new_session_example =
    create_new_session-Created (pool 90) wmi sessions name (record { starts = λ _. refl })
      (omega arith) wmi-NamesDiffer machine

wmi_sessions_suspend_all_example :
    Goes
      (λ y n.
        Changes
          (store_watch 25)
          (sessions_owned (store_watch 25) y.head)
          (sessions_owned (store_watch 25) sessions.head)
          machine
          n
        × All IsSuspended y.head
        × AllSame sessions.head y.head
        × (y.count ≡ 2))
      (λ _ _. ⊥)
      (wmi_sessions_suspend_all wmi sessions machine)
wmi_sessions_suspend_all_example =
    wmi_sessions_suspend_all-Changes (store_watch 25) wmi sessions machine wmi-TakesBack
      (((λ e. cc), ((λ e. cc), tt)), (tt, tt))

utf8_round_trip_example :
    utf32_from_utf8 (utf8_from_utf32 0x20ac ++ b'x' ∷ []) ≡ some (0x20ac, b'x' ∷ [])
utf8_round_trip_example = utf8_round_trip 0x20ac (b'x' ∷ []) (omega arith)

utf16_loss_example : utf32_from_utf16 (utf16_from_utf32 0x1f600 ++ []) ≡ some (kept 0x1f600, [])
utf16_loss_example = utf16_loss 0x1f600 [] (omega arith) (λ e. omega (arith, e))

abbrev fields : List Field
fields = wmi_item wmi_uint32 ∷ wmi_string 6 ∷ wmi_buffer 3 ∷ []

fields_fit : (access_wmi_buffer (λ _. 0) 64 false 20 fields).fits ≡ true
unfolding access_wmi_buffer access_loop access_field
fields_fit = refl

small_extent : extent fields < 2 ^ 32
unfolding access_loop access_field
small_extent = omega arith

fits_example :
    ((access_wmi_buffer (λ _. 0) 64 false 20 fields).required_size ≡ extent fields)
    × ((access_wmi_buffer (λ _. 0) 64 false 20 fields).fits ≡ leb (extent fields) 20)
fits_example =
    access_wmi_buffer_fits fields (λ _. 0) 64 20 refl (tt, (omega arith, (tt, tt))) small_extent

access_wmi_buffer-Laid_example :
    Laid 64 64 (64 + 20) fields (access_wmi_buffer (λ _. 0) 64 false 20 fields).pointers
access_wmi_buffer-Laid_example = access_wmi_buffer-Laid fields (λ _. 0) 64 20 fields_fit

read_string_example :
    (access_wmi_buffer (λ _. 0xfffe) 64 true 2 (wmi_string 0 ∷ [])).fits
    ≡ (leb 2 2 && leb ((0xfffe + 2) % 2 ^ 16) 2)
read_string_example = access_wmi_buffer-read_string (λ _. 0xfffe) 64 2 0 refl (omega arith)

-- "é" and "x"
abbrev text : List ℕ
text = 0xe9 ∷ b'x' ∷ []

decodes_first : utf32_from_utf16 text ≡ some (0xe9, b'x' ∷ [])
unfolding utf32_from_utf16
decodes_first = refl

decodes_second : utf32_from_utf16 (b'x' ∷ []) ≡ some (b'x', [])
unfolding utf32_from_utf16
decodes_second = refl

get_utf8_string_example :
    Goes (Converted (pool 100) text machine) (λ _ _. ⊥) (get_utf8_string kernel text machine)
unfolding count_utf8_from_utf32
get_utf8_string_example =
    get_utf8_string-Converted kernel text text machine
      (code_point decodes_first (code_point decodes_second end_of_string)) (pool 100) (omega arith)

-- A string of euro signs, each of which takes three bytes.
unfoldable euros : ℕ → List ℕ
euros zero = []
euros (suc n) = 0x20ac ∷ euros n

decodes_euro : (s : List ℕ) → utf32_from_utf16 (0x20ac ∷ s) ≡ some (0x20ac, s)
unfolding utf32_from_utf16
decodes_euro s = refl

euros-Decodes : (n : ℕ) → Decodes (euros n) (euros n)
unfolding euros
euros-Decodes zero = end_of_string
euros-Decodes (suc n) = code_point (decodes_euro (euros n)) (euros-Decodes n)

utf8_size-euros : (n : ℕ) → utf8_size (euros n) ≡ 3 * n
unfolding euros count_utf8_from_utf32
utf8_size-euros zero = refl
utf8_size-euros (suc n) = omega (arith, utf8_size-euros n)

length-euros : (n : ℕ) → length (euros n) ≡ n
unfolding euros
length-euros zero = refl
length-euros (suc n) = ap suc (length-euros n)

units-euros : (n : ℕ) → All (λ w. w < 2 ^ 16) (euros n)
unfolding euros
units-euros zero = tt
units-euros (suc n) = (omega arith, units-euros n)

get_utf8_string_overruns_example : get_utf8_string kernel (euros 22000) machine ≡ undefined
get_utf8_string_overruns_example =
    get_utf8_string_overruns kernel (euros 22000) (euros 22000) machine (euros-Decodes 22000) 100
      (omega (arith, utf8_size-euros 22000)) (units-euros 22000) (omega (arith, length-euros 22000))
      refl
