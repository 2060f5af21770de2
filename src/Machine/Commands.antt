-- ===== src/Machine/Commands.antt =====
-- The device and the history of its calls, and commands over them. `exit` is a `return` from a
-- handler with its reply, so that the labels fail1, fail2, ... of the source are functions.
use qubes_vmm_xen_win_pvdriv.Common.{
  Bool, List, Option, false, if◌then◌else◌, none, some, true, ℕ, ◌∷◌,
}
use qubes_vmm_xen_win_pvdriv.Machine.Status.{NtStatus, nt_success}
use qubes_vmm_xen_win_pvdriv.Machine.Calls.{
  Event, Resource, Trace, acquire, asked, event_object, pool, release, zero_memory,
}
use qubes_vmm_xen_win_pvdriv.Machine.Device.{Fdo}
use qubes_vmm_xen_win_pvdriv.Machine.Answers.{Answer, Kernel}

pub record Machine : Type 0 where
  pub fdo : Fdo
  pub trace : Trace

-- What a handler leaves in the caller's output buffer.
pub data Output : Type 0 where
  out_nothing : Output
  out_context : ℕ → Output
  out_port : ℕ → Output
  out_number : ℕ → Output
  out_bytes : List ℕ → Output
  out_address : ℕ → Output
  out_pages : ℕ → List ℕ → Output

-- The status that a handler returns, IoStatus.Information and the output.
pub record Reply : Type 0 where
  pub status : NtStatus
  pub information : ℕ
  pub output : Output

abbrev pub reply : NtStatus → Reply
reply s = record { status = s; information = 0; output = out_nothing }

pub data Run (A : Type 0) : Type 0 where
  ok : A → Machine → Run A
  exit : Reply → Machine → Run A
  -- an ASSERT of a checked build fails: the system stops
  assertion_failure : Run A
  -- the C code has undefined behaviour
  undefined : Run A

abbrev pub Cmd : Type 0 → Type 0
Cmd A = Machine → Run A

abbrev pub pure : {A : Type 0} → A → Cmd A
pure = ok

-- `return s;`
abbrev pub return : {A : Type 0} → NtStatus → Cmd A
return s = exit (reply s)

module _ {A B : Type 0} where
  abbrev pub and_then : Run A → (A → Cmd B) → Run B
  and_then (ok a m) k = k a m
  and_then (exit r m) k = exit r m
  and_then assertion_failure k = assertion_failure
  and_then undefined k = undefined

  infixl 5 ◌>>=◌ ◌>>◌
  abbrev pub ◌>>=◌ : Cmd A → (A → Cmd B) → Cmd B
  m >>= k = λ s. and_then (m s) k

  abbrev pub ◌>>◌ : Cmd A → Cmd B → Cmd B
  m >> n = m >>= λ _. n

abbrev pub record_event : Event → Cmd (Unit {0})
record_event e m = ok tt (record m { trace = e ∷ m.trace })

abbrev pub get_fdo : Cmd Fdo
get_fdo m = ok m.fdo m

abbrev pub put_fdo : Fdo → Cmd (Unit {0})
put_fdo f m = ok tt (record m { fdo = f })

abbrev pub history : Cmd Trace
history m = ok m.trace m

-- `if (b) goto fail;`
abbrev pub goto_if : Bool → Cmd (Unit {0}) → Cmd (Unit {0})
goto_if true fail m = fail m
goto_if false fail m = ok tt m

-- A pointer that the driver tests against NULL.
abbrev pub or_null : Option ℕ → (ℕ → Resource) → Cmd ℕ → Cmd ℕ
or_null none res fail = do record_event asked; fail
or_null (some p) res fail = do record_event (acquire (res p)); pure p

-- A call whose status the driver tests with NT_SUCCESS; `fail` is given the status.
abbrev pub or_status : Answer ℕ → (ℕ → Resource) → (NtStatus → Cmd (Answer ℕ)) → Cmd (Answer ℕ)
or_status a res fail =
    if nt_success a.status
    then (do record_event (acquire (res a.out)); pure a)
    else (do record_event asked; fail a.status)

-- `x = ExAllocatePoolWithTag(size); if (x == NULL) goto fail;`
unfoldable pub allocate : Kernel → ℕ → Cmd ℕ → Cmd ℕ
allocate k size fail = do t ← history; or_null (k.allocate_pool t size) pool fail

-- RtlZeroMemory, ExFreePoolWithTag and ObDereferenceObject.
abbrev pub zero_out : ℕ → Cmd (Unit {0})
zero_out p = record_event (zero_memory p)

abbrev pub free : ℕ → Cmd (Unit {0})
free p = record_event (release (pool p))

abbrev pub dereference : ℕ → Cmd (Unit {0})
dereference e = record_event (release (event_object e))

-- A call that takes a resource back, and whose success a checked build asserts: a free build goes
-- on after a failure, with the resource still held.
abbrev pub give_back : Kernel → Resource → NtStatus → Cmd (Unit {0})
give_back k r s =
    if nt_success s
    then record_event (release r)
    else if k.dbg
    then (λ _. assertion_failure)
    else record_event asked
