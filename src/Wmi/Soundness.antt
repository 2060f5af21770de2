-- ===== src/Wmi/Soundness.antt =====
-- What suspends, resumes and signalled watches of src/xeniface/wmi.c leave of the counts and the
-- handles of the watches.
use qubes_vmm_xen_win_pvdriv.Common.{
  All, Bool-cases, List, [], ap, arith, false, inl, inr, length, not, refl, subst, sym, ℕ, ◌&&◌,
  ◌++◌, ◌==◌, ◌∙◌, ◌∷◌, ◌≡◌,
}
use qubes_vmm_xen_win_pvdriv.Machine.{Goes, Goes-bind, Machine, pool}
use qubes_vmm_xen_win_pvdriv.Wmi.Session.{Sessions, Wmi, XenStoreSession, XenStoreWatch}
use qubes_vmm_xen_win_pvdriv.Wmi.Watch.{
  remove_watch_handle, start_watch, renew_watch, live_watch_signalled, watch_signalled,
}
use qubes_vmm_xen_win_pvdriv.Wmi.Watch.Ledger.{
  Started, start_watch-Started, HasHandle, NoHandle, awake,
}
use qubes_vmm_xen_win_pvdriv.Wmi.Sessions.{
  renew_loop, renew_one, resume_all_loop, resume_session_locked, wmi_sessions_resume_all,
}
use qubes_vmm_xen_win_pvdriv.Wmi.Sessions.Ledger.{IsCountedSession}
use qubes_vmm_xen_win_pvdriv.Wmi.Sessions.Suspension.{AllSame, IsSuspended}
use qubes_vmm_xen_win_pvdriv.Wmi.Methods.Ledger.{
  All-append, All-split, IsSound, IsSoundWatch, length-replace, length-split,
}

pub sound_sessions-IsCountedSession :
    (ss : List XenStoreSession) → All IsSound ss → All IsCountedSession ss
sound_sessions-IsCountedSession [] h = tt
sound_sessions-IsCountedSession (s ∷ ss) h = (h.0.0, sound_sessions-IsCountedSession ss h.1)

sound_unheld : (vs : List XenStoreWatch) → All NoHandle vs → All IsSoundWatch vs
sound_unheld [] h = tt
sound_unheld (v ∷ vs) h = (inr h.0, sound_unheld vs h.1)

pub suspended-IsSound :
    (ss ts : List XenStoreSession)
    → All IsSound ss
    → AllSame ss ts
    → All IsSuspended ts
    → All IsSound ts
suspended-IsSound [] [] h same k = tt
suspended-IsSound (s ∷ ss) [] h same k = tt
suspended-IsSound [] (t ∷ ts) h same k = elim same [ ]
suspended-IsSound (s ∷ ss) (t ∷ ts) h same k = (
  (same.0.same_count ∙ h.0.0 ∙ sym same.0.same_length, sound_unheld t.watches k.0.no_handle),
  suspended-IsSound ss ts h.1 same.1 k.1,
)

renew_one-IsSoundWatch :
    (w : Wmi) (v : XenStoreWatch) (m : Machine)
    → NoHandle v
    → Goes (λ v' n. IsSoundWatch v') (λ _ _. ⊥) (renew_one w v m)
unfolding renew_one
renew_one-IsSoundWatch w v m h =
    let started : Goes (Started (pool 0) m) (λ _ _. ⊥)
        (start_watch w v.address v.path v.watchhandle m) =
      rw h (start_watch-Started (pool 0) w v.address v.path m) in
    grind (arith, h, started)

renew_loop-IsSoundWatch :
    (w : Wmi) (vs : List XenStoreWatch) (m : Machine)
    → All NoHandle vs
    → Goes (λ vs' n. All IsSoundWatch vs' × (length vs' ≡ length vs)) (λ _ _. ⊥) (renew_loop w vs m)
unfolding renew_loop
renew_loop-IsSoundWatch w [] m h = (tt, refl)
renew_loop-IsSoundWatch w (v ∷ vs) m h =
    grind
      (arith, renew_one-IsSoundWatch w v m h.0, λ (n : Machine). renew_loop-IsSoundWatch w vs n h.1)

resume_session-IsSound :
    (w : Wmi) (s : XenStoreSession) (m : Machine)
    → All NoHandle s.watches
    → IsSound s
    → Goes (λ s' n. IsSound s') (λ _ _. ⊥) (resume_session_locked w s m)
unfolding resume_session_locked
resume_session-IsSound w s m h sound = grind (arith, sound, renew_loop-IsSoundWatch w s.watches m h)

resume_all_loop-IsSound :
    (w : Wmi) (ss : List XenStoreSession) (m : Machine)
    → All (λ s. All NoHandle s.watches) ss
    → All IsSound ss
    → Goes (λ ss' n. All IsSound ss') (λ _ _. ⊥) (resume_all_loop w ss m)
unfolding resume_all_loop
resume_all_loop-IsSound w [] m h sound = tt
resume_all_loop-IsSound w (s ∷ ss) m h sound = grind (
  arith,
  resume_session-IsSound w s m h.0 sound.0,
  λ (n : Machine). resume_all_loop-IsSound w ss n h.1 sound.1,
)

pub wmi_sessions_resume_all-IsSound :
    (w : Wmi) (x : Sessions) (m : Machine)
    → All (λ s. All NoHandle s.watches) x.head
    → All IsSound x.head
    → Goes (λ y n. All IsSound y.head) (λ _ _. ⊥) (wmi_sessions_resume_all w x m)
unfolding wmi_sessions_resume_all
wmi_sessions_resume_all-IsSound w x m h sound =
    grind (arith, resume_all_loop-IsSound w x.head m h sound)

renew_watch-IsSoundWatch :
    (w : Wmi) (count : ℕ) (v : XenStoreWatch) (m : Machine)
    → v.finished ≡ false
    → HasHandle v
    → Goes (λ v' n. IsSoundWatch v') (λ _ _. ⊥) (renew_watch w count v m)
unfolding renew_watch remove_watch_handle
renew_watch-IsSoundWatch w count v m h held =
    grind (arith, h, held, start_watch-Started (pool 0) w v.address v.path)

module _ (w : Wmi) (s : XenStoreSession) (before : List XenStoreWatch) (v : XenStoreWatch)
    (after : List XenStoreWatch) (m : Machine) (split : s.watches ≡ before ++ v ∷ after)
    (sound : IsSound s) (held : v.finished ≡ false → s.suspended ≡ false → HasHandle v) where
  live_watch_signalled-IsSound :
      v.finished ≡ false
      → Goes (λ s' n. IsSound s') (λ _ _. ⊥) (live_watch_signalled w s before v after m)
  unfolding live_watch_signalled
  live_watch_signalled-IsSound live =
      let count = w.kernel.suspend_count m.trace in
      let (b, here, a) =
        All-split IsSoundWatch before v after (subst (All IsSoundWatch) split sound.1) in
      elim (Bool-cases (not s.suspended && not (v.suspendcount == count))) [
        | inl e ↦ rw e (
            Goes-bind (λ v' n. IsSoundWatch v') (λ _ _. ⊥) (λ _ _. ⊥) (λ s' n. IsSound s')
              (renew_watch w count v m) _
              (renew_watch-IsSoundWatch w count v m live (held live (awake s.suspended _ e)))
              (λ _ _ z. z)
              (λ v' n c. (
                omega (arith, sound.0, ap length split, length-replace before v v' after),
                All-append IsSoundWatch before (v' ∷ after) b (c, a),
              )))
        | inr e ↦ rw e (ground (arith, sound))
      ]

  pub watch_signalled-IsSound :
      Goes (λ s' n. IsSound s') (λ _ _. ⊥) (watch_signalled w s before v after m)
  unfolding watch_signalled
  watch_signalled-IsSound =
      let (b, here, a) =
        All-split IsSoundWatch before v after (subst (All IsSoundWatch) split sound.1) in
      elim (Bool-cases v.finished) [
        | inl e ↦ ground (
          arith,
          e,
          sound.0,
          ap length split,
          length-split before v after,
          All-append IsSoundWatch before after b a,
        )
        | inr e ↦ ground (arith, e, live_watch_signalled-IsSound e)
      ]
