-- ===== src/Poller/Backups/Overdue.antt =====
-- `_check_guest_backups` over all guests, and their "Backup Overdue" alerts.
use alfaedge_pulse.Common.{
  ℕ, ◌-◌, ◌*◌, ◌<◌, String, ◌≡◌, refl, sym, ◌∙◌, ◌≢◌, false, List, [], ◌∷◌, arith, ◌==◌, All,
}
use alfaedge_pulse.Alerts.Dispatch.{AlertContext, Alerting}
use alfaedge_pulse.Poller.Backups.{
  BackupGuest, overdue_key, check_guest, check_guests, check_guest_backups, is_overdue, hour,
}
use alfaedge_pulse.Poller.Server.{Server}
use alfaedge_pulse.Alerts.Log.{AlertKey, has_open_alert}
use alfaedge_pulse.Alerts.Log.Laws.{open_rows, has_open_alert-eq}
use alfaedge_pulse.Poller.Transition.Levels.{level_alert_lem}

-- No two guests of the list share a name.
abbrev pub AreDistinct : List BackupGuest → Type 0
AreDistinct [] = Unit
AreDistinct (g ∷ gs) = All (λ h. overdue_key h ≢ overdue_key g) gs × AreDistinct gs

module _ (c : AlertContext) (show : ℕ → String) (hours : ℕ) (server : Server) where
  check_guest_level :
      (g : BackupGuest) (a : Alerting)
      → let a' = check_guest c show hours server g a in
        (has_open_alert (overdue_key g) a'.log ≡ is_overdue (c.now - hours * hour) g)
        × ((j : AlertKey) → j ≢ overdue_key g → open_rows j a'.log ≡ open_rows j a.log)
  unfolding check_guest
  check_guest_level g a =
      let level =
        level_alert_lem c (overdue_key g) _ _ server.is_production
          (is_overdue (c.now - hours * hour) g) a in
      (level.0, level.2)

  check_guests_others :
      (k : AlertKey) (gs : List BackupGuest) (a : Alerting)
      → All (λ h. overdue_key h ≢ k) gs
      → open_rows k (check_guests c show hours server gs a).log ≡ open_rows k a.log
  unfolding check_guests
  check_guests_others k [] a h = refl
  check_guests_others k (g ∷ gs) a h =
      check_guests_others k gs (check_guest c show hours server g a) h.1
      ∙ (check_guest_level g a).1 k (λ e. h.0 (sym e))

  check_guests_level :
      (gs : List BackupGuest) (a : Alerting)
      → AreDistinct gs
      → All
          (λ g.
            has_open_alert (overdue_key g) (check_guests c show hours server gs a).log
            ≡ is_overdue (c.now - hours * hour) g)
          gs
  unfolding check_guests
  check_guests_level [] a h = tt
  check_guests_level (g ∷ gs) a h =
      let next = check_guest c show hours server g a in
      (
        ground (
          arith,
          (check_guest_level g a).0,
          check_guests_others (overdue_key g) gs next h.0,
          has_open_alert-eq (overdue_key g) next.log,
          has_open_alert-eq (overdue_key g) (check_guests c show hours server gs next).log,
        ),
        check_guests_level gs next h.1,
      )

  -- With the check switched on and guests of different names, every guest's alert is open after the
  -- check exactly if the guest is not exempt and its newest backup is missing or too old, whatever
  -- was open before.
  pub check_guest_backups_lem :
      (gs : List BackupGuest) (a : Alerting)
      → 0 < hours
      → AreDistinct gs
      → All
          (λ g.
            has_open_alert (overdue_key g) (check_guest_backups c show hours server gs a).log
            ≡ is_overdue (c.now - hours * hour) g)
          gs
  unfolding check_guest_backups
  check_guest_backups_lem gs a on h =
      let enabled : (hours == 0) ≡ false = ground arith in simp enabled (check_guests_level gs a h)
