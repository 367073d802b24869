-- ===== src/Hosts/Mounts/Live.antt =====
-- The mounts of a host after a report, and the alerts that they leave.
use alfaedge_pulse.Common.{
  ℕ, String, ◌≡◌, refl, ap, ◌∙◌, inl, inr, Bool, true, false, ◌&&◌, ◌||◌, Option, none, some, List,
  [], ◌∷◌, ◌++◌, arith, str_eq, eq_iff, eq_refl, ltb, if◌then◌else◌, Bool-cases, length, any,
}
use alfaedge_pulse.Hosts.Mounts.{
  is_mount, next_mount, upsert_resource_mount, delete_stale_resource_mounts, process_disks,
  add_disk, MountTables, record_disks, mounts_after, DisksDone, mount_name, old_flags, sample_of,
  mount_texts,
}
use alfaedge_pulse.Poller.Severity.{Thresholds}
use alfaedge_pulse.Common.Text.{or_empty}
use alfaedge_pulse.Alerts.Dispatch.{AlertContext, is_member}
use alfaedge_pulse.Alerts.Channels.{is_set}
use alfaedge_pulse.Common.Tables.{
  any-upsert, delete_where, first_that, any-upsert_other, upsert, first_that-upsert,
}
use alfaedge_pulse.Poller.Resources.OpenAlerts.{Follows, resource_alerts-Follows}
use alfaedge_pulse.Poller.Resources.{next_flags, resource_alerts}
use alfaedge_pulse.Hosts.Disks.{DiskReport, ResourceMount, mount_reading}

-- The host has a row for this mount point.
abbrev pub has_mount : String → String → List ResourceMount → Bool
has_mount host mount mounts = any (is_mount host mount) mounts

next_mount-is_mount :
    (now : ℕ) (t : Thresholds) (new_name host mount : String) (row : DiskReport)
    (o : Option ResourceMount)
    → is_mount host mount (next_mount now t new_name host row o)
      ≡ str_eq (or_empty row.mount_point) mount
unfolding is_mount next_mount
next_mount-is_mount now t new_name host mount row o = ground (arith, eq_refl host)

is_mount_apart :
    (host mount other : String) (m : ResourceMount)
    → str_eq mount other ≡ false
    → is_mount host mount m ≡ true
    → is_mount host other m ≡ false
unfolding is_mount
is_mount_apart host mount other m apart here =
    ground (arith, eq_iff m.mount_point mount, eq_iff m.mount_point other, eq_iff mount other)

empty-is_member :
    (xs : List String) (x : String) → ltb 0 (length xs) ≡ false → is_member x xs ≡ false
unfolding is_member
empty-is_member [] x h = refl
empty-is_member (y ∷ ys) x h = ground arith

-- The mount points that a report names.
unfoldable pub reported : List DiskReport → List String
reported [] = []
reported (row ∷ rows) =
    let rest = reported rows in
    if is_set row.mount_point then or_empty row.mount_point ∷ rest else rest

module _ (c : AlertContext) (t : Thresholds) (notify : Bool) (host : String) where
  has_mount-upsert :
      (new_name mount : String) (row : DiskReport) (s : MountTables)
      → has_mount host mount
          (mounts_after s (upsert_resource_mount c t notify new_name host row s)).mounts
        ≡ (is_set row.mount_point && str_eq (or_empty row.mount_point) mount
            || has_mount host mount s.mounts)
  unfolding upsert_resource_mount mounts_after
  has_mount-upsert new_name mount row s =
      let same = is_mount host (or_empty row.mount_point) in
      let next = next_mount c.now t new_name host row in
      elim (Bool-cases (str_eq (or_empty row.mount_point) mount)) [
        | inl e ↦ ground (
          arith,
          any-upsert same (is_mount host mount) next s.mounts
              (λ o. next_mount-is_mount c.now t new_name host mount row o ∙ e),
        )
        | inr e ↦ ground (
          arith,
          any-upsert_other same (is_mount host mount) next s.mounts
              (λ o. next_mount-is_mount c.now t new_name host mount row o ∙ e)
              (λ m here. is_mount_apart host (or_empty row.mount_point) mount m e here),
        )
      ]

  seen-add :
      (row : DiskReport) (new_name shown : String) (s : MountTables) (later : DisksDone)
      → (add_disk row shown later (upsert_resource_mount c t notify new_name host row s)).seen
        ≡ (if is_set row.mount_point then or_empty row.mount_point ∷ later.seen else later.seen)
  unfolding add_disk upsert_resource_mount
  seen-add row new_name shown s later = elim (Bool-cases (is_set row.mount_point)) [
    | inl e ↦ rw e refl
    | inr e ↦ rw e refl
  ]

  pub tables-add :
      (row : DiskReport) (shown : String) (later : DisksDone) (o : Option MountTables)
      → (add_disk row shown later o).tables ≡ later.tables
  unfolding add_disk
  tables-add row shown later none = refl
  tables-add row shown later (some s) = refl

  module _ (shown fresh : DiskReport → String) where
    record_disks-seen :
        (rows : List DiskReport) (s : MountTables)
        → (record_disks c t notify shown fresh host rows s).seen ≡ reported rows
    unfolding record_disks reported
    record_disks-seen [] s = refl
    record_disks-seen (row ∷ rows) s =
        let next = mounts_after s (upsert_resource_mount c t notify (fresh row) host row s) in
        seen-add row (fresh row) (shown row) s (record_disks c t notify shown fresh host rows next)
        ∙ rw (record_disks-seen rows next) refl

    has_mount-record :
        (rows : List DiskReport) (mount : String) (s : MountTables)
        → has_mount host mount (record_disks c t notify shown fresh host rows s).tables.mounts
          ≡ (is_member mount (reported rows) || has_mount host mount s.mounts)
    unfolding record_disks reported is_member
    has_mount-record [] mount s = refl
    has_mount-record (row ∷ rows) mount s =
        let tried = upsert_resource_mount c t notify (fresh row) host row s in
        let later = record_disks c t notify shown fresh host rows (mounts_after s tried) in
        ground (
          arith,
          ap (λ (x : MountTables). has_mount host mount x.mounts)
              (tables-add row (shown row) later tried),
          has_mount-record rows mount (mounts_after s tried),
          has_mount-upsert (fresh row) mount row s,
          eq_iff mount (or_empty row.mount_point),
          eq_iff (or_empty row.mount_point) mount,
        )

    has_mount-delete :
        (seen : List String) (mount : String) (mounts : List ResourceMount)
        → has_mount host mount (delete_stale_resource_mounts host seen mounts)
          ≡ (is_member mount seen && has_mount host mount mounts)
    unfolding delete_stale_resource_mounts is_mount delete_where
    has_mount-delete seen mount [] = ground arith
    has_mount-delete seen mount (m ∷ ms) = ground (
      arith,
      has_mount-delete seen mount ms,
      eq_iff m.mount_point mount,
      ap (λ x. is_member x seen),
    )

    -- After a report the host has a row for a mount point exactly if the report names it, and the
    -- rows of before if it names none: an empty list of disks deletes nothing.
    pub process_disks_lem :
        (rows : List DiskReport) (mount : String) (s : MountTables)
        → has_mount host mount (process_disks c t notify shown fresh host rows s).tables.mounts ≡ (
            if ltb 0 (length (reported rows))
            then is_member mount (reported rows)
            else has_mount host mount s.mounts)
    unfolding process_disks
    process_disks_lem rows mount s =
        let done = record_disks c t notify shown fresh host rows s in
        let kept = has_mount-record rows mount s in
        let seen = record_disks-seen rows s in
        elim (Bool-cases (ltb 0 (length (reported rows)))) [
          | inl some_seen ↦
              rw (seen, some_seen)
                (has_mount-delete (reported rows) mount done.tables.mounts ∙ ground (arith, kept))
          | inr none_seen ↦
              rw (seen, none_seen)
                (ground (arith, kept, empty-is_member (reported rows) mount none_seen))
        ]

-- The alerts of a mount follow its row: a report of one disk, where the two alerts of its row were
-- open exactly if its flags were set.
pub upsert_resource_mount_lem :
    (c : AlertContext) (t : Thresholds) (notify : Bool) (new_name host : String) (row : DiskReport)
    (s : MountTables)
    → is_set row.mount_point ≡ true
    → let existing = first_that (is_mount host (or_empty row.mount_point)) s.mounts in
      Follows "Resource Mount" (mount_name new_name existing) (old_flags existing) s.alerting
      → (s' : MountTables) × (m : ResourceMount) × (upsert_resource_mount c t notify new_name host
            row s
          ≡ some s')
        × (first_that (is_mount host (or_empty row.mount_point)) s'.mounts ≡ some m)
        × (m.flags ≡ next_flags t (mount_reading row) (old_flags existing))
        × Follows "Resource Mount" m.name m.flags s'.alerting
unfolding upsert_resource_mount
upsert_resource_mount_lem c t notify new_name host row s named follows =
    let same = is_mount host (or_empty row.mount_point) in
    let next = next_mount c.now t new_name host row in
    let existing = first_that same s.mounts in
    let m = next existing in
    (
      record {
        mounts = upsert same next s.mounts;
        samples = s.samples ++ sample_of m ∷ [];
        alerting =
            resource_alerts c "Resource Mount" m.name (mount_texts t m) notify (old_flags existing)
              m.flags s.alerting;
      },
      m,
      rw named refl,
      first_that-upsert same next s.mounts (λ o.
          next_mount-is_mount c.now t new_name host (or_empty row.mount_point) row o
          ∙ eq_refl (or_empty row.mount_point)),
      unfold next_mount in refl,
      resource_alerts-Follows c "Resource Mount" m.name (mount_texts t m) notify
          (old_flags existing) m.flags s.alerting (unfold next_mount in follows),
    )
