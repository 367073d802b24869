-- ===== src/Retention/Backfill.antt =====
-- proxmox_resource_history/backfill.py: the import of Proxmox's own history (RRD) of a server. The
-- clients of Proxmox are an `RrdClient`: what each call returns, or the error that it raises.
pub mod Imported
pub mod Loops
pub mod Repeated
pub mod Rerun
use alfaedge_pulse.Common.{
  All-map, All-any, ℕ, zero, suc, ◌+◌, ◌-◌, ◌*◌, ◌/◌, ◌%◌, ◌≤◌, ◌<◌, max, String, ◌≡◌, refl, sym,
  ap, ◌∙◌, ◌≢◌, ◌↔◌, ◌⊎◌, inl, inr, Bool, true, false, not, ◌&&◌, ◌||◌, Option, none, some, List,
  [], ◌∷◌, ◌++◌, map, foldl, arith, str_eq, eq_iff, eq_refl, ltb, leb, ◌==◌, if◌then◌else◌,
  Bool-cases, Option-cases, ltb→lt, lt→ltb, leb→le, le→leb, tests, length, take, any, all, keep,
  count, length-append, any-append, count-append, count-le-length, All, length-map,
}
use alfaedge_pulse.Poller.Severity.{or_default}
use alfaedge_pulse.Retention.History.{
  HostPoint, GuestPoint, HostRow, host_row_of, GuestRow, guest_row_of,
}
use alfaedge_pulse.Common.Text.{concat, decimal}
use alfaedge_pulse.Retention.{day}

unfoldable pub has_time : ℕ → List ℕ → Bool
has_time t existing = any (λ s. s == t) existing

-- The rows of the buckets that the loop does not skip for what is missing.
pub rows_read {ℓ κ} : {P : Type ℓ} {R : Type κ} → (P → Option R) → List P → List R
rows_read row_of [] = []
rows_read row_of (p ∷ points) =
    let rest = rows_read row_of points in elim (row_of p) [ none ↦ rest | some row ↦ row ∷ rest ]

-- The tests on the time in the loop of both imports: the rows that it inserts.
pub import_rows {ℓ} : {R : Type ℓ} → (R → ℕ) → ℕ → List ℕ → List R → List R
import_rows at cutoff existing [] = []
import_rows at cutoff existing (row ∷ rows) =
    let skipped = import_rows at cutoff existing rows in
    let added = import_rows at cutoff (at row ∷ existing) rows in
    if ltb (at row) cutoff || has_time (at row) existing then skipped else row ∷ added

-- `existing`: the times of the rows of one host or guest from the cutoff on.
pub times_from {ℓ} : {R : Type ℓ} → (R → ℕ) → (R → Bool) → ℕ → List R → List ℕ
times_from at is_owned cutoff rows = map at (keep (λ r. is_owned r && leb cutoff (at r)) rows)

-- The count of the rows inserted, and the table.
pub import_rrd {ℓ} : {R : Type ℓ} → (R → ℕ) → (R → Bool) → ℕ → List R → List R → ℕ × List R
unfolding times_from import_rows
import_rrd at is_owned cutoff found rows =
    let added = import_rows at cutoff (times_from at is_owned cutoff rows) found in
    (length added, rows ++ added)

-- backfill.py: `_import_host_rrd`
pub import_host_rrd : String → ℕ → List HostPoint → List HostRow → ℕ × List HostRow
unfolding import_rrd rows_read
import_host_rrd server cutoff points rows =
    import_rrd (λ r. r.collected_at) (λ r. str_eq r.server server) cutoff
      (rows_read (host_row_of server) points) rows

-- backfill.py: `_import_guest_rrd`; `known` are the names of the rows of `Proxmox Guest`.
pub import_guest_rrd :
    List String → String → ℕ → ℕ → String → List GuestPoint → List GuestRow → ℕ × List GuestRow
unfolding import_rrd rows_read
import_guest_rrd known server cutoff vmid guest_type points rows =
    let guest = concat (server ∷ "-" ∷ decimal vmid ∷ []) in
    if any (str_eq guest) known
    then import_rrd (λ r. r.collected_at) (λ r. str_eq r.guest guest) cutoff
        (rows_read (guest_row_of server guest vmid guest_type) points) rows
    else (0, rows)

-- What a client's call returns, or the text of the error that it raises.
pub data Fetched {ℓ} (A : Type ℓ) : Type ℓ where
  fetched : A → Fetched A
  fetch_failed : String → Fetched A

-- The calls that the import makes of a server's client, for one timeframe.
pub record RrdClient : Type 0 where
  pub discover_node_name : Fetched String
  pub get_node_rrddata : String → Fetched (List HostPoint)
  pub list_qemu : String → Fetched (List ℕ)
  pub list_lxc : String → Fetched (List ℕ)
  pub get_qemu_rrddata : String → ℕ → Fetched (List GuestPoint)
  pub get_lxc_rrddata : String → ℕ → Fetched (List GuestPoint)

-- The two tables, and the error log.
pub record HistoryTables : Type 0 where
  pub hosts : List HostRow
  pub guests : List GuestRow
  pub errors : List String

-- The loop over the guests of one kind: the count and the table, or the first error.
unfoldable pub import_guests :
    (ℕ → Fetched (List GuestPoint))
    → (ℕ → List GuestPoint → List GuestRow → ℕ × List GuestRow)
    → List ℕ
    → ℕ
    → List GuestRow
    → Fetched (ℕ × List GuestRow)
import_guests get import_one [] total rows = fetched (total, rows)
import_guests get import_one (vmid ∷ vmids) total rows = elim (get vmid) [
  | fetch_failed e ↦ fetch_failed e
  | fetched points ↦
      let (n, rows') = import_one vmid points rows in
      import_guests get import_one vmids (total + n) rows'
]

unfoldable pub bind_fetched {ℓ κ} :
    {A : Type ℓ} {B : Type κ} → Fetched A → (A → Fetched B) → Fetched B
bind_fetched (fetched a) f = f a
bind_fetched (fetch_failed e) f = fetch_failed e

-- The body of the `try`: the two counts and the tables.
unfoldable pub import_server :
    RrdClient → List String → Bool → String → ℕ → HistoryTables → Fetched (ℕ × ℕ × HistoryTables)
unfolding bind_fetched import_guests import_host_rrd
import_server client known is_pbs server cutoff t = bind_fetched client.discover_node_name (λ node.
    bind_fetched (client.get_node_rrddata node) (λ points.
      let (host_count, hosts) = import_host_rrd server cutoff points t.hosts in
      if is_pbs
      then fetched (host_count, 0, record t { hosts = hosts })
      else bind_fetched (client.list_qemu node) (λ vms.
        bind_fetched
          (import_guests (client.get_qemu_rrddata node)
            (λ vmid. import_guest_rrd known server cutoff vmid "QEMU (VM)") vms 0 t.guests)
          (λ (qemu_count, guests). bind_fetched (client.list_lxc node) (λ cts.
            bind_fetched
              (import_guests (client.get_lxc_rrddata node)
                (λ vmid. import_guest_rrd known server cutoff vmid "LXC (CT)") cts qemu_count
                guests)
              (λ (guest_count, guests').
                fetched
                  (host_count, guest_count, record t { hosts = hosts; guests = guests' })))))))

-- The answer and the tables: an error rolls back what was imported, and is logged.
unfoldable pub backfill_answer :
    String → HistoryTables → Fetched (ℕ × ℕ × HistoryTables) → (Bool × String) × HistoryTables
backfill_answer server t (fetch_failed e) = (
  (false, e),
  record t {
    errors =
        t.errors ++ concat ("Proxmox Resource History: backfill failed for " ∷ server ∷ []) ∷ [];
  },
)
backfill_answer server t (fetched (host_count, guest_count, t')) = (
  (
    true,
    concat (
        "Backfilled "
        ∷ decimal host_count
        ∷ " host sample(s) and "
        ∷ decimal guest_count
        ∷ " guest sample(s) for "
        ∷ server
        ∷ "."
        ∷ []),
  ),
  t',
)

-- backfill.py: `backfill_server`, with the setting as `cint` reads it.
unfoldable pub backfill_server :
    RrdClient
    → List String
    → Bool
    → String
    → ℕ
    → ℕ
    → HistoryTables
    → (Bool × String) × HistoryTables
unfolding import_server backfill_answer
backfill_server client known is_pbs server setting now t =
    backfill_answer server t
      (import_server client known is_pbs server (now - or_default setting 30 * day) t)
