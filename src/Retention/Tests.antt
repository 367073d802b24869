-- ===== src/Retention/Tests.antt =====
-- Runs of the purges on small tables.
use alfaedge_pulse.Common.{
  ℕ, ◌+◌, String, ◌≡◌, refl, Bool, true, false, not, ◌&&◌, none, some, List, [], ◌∷◌, ◌++◌, arith,
  leb, ◌==◌, if◌then◌else◌, length, any, keep, count, All,
}
use alfaedge_pulse.Retention.{ResourceLogs, is_old, HistoryRow, purge}
use alfaedge_pulse.Retention.Termination.{purge_lem}
use alfaedge_pulse.Retention.Backfill.Rerun.{nothing_new, backfill_server-again}
use alfaedge_pulse.Retention.Backfill.Repeated.{is_host_row_at, import_host_rrd_lem}
use alfaedge_pulse.Retention.History.{HostPoint, GuestPoint, host_row_of, HostRow}
use alfaedge_pulse.Retention.Backfill.{
  RrdClient, backfill_server, import_host_rrd, HistoryTables, fetched, import_server, rows_read,
  fetch_failed, bind_fetched, import_guests, backfill_answer,
}
use alfaedge_pulse.Retention.Collector.{Collector, get_settings, NodeStatus}
use alfaedge_pulse.Retention.Collector.Spacing.{
  log_host_polls, IsApart, gap, is_covered_by, log_host_polls-IsApart,
}
use alfaedge_pulse.Common.Dicts.{dict_get}

abbrev rows : List HistoryRow
rows = record { name = "a"; at = 5 } ∷ record { name = "b"; at = 90 } ∷ []

purge_lem_example :
    purge 3 1 (is_old 50) 0 rows
    ≡ some (0 + count (is_old 50) rows, keep (λ x. not (is_old 50 x)) rows)
unfolding is_old
purge_lem_example = purge_lem (is_old 50) 3 1 0 rows (omega arith) (omega arith)

abbrev logs : ResourceLogs
logs = record {
  disk_io = rows;
  memory = rows;
  mariadb = [];
  redis = [];
  snapshots = rows;
  disk_samples = [];
  metrics = [];
  worker_health = [];
  failed_jobs = [];
}

abbrev full_point : HostPoint
full_point = record {
  time = some 900;
  cpu = some 250000;
  memtotal = some 64000000000;
  memused = some 16000000000;
  swaptotal = some 0;
  swapused = none;
  roottotal = some 0;
  rootused = none;
}

abbrev guest_point : GuestPoint
guest_point = record {
  time = some 900;
  cpu = some 10000;
  maxmem = some 2000000000;
  mem = some 1000000000;
  maxdisk = none;
  disk = none;
}

abbrev rrd_client : RrdClient
rrd_client = record {
  discover_node_name = fetched "pve";
  get_node_rrddata = λ node. fetched (full_point ∷ full_point ∷ []);
  list_qemu = λ node. fetched (101 ∷ 102 ∷ []);
  list_lxc = λ node. fetched [];
  get_qemu_rrddata = λ node vmid. fetched (guest_point ∷ []);
  get_lxc_rrddata = λ node vmid. fetch_failed "no such container";
}

abbrev no_history : HistoryTables
no_history = record { hosts = []; guests = []; errors = [] }

abbrev first_backfill : (Bool × String) × HistoryTables
first_backfill = backfill_server rrd_client ("alpha-101" ∷ []) false "alpha" 0 1000000000 no_history

went_well : first_backfill.0.0 ≡ true
unfolding backfill_server import_server bind_fetched import_guests backfill_answer
went_well = refl

backfill_server-again_example :
    backfill_server rrd_client ("alpha-101" ∷ []) false "alpha" 0 2000000000 first_backfill.1
    ≡ (nothing_new "alpha", first_backfill.1)
backfill_server-again_example =
    backfill_server-again rrd_client ("alpha-101" ∷ []) false "alpha" 0 1000000000 2000000000
      no_history (omega arith) went_well

import_host_rrd_lem_example :
    let (n, rows') = import_host_rrd "alpha" 500 (full_point ∷ full_point ∷ []) [] in
    (count (is_host_row_at "alpha" 900000000) rows' ≡ (
      if leb 500 900000000
        && (0 == 0
            && any
                (λ r. r.collected_at == 900000000)
                (rows_read (host_row_of "alpha") (full_point ∷ full_point ∷ [])))
      then 1
      else 0))
    × (length rows' ≡ 0 + n)
import_host_rrd_lem_example =
    import_host_rrd_lem "alpha" 500 (full_point ∷ full_point ∷ []) [] 900000000

abbrev idle_status : NodeStatus
idle_status = record {
  cpu = 10000;
  memory_used = 1000000000;
  memory_total = 2000000000;
  swap_used = 0;
  swap_total = 0;
  rootfs_used = 0;
  rootfs_total = 0;
}

abbrev new_collector : Collector
new_collector = record { tables = no_history; gate = [] }

abbrev some_polls : List (ℕ × NodeStatus)
some_polls = (5000000, idle_status) ∷ (20000000, idle_status) ∷ (70000000, idle_status) ∷ []

log_host_polls-IsApart_example :
    (new : List HostRow) × ((log_host_polls
        (λ row. true)
        (get_settings true 0)
        "alpha"
        some_polls
        new_collector).tables.hosts
      ≡ [] ++ new)
    × IsApart (gap (λ row. true) (get_settings true 0) "alpha") 0 new
    × All
        (λ poll. is_covered_by (λ row. true) (get_settings true 0) "alpha" 0 new poll ≡ true)
        some_polls
unfolding get_settings dict_get
log_host_polls-IsApart_example =
    log_host_polls-IsApart (λ row. true) (get_settings true 0) "alpha" refl (λ row. refl) 0
      some_polls new_collector (omega arith, (omega arith, (omega arith, tt)))
