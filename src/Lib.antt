-- ===== src/Lib.antt =====
-- alfaedge_pulse: monitoring of Proxmox hosts, backups and web sites on Frappe, with its alerts.
--
-- The program polls Proxmox servers (alfaedge_pulse/tasks/poller.py) and Uptime Kuma instances
-- (alfaedge_pulse/tasks/uptime_kuma_poller.py), stores what they report in Frappe doctypes, and
-- raises alerts (alfaedge_pulse/alerts) on the changes it sees. Every poller decides by itself
-- whether something is critical and hands the state before and after to `_handle_transition`,
-- which opens, closes and announces an incident in the alert log.
--
-- Common: list, text and grouping helpers. `strip` and `lower` follow Python on ASCII text.
-- Alerts: alfaedge_pulse/alerts/dispatch.py. `Alerts.Log` is `has_open_alert` and `resolve_alert`
--   over the rows of `Proxmox Alert Log`; `Alerts.Recipients` is `_recipients` and the digests'
--   `_parse_recipient_list`; `Alerts.Channels` is `_send_email`, `_send_whatsapp` and
--   `_resolve_whatsapp_template`; `Alerts.Dispatch` is `dispatch_alert`, `dispatch_recovery` and
--   `send_test_alert`. `Alerts.Summaries` is alfaedge_pulse/alerts/digest.py and
--   alfaedge_pulse/alerts/resource_batch.py, with times in microseconds; rows of one time keep the
--   order of their insertion. The mail server, frappe_whatsapp and its templates are a `Gateway`
--   that says of
--   each call whether it returns or raises.
-- Jobs: alfaedge_pulse/tasks/jobs.py, which keeps the poll loops running: the choice of the queue,
--   stale jobs, and the start and the hand-over of a loop. The job queue (RQ, with Frappe's
--   `enqueue`) is a record of functions whose documented laws are hypotheses.
-- Poller: alfaedge_pulse/tasks/poller.py. `Poller.Severity` is `_get_thresholds` and
--   `_track_severity`, over percentages in tenths, as `round(..., 1)` leaves them;
--   `Poller.Transition` is `_handle_transition` and the level-triggered form that two checks write
--   out; `Poller.Server` is `sync_server` and `_apply_host_status`, with the `try` body of a sync
--   as a parameter that says what it leaves; `Poller.Stall` is `_check_poller_stall` and
--   `_resolve_disabled_server_alerts`; `Poller.Backups` is `_handle_backup_task_result`,
--   `_check_guest_backups` and `_bump_last_successful_backup`; `Poller.Resources` is `_upsert_guest`
--   and `Poller.Storage` is `_upsert_datastore` and `_classify_storage_role`, on a document that is
--   found or new, with the readings rounded.
-- Uptime: `Uptime.Maintenance` is alfaedge_pulse/uptime_monitor/maintenance.py, with times in
--   microseconds since 0001-01-01; `Uptime.Checks` and `Uptime.Reconcile` are
--   `_record_site_check`, `_instance_verdict` and `_reconcile_site_criticality` of
--   alfaedge_pulse/tasks/uptime_kuma_poller.py.
-- Hosts: what the SSH poller's reports and the watchdog do to a monitored host, from
--   alfaedge_pulse/host_health/ingest.py and alfaedge_pulse/tasks/host_health_watchdog.py.
--   `Hosts.Heartbeat` is `check_host_heartbeats`, `_check_one_host` and `update_bastion_state`
--   of alfaedge_pulse/tasks/host_poller.py; `Hosts.Services` is `_upsert_service`;
--   `Hosts.Benches` is the failed jobs of a bench; `Hosts.Workers` is `_process_bench` and its
--   active jobs; `Hosts.Status` is `process_status`, with its sites in `Hosts.Sites` and its
--   loops and bench alerts in `Hosts.Rounds`; `Hosts.Disks` and `Hosts.Mounts` are the disks of
--   `process_resources` and `_upsert_resource_mount`; `Hosts.Load` is its load and swap and
--   `_upsert_resource_metrics`; `Hosts.Memory` is `_store_memory_sample`; `Hosts.Samples` is
--   `_store_io_samples` and its rates; `Hosts.Redis` is `process_redis`; `Hosts.Reports` puts
--   `process_resources` and `process_performance` together. Times are in microseconds,
--   percentages in tenths, rates in hundredths. The parsing of a time, which raises on some
--   texts, and the digest of a failure's signature are a `Remote` of functions; a report that
--   raises is rolled back, as `_store_report` of host_poller.py does; the texts of a row shown
--   in a warning and the names of new rows are arguments. Two reports of one host do not
--   overlap, so the inserts that meet a duplicate are left out.
-- Diagnosis: alfaedge_pulse/host_health/diagnosis.py, the rules that turn stored samples into
--   findings: `evaluate` with its rules on memory, CPU and disks, and `evaluate_redis`. Every size,
--   rate and percentage is in hundredths, so that each comparison of quotients is exact.
-- Discovery: alfaedge_pulse/site_discovery/sync.py, the daily discovery of sites. `Discovery.Fetch`
--   is `parse_ips`, `fetch_npms` and `fetch_cloudflare`; `Discovery.Guests` is `load_guests`,
--   `load_agent_sites` and the match of a target to a guest; `Discovery.Dns` is `cf_lookup` with the
--   wildcards; `Discovery.Candidates`, `Discovery.Choice` and `Discovery.Resolve` are `resolve`;
--   `Discovery.Run` is `run_sync` and the test of `sync_sites`. The clients of the NPMs, Cloudflare
--   and Proxmox, and Python's `ipaddress`, are parameters. A dictionary is the list of its entries in
--   the order of insertion. A negative `sync_hour` is 0.
-- Deletion: alfaedge_pulse/proxmox_fleet_monitor/server_deletion.py. `Deletion` is `_collect` over
--   one list of the rows of all tables, `Deletion.Archive` is `_build_archive`, `Deletion.Delete` is
--   `_delete`, `Deletion.Jobs` is `request_server_deletion` and `run_server_deletion`. The attachment
--   of the archive's file is a parameter; the header of its payload is left out.
-- Logs: alfaedge_pulse/tasks/log_monitor.py, the alerts on recurring errors: `run_check` from the rows
--   that ClickHouse returned on, less its counts, with the threshold and the window at least 1;
--   `_monitored_hosts_by_site`; the test of `check_recurring_errors`.
-- Retention: the daily purges, alfaedge_pulse/proxmox_resource_history/retention.py,
--   alfaedge_pulse/tasks/resource_monitor.py and `purge_old_check_logs` of
--   alfaedge_pulse/tasks/uptime_kuma_poller.py. `Retention.Backfill` is
--   alfaedge_pulse/proxmox_resource_history/backfill.py, whose client of Proxmox is a record of what
--   each call returns or raises; `Retention.Collector` is collector.py beside it, and
--   `Retention.History` their rows: a load is in millionths, and a time of Proxmox is read as UTC.
--
-- Loops run over lists or over a number of days computed beforehand. Fuel has `decimal`, which
-- prints n with fuel n + 1, more than n has digits, `grouped`, which does the same for groups of
-- three digits; the chunks of 500 names, of which there are no more than names; `cf_lookup`, with the
-- six rounds of its `for`; and `purge`, whose loop gets as many rounds as the table has rows and one more:
-- every round but the last deletes a row. Database calls are taken to succeed; a table is a list of
-- its rows in the order of insertion.
-- Not modelled: the HTTP and SSH clients, the web API and the dashboards, the patches, the MariaDB
-- samples and rules, the queries of the log monitor, and the LLM usage monitor.
pub mod Common
pub mod Alerts
pub mod Deletion
pub mod Diagnosis
pub mod Discovery
pub mod Hosts
pub mod Jobs
pub mod Logs
pub mod Poller
pub mod Retention
pub mod Uptime
