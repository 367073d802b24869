-- ===== src/Diagnosis/Tests.antt =====
-- Runs of the diagnosis on small tables.
use alfaedge_pulse.Common.{
  String, ◌≡◌, refl, true, false, not, none, some, List, [], ◌∷◌, ◌++◌, any, keep,
}
use alfaedge_pulse.Diagnosis.Rows.{MemoryRow}
use alfaedge_pulse.Diagnosis.Critical.{is_critical}
use alfaedge_pulse.Common.Names.{replace_code}
use alfaedge_pulse.Diagnosis.Texts.{grouped, mb_text}
use alfaedge_pulse.Diagnosis.Evaluate.{all_findings, evaluate}
use alfaedge_pulse.Diagnosis.RedisChecks.{evaluate_redis, redis_findings}
use alfaedge_pulse.Diagnosis.Redis.{RedisRow}
use alfaedge_pulse.Diagnosis.RedisVerdict.{any_failing, evaluate_redis_lem}
use alfaedge_pulse.Diagnosis.Verdict.{evaluate_lem}
use alfaedge_pulse.Common.Text.{split_on, concat, decimal}
use alfaedge_pulse.Common.Numbers.{round_ratio}

abbrev stalled_row : MemoryRow
stalled_row = record {
  rates_valid = true;
  mem_total_mb = some 400000;
  mem_available_mb = some 300000;
  swap_total_mb = none;
  swap_used_mb = none;
  swap_in_per_s = none;
  swap_out_per_s = none;
  cgroup_mem_limit_mb = none;
  cgroup_mem_current_mb = none;
  cpu_limit_cores = none;
  cpu_throttled_percent = none;
  psi_cpu_some = none;
  psi_memory_some = none;
  psi_memory_full = none;
  psi_io_some = some 6000;
  psi_io_full = some 1500;
  top_processes = [];
}

evaluate_lem_example :
    let rows = stalled_row ∷ stalled_row ∷ [] in
    let found = all_findings 0 [] stalled_row (stalled_row ∷ rows) in
    evaluate (stalled_row ∷ rows) [] 0
    ≡ keep is_critical found ++ keep (λ f. not (is_critical f)) found
evaluate_lem_example = (evaluate_lem stalled_row (stalled_row ∷ stalled_row ∷ []) [] 0).1

abbrev broken_queue : RedisRow
broken_queue = record {
  rates_valid = true;
  instance_label = some "queue";
  roles = some "queue+socketio";
  uptime_s = some 4000;
  maxmemory_policy = none;
  used_mb = some 1000;
  rss_mb = some 2000;
  maxmemory_mb = none;
  fragmentation_ratio = none;
  ops_per_s = none;
  hit_percent = none;
  evicted = some 0;
  connected_clients = some 3;
  max_clients = some 100;
  rejected = some 0;
  persistence_ok = false;
  fork_ms = none;
  slowlog_recent_max_ms = none;
  slowlog_recent_commands = none;
}

abbrev one_instance : List (String × List RedisRow)
one_instance = ("127.0.0.1:11000", broken_queue ∷ []) ∷ []

evaluate_redis_lem_example :
    (any is_critical (evaluate_redis one_instance 400000) ≡ any_failing 400000 one_instance)
    × (evaluate_redis one_instance 400000
        ≡ keep is_critical (redis_findings 400000 one_instance)
          ++ keep (λ f. not (is_critical f)) (redis_findings 400000 one_instance))
evaluate_redis_lem_example = evaluate_redis_lem one_instance 400000

mb_text_512 : mb_text 51250 ≡ "512 MB"
unfolding mb_text concat round_ratio decimal
mb_text_512 = refl

mb_text_10240 : mb_text 1024000 ≡ "10.0 GB"
unfolding mb_text concat round_ratio decimal
mb_text_10240 = refl

grouped_1234567 : grouped 1234567 ≡ "1,234,567"
unfolding grouped concat decimal
grouped_1234567 = refl

replace_plus : replace_code 43 " and " "cache+queue" ≡ "cache and queue"
unfolding replace_code split_on concat
replace_plus = refl
