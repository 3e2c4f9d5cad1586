-- ===== src/Metrics.antt =====
-- `MetricsCollector` of src/build_engine/metrics/collector.py; its lock makes each call one step. The
-- hit ratio is kept as the pair of its numbers.
use build_engine.Prelude.{
  ℕ, ◌+◌, ◌-◌, String, ◌≡◌, refl, subst, Bool, ◌||◌, Option, none, some, List, [], ◌∷◌, str_eq,
  arith, if◌then◌else◌,
}

pub record Collector : Type 0 where
  pub workers_total : ℕ
  pub jobs_running : ℕ
  pub jobs_completed_total : ℕ
  pub docker_errors_total : ℕ
  pub uplink_reconnects_total : ℕ
  pub cache_hits : ℕ
  pub cache_misses : ℕ

abbrev pub new_collector : ℕ → Collector
new_collector workers_total = record {
  workers_total = workers_total;
  jobs_running = 0;
  jobs_completed_total = 0;
  docker_errors_total = 0;
  uplink_reconnects_total = 0;
  cache_hits = 0;
  cache_misses = 0;
}

abbrev pub job_started : Collector → Collector
job_started m = record m { jobs_running = m.jobs_running + 1 }

-- `max(0, self._jobs_running - 1)`: subtraction on ℕ stops at 0 as the source does here.
abbrev pub job_finished : Bool → Collector → Collector
job_finished completed m = record m {
  jobs_running = m.jobs_running - 1;
  jobs_completed_total = m.jobs_completed_total + (if completed then 1 else 0);
}

abbrev pub docker_error : Collector → Collector
docker_error m = record m { docker_errors_total = m.docker_errors_total + 1 }

abbrev pub uplink_reconnect : Collector → Collector
uplink_reconnect m = record m { uplink_reconnects_total = m.uplink_reconnects_total + 1 }

unfoldable pub cache_event : Option String → Collector → Collector
cache_event none m = m
cache_event (some event) m =
    if str_eq event "HIT"
    then record m { cache_hits = m.cache_hits + 1 }
    else if str_eq event "MISS" || str_eq event "WIPED"
    then record m { cache_misses = m.cache_misses + 1 }
    else m

pub record MetricsSnapshot : Type 0 where
  pub recorded_at : ℕ
  pub workers_busy : ℕ
  pub workers_total : ℕ
  pub queue_depth : ℕ
  pub cache_size_bytes : ℕ
  -- The hits and all cache events; the ratio is 0 where there were none.
  pub cache_hit_ratio : ℕ × ℕ
  pub jobs_running : ℕ
  pub jobs_completed_total : ℕ
  pub docker_errors_total : ℕ
  pub uplink_reconnects_total : ℕ

unfoldable pub snapshot : ℕ → (queue_depth cache_size_bytes : ℕ) → Collector → MetricsSnapshot
snapshot now queue_depth cache_size_bytes m = record {
  recorded_at = now;
  workers_busy = m.jobs_running;
  workers_total = m.workers_total;
  queue_depth = queue_depth;
  cache_size_bytes = cache_size_bytes;
  cache_hit_ratio = (m.cache_hits, m.cache_hits + m.cache_misses);
  jobs_running = m.jobs_running;
  jobs_completed_total = m.jobs_completed_total;
  docker_errors_total = m.docker_errors_total;
  uplink_reconnects_total = m.uplink_reconnects_total;
}

-- What the agent's threads record, in the order in which they take the lock.
pub data MetricsCall : Type 0 where
  starts : MetricsCall
  finishes : Bool → MetricsCall
  docker_fails : MetricsCall
  reconnects : MetricsCall
  caches : Option String → MetricsCall

unfoldable pub record_call : MetricsCall → Collector → Collector
record_call starts m = job_started m
record_call (finishes completed) m = job_finished completed m
record_call docker_fails m = docker_error m
record_call reconnects m = uplink_reconnect m
record_call (caches event) m = cache_event event m

unfoldable pub record_calls : List MetricsCall → Collector → Collector
record_calls [] m = m
record_calls (c ∷ cs) m = record_calls cs (record_call c m)

-- The jobs that are running after some calls, where `n` ran before: each start adds one and each
-- finish takes one off while there is one.
unfoldable pub running_jobs : ℕ → List MetricsCall → ℕ
running_jobs n [] = n
running_jobs n (starts ∷ cs) = running_jobs (n + 1) cs
running_jobs n (finishes _ ∷ cs) = running_jobs (n - 1) cs
running_jobs n (_ ∷ cs) = running_jobs n cs

cache_event-running :
    (event : Option String) (m : Collector) → (cache_event event m).jobs_running ≡ m.jobs_running
unfolding cache_event
cache_event-running none m = refl
cache_event-running (some event) m = ground arith

-- After any sequence of calls `snapshot` reports as busy and as running the jobs that were started
-- and not finished.
pub snapshot-running_jobs :
    (now depth size : ℕ) (cs : List MetricsCall) (m : Collector)
    → ((snapshot now depth size (record_calls cs m)).workers_busy ≡ running_jobs m.jobs_running cs)
      × ((snapshot now depth size (record_calls cs m)).jobs_running
          ≡ running_jobs m.jobs_running cs)
unfolding snapshot record_calls record_call running_jobs
snapshot-running_jobs now depth size [] m = (refl, refl)
snapshot-running_jobs now depth size (starts ∷ cs) m =
    snapshot-running_jobs now depth size cs (job_started m)
snapshot-running_jobs now depth size (finishes b ∷ cs) m =
    snapshot-running_jobs now depth size cs (job_finished b m)
snapshot-running_jobs now depth size (docker_fails ∷ cs) m =
    snapshot-running_jobs now depth size cs (docker_error m)
snapshot-running_jobs now depth size (reconnects ∷ cs) m =
    snapshot-running_jobs now depth size cs (uplink_reconnect m)
snapshot-running_jobs now depth size (caches event ∷ cs) m =
    subst
      (λ n.
        ((snapshot now depth size (record_calls cs (cache_event event m))).workers_busy
          ≡ running_jobs n cs)
        × ((snapshot now depth size (record_calls cs (cache_event event m))).jobs_running
            ≡ running_jobs n cs))
      (cache_event-running event m) (snapshot-running_jobs now depth size cs (cache_event event m))
