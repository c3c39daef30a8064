-- ===== src/Config/Sections.antt =====
-- The configuration and its sections (src/config/Config.h, and `ParseConfig` in
-- src/config/Config.cpp). A section's record holds the fields that its part of `ParseConfig` sets.
use thread_haul_daemon.Base.{
  ℕ, Bool, true, not, ◌&&◌, List, [], ◌++◌, none, some, any_of, codes, eq_text, Real, less,
}
use thread_haul_daemon.Config.Json.{
  Members, find_member, empty_text, bad_order, in_both_lists, bad_value, Result, ok, ◌>>=◌, ◌>>◌,
  refuse,
}
use thread_haul_daemon.Config.Fields.{
  Env, wide_or, field, as_string, object_field, integer_field, opt_integer, opt_bool, opt_string,
  opt_object, percent, is_empty, name_list,
}

pub record ThresholdSpec (D : Type 0) : Type 0 where
  pub percent : D
  pub consecutive_samples : ℕ

pub record Thresholds (D : Type 0) : Type 0 where
  pub high : ThresholdSpec D
  pub critical : ThresholdSpec D
  pub low : ThresholdSpec D

pub record Processes : Type 0 where
  pub critical_processes : List (List ℕ)
  pub batch_processes : List (List ℕ)
  pub protected_processes : List (List ℕ)

pub record LogSettings : Type 0 where
  pub log_path : List ℕ
  pub max_file_size_mb : ℕ
  pub max_rotated_files : ℕ

pub record TelemetrySettings : Type 0 where
  pub cpu_per_core : Bool
  pub log_samples : Bool
  pub self_monitor_interval_sec : ℕ

pub record Triggers (D : Type 0) : Type 0 where
  pub memory_enabled : Bool
  pub system_memory_limit : D
  pub working_set_limit : D
  pub io_enabled : Bool
  pub io_limit : D

pub record AdaptiveConfig (D : Type 0) : Type 0 where
  pub adaptive_enabled : Bool
  pub window_samples : ℕ
  pub horizon_samples : ℕ
  pub max_adjust_percent : D

pub record AutoConfig (D : Type 0) : Type 0 where
  pub auto_enabled : Bool
  pub throttle_percent : D
  pub throttle_samples : ℕ
  pub use_idle : Bool
  pub idle_percent : D
  pub idle_samples : ℕ
  pub recover_percent : D
  pub recover_samples : ℕ
  pub max_processes : ℕ
  pub min_process_cpu : D

pub record Coordination : Type 0 where
  pub coordination_enabled : Bool
  pub controller_host : List ℕ
  pub controller_port : ℕ
  pub shared_token : List ℕ
  pub heartbeat_seconds : ℕ

pub record DashboardConfig : Type 0 where
  pub dashboard_enabled : Bool
  pub dashboard_port : ℕ

-- Is some critical name a batch name too?
abbrev pub shares_name : {D : Type 0} → Env D → List (List ℕ) → List (List ℕ) → Bool
shares_name env critical batch = any_of (λ c. any_of (env.same_name c) batch) critical

module _ {D : Type 0} ⦃r : Real D⦄ (env : Env D) (root : Members D) where
  unfoldable pub threshold : Members D → List ℕ → Result (ThresholdSpec D)
  threshold thresholds key = do
    let path = codes "thresholds." ++ key
    t ← object_field thresholds key path
    p ← percent env t (codes "percent") (path ++ codes ".percent")
    n ← integer_field t (codes "consecutive_samples") (path ++ codes ".consecutive_samples") 1 100
    ok (record { percent = p; consecutive_samples = n })

  unfoldable pub parse_interval : Result ℕ
  parse_interval = do
    polling ← object_field root (codes "polling") (codes "polling")
    integer_field polling (codes "interval_ms") (codes "polling.interval_ms") 100 60000

  unfoldable pub parse_thresholds : Result (Thresholds D)
  unfolding threshold
  parse_thresholds = do
    thresholds ← object_field root (codes "thresholds") (codes "thresholds")
    high ← threshold thresholds (codes "high")
    critical ← threshold thresholds (codes "critical")
    low ← threshold thresholds (codes "low")
    refuse (less critical.percent high.percent) (codes "thresholds.critical.percent") bad_order
    refuse (r.le high.percent low.percent) (codes "thresholds.low.percent") bad_order
    ok (record { high = high; critical = critical; low = low })

  unfoldable pub parse_processes : Result Processes
  parse_processes = do
    processes ← object_field root (codes "processes") (codes "processes")
    c ← field processes (codes "critical") (codes "processes.critical")
    critical ← name_list env (codes "processes.critical") c
    b ← field processes (codes "batch") (codes "processes.batch")
    batch ← name_list env (codes "processes.batch") b
    kept ← elim (find_member (codes "protected") processes) [
      | none ↦ ok []
      | some p ↦ name_list env (codes "processes.protected") p
    ]
    refuse (shares_name env critical batch) (codes "processes.critical") in_both_lists
    ok (record {
      critical_processes = critical;
      batch_processes = batch;
      protected_processes = kept;
    })

  unfoldable pub parse_logging : Result LogSettings
  parse_logging = do
    logging ← object_field root (codes "logging") (codes "logging")
    v ← field logging (codes "log_path") (codes "logging.log_path")
    path ← as_string (codes "logging.log_path") v
    refuse (is_empty path) (codes "logging.log_path") empty_text
    wide ← wide_or (env.to_wide path)
    size ←
        integer_field logging (codes "max_file_size_mb") (codes "logging.max_file_size_mb") 1 1024
    files ←
        integer_field logging (codes "max_rotated_files") (codes "logging.max_rotated_files") 0 100
    ok (record { log_path = wide; max_file_size_mb = size; max_rotated_files = files })

  -- `if (const json* t = OptObject(root, key, key))`
  abbrev pub if_present : {A : Type 0} → List ℕ → A → (Members D → Result A) → Result A
  if_present key default parse =
      opt_object root key key >>= λ o. elim o [ none ↦ ok default | some ms ↦ parse ms ]

  unfoldable pub parse_telemetry : Result TelemetrySettings
  parse_telemetry =
      if_present (codes "telemetry")
        (record { cpu_per_core = true; log_samples = true; self_monitor_interval_sec = 30 })
        λ t. do
          norm ←
              opt_string t (codes "cpu_normalization") (codes "telemetry.cpu_normalization")
                (codes "per_core")
          refuse (not (eq_text norm (codes "per_core")) && not (eq_text norm (codes "total")))
              (codes "telemetry.cpu_normalization") bad_value
          samples ← opt_bool t (codes "log_samples") (codes "telemetry.log_samples") true
          interval ←
              opt_integer t (codes "self_monitor_interval_seconds")
                (codes "telemetry.self_monitor_interval_seconds") 0 86400 30
          ok (record {
            cpu_per_core = eq_text norm (codes "per_core");
            log_samples = samples;
            self_monitor_interval_sec = interval;
          })
