-- ===== src/Config/Runtime.antt =====
-- The sections from `coordination` on, and the whole of `ParseConfig` (src/config/Config.cpp).
use thread_haul_daemon.Base.{
  ℕ, Bool, true, false, ◌&&◌, List, [], Option, none, some, ltb, codes, length, Real, less,
}
use thread_haul_daemon.Config.Json.{
  pos, Json, Members, empty_text, bad_order, bad_value, invalid_json, Result, ok, err, ◌>>=◌, ◌>>◌,
  refuse,
}
use thread_haul_daemon.Config.Fields.{
  Env, wide_or, as_object, opt_integer, opt_bool, opt_string, opt_number, is_empty,
}
use thread_haul_daemon.Config.Sections.{
  Thresholds, Processes, LogSettings, TelemetrySettings, Triggers, AdaptiveConfig, AutoConfig,
  Coordination, DashboardConfig, if_present, parse_interval, parse_thresholds, parse_processes,
  parse_logging, parse_telemetry,
}
use thread_haul_daemon.Config.Optional.{
  Alerts, PinnedIdentity, secret_or, parse_triggers, parse_adaptive, parse_alerts, parse_identity,
}

pub record DaemonConfig (D : Type 0) : Type 0 where
  pub interval_ms : ℕ
  pub thresholds : Thresholds D
  pub processes : Processes
  pub log_settings : LogSettings
  pub telemetry : TelemetrySettings
  pub triggers : Triggers D
  pub adaptive : AdaptiveConfig D
  pub alerts : Alerts
  pub identities : List PinnedIdentity
  pub coordination : Coordination
  pub require_protected_config : Bool
  pub auto : AutoConfig D
  pub dashboard : DashboardConfig

module _ {D : Type 0} ⦃r : Real D⦄ (env : Env D) (secret : List ℕ → Option (List ℕ)) where
  abbrev num : ℕ → D
  num n = env.number (pos n)

  -- The settings of a configuration without the section.
  abbrev pub no_coordination : Coordination
  no_coordination = record {
    coordination_enabled = false;
    controller_host = codes "127.0.0.1";
    controller_port = 7878;
    shared_token = [];
    heartbeat_seconds = 5;
  }

  unfoldable pub parse_coordination : Members D → Result Coordination
  unfolding secret_or
  parse_coordination root = if_present env root (codes "coordination") no_coordination λ c. do
    enabled ← opt_bool c (codes "enabled") (codes "coordination.enabled") false
    stored ←
        opt_string c (codes "controller_host") (codes "coordination.controller_host")
          (codes "127.0.0.1")
    host ← wide_or (env.to_wide stored)
    port ←
        opt_integer c (codes "controller_port") (codes "coordination.controller_port") 1 65535 7878
    sealed ← opt_string c (codes "shared_token") (codes "coordination.shared_token") []
    token ← secret_or (codes "coordination.shared_token") (secret sealed)
    heartbeat ←
        opt_integer c (codes "heartbeat_seconds") (codes "coordination.heartbeat_seconds") 1 3600 5
    refuse (enabled && is_empty host) (codes "coordination.controller_host") empty_text
    refuse (enabled && ltb (length token) 16) (codes "coordination.shared_token") bad_value
    ok (record {
      coordination_enabled = enabled;
      controller_host = host;
      controller_port = port;
      shared_token = token;
      heartbeat_seconds = heartbeat;
    })

  unfoldable pub parse_security : Members D → Result Bool
  parse_security root = if_present env root (codes "security") false λ sec.
      opt_bool sec (codes "require_protected_config") (codes "security.require_protected_config")
        false

  abbrev pub default_auto : AutoConfig D
  default_auto = record {
    auto_enabled = true;
    throttle_percent = num 90;
    throttle_samples = 5;
    use_idle = true;
    idle_percent = num 97;
    idle_samples = 10;
    recover_percent = num 75;
    recover_samples = 10;
    max_processes = 3;
    min_process_cpu = num 50;
  }

  unfoldable pub parse_auto : Members D → Result (AutoConfig D)
  parse_auto root = if_present env root (codes "auto_protect") default_auto λ a. do
    enabled ← opt_bool a (codes "enabled") (codes "auto_protect.enabled") true
    throttle ←
        opt_number env a (codes "throttle_at_percent") (codes "auto_protect.throttle_at_percent")
          (num 10) (num 100) (num 90)
    throttle_n ←
        opt_integer a (codes "throttle_samples") (codes "auto_protect.throttle_samples") 1 600 5
    use_idle ← opt_bool a (codes "use_idle") (codes "auto_protect.use_idle") true
    idle ←
        opt_number env a (codes "idle_at_percent") (codes "auto_protect.idle_at_percent") (num 10)
          (num 100) (num 97)
    idle_n ← opt_integer a (codes "idle_samples") (codes "auto_protect.idle_samples") 1 600 10
    recover ←
        opt_number env a (codes "recover_below_percent")
          (codes "auto_protect.recover_below_percent") (num 1) (num 100) (num 75)
    recover_n ←
        opt_integer a (codes "recover_samples") (codes "auto_protect.recover_samples") 1 600 10
    most ← opt_integer a (codes "max_processes") (codes "auto_protect.max_processes") 1 50 3
    least ←
        opt_number env a (codes "min_process_cpu_percent")
          (codes "auto_protect.min_process_cpu_percent") (num 1) (num 6400) (num 50)
    refuse (r.le throttle recover) (codes "auto_protect.recover_below_percent") bad_order
    refuse (use_idle && less idle throttle) (codes "auto_protect.idle_at_percent") bad_order
    ok (record {
      auto_enabled = enabled;
      throttle_percent = throttle;
      throttle_samples = throttle_n;
      use_idle = use_idle;
      idle_percent = idle;
      idle_samples = idle_n;
      recover_percent = recover;
      recover_samples = recover_n;
      max_processes = most;
      min_process_cpu = least;
    })

  unfoldable pub parse_dashboard : Members D → Result DashboardConfig
  parse_dashboard root =
      if_present env root (codes "dashboard")
        (record { dashboard_enabled = true; dashboard_port = 8787 })
        λ d. do
          enabled ← opt_bool d (codes "enabled") (codes "dashboard.enabled") true
          port ← opt_integer d (codes "port") (codes "dashboard.port") 1024 65535 8787
          ok (record { dashboard_enabled = enabled; dashboard_port = port })

  unfoldable pub parse_root : Members D → Result (DaemonConfig D)
  parse_root root = do
    interval ← parse_interval env root
    thresholds ← parse_thresholds env root
    processes ← parse_processes env root
    logging ← parse_logging env root
    telemetry ← parse_telemetry env root
    triggers ← parse_triggers env root
    adaptive ← parse_adaptive env root
    alerts ← parse_alerts env root secret
    identities ← parse_identity env root
    coordination ← parse_coordination root
    protected ← parse_security root
    auto ← parse_auto root
    dashboard ← parse_dashboard root
    ok (record {
      interval_ms = interval;
      thresholds = thresholds;
      processes = processes;
      log_settings = logging;
      telemetry = telemetry;
      triggers = triggers;
      adaptive = adaptive;
      alerts = alerts;
      identities = identities;
      coordination = coordination;
      require_protected_config = protected;
      auto = auto;
      dashboard = dashboard;
    })

  -- `parse` is `json::parse`, `none` its error.
  unfoldable pub parse_config : (List ℕ → Option (Json D)) → List ℕ → Result (DaemonConfig D)
  parse_config parse text = elim (parse text) [
    | none ↦ err [] invalid_json
    | some v ↦ as_object [] v >>= parse_root
  ]
