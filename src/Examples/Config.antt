-- ===== src/Examples/Config.antt =====
-- Examples of src/config.
use thread_haul_daemon.Base.{
  ℕ, ◌≡◌, refl, sym, true, false, List, [], ◌∷◌, Option, none, some, nat_real, codes, eq_text,
}
use thread_haul_daemon.Config.Json.{
  pos, negsuc, Json, integer, text, array, object, nil, cons, end, member, find_member, Result, ok,
}
use thread_haul_daemon.Config.Fields.{
  Env, in_range, field, as_integer, as_object, as_string, as_number, object_field, integer_field,
  percent, name_list, names_of, as_name, has_separator, opt_object,
}
use thread_haul_daemon.Config.Sections.{
  threshold, parse_interval, parse_thresholds, parse_processes, parse_logging, parse_telemetry,
}
use thread_haul_daemon.Config.Optional.{
  parse_triggers, parse_adaptive, parse_alerts, parse_identity,
}
use thread_haul_daemon.Config.Runtime.{
  DaemonConfig, parse_coordination, parse_security, parse_auto, parse_dashboard, parse_root,
  parse_config,
}
use thread_haul_daemon.Config.Accepted.{IsExact}
use thread_haul_daemon.Config.Whole.{IsAcceptable, parse_config-IsAcceptable}
use thread_haul_daemon.Config.Secrets.{Crypt, protect_secret, unprotect_secret}
use thread_haul_daemon.Config.Secrets.Exact.{CryptLaws, unprotect_secret-protect_secret}

-- Whole numbers for `double`, and text that is the same in UTF-8 and UTF-16.
abbrev env : Env ℕ
env = record {
  number = λ i. elim i [ pos n ↦ n | negsuc n ↦ 0 ];
  tenth = 0;
  to_wide = λ s. some s;
  same_name = eq_text;
}

env-IsExact : IsExact env
env-IsExact = record { keeps_le = λ a b m n. refl; keeps_lt = λ a b m n. refl }

abbrev spec : ℕ → ℕ → Json ℕ
spec percent samples = object (
    member (codes "percent") (integer (pos percent))
      (member (codes "consecutive_samples") (integer (pos samples)) end))

abbrev names : List ℕ → Json ℕ
names n = array (cons (text n) nil)

abbrev root : Json ℕ
root = object (
    member (codes "polling") (object (member (codes "interval_ms") (integer (pos 1000)) end)) (
      member (codes "thresholds")
        (object (
          member (codes "high") (spec 85 3)
            (member (codes "critical") (spec 95 3) (member (codes "low") (spec 60 5) end))))
        (member (codes "processes")
          (object (
            member (codes "critical") (names (codes "db.exe"))
              (member (codes "batch") (names (codes "job.exe")) end)))
          (member (codes "logging")
            (object (
              member (codes "log_path") (text (codes "log.jsonl")) (
                member (codes "max_file_size_mb") (integer (pos 10))
                  (member (codes "max_rotated_files") (integer (pos 5)) end))))
            end))))

abbrev parsed : Result (DaemonConfig ℕ)
parsed = parse_config env (λ s. some s) (λ t. some root) []

abbrev config : DaemonConfig ℕ
config = record {
  interval_ms = 1000;
  thresholds = record {
    high = record { percent = 85; consecutive_samples = 3 };
    critical = record { percent = 95; consecutive_samples = 3 };
    low = record { percent = 60; consecutive_samples = 5 };
  };
  processes = record {
    critical_processes = codes "db.exe" ∷ [];
    batch_processes = codes "job.exe" ∷ [];
    protected_processes = [];
  };
  log_settings = record {
    log_path = codes "log.jsonl";
    max_file_size_mb = 10;
    max_rotated_files = 5;
  };
  telemetry = record { cpu_per_core = true; log_samples = true; self_monitor_interval_sec = 30 };
  triggers = record {
    memory_enabled = false;
    system_memory_limit = 95;
    working_set_limit = 0;
    io_enabled = false;
    io_limit = 200;
  };
  adaptive = record {
    adaptive_enabled = false;
    window_samples = 10;
    horizon_samples = 3;
    max_adjust_percent = 10;
  };
  alerts = record { popup = true; webhook_url = [] };
  identities = [];
  coordination = record {
    coordination_enabled = false;
    controller_host = codes "127.0.0.1";
    controller_port = 7878;
    shared_token = [];
    heartbeat_seconds = 5;
  };
  require_protected_config = false;
  auto = record {
    auto_enabled = true;
    throttle_percent = 90;
    throttle_samples = 5;
    use_idle = true;
    idle_percent = 97;
    idle_samples = 10;
    recover_percent = 75;
    recover_samples = 10;
    max_processes = 3;
    min_process_cpu = 50;
  };
  dashboard = record { dashboard_enabled = true; dashboard_port = 8787 };
}

parsed_config : parsed ≡ ok config
unfolding parse_config parse_root parse_interval parse_thresholds threshold parse_processes
    parse_logging parse_telemetry parse_triggers parse_adaptive parse_alerts parse_identity
    parse_coordination parse_security parse_auto parse_dashboard object_field field as_object
    integer_field as_integer in_range percent as_number name_list names_of as_name as_string
    has_separator find_member opt_object
parsed_config = refl

parse_config-IsAcceptable_example : IsAcceptable env (λ s. some s) config
parse_config-IsAcceptable_example =
    parse_config-IsAcceptable env (λ s. some s) env-IsExact (λ t. some root) [] config parsed_config

-- Encryption adds a byte in front, and Base64 text is written as it stands.
abbrev strip : List ℕ → Option (List ℕ)
strip [] = none
strip (b ∷ bs) = some bs

abbrev crypt : Crypt
crypt = record {
  protect_data = λ s. some (1 ∷ s);
  unprotect_data = strip;
  to_base64 = λ s. some s;
  from_base64 = λ s. some s;
}

strip_lem : (s t : List ℕ) → some (1 ∷ s) ≡ some t → strip t ≡ some s
strip_lem s [] h = cc
strip_lem s (b ∷ bs) h = cc

crypt_laws : CryptLaws crypt
crypt_laws = record {
  decrypts = λ s t h. strip_lem s t h;
  decodes = λ s t h. sym h;
  not_empty = λ s t h e. cc;
}

abbrev token : List ℕ
token = codes "0123456789abcdef"

unprotect_secret-protect_secret_example :
    unprotect_secret crypt (protect_secret crypt token) ≡ some token
unfolding protect_secret
unprotect_secret-protect_secret_example =
    unprotect_secret-protect_secret crypt crypt_laws token (λ e. cc)
