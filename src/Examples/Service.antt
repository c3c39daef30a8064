-- ===== src/Examples/Service.antt =====
-- Examples of src/service.
use thread_haul_daemon.Base.{
  ℕ, ◌+◌, some, nat_real, ◌≤◌, ◌≡◌, ◌≢◌, ◌↔◌, true, false, List, [], ◌∷◌, Any, arith, codes,
}
use thread_haul_daemon.Telemetry.AutoPolicy.{normal}
use thread_haul_daemon.Service.AutoProtect.{ProtectApi, Protector, Row, ordinary, system, tick}
use thread_haul_daemon.Service.AutoProtect.Limits.{IsWithin, tick-IsWithin}
use thread_haul_daemon.Service.Session.{valid, locked, Limits, Guard, has_no_key, is_expired, check}
use thread_haul_daemon.Service.Session.Keys.{check-valid_iff}
use thread_haul_daemon.Service.Session.Lockout.{Attempt, try_keys, guesses_locked}

abbrev limits : Limits
limits = record {
  idle = 1800;
  absolute = 43200;
  max_failures = 2;
  failure_window = 60;
  lockout = 60;
}

abbrev guard : Guard
guard = record { key = codes "key"; issued = 5; last_use = 5; locked_until = 0; failures = [] }

check-valid_iff_example :
    let o = check limits (codes "key") 90 guard in
    ((o.0 ≡ valid) ↔ (
      (0 ≤ 90)
      × (has_no_key guard ≡ false)
      × (codes "key" ≡ codes "key")
      × (is_expired limits 90 guard ≡ false)))
    × (o.0 ≡ valid → o.1 ≡ record guard { last_use = 90 })
check-valid_iff_example = check-valid_iff limits (codes "key") 90 guard

abbrev tries : List Attempt
tries = record { presented = codes "a"; at = 10 } ∷ record { presented = codes "b"; at = 40 } ∷ []

not_key_a : codes "a" ≢ codes "key"
not_key_a e = cc

not_key_b : codes "b" ≢ codes "key"
not_key_b e = cc

guesses_locked_example : Any (λ v. v ≡ locked) (try_keys limits tries guard).0
guesses_locked_example =
    guesses_locked limits 10 tries guard (omega arith) (omega arith)
      ((not_key_a, omega arith, omega arith), ((not_key_b, omega arith, omega arith), tt))

abbrev shut : Guard
shut = record guard { locked_until = 100 }

-- Every process can be opened, none has exited, all have the normal class, and changes succeed.
abbrev windows : ProtectApi ℕ
windows = record {
  is_signalled = λ h w. false;
  open_process = λ pid w. (some pid, w);
  get_priority_class = λ h w. 0x20;
  set_priority_class = λ h c w. (true, w + 1);
  close_handle = λ h w. w;
  tick_count = λ w. 0;
}

abbrev protector : Protector ℕ
protector = record {
  settings = record {
    enabled = true;
    throttle_percent = 90;
    throttle_samples = 1;
    use_idle = true;
    idle_percent = 97;
    idle_samples = 3;
    recover_percent = 75;
    recover_samples = 2;
    max_processes = 1;
    min_process_cpu = 50;
  };
  state = record { level = normal; high = 0; extreme = 0; low = 0 };
  entries = [];
  exempt_pids = [];
  system_cpu = 0;
}

abbrev rows : List (Row ℕ)
rows =
    record { pid = 8; name = []; cpu = 60; accessible = true; safety = ordinary }
    ∷ record { pid = 4; name = []; cpu = 99; accessible = true; safety = system }
    ∷ record { pid = 6; name = []; cpu = 90; accessible = true; safety = ordinary }
    ∷ []

tick-IsWithin_example :
    IsWithin 1 (tick windows protector 0 (λ name pid. false) 95 rows).protector.entries
tick-IsWithin_example =
    tick-IsWithin windows protector 0 (λ name pid. false) 95 rows (tt, omega arith)
