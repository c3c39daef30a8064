-- ===== src/Config/Optional.antt =====
-- The optional sections, from `triggers` on (`ParseConfig` in src/config/Config.cpp).
use thread_haul_daemon.Base.{
  ℕ, ◌+◌, ◌-◌, Bool, true, false, not, ◌&&◌, List, [], ◌∷◌, ◌++◌, map, Option, none, some, ltb, leb,
  ◌==◌, if◌then◌else◌, codes, eq_text, length, drop, starts_with, Real,
}
use thread_haul_daemon.Config.Json.{
  pos, Json, Members, end, member, bad_value, empty_text, bad_secret, Result, ok, err, ◌>>=◌, ◌>>◌,
  refuse,
}
use thread_haul_daemon.Config.Fields.{
  Env, wide_or, as_object, opt_integer, opt_bool, opt_string, opt_object, opt_number, has_separator,
  is_empty,
}
use thread_haul_daemon.Config.Sections.{Triggers, AdaptiveConfig, if_present}

pub record Alerts : Type 0 where
  pub popup : Bool
  pub webhook_url : List ℕ

pub record PinnedIdentity : Type 0 where
  pub name : List ℕ
  pub path : List ℕ
  pub publisher : List ℕ

-- `secret` decrypts a "dpapi:" value; `none` is its failure.
unfoldable pub secret_or : List ℕ → Option (List ℕ) → Result (List ℕ)
secret_or path none = err path bad_secret
secret_or path (some plain) = ok plain

module _ {D : Type 0} ⦃r : Real D⦄ (env : Env D) (root : Members D) where
  abbrev num : ℕ → D
  num n = env.number (pos n)

  -- An optional object inside one: `default` where it is missing.
  abbrev if_inside :
      {A : Type 0} → Members D → List ℕ → List ℕ → A → (Members D → Result A) → Result A
  if_inside obj key path default parse =
      opt_object obj key path >>= λ o. elim o [ none ↦ ok default | some ms ↦ parse ms ]

  unfoldable pub parse_triggers : Result (Triggers D)
  parse_triggers =
      let off : Triggers D = record {
        memory_enabled = false;
        system_memory_limit = num 95;
        working_set_limit = num 0;
        io_enabled = false;
        io_limit = num 200;
      } in
      if_present env root (codes "triggers") off λ tr. do
        t ← if_inside tr (codes "memory") (codes "triggers.memory") off λ m. do
          enabled ← opt_bool m (codes "enabled") (codes "triggers.memory.enabled") false
          load ←
              opt_number env m (codes "system_load_limit_percent")
                (codes "triggers.memory.system_load_limit_percent") (num 1) (num 100) (num 95)
          set ←
              opt_number env m (codes "critical_working_set_limit_mb")
                (codes "triggers.memory.critical_working_set_limit_mb") (num 0) (num 1048576)
                (num 0)
          ok (record off {
            memory_enabled = enabled;
            system_memory_limit = load;
            working_set_limit = set;
          })
        if_inside tr (codes "io") (codes "triggers.io") t λ io. do
          enabled ← opt_bool io (codes "enabled") (codes "triggers.io.enabled") false
          limit ←
              opt_number env io (codes "critical_io_limit_mb_per_sec")
                (codes "triggers.io.critical_io_limit_mb_per_sec") env.tenth (num 100000) (num 200)
          ok (record t { io_enabled = enabled; io_limit = limit })

  unfoldable pub parse_adaptive : Result (AdaptiveConfig D)
  parse_adaptive =
      if_present env root (codes "adaptive")
        (record {
          adaptive_enabled = false;
          window_samples = 10;
          horizon_samples = 3;
          max_adjust_percent = num 10;
        })
        λ a. do
          enabled ← opt_bool a (codes "enabled") (codes "adaptive.enabled") false
          window ← opt_integer a (codes "window_samples") (codes "adaptive.window_samples") 3 600 10
          horizon ←
              opt_integer a (codes "horizon_samples") (codes "adaptive.horizon_samples") 1 60 3
          most ←
              opt_number env a (codes "max_adjust_percent") (codes "adaptive.max_adjust_percent")
                (num 0) (num 50) (num 10)
          ok (record {
            adaptive_enabled = enabled;
            window_samples = window;
            horizon_samples = horizon;
            max_adjust_percent = most;
          })

  unfoldable pub parse_alerts : (List ℕ → Option (List ℕ)) → Result Alerts
  unfolding secret_or
  parse_alerts secret =
      if_present env root (codes "alerts") (record { popup = true; webhook_url = [] })
        λ al. do
          popup ← opt_bool al (codes "popup") (codes "alerts.popup") true
          stored ← opt_string al (codes "webhook_url") (codes "alerts.webhook_url") []
          url ← secret_or (codes "alerts.webhook_url") (secret stored)
          refuse
              (not (is_empty url)
                && not (starts_with url (codes "http://"))
                && not (starts_with url (codes "https://")))
              (codes "alerts.webhook_url") bad_value
          wide ← wide_or (env.to_wide url)
          ok (record { popup = popup; webhook_url = wide })

  -- `_stricmp` with ".exe" on the last four characters.
  abbrev lower : ℕ → ℕ
  lower c = if leb b'A' c && leb c b'Z' then c + 32 else c

  abbrev is_exe_name : List ℕ → Bool
  is_exe_name name =
      not (ltb (length name) 5)
      && not (has_separator name)
      && eq_text (map lower (drop (length name - 4) name)) (codes ".exe")

  abbrev second_third : List ℕ → Bool
  second_third (a ∷ b ∷ c ∷ rest) = b == b':' && c == 0x5c
  second_third _ = false

  unfoldable pub parse_pinned : List ℕ → Json D → Result PinnedIdentity
  parse_pinned name spec = do
    let where_ = codes "identity." ++ name
    refuse (not (is_exe_name name)) where_ bad_value
    ms ← as_object where_ spec
    wide_name ← wide_or (env.to_wide name)
    p ← opt_string ms (codes "path") (where_ ++ codes ".path") []
    path ← wide_or (env.to_wide p)
    q ← opt_string ms (codes "publisher") (where_ ++ codes ".publisher") []
    publisher ← wide_or (env.to_wide q)
    refuse (is_empty path && is_empty publisher) where_ empty_text
    refuse
        (not (is_empty path)
          && not (second_third path)
          && not (starts_with path (0x5c ∷ 0x5c ∷ [])))
        (where_ ++ codes ".path") bad_value
    ok (record { name = wide_name; path = path; publisher = publisher })

  unfoldable pub parse_pins : Members D → Result (List PinnedIdentity)
  parse_pins end = ok []
  parse_pins (member name spec rest) = do
    p ← parse_pinned name spec
    ps ← parse_pins rest
    ok (p ∷ ps)

  unfoldable pub parse_identity : Result (List PinnedIdentity)
  unfolding parse_pins
  parse_identity = if_present env root (codes "identity") [] parse_pins
