-- ===== src/Config/Accepted.antt =====
-- The sections that set a service up, and what is true of each that `ParseConfig` accepts
-- (src/config/Config.cpp).
use thread_haul_daemon.Base.{
  ℕ, ◌≤◌, ◌≡◌, Bool, true, false, ◌&&◌, List, [], Option, ltb, leb, length, arith, Real, less,
  and-true_parts,
}
use thread_haul_daemon.Config.Json.{
  pos, Members, Ensures, Ensures-ok, Ensures-bind, Ensures-any, Ensures-refuse,
}
use thread_haul_daemon.Config.Fields.{
  Env, Within, wide_or, object_field, integer_field, opt_integer, opt_bool, opt_string, opt_number,
  is_percent, percent, is_empty,
}
use thread_haul_daemon.Config.Sections.{
  ThresholdSpec, Thresholds, AutoConfig, Coordination, DashboardConfig, threshold, parse_interval,
  parse_thresholds,
}
use thread_haul_daemon.Config.Optional.{secret_or}
use thread_haul_daemon.Config.Runtime.{
  parse_coordination, no_coordination, parse_auto, default_auto, parse_dashboard,
}
use thread_haul_daemon.Config.Ranges.{
  integer_field-Within, opt_integer-Within, percent-InPercent, if_present-Ensures,
}

-- The conversion of an integer to a `double` keeps the order up to 2 ^ 53.
pub record IsExact {D : Type 0} ⦃r : Real D⦄ (env : Env D) : Type 0 where
  pub keeps_le :
      (a b : ℕ)
      → a ≤ 9007199254740992
      → b ≤ 9007199254740992
      → r.le (env.number (pos a)) (env.number (pos b)) ≡ leb a b
  pub keeps_lt :
      (a b : ℕ)
      → a ≤ 9007199254740992
      → b ≤ 9007199254740992
      → r.lt (env.number (pos a)) (env.number (pos b)) ≡ ltb a b

module _ {D : Type 0} ⦃r : Real D⦄ (env : Env D) where
  pub record IsSpec (s : ThresholdSpec D) : Type 0 where
    -- above 0 and up to 100
    pub positive : less (env.number (pos 0)) s.percent ≡ true
    pub at_most : r.le s.percent (env.number (pos 100)) ≡ true
    pub samples : Within 1 100 s.consecutive_samples

  percent_parts :
      (x : D)
      → is_percent env x ≡ true
      → (less (env.number (pos 0)) x ≡ true) × (r.le x (env.number (pos 100)) ≡ true)
  percent_parts x h = and-true_parts (less (env.number (pos 0)) x) (r.le x (env.number (pos 100))) h

  threshold-IsSpec :
      (root thresholds : Members D) (key : List ℕ)
      → Ensures IsSpec (threshold env root thresholds key)
  unfolding threshold
  threshold-IsSpec root thresholds key = Ensures-any IsSpec (object_field thresholds key _) _ λ t.
      Ensures-bind (λ x. is_percent env x ≡ true) IsSpec (percent env t _ _) _
        (percent-InPercent env t _ _)
        λ p hp.
          Ensures-bind (Within 1 100) IsSpec (integer_field t _ _ 1 100) _
            (integer_field-Within t _ _ 1 100)
            λ n hn. Ensures-ok IsSpec _ (record {
              positive = (percent_parts p hp).0;
              at_most = (percent_parts p hp).1;
              samples = hn;
            })

  -- The three thresholds: a critical one at least as high as the high one, a low one below it.
  pub record AreOrdered (t : Thresholds D) : Type 0 where
    pub high_spec : IsSpec t.high
    pub critical_spec : IsSpec t.critical
    pub low_spec : IsSpec t.low
    pub critical_high : less t.critical.percent t.high.percent ≡ false
    pub low_high : r.le t.high.percent t.low.percent ≡ false

  pub parse_thresholds-AreOrdered :
      (root : Members D) → Ensures AreOrdered (parse_thresholds env root)
  unfolding parse_thresholds
  parse_thresholds-AreOrdered root = Ensures-any AreOrdered (object_field root _ _) _ λ t.
      Ensures-bind IsSpec AreOrdered (threshold env root t _) _ (threshold-IsSpec root t _)
        λ high hh.
          Ensures-bind IsSpec AreOrdered (threshold env root t _) _ (threshold-IsSpec root t _)
            λ critical hc.
              Ensures-bind IsSpec AreOrdered (threshold env root t _) _ (threshold-IsSpec root t _)
                λ low hl. Ensures-refuse AreOrdered (less critical.percent high.percent) _ _ _ λ e.
                  Ensures-refuse AreOrdered (r.le high.percent low.percent) _ _ _ λ f.
                    Ensures-ok AreOrdered _ (record {
                      high_spec = hh;
                      critical_spec = hc;
                      low_spec = hl;
                      critical_high = e;
                      low_high = f;
                    })

  pub parse_interval-Within :
      (root : Members D) → Ensures (Within 100 60000) (parse_interval env root)
  unfolding parse_interval
  parse_interval-Within root =
      Ensures-any (Within 100 60000) (object_field root _ _) _
        λ polling. integer_field-Within polling _ _ 100 60000

pub record IsReachable (c : Coordination) : Type 0 where
  pub port_range : Within 1 65535 c.controller_port
  pub heartbeat_range : Within 1 3600 c.heartbeat_seconds
  pub has_host : c.coordination_enabled ≡ true → is_empty c.controller_host ≡ false
  pub long_token : c.coordination_enabled ≡ true → 16 ≤ length c.shared_token

guard_false : (a b : Bool) → (a && b) ≡ false → a ≡ true → b ≡ false
guard_false a b h e = ground arith

guard_length : (a : Bool) (n : ℕ) → (a && ltb n 16) ≡ false → a ≡ true → 16 ≤ n
guard_length a n h e = ground arith

module _ {D : Type 0} ⦃r : Real D⦄ (env : Env D) (secret : List ℕ → Option (List ℕ)) where
  no_coordination-IsReachable : IsReachable (no_coordination env secret)
  no_coordination-IsReachable = record {
    port_range = (omega arith, omega arith);
    heartbeat_range = (omega arith, omega arith);
    has_host = λ e. cc;
    long_token = λ e. cc;
  }

  pub parse_coordination-IsReachable :
      (root : Members D) → Ensures IsReachable (parse_coordination env secret root)
  unfolding parse_coordination
  parse_coordination-IsReachable root =
      if_present-Ensures env IsReachable root _ (no_coordination env secret) _
        no_coordination-IsReachable
        λ c. Ensures-any IsReachable (opt_bool c _ _ false) _ λ enabled.
          Ensures-any IsReachable (opt_string c _ _ _) _ λ stored.
            Ensures-any IsReachable (wide_or (env.to_wide stored)) _ λ host.
              Ensures-bind (Within 1 65535) IsReachable (opt_integer c _ _ 1 65535 7878) _
                (opt_integer-Within c _ _ 1 65535 7878 (omega arith, omega arith))
                λ port hp. Ensures-any IsReachable (opt_string c _ _ []) _ λ sealed.
                  Ensures-any IsReachable (secret_or _ (secret sealed)) _ λ token.
                    Ensures-bind (Within 1 3600) IsReachable (opt_integer c _ _ 1 3600 5) _
                      (opt_integer-Within c _ _ 1 3600 5 (omega arith, omega arith))
                      λ beat hb. Ensures-refuse IsReachable (enabled && is_empty host) _ _ _ λ e.
                        Ensures-refuse IsReachable (enabled && ltb (length token) 16) _ _ _ λ f.
                          Ensures-ok IsReachable _ (record {
                            port_range = hp;
                            heartbeat_range = hb;
                            has_host = guard_false enabled (is_empty host) e;
                            long_token = guard_length enabled (length token) f;
                          })

  -- Lowering starts above the load at which it ends, and goes on to idle no sooner than it starts.
  pub record HasBand (a : AutoConfig D) : Type 0 where
    pub recover_below : r.le a.throttle_percent a.recover_percent ≡ false
    pub idle_above : a.use_idle ≡ true → less a.idle_percent a.throttle_percent ≡ false
    pub throttle_range : Within 1 600 a.throttle_samples
    pub idle_range : Within 1 600 a.idle_samples
    pub recover_range : Within 1 600 a.recover_samples
    pub most_range : Within 1 50 a.max_processes

  module _ (exact : IsExact env) where
    default_auto-HasBand : HasBand (default_auto env secret)
    default_auto-HasBand = record {
      recover_below = exact.keeps_le 90 75 (omega arith) (omega arith);
      idle_above = λ e. exact.keeps_lt 97 90 (omega arith) (omega arith);
      throttle_range = (omega arith, omega arith);
      idle_range = (omega arith, omega arith);
      recover_range = (omega arith, omega arith);
      most_range = (omega arith, omega arith);
    }

    pub parse_auto-HasBand : (root : Members D) → Ensures HasBand (parse_auto env secret root)
    unfolding parse_auto
    parse_auto-HasBand root =
        if_present-Ensures env HasBand root _ (default_auto env secret) _ default_auto-HasBand λ a.
          Ensures-any HasBand (opt_bool a _ _ true) _ λ enabled.
            Ensures-any HasBand (opt_number env a _ _ _ _ _) _ λ throttle.
              Ensures-bind (Within 1 600) HasBand (opt_integer a _ _ 1 600 5) _
                (opt_integer-Within a _ _ 1 600 5 (omega arith, omega arith))
                λ throttle_n ht. Ensures-any HasBand (opt_bool a _ _ true) _ λ use_idle.
                  Ensures-any HasBand (opt_number env a _ _ _ _ _) _ λ idle.
                    Ensures-bind (Within 1 600) HasBand (opt_integer a _ _ 1 600 10) _
                      (opt_integer-Within a _ _ 1 600 10 (omega arith, omega arith))
                      λ idle_n hi. Ensures-any HasBand (opt_number env a _ _ _ _ _) _ λ recover.
                        Ensures-bind (Within 1 600) HasBand (opt_integer a _ _ 1 600 10) _
                          (opt_integer-Within a _ _ 1 600 10 (omega arith, omega arith))
                          λ n hr.
                            Ensures-bind (Within 1 50) HasBand (opt_integer a _ _ 1 50 3) _
                              (opt_integer-Within a _ _ 1 50 3 (omega arith, omega arith))
                              λ k hm. Ensures-any HasBand (opt_number env a _ _ _ _ _) _ λ least.
                                Ensures-refuse HasBand (r.le throttle recover) _ _ _ λ e.
                                  Ensures-refuse HasBand (use_idle && less idle throttle) _ _ _ λ f.
                                    Ensures-ok HasBand _ (record {
                                      recover_below = e;
                                      idle_above = guard_false use_idle (less idle throttle) f;
                                      throttle_range = ht;
                                      idle_range = hi;
                                      recover_range = hr;
                                      most_range = hm;
                                    })

  pub parse_dashboard-Within :
      (root : Members D)
      → Ensures (λ d. Within 1024 65535 d.dashboard_port) (parse_dashboard env secret root)
  unfolding parse_dashboard
  parse_dashboard-Within root =
      let P : DashboardConfig → Type 0 = λ d. Within 1024 65535 d.dashboard_port in
      if_present-Ensures env P root _ _ _ (omega arith, omega arith)
        λ d. Ensures-any P (opt_bool d _ _ true) _ λ enabled.
          Ensures-bind (Within 1024 65535) P (opt_integer d _ _ 1024 65535 8787) _
            (opt_integer-Within d _ _ 1024 65535 8787 (omega arith, omega arith))
            λ port h. Ensures-ok P _ h
