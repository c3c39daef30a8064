-- ===== src/Config/Whole.antt =====
-- What is true of every configuration that `ParseConfig` accepts (src/config/Config.cpp).
use thread_haul_daemon.Base.{
  ℕ, ◌≡◌, All, All-mono, any_of, none_of, false, List, [], Option, none, some, Real, arith,
}
use thread_haul_daemon.Config.Json.{
  Json, invalid_json, Members, ok, err, ◌>>=◌, Ensures, Ensures-ok, Ensures-err, Ensures-bind,
  Ensures-any, Ensures-refuse,
}
use thread_haul_daemon.Config.Fields.{
  Env, Within, wide_or, field, as_string, as_object, object_field, integer_field, opt_integer,
  opt_bool, opt_number, name_list, is_empty,
}
use thread_haul_daemon.Config.Sections.{
  Processes, LogSettings, AdaptiveConfig, parse_interval, parse_thresholds, shares_name,
  parse_processes, parse_logging, parse_telemetry,
}
use thread_haul_daemon.Config.Optional.{
  parse_triggers, parse_adaptive, parse_alerts, parse_identity,
}
use thread_haul_daemon.Config.Runtime.{
  DaemonConfig, parse_coordination, parse_security, parse_auto, parse_dashboard, parse_root,
  parse_config,
}
use thread_haul_daemon.Config.Ranges.{integer_field-Within, opt_integer-Within, if_present-Ensures}
use thread_haul_daemon.Config.Accepted.{
  IsExact, AreOrdered, parse_interval-Within, parse_thresholds-AreOrdered, IsReachable,
  parse_coordination-IsReachable, HasBand, parse_auto-HasBand, parse_dashboard-Within,
}

module _ {D : Type 0} ⦃r : Real D⦄ (env : Env D) where
  names_apart :
      (critical batch : List (List ℕ))
      → shares_name env critical batch ≡ false
      → All (λ a. All (λ b. env.same_name a b ≡ false) batch) critical
  names_apart critical batch h =
      All-mono _ (λ a. All (λ b. env.same_name a b ≡ false) batch)
        (λ a. none_of (env.same_name a) batch) critical
        (none_of (λ a. any_of (env.same_name a) batch) critical h)

  pub parse_processes-Disjoint :
      (root : Members D)
      → Ensures
          (λ p. shares_name env p.critical_processes p.batch_processes ≡ false)
          (parse_processes env root)
  unfolding parse_processes
  parse_processes-Disjoint root =
      let P : Processes → Type 0 =
        λ p. shares_name env p.critical_processes p.batch_processes ≡ false in
      Ensures-any P (object_field root _ _) _ λ processes.
        Ensures-any P (field processes _ _) _ λ c. Ensures-any P (name_list env _ c) _ λ critical.
          Ensures-any P (field processes _ _) _ λ b. Ensures-any P (name_list env _ b) _ λ batch.
            Ensures-any P _ _
              λ kept. Ensures-refuse P (shares_name env critical batch) _ _ _ λ e. Ensures-ok P _ e

  parse_logging-sizes :
      (root : Members D)
      → Ensures
          (λ l. Within 1 1024 l.max_file_size_mb × Within 0 100 l.max_rotated_files)
          (parse_logging env root)
  unfolding parse_logging
  parse_logging-sizes root =
      let P : LogSettings → Type 0 =
        λ l. Within 1 1024 l.max_file_size_mb × Within 0 100 l.max_rotated_files in
      Ensures-any P (object_field root _ _) _ λ logging. Ensures-any P (field logging _ _) _ λ v.
        Ensures-any P (as_string _ v) _ λ path. Ensures-refuse P (is_empty path) _ _ _ λ e.
          Ensures-any P (wide_or (env.to_wide path)) _ λ wide.
            Ensures-bind (Within 1 1024) P (integer_field logging _ _ 1 1024) _
              (integer_field-Within logging _ _ 1 1024)
              λ size hs.
                Ensures-bind (Within 0 100) P (integer_field logging _ _ 0 100) _
                  (integer_field-Within logging _ _ 0 100) λ files hf. Ensures-ok P _ (hs, hf)

  parse_adaptive-windows :
      (root : Members D)
      → Ensures
          (λ a. Within 3 600 a.window_samples × Within 1 60 a.horizon_samples)
          (parse_adaptive env root)
  unfolding parse_adaptive
  parse_adaptive-windows root =
      let P : AdaptiveConfig D → Type 0 =
        λ a. Within 3 600 a.window_samples × Within 1 60 a.horizon_samples in
      if_present-Ensures env P root _ _ _ ((omega arith, omega arith), (omega arith, omega arith))
        λ a. Ensures-any P (opt_bool a _ _ false) _ λ enabled.
          Ensures-bind (Within 3 600) P (opt_integer a _ _ 3 600 10) _
            (opt_integer-Within a _ _ 3 600 10 (omega arith, omega arith))
            λ window hw.
              Ensures-bind (Within 1 60) P (opt_integer a _ _ 1 60 3) _
                (opt_integer-Within a _ _ 1 60 3 (omega arith, omega arith))
                λ horizon hh.
                  Ensures-any P (opt_number env a _ _ _ _ _) _ λ most. Ensures-ok P _ (hw, hh)

  pub record IsAcceptable (secret : List ℕ → Option (List ℕ)) (c : DaemonConfig D) : Type 0 where
    pub interval : Within 100 60000 c.interval_ms
    pub ordered : AreOrdered env c.thresholds
    -- no name on the critical list is the name of one on the batch list
    pub apart :
        All
          (λ a. All (λ b. env.same_name a b ≡ false) c.processes.batch_processes)
          c.processes.critical_processes
    pub log_size : Within 1 1024 c.log_settings.max_file_size_mb
    pub log_files : Within 0 100 c.log_settings.max_rotated_files
    pub window : Within 3 600 c.adaptive.window_samples
    pub horizon : Within 1 60 c.adaptive.horizon_samples
    pub reachable : IsReachable c.coordination
    pub band : HasBand env secret c.auto
    pub port : Within 1024 65535 c.dashboard.dashboard_port

  module _ (secret : List ℕ → Option (List ℕ)) (exact : IsExact env) where
    parse_root-IsAcceptable :
        (root : Members D) → Ensures (IsAcceptable secret) (parse_root env secret root)
    unfolding parse_root
    parse_root-IsAcceptable root =
        let Q : DaemonConfig D → Type 0 = IsAcceptable secret in
        Ensures-bind _ Q (parse_interval env root) _ (parse_interval-Within env root) λ interval hi.
          Ensures-bind _ Q (parse_thresholds env root) _ (parse_thresholds-AreOrdered env root)
            λ t ht.
              Ensures-bind _ Q (parse_processes env root) _ (parse_processes-Disjoint root) λ p hp.
                Ensures-bind _ Q (parse_logging env root) _ (parse_logging-sizes root) λ l hl.
                  Ensures-any Q (parse_telemetry env root) _ λ tel.
                    Ensures-any Q (parse_triggers env root) _ λ tr.
                      Ensures-bind _ Q (parse_adaptive env root) _ (parse_adaptive-windows root)
                        λ ad ha. Ensures-any Q (parse_alerts env root secret) _ λ al.
                          Ensures-any Q (parse_identity env root) _ λ ids.
                            Ensures-bind _ Q (parse_coordination env secret root) _
                              (parse_coordination-IsReachable env secret root)
                              λ c hc. Ensures-any Q (parse_security env secret root) _ λ sec.
                                Ensures-bind _ Q (parse_auto env secret root) _
                                  (parse_auto-HasBand env secret exact root)
                                  λ au hau.
                                    Ensures-bind _ Q (parse_dashboard env secret root) _
                                      (parse_dashboard-Within env secret root)
                                      λ d hd. Ensures-ok Q _ (record {
                                        interval = hi;
                                        ordered = ht;
                                        apart =
                                            names_apart p.critical_processes p.batch_processes hp;
                                        log_size = hl.0;
                                        log_files = hl.1;
                                        window = ha.0;
                                        horizon = ha.1;
                                        reachable = hc;
                                        band = hau;
                                        port = hd;
                                      })

    as_object-IsAcceptable :
        (v : Json D) → Ensures (IsAcceptable secret) (as_object [] v >>= parse_root env secret)
    as_object-IsAcceptable v =
        Ensures-any (IsAcceptable secret) (as_object [] v) (parse_root env secret)
          parse_root-IsAcceptable

    parsed-IsAcceptable :
        (o : Option (Json D))
        → Ensures (IsAcceptable secret) (elim o [
          | none ↦ err [] invalid_json
          | some v ↦ as_object [] v >>= parse_root env secret
        ])
    parsed-IsAcceptable none = Ensures-err (IsAcceptable secret) [] invalid_json
    parsed-IsAcceptable (some v) = as_object-IsAcceptable v

    -- A configuration that is accepted, whatever its text is, has its polling interval, counts and
    -- sizes in their ranges, thresholds above 0 and up to 100 percent and in order, no name both critical and batch,
    -- a host and a token of at least 16 characters where coordination is enabled, and bands of
    -- auto-protect that are in order, if the conversion of integers up to 2 ^ 53 to `double` keeps their order.
    pub parse_config-IsAcceptable :
        (parse : List ℕ → Option (Json D)) (json_text : List ℕ) (c : DaemonConfig D)
        → parse_config env secret parse json_text ≡ ok c
        → IsAcceptable secret c
    unfolding parse_config
    parse_config-IsAcceptable parse json_text c h =
        (parsed-IsAcceptable (parse json_text)).apply c h
