-- ===== src/Service/Daemon/Reload/Rejected.antt =====
-- The service keeps its last good configuration (src/service/Daemon.cpp).
use thread_haul_daemon.Base.{
  ℕ, ◌≡◌, refl, Bool, ◌&&◌, List, [], Option, none, some, ◌==◌, ==_iff, and-true_parts, ap₂, sym,
  by_test, Real, arith,
}
use thread_haul_daemon.Actuator.Os.{Os}
use thread_haul_daemon.Telemetry.Adaptive.{Arithmetic}
use thread_haul_daemon.Config.Json.{Result}
use thread_haul_daemon.Config.Runtime.{DaemonConfig}
use thread_haul_daemon.Service.AutoProtect.{ProtectApi}
use thread_haul_daemon.Service.Daemon.{Host, Daemon, Note, Ran}
use thread_haul_daemon.Service.Daemon.Reload.{
  Around, apply_config, load_and_verify, reload_with, check_config_reload,
}

module _ {D W : Type 0} ⦃real : Real D⦄ (ar : Arithmetic D) (os : Os W) (api : ProtectApi W)
    (host : Host) where
  -- The state has seen the file with this time and size.
  abbrev HasSeen : ℕ × ℕ → Daemon D → Type 0
  HasSeen a d = (d.config_write_time ≡ a.0) × (d.config_size ≡ a.1)

  reload_with-HasSeen :
      (l : Option (DaemonConfig D) × List (Note D)) (around : Around D) (a : ℕ × ℕ) (d : Daemon D)
      (w : W)
      → HasSeen a d
      → HasSeen a (reload_with ar os api host l around d w).daemon
  unfolding reload_with apply_config
  reload_with-HasSeen (none, notes) around a d w h = h
  reload_with-HasSeen (some c, notes) around a d w h = h

  check-HasSeen :
      (a : ℕ × ℕ) (loaded : Result (DaemonConfig D)) (writable : Bool) (around : Around D)
      (d : Daemon D) (w : W)
      → HasSeen a (check_config_reload ar os api host (some a) loaded writable around d w).daemon
  unfolding check_config_reload
  check-HasSeen (time, size) loaded writable around d w =
      by_test (λ (o : Ran D W). HasSeen (time, size) o.daemon)
        (time == d.config_write_time && size == d.config_size) (λ e. ground arith)
        (λ _.
          reload_with-HasSeen (load_and_verify ar os api host loaded writable) around (time, size)
            (record d { config_write_time = time; config_size = size }) w (refl, refl))

  seen-quiet :
      (a : ℕ × ℕ) (loaded : Result (DaemonConfig D)) (writable : Bool) (around : Around D)
      (d : Daemon D) (w : W)
      → HasSeen a d
      → check_config_reload ar os api host (some a) loaded writable around d w
        ≡ record { daemon = d; world = w; notes = [] }
  unfolding check_config_reload
  seen-quiet (time, size) loaded writable around d w h =
      by_test (λ (o : Ran D W). o ≡ record { daemon = d; world = w; notes = [] })
        (time == d.config_write_time && size == d.config_size) (λ _. refl)
        (λ e. absurd (ground arith))

  reload_with-none :
      (l : Option (DaemonConfig D) × List (Note D)) (around : Around D) (d : Daemon D) (w : W)
      → l.0 ≡ none
      → ((reload_with ar os api host l around d w).daemon ≡ d)
        × ((reload_with ar os api host l around d w).world ≡ w)
  unfolding reload_with
  reload_with-none (none, notes) around d w e = (refl, refl)
  reload_with-none (some c, notes) around d w e = cc

  -- A file that cannot be loaded, or that others can change where the file itself forbids that,
  -- leaves everything as it was but for the time and size that are noted. Whether it was adopted or
  -- not, the same file is not looked at again: the next check does nothing.
  pub check_config_reload_lem :
      (a : ℕ × ℕ) (loaded : Result (DaemonConfig D)) (writable : Bool) (around : Around D)
      (d : Daemon D) (w : W)
      → let o = check_config_reload ar os api host (some a) loaded writable around d w in
        ((load_and_verify ar os api host loaded writable).0 ≡ none
          → (o.daemon ≡ record d { config_write_time = a.0; config_size = a.1 }) × (o.world ≡ w))
        × ((loaded' : Result (DaemonConfig D)) (writable' : Bool) (around' : Around D)
            → check_config_reload ar os api host (some a) loaded' writable' around' o.daemon o.world
              ≡ record { daemon = o.daemon; world = o.world; notes = [] })
  unfolding check_config_reload
  check_config_reload_lem (time, size) loaded writable around d w =
      let o = check_config_reload ar os api host (some (time, size)) loaded writable around d w in
      let d' : Daemon D = record d { config_write_time = time; config_size = size } in
      (
        λ bad.
            by_test (λ (k : Ran D W). (k.daemon ≡ d') × (k.world ≡ w))
              (time == d.config_write_time && size == d.config_size)
              (λ e.
                let (t, s) =
                  and-true_parts (time == d.config_write_time) (size == d.config_size) e in
                (
                  ap₂ (λ a b. record d { config_write_time = a; config_size = b })
                      (sym ((==_iff time d.config_write_time).0 t))
                      (sym ((==_iff size d.config_size).0 s)),
                  refl,
                ))
              (λ _.
                reload_with-none (load_and_verify ar os api host loaded writable) around d' w bad),
        λ loaded' writable' around'.
            seen-quiet (time, size) loaded' writable' around' o.daemon o.world
              (check-HasSeen (time, size) loaded writable around d w),
      )
