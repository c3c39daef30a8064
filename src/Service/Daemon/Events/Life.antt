-- ===== src/Service/Daemon/Events/Life.antt =====
-- What holds all through the life of the service (src/service/Daemon.cpp).
use thread_haul_daemon.Base.{
  ℕ, ◌≡◌, refl, Bool, true, false, List, [], ◌∷◌, ◌≢◌, inl, inr, All, either_way, Option, none,
  some, Real, map, subst, some_inj, All-mono,
}
use thread_haul_daemon.Actuator.Os.{Os}
use thread_haul_daemon.Actuator.Machine.{normal}
use thread_haul_daemon.Actuator.Manager.{start, force_recover_all_for_shutdown}
use thread_haul_daemon.Actuator.Manager.Sweeps.{AllMachines}
use thread_haul_daemon.Actuator.Manager.Actions.{recover_all-normal}
use thread_haul_daemon.Telemetry.Adaptive.{Arithmetic}
use thread_haul_daemon.Config.Runtime.{DaemonConfig}
use thread_haul_daemon.Service.AutoProtect.{ProtectApi}
use thread_haul_daemon.Service.AutoProtect.Limits.{restore_all-list}
use thread_haul_daemon.Service.Daemon.{Host, Daemon, ProcessEntry, Ran}
use thread_haul_daemon.Service.Daemon.Sound.{IsSound}
use thread_haul_daemon.Service.Daemon.Commands.{
  Reply, refused, status, stopping, done, exempted, thrown, verb_in, target_in, handle_command,
}
use thread_haul_daemon.Service.Daemon.Commands.Refusals.{IsBad, handle_command-thrown}
use thread_haul_daemon.Service.Daemon.Commands.Kept.{handle_command-IsSound}
use thread_haul_daemon.Service.Daemon.Commands.Calm.{IsCalm, IsGentle, handle_command-IsCalm}
use thread_haul_daemon.Service.Daemon.Reload.{Around, load_and_verify}
use thread_haul_daemon.Service.Daemon.Reload.Kept.{apply_config-IsSound, check_reload-IsSound}
use thread_haul_daemon.Service.Daemon.Poll.Kept.{poll-IsSound}
use thread_haul_daemon.Service.Daemon.Events.{
  Event, pipe, dashboard, controller, survives, command, checked, polled, ConfigFile, fresh,
  initialize_with, initialize, handle_event, handle_events, shut_down, live, Late, from_controller,
}

module _ {D W : Type 0} ⦃real : Real D⦄ (ar : Arithmetic D) (os : Os W) (api : ProtectApi W)
    (host : Host) where
  handle_event-IsSound :
      (e : Event D) (d : Daemon D) (w : W)
      → IsSound os d
      → IsSound os (handle_event ar os api host e d w).0.daemon
  unfolding handle_event
  handle_event-IsSound (command source remote snapshot line) d w s =
      handle_command-IsSound os api host remote snapshot line d w s
  handle_event-IsSound (checked file around) d w s =
      check_reload-IsSound ar os api host around file.attributes file.loaded file.writable d w s
  handle_event-IsSound (polled i) d w s = poll-IsSound ar os api host i d w s

  handle_events-IsSound :
      (es : List (Event D)) (d : Daemon D) (w : W)
      → IsSound os d
      → IsSound os (handle_events ar os api host es d w).0.daemon
  unfolding handle_events
  handle_events-IsSound [] d w s = s
  handle_events-IsSound (e ∷ es) d w s =
      let o = handle_event ar os api host e d w in
      let one = handle_event-IsSound e d w s in
      either_way (λ (k : Ran D W × Bool). IsSound os k.0.daemon) o.1
        (handle_events-IsSound es o.0.daemon o.0.world one) one

  initialize_with-IsSound :
      (o : Option (DaemonConfig D)) (file : ConfigFile D) (around : Around D) (w : W)
      (ran : Ran D W)
      → initialize_with ar os api host o file around w ≡ some ran
      → IsSound os ran.daemon
  unfolding initialize_with fresh start
  initialize_with-IsSound none file around w ran e = cc
  initialize_with-IsSound (some c) file around w ran e =
      subst (λ (o : Ran D W). IsSound os o.daemon) (some_inj e)
        (apply_config-IsSound ar os api host around c (fresh ar file.attributes c) w
          (record { entries = tt; unique = tt }))

  -- From a start of the service on, whatever commands, polls and configuration files come in
  -- whatever order: each managed process stands once, under its own process id, its machine runs on
  -- the thresholds in force, and neither Windows' own list nor the configuration in force protects it.
  pub handle_events-initialize-IsSound :
      (file : ConfigFile D) (around : Around D) (w : W) (ran : Ran D W)
      → initialize ar os api host file around w ≡ some ran
      → (es : List (Event D))
      → IsSound os (handle_events ar os api host es ran.daemon ran.world).0.daemon
  unfolding initialize
  handle_events-initialize-IsSound file around w ran e es =
      handle_events-IsSound es ran.daemon ran.world (
        initialize_with-IsSound (load_and_verify ar os api host file.loaded file.writable).0 file
          around w ran e)

  -- A command that ends no process: no pipe's and no controller's command has a verb or a target
  -- that is no UTF-8, or a number above 4294967295 as its target.
  abbrev IsHarmless : Event D → Type 0
  IsHarmless (command dashboard remote snapshot line) = Unit
  IsHarmless (command _ remote snapshot line) =
      (host.is_utf8 (verb_in line) ≡ true) × ¬ IsBad host (target_in line)
  IsHarmless _ = Unit

  spared : (r : Reply) → r ≢ thrown → (survives pipe r ≡ true) × (survives controller r ≡ true)
  spared thrown h = absurd (h refl)
  spared (refused why) h = (refl, refl)
  spared status h = (refl, refl)
  spared stopping h = (refl, refl)
  spared (done rs) h = (refl, refl)
  spared (exempted pids) h = (refl, refl)

  harmless_reply :
      (remote : Bool) (snapshot : List ProcessEntry) (line : List ℕ) (d : Daemon D) (w : W)
      → host.is_utf8 (verb_in line) ≡ true
      → ¬ IsBad host (target_in line)
      → (handle_command os api host remote snapshot line d w).reply ≢ thrown
  harmless_reply remote snapshot line d w u b t =
      elim ((handle_command-thrown os api host remote snapshot line d w).0 t).2 [
        | inl no_ ↦ cc (no_, u)
        | inr bad ↦ b bad
      ]

  handle_event-lives :
      (e : Event D) (d : Daemon D) (w : W)
      → IsHarmless e
      → (handle_event ar os api host e d w).1 ≡ true
  unfolding handle_event
  handle_event-lives (command dashboard remote snapshot line) d w h = refl
  handle_event-lives (command pipe remote snapshot line) d w h =
      (spared (handle_command os api host remote snapshot line d w).reply
        (harmless_reply remote snapshot line d w h.0 h.1)).0
  handle_event-lives (command controller remote snapshot line) d w h =
      (spared (handle_command os api host remote snapshot line d w).reply
        (harmless_reply remote snapshot line d w h.0 h.1)).1
  handle_event-lives (checked file around) d w h = refl
  handle_event-lives (polled i) d w h = refl

  handle_events-lives :
      (es : List (Event D)) (d : Daemon D) (w : W)
      → All IsHarmless es
      → (handle_events ar os api host es d w).1 ≡ true
  unfolding handle_events
  handle_events-lives [] d w h = refl
  handle_events-lives (e ∷ es) d w h =
      let o = handle_event ar os api host e d w in
      rw (handle_event-lives e d w h.0) (handle_events-lives es o.0.daemon o.0.world h.1)

  -- A late command that ends no process and is no `throttle` and no `suspend`.
  abbrev IsGentleLate : Late → Type 0
  IsGentleLate (remote, snapshot, line) =
      (host.is_utf8 (verb_in line) ≡ true) × ¬ IsBad host (target_in line) × IsGentle line

  late-IsCalm :
      (late : List Late) (d : Daemon D) (w : W)
      → IsCalm d
      → All IsGentleLate late
      → let o = handle_events ar os api host (map from_controller late) d w in
        (o.1 ≡ true) × IsCalm o.0.daemon
  unfolding handle_events handle_event
  late-IsCalm [] d w c l = (refl, c)
  late-IsCalm ((remote, snapshot, line) ∷ late) d w c l =
      let e : Event D = command controller remote snapshot line in
      let o = (handle_command os api host remote snapshot line d w).ran in
      let kept = handle_command-IsCalm os api host remote snapshot line d w c l.0.2 in
      rw (handle_event-lives e d w (l.0.0, l.0.1)) (late-IsCalm late o.daemon o.world kept l.1)

  shut_down-normal :
      (d : Daemon D) (w : W)
      → let stopped = (shut_down ar os api host d w).daemon in
        (map (λ e. e.0) stopped.manager.machines ≡ map (λ e. e.0) d.manager.machines)
        × AllMachines (λ _ m. (m.state ≡ normal) × (m.manual_hold ≡ false)) stopped.manager.machines
        × (stopped.protector.entries ≡ [])
  unfolding shut_down
  shut_down-normal d w =
      let recovered = force_recover_all_for_shutdown os d.manager w (ar.nat 0) in
      let done = recover_all-normal os d.manager w (ar.nat 0) in
      (done.0, done.1, restore_all-list api d.protector.entries recovered.world)

  -- Let no command of the pipe or the controller have a verb or a target that is no UTF-8, or a
  -- number above 4294967295 as its target, and let none of the controller's commands that are handled
  -- after the stop be a `throttle` or a `suspend`; otherwise any commands, polls and configuration
  -- files come in any order. At the stop every machine is then made normal and unheld, the managed
  -- processes stay the same, and auto-protect holds nothing lowered any more. The process runs to the
  -- end of `Run`, and there still every machine is normal and nothing is lowered by auto-protect.
  pub live-normal :
      (es : List (Event D)) (late : List Late) (d : Daemon D) (w : W)
      → All IsHarmless es
      → All IsGentleLate late
      → let before = (handle_events ar os api host es d w).0 in
        let stopped = (shut_down ar os api host before.daemon before.world).daemon in
        let after = live ar os api host es late d w in
        (map (λ e. e.0) stopped.manager.machines ≡ map (λ e. e.0) before.daemon.manager.machines)
        × AllMachines (λ _ m. (m.state ≡ normal) × (m.manual_hold ≡ false)) stopped.manager.machines
        × (stopped.protector.entries ≡ [])
        × (after.1 ≡ true)
        × AllMachines (λ _ m. m.state ≡ normal) after.0.daemon.manager.machines
        × (after.0.daemon.protector.entries ≡ [])
  unfolding live
  live-normal es late d w h gentle =
      let before = (handle_events ar os api host es d w).0 in
      let stopped = shut_down ar os api host before.daemon before.world in
      let (same, still, nothing) = shut_down-normal before.daemon before.world in
      let rest : AllMachines (λ _ m. m.state ≡ normal) stopped.daemon.manager.machines =
        All-mono (λ e. (e.1.state ≡ normal) × (e.1.manual_hold ≡ false)) (λ e. e.1.state ≡ normal)
          (λ e n. n.0) stopped.daemon.manager.machines still in
      let last = late-IsCalm late stopped.daemon stopped.world (rest, nothing) gentle in
      rw (handle_events-lives es d w h) (same, still, nothing, last.0, last.1.0, last.1.1)
