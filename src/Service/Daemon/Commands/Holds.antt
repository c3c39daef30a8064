-- ===== src/Service/Daemon/Commands/Holds.antt =====
-- What `throttle` and `suspend` achieve (src/service/Daemon.cpp).
use thread_haul_daemon.Base.{
  ℕ, ◌≡◌, refl, ◌⊎◌, inl, inr, true, false, not, List, Option, none, some, is_some, arith, subst,
  some_inj, Bool-cases, Option-cases, by_test,
}
use thread_haul_daemon.Actuator.Os.{Os}
use thread_haul_daemon.Actuator.Machine.{
  ProcessState, throttled, suspended, Machine, new, force_state,
}
use thread_haul_daemon.Actuator.Machine.Override.{force_state_lem}
use thread_haul_daemon.Actuator.Manager.{
  Manager, find_machine, is_protected, add_batch_process, force_process_state,
}
use thread_haul_daemon.Actuator.Manager.Lookup.{force_same, add_found}
use thread_haul_daemon.Service.Daemon.{Host, Daemon, ProcessEntry, contains}
use thread_haul_daemon.Service.Daemon.Commands.{
  Verb, throttle, suspend, resume, release, held, refused_protected, Answer, hold_process,
  command_free, command_one,
}

-- The state that the command asks for.
abbrev pub wanted_state : Verb → Option ProcessState
wanted_state throttle = some throttled
wanted_state suspend = some suspended
wanted_state resume = none
wanted_state release = none

-- The process is managed, in the state, until it is released.
abbrev pub IsHeldIn : {D : Type 0} → ProcessState → ℕ → Manager D → Type 0
IsHeldIn s pid g =
    (m : Machine _) × (find_machine pid g.machines ≡ some m)
    × (m.state ≡ s)
    × (m.manual_hold ≡ true)

-- The process is held, or it was refused as a protected one and nothing happened.
abbrev pub HeldOrRefused :
    {D W : Type 0} → Os W → ProcessState → ProcessEntry → Daemon D → W → Answer D W → Type 0
HeldOrRefused os s e d w a =
    ((a.result ≡ held) × IsHeldIn s e.pid a.ran.daemon.manager)
    ⊎ ((a.result ≡ refused_protected)
        × (is_protected os d.manager.protected_names e.name e.pid ≡ true)
        × (a.ran.daemon ≡ d)
        × (a.ran.world ≡ w))

module _ {D W : Type 0} (os : Os W) where
  force-IsHeldIn :
      (g : Manager D) (w : W) (pid : ℕ) (m : Machine D) (s : ProcessState) (cpu : D)
      → find_machine pid g.machines ≡ some m
      → IsHeldIn s pid (force_process_state os g w pid s cpu true).0.manager
  force-IsHeldIn g w pid m s cpu f =
      let done = force_state_lem os s cpu true m w in
      (
        (force_state os s cpu true m w).machine,
        force_same os g w pid m s cpu true f,
        done.0,
        done.1,
      )

  add-free :
      (g : Manager D) (w : W) (name : List ℕ) (pid : ℕ)
      → find_machine pid g.machines ≡ none
      → ((add_batch_process os g w name pid).1 ≡ not (is_protected os g.protected_names name pid))
  unfolding add_batch_process
  add-free g w name pid absent = elim (Bool-cases (is_protected os g.protected_names name pid)) [
    | inl p ↦ rw p refl
    | inr u ↦ rw (u, absent) refl
  ]

  module _ (host : Host) (d : Daemon D) (w : W) where
    hold_lem :
        (s : ProcessState) (e : ProcessEntry)
        → HeldOrRefused os s e d w (hold_process os host s e d w)
    unfolding hold_process
    hold_lem s e =
        let P : Answer D W → Type 0 = HeldOrRefused os s e d w in
        let added = (add_batch_process os d.manager w e.name e.pid).0 in
        elim (Option-cases (find_machine e.pid d.manager.machines)) [
          | inr (m, f) ↦ rw f (inl (refl, force-IsHeldIn d.manager w e.pid m s d.pressure f))
          | inl absent ↦
              let free = add-free d.manager w e.name e.pid absent in
              by_test P (is_some (find_machine e.pid d.manager.machines)) (λ t. cc (rw absent at t))
                (λ _.
                  by_test P (not (add_batch_process os d.manager w e.name e.pid).1)
                    (λ t. inr (refl, ground (arith, free, t), refl, refl))
                    (λ t. inl (
                      refl,
                      force-IsHeldIn added.manager added.world e.pid
                          (new os e.name e.pid d.manager.config d.manager.observed w).0 s d.pressure
                          (add_found os d.manager w e.name e.pid absent (ground (arith, free, t))),
                    )))
        ]

    -- `throttle` and `suspend` on a process that is not configured as critical always end in one of
    -- two ways: the process is managed, in the state asked for and held there; or it is protected,
    -- the command is refused for that, and nothing has happened.
    pub command_one-HeldOrRefused :
        (v : Verb) (s : ProcessState) (e : ProcessEntry)
        → wanted_state v ≡ some s
        → contains host.same_name d.config.processes.critical_processes e.name ≡ false
        → HeldOrRefused os s e d w (command_one os host v e d w)
    unfolding command_one command_free
    command_one-HeldOrRefused throttle s e k free = rw free (
        subst (λ t. HeldOrRefused os t e d w (hold_process os host throttled e d w)) (some_inj k)
          (hold_lem throttled e))
    command_one-HeldOrRefused suspend s e k free = rw free (
        subst (λ t. HeldOrRefused os t e d w (hold_process os host suspended e d w)) (some_inj k)
          (hold_lem suspended e))
    command_one-HeldOrRefused resume s e k free = cc
    command_one-HeldOrRefused release s e k free = cc
