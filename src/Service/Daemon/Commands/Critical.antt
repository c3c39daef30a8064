-- ===== src/Service/Daemon/Commands/Critical.antt =====
-- Commands leave critical processes alone (src/service/Daemon.cpp).
use thread_haul_daemon.Base.{
  ℕ, ◌≡◌, ◌≢◌, refl, sym, ◌∙◌, Bool, true, not, ◌&&◌, List, [], ◌∷◌, Option, none, some, is_some,
  if◌then◌else◌, subst, some_inj, Bool-cases, inl, inr, ◌==◌, Real, codes, eq_text, ℕ_discrete,
  either_way, All,
}
use thread_haul_daemon.Actuator.Os.{Os}
use thread_haul_daemon.Actuator.Machine.{
  ProcessState, normal, throttled, suspended, is_normal, Machine,
}
use thread_haul_daemon.Actuator.Manager.{
  find_machine, add_batch_process, release_process, remove_batch_process,
}
use thread_haul_daemon.Actuator.Manager.Lookup.{
  add_other, force_other, release_other, find_erase_other,
}
use thread_haul_daemon.Config.Fields.{is_empty}
use thread_haul_daemon.Config.Runtime.{DaemonConfig}
use thread_haul_daemon.Service.AutoProtect.{ProtectApi, exempt}
use thread_haul_daemon.Service.Daemon.{Host, Daemon, ProcessEntry, Ran, contains, holds}
use thread_haul_daemon.Service.Daemon.Commands.{
  Verb, throttle, suspend, resume, release, Result, Answer, Answers, Handled, hold_process,
  release_found, release_if, command_free, command_one, command_each, exempt_each, exempt_found,
  command_found, command_verb, handle_command, named, numbered, targets_of, stoul, all_digits,
  verb_of, verb_in, target_in,
}

-- Whatever has the process id has a critical name.
abbrev pub IsCritical : {D : Type 0} → Host → DaemonConfig D → ℕ → ProcessEntry → Type 0
IsCritical host c pid e =
    e.pid ≡ pid → contains host.same_name c.processes.critical_processes e.name ≡ true

-- The same configuration, and the same machine for the process.
abbrev pub IsSpared : {D : Type 0} → ℕ → Daemon D → Daemon D → Type 0
IsSpared pid d after =
    (after.config ≡ d.config)
    × (find_machine pid after.manager.machines ≡ find_machine pid d.manager.machines)

module _ {D W : Type 0} (os : Os W) (host : Host) (pid : ℕ) where
  module _ (d : Daemon D) (w : W) (e : ProcessEntry) (ne : e.pid ≢ pid) where
    hold-IsSpared : (t : ProcessState) → IsSpared pid d (hold_process os host t e d w).ran.daemon
    unfolding hold_process
    hold-IsSpared t =
        let P : Answer D W → Type 0 = λ a. IsSpared pid d a.ran.daemon in
        let added = (add_batch_process os d.manager w e.name e.pid).0 in
        either_way P (is_some (find_machine e.pid d.manager.machines))
          (refl, force_other os d.manager w pid e.pid t d.pressure true ne)
          (either_way P (not (add_batch_process os d.manager w e.name e.pid).1) (refl, refl)
            (
              refl,
              force_other os added.manager added.world pid e.pid t d.pressure true ne
                  ∙ add_other os d.manager w e.name pid e.pid ne,
            ))

    release_found-IsSpared :
        (m : Machine D) → IsSpared pid d (release_found os host m e d w).ran.daemon
    unfolding release_found remove_batch_process
    release_found-IsSpared m =
        let freed = (release_process os d.manager w e.pid).0 in
        let kept = release_other os d.manager w pid e.pid ne in
        either_way (λ (a : Answer D W). IsSpared pid d a.ran.daemon)
          (holds e.pid d.adhoc && is_normal m.state)
          (refl, find_erase_other pid e.pid freed.manager.machines ne ∙ kept) (refl, kept)

    release_if-IsSpared :
        (o : Option (Machine D)) → IsSpared pid d (release_if os host o e d w).ran.daemon
    unfolding release_if
    release_if-IsSpared none = (refl, refl)
    release_if-IsSpared (some m) = release_found-IsSpared m

    command_free-IsSpared : (v : Verb) → IsSpared pid d (command_free os host v e d w).ran.daemon
    unfolding command_free
    command_free-IsSpared throttle = hold-IsSpared throttled
    command_free-IsSpared suspend = hold-IsSpared suspended
    command_free-IsSpared resume =
        either_way (λ (a : Answer D W). IsSpared pid d a.ran.daemon)
          (is_some (find_machine e.pid d.manager.machines))
          (refl, force_other os d.manager w pid e.pid normal d.pressure true ne) (refl, refl)
    command_free-IsSpared release = release_if-IsSpared (find_machine e.pid d.manager.machines)

  command_one-IsSpared :
      (v : Verb) (e : ProcessEntry) (d : Daemon D) (w : W)
      → IsCritical host d.config pid e
      → IsSpared pid d (command_one os host v e d w).ran.daemon
  unfolding command_one
  command_one-IsSpared v e d w h = elim (ℕ_discrete e.pid pid) [
    | yes same ↦ rw (h same) (refl, refl)
    | no other ↦
        either_way (λ (a : Answer D W). IsSpared pid d a.ran.daemon)
          (contains host.same_name d.config.processes.critical_processes e.name) (refl, refl)
          (command_free-IsSpared d w e other v)
  ]

  command_each-IsSpared :
      (v : Verb) (es : List ProcessEntry) (d : Daemon D) (w : W) (c : DaemonConfig D)
      → d.config ≡ c
      → All (IsCritical host c pid) es
      → IsSpared pid d (command_each os host v es d w).ran.daemon
  unfolding command_each
  command_each-IsSpared v [] d w c same h = (refl, refl)
  command_each-IsSpared v (e ∷ es) d w c same h =
      let a = command_one os host v e d w in
      let (kept, found) =
        command_one-IsSpared v e d w (subst (λ k. IsCritical host k pid e) (sym same) h.0) in
      let (kept', found') =
        command_each-IsSpared v es a.ran.daemon a.ran.world c (kept ∙ same) h.1 in
      (kept' ∙ kept, found' ∙ found)

module _ (host : Host) (P : ProcessEntry → Type 0) where
  named-All : (target : List ℕ) (es : List ProcessEntry) → All P es → All P (named host target es)
  unfolding named
  named-All target [] h = tt
  named-All target (e ∷ es) h =
      either_way (All P) (host.same_name e.name (host.widen target)) (h.0, named-All target es h.1)
        (named-All target es h.1)

  numbered-All : (pid : ℕ) (es : List ProcessEntry) → All P es → All P (numbered host pid es)
  unfolding numbered
  numbered-All pid [] h = tt
  numbered-All pid (e ∷ es) h =
      either_way (All P) (e.pid == pid) (h.0, numbered-All pid es h.1) (numbered-All pid es h.1)

  -- What a target names is in the snapshot.
  numbered_by-All :
      (o : Option ℕ) (es ts : List ProcessEntry)
      → All P es
      → elim o [ none ↦ none | some pid ↦ some (numbered host pid es) ] ≡ some ts
      → All P ts
  numbered_by-All none es ts h k = cc
  numbered_by-All (some pid) es ts h k = subst (All P) (some_inj k) (numbered-All pid es h)

  targets_of-All :
      (target : List ℕ) (es ts : List ProcessEntry)
      → All P es
      → targets_of host target es ≡ some ts
      → All P ts
  unfolding targets_of
  targets_of-All target [] ts h k = subst (All P) (some_inj k) tt
  targets_of-All target (e ∷ es) ts h k = elim (Bool-cases (all_digits target)) [
    | inl digits ↦ numbered_by-All (stoul target) (e ∷ es) ts h (rw digits at k)
    | inr word ↦ subst (All P) (some_inj (rw word at k)) (named-All target (e ∷ es) h)
  ]

module _ {D W : Type 0} ⦃real : Real D⦄ (os : Os W) (api : ProtectApi W) (host : Host)
    (pid : ℕ) where
  exempt_each-IsSpared :
      (target : List ℕ) (es : List ProcessEntry) (d : Daemon D) (w : W)
      → IsSpared pid d (exempt_each os api host target es d w).ran.daemon
  unfolding exempt_each
  exempt_each-IsSpared target [] d w = (refl, refl)
  exempt_each-IsSpared target (e ∷ es) d w =
      let after = exempt api d.protector w e.pid in
      let meant =
        if all_digits target
        then eq_text (host.decimal e.pid) target
        else host.same_name e.name (host.widen target) in
      either_way (λ (a : Answers D W). IsSpared pid d a.ran.daemon) meant
        (exempt_each-IsSpared target es (record d { protector = after.protector }) after.world)
        (exempt_each-IsSpared target es d w)

  exempt_found-IsSpared :
      (target : List ℕ) (rs : List (ℕ × Result)) (ran : Ran D W) (d : Daemon D) (w : W)
      → IsSpared pid d ran.daemon
      → IsSpared pid d (exempt_found os api host target rs ran d w).ran.daemon
  unfolding exempt_found
  exempt_found-IsSpared target [] ran d w h = (refl, refl)
  exempt_found-IsSpared target (r ∷ rs) ran d w h = h

  command_found-IsSpared :
      (v : Verb) (target : List ℕ) (o : Option (List ProcessEntry)) (d : Daemon D) (w : W)
      → ((ts : List ProcessEntry) → o ≡ some ts → All (IsCritical host d.config pid) ts)
      → IsSpared pid d (command_found os api host v target o d w).ran.daemon
  unfolding command_found
  command_found-IsSpared v target none d w h = (refl, refl)
  command_found-IsSpared v target (some []) d w h = (refl, refl)
  command_found-IsSpared v target (some (e ∷ es)) d w h =
      command_each-IsSpared os host pid v (e ∷ es) d w d.config refl (h (e ∷ es) refl)

  command_verb-IsSpared :
      (o : Option Verb) (word target : List ℕ) (es : List ProcessEntry) (d : Daemon D) (w : W)
      → All (IsCritical host d.config pid) es
      → IsSpared pid d (command_verb os api host o word target es d w).ran.daemon
  unfolding command_verb
  command_verb-IsSpared none word target es d w h = (refl, refl)
  command_verb-IsSpared (some v) word target es d w h =
      either_way (λ (a : Handled D W). IsSpared pid d a.ran.daemon) (is_empty target) (refl, refl)
        (command_found-IsSpared v target (targets_of host target es) d w
          (λ ts k. targets_of-All host (IsCritical host d.config pid) target es ts h k))

  -- No command line changes the machine of a process whose name in the snapshot is critical, nor
  -- makes such a process managed; neither does one that would resume it or release it.
  pub handle_command-IsSpared :
      (remote : Bool) (snapshot : List ProcessEntry) (line : List ℕ) (d : Daemon D) (w : W)
      → All (IsCritical host d.config pid) snapshot
      → IsSpared pid d (handle_command os api host remote snapshot line d w).ran.daemon
  unfolding handle_command
  handle_command-IsSpared remote snapshot line d w h =
      let verb = verb_in line in
      let target = target_in line in
      let P : Handled D W → Type 0 = λ a. IsSpared pid d a.ran.daemon in
      let found = exempt_each os api host target snapshot d w in
      either_way P (eq_text verb (codes "status")) (refl, refl)
        (either_way P (eq_text verb (codes "stop")) (refl, refl)
          (either_way P (eq_text verb (codes "exempt"))
            (either_way P (is_empty target) (refl, refl)
              (exempt_found-IsSpared target found.results found.ran d w
                (exempt_each-IsSpared target snapshot d w)))
            (command_verb-IsSpared (verb_of verb) verb target snapshot d w h)))
