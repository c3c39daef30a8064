-- ===== src/Service/Daemon/Commands/Kept.antt =====
-- The commands keep the state sound (src/service/Daemon.cpp).
use thread_haul_daemon.Base.{
  ℕ, Bool, true, not, ◌&&◌, List, [], ◌∷◌, Option, none, some, is_some, if◌then◌else◌, either_way,
  Real, codes, eq_text,
}
use thread_haul_daemon.Actuator.Os.{Os}
use thread_haul_daemon.Actuator.Machine.{
  ProcessState, normal, throttled, suspended, is_normal, Machine,
}
use thread_haul_daemon.Actuator.Manager.{find_machine, add_batch_process, release_process}
use thread_haul_daemon.Config.Fields.{is_empty}
use thread_haul_daemon.Service.AutoProtect.{ProtectApi, exempt}
use thread_haul_daemon.Service.Daemon.{Host, Daemon, Ran, ProcessEntry, contains, holds}
use thread_haul_daemon.Service.Daemon.Sound.{
  IsSound, add-IsManaged, force-IsManaged, release-IsManaged, remove-IsManaged,
}
use thread_haul_daemon.Service.Daemon.Commands.{
  Verb, throttle, suspend, resume, release, Answer, Answers, Handled, Result, hold_process,
  release_found, release_if, command_free, command_one, command_each, exempt_each, exempt_found,
  command_found, command_verb, handle_command, targets_of, verb_of, verb_in, target_in, all_digits,
}

module _ {D W : Type 0} (os : Os W) (host : Host) (d : Daemon D) (w : W) (s : IsSound os d) where
  hold-IsSound :
      (t : ProcessState) (e : ProcessEntry) → IsSound os (hold_process os host t e d w).ran.daemon
  unfolding hold_process
  hold-IsSound t e =
      let c = d.effective in
      let names = d.config.processes.protected_processes in
      let added = (add_batch_process os d.manager w e.name e.pid).0 in
      let with_added = add-IsManaged os c names d.manager w s e.name e.pid in
      let P : Answer D W → Type 0 = λ a. IsSound os a.ran.daemon in
      either_way P (is_some (find_machine e.pid d.manager.machines))
        (force-IsManaged os c names d.manager w s e.pid t d.pressure true)
        (either_way P (not (add_batch_process os d.manager w e.name e.pid).1) s
          (force-IsManaged os c names added.manager added.world with_added e.pid t d.pressure true))

  release_found-IsSound :
      (m : Machine D) (e : ProcessEntry) → IsSound os (release_found os host m e d w).ran.daemon
  unfolding release_found
  release_found-IsSound m e =
      let c = d.effective in
      let names = d.config.processes.protected_processes in
      let freed = (release_process os d.manager w e.pid).0 in
      let after = release-IsManaged os c names d.manager w s e.pid in
      let P : Answer D W → Type 0 = λ a. IsSound os a.ran.daemon in
      either_way P (holds e.pid d.adhoc && is_normal m.state)
        (remove-IsManaged os c names freed.manager freed.world after e.pid) after

  release_if-IsSound :
      (o : Option (Machine D)) (e : ProcessEntry)
      → IsSound os (release_if os host o e d w).ran.daemon
  unfolding release_if
  release_if-IsSound none e = s
  release_if-IsSound (some m) e = release_found-IsSound m e

  command_free-IsSound :
      (v : Verb) (e : ProcessEntry) → IsSound os (command_free os host v e d w).ran.daemon
  unfolding command_free
  command_free-IsSound throttle e = hold-IsSound throttled e
  command_free-IsSound suspend e = hold-IsSound suspended e
  command_free-IsSound resume e =
      let P : Answer D W → Type 0 = λ a. IsSound os a.ran.daemon in
      either_way P (is_some (find_machine e.pid d.manager.machines))
        (force-IsManaged os d.effective d.config.processes.protected_processes d.manager w s e.pid
          normal d.pressure true)
        s
  command_free-IsSound release e = release_if-IsSound (find_machine e.pid d.manager.machines) e

  pub command_one-IsSound :
      (v : Verb) (e : ProcessEntry) → IsSound os (command_one os host v e d w).ran.daemon
  unfolding command_one
  command_one-IsSound v e =
      either_way (λ (a : Answer D W). IsSound os a.ran.daemon)
        (contains host.same_name d.config.processes.critical_processes e.name) s
        (command_free-IsSound v e)

module _ {D W : Type 0} (os : Os W) (host : Host) where
  command_each-IsSound :
      (v : Verb) (es : List ProcessEntry) (d : Daemon D) (w : W)
      → IsSound os d
      → IsSound os (command_each os host v es d w).ran.daemon
  unfolding command_each
  command_each-IsSound v [] d w s = s
  command_each-IsSound v (e ∷ es) d w s =
      let a = command_one os host v e d w in
      command_each-IsSound v es a.ran.daemon a.ran.world (command_one-IsSound os host d w s v e)

module _ {D W : Type 0} ⦃real : Real D⦄ (os : Os W) (api : ProtectApi W) (host : Host) where
  exempt_each-IsSound :
      (target : List ℕ) (es : List ProcessEntry) (d : Daemon D) (w : W)
      → IsSound os d
      → IsSound os (exempt_each os api host target es d w).ran.daemon
  unfolding exempt_each
  exempt_each-IsSound target [] d w s = s
  exempt_each-IsSound target (e ∷ es) d w s =
      let after = exempt api d.protector w e.pid in
      let meant =
        if all_digits target
        then eq_text (host.decimal e.pid) target
        else host.same_name e.name (host.widen target) in
      either_way (λ (a : Answers D W). IsSound os a.ran.daemon) meant
        (exempt_each-IsSound target es (record d { protector = after.protector }) after.world s)
        (exempt_each-IsSound target es d w s)

  exempt_found-IsSound :
      (target : List ℕ) (rs : List (ℕ × Result)) (ran : Ran D W) (d : Daemon D) (w : W)
      → IsSound os d
      → IsSound os ran.daemon
      → IsSound os (exempt_found os api host target rs ran d w).ran.daemon
  unfolding exempt_found
  exempt_found-IsSound target [] ran d w s t = s
  exempt_found-IsSound target (r ∷ rs) ran d w s t = t

  command_found-IsSound :
      (v : Verb) (target : List ℕ) (o : Option (List ProcessEntry)) (d : Daemon D) (w : W)
      → IsSound os d
      → IsSound os (command_found os api host v target o d w).ran.daemon
  unfolding command_found
  command_found-IsSound v target none d w s = s
  command_found-IsSound v target (some []) d w s = s
  command_found-IsSound v target (some (e ∷ es)) d w s =
      command_each-IsSound os host v (e ∷ es) d w s

  command_verb-IsSound :
      (o : Option Verb) (word target : List ℕ) (snapshot : List ProcessEntry) (d : Daemon D) (w : W)
      → IsSound os d
      → IsSound os (command_verb os api host o word target snapshot d w).ran.daemon
  unfolding command_verb
  command_verb-IsSound none word target snapshot d w s = s
  command_verb-IsSound (some v) word target snapshot d w s =
      either_way (λ (h : Handled D W). IsSound os h.ran.daemon) (is_empty target) s
        (command_found-IsSound v target (targets_of host target snapshot) d w s)

  -- Whatever the line is, a command keeps the state sound.
  pub handle_command-IsSound :
      (remote : Bool) (snapshot : List ProcessEntry) (line : List ℕ) (d : Daemon D) (w : W)
      → IsSound os d
      → IsSound os (handle_command os api host remote snapshot line d w).ran.daemon
  unfolding handle_command
  handle_command-IsSound remote snapshot line d w s =
      let verb = verb_in line in
      let target = target_in line in
      let P : Handled D W → Type 0 = λ h. IsSound os h.ran.daemon in
      let found = exempt_each os api host target snapshot d w in
      either_way P (eq_text verb (codes "status")) s (
        either_way P (eq_text verb (codes "stop")) s (
          either_way P (eq_text verb (codes "exempt"))
            (either_way P (is_empty target) s (
              exempt_found-IsSound target found.results found.ran d w s
                (exempt_each-IsSound target snapshot d w s)))
            (command_verb-IsSound (verb_of verb) verb target snapshot d w s)))
