-- ===== src/Service/Daemon/Commands/Calm.antt =====
-- The commands that lower nothing (src/service/Daemon.cpp).
use thread_haul_daemon.Base.{
  ℕ, ◌≡◌, refl, ap, Bool, true, false, not, ◌&&◌, List, [], ◌∷◌, Option, none, some, is_some,
  if◌then◌else◌, either_way, keep_if, ◌==◌, Real, codes, eq_text,
}
use thread_haul_daemon.Actuator.Os.{Os}
use thread_haul_daemon.Actuator.Machine.{normal, is_normal, Machine}
use thread_haul_daemon.Actuator.Manager.{find_machine, remove_batch_process, release_process}
use thread_haul_daemon.Actuator.Manager.Sweeps.{erase-All}
use thread_haul_daemon.Actuator.Manager.AtRest.{AreNormal, force-AreNormal, release-AreNormal}
use thread_haul_daemon.Config.Fields.{is_empty}
use thread_haul_daemon.Service.AutoProtect.{ProtectApi, Entry, exempt}
use thread_haul_daemon.Service.Daemon.{Host, Daemon, Ran, ProcessEntry, contains, holds}
use thread_haul_daemon.Service.Daemon.Commands.{
  Verb, throttle, suspend, resume, release, Answer, Answers, Handled, Result, release_found,
  release_if, command_free, command_one, command_each, exempt_each, exempt_found, command_found,
  command_verb, handle_command, targets_of, verb_of, verb_in, target_in, all_digits,
}

-- Nothing is lowered, neither by a machine nor by auto-protect.
abbrev pub IsCalm : {D : Type 0} → Daemon D → Type 0
IsCalm d = AreNormal d.manager.machines × (d.protector.entries ≡ [])

abbrev pub lowers : Verb → Bool
lowers throttle = true
lowers suspend = true
lowers _ = false

-- The line is no `throttle` and no `suspend`.
abbrev pub IsGentle : List ℕ → Type 0
IsGentle line = (v : Verb) → verb_of (verb_in line) ≡ some v → lowers v ≡ false

module _ {D W : Type 0} (os : Os W) (host : Host) (d : Daemon D) (w : W) (c : IsCalm d) where
  release_found-IsCalm :
      (m : Machine D) (e : ProcessEntry) → IsCalm (release_found os host m e d w).ran.daemon
  unfolding release_found remove_batch_process
  release_found-IsCalm m e =
      let after = release-AreNormal os d.manager w c.0 e.pid in
      let freed = (release_process os d.manager w e.pid).0 in
      either_way (λ (a : Answer D W). IsCalm a.ran.daemon)
        (holds e.pid d.adhoc && is_normal m.state)
        (erase-All (λ _ n. n.state ≡ normal) e.pid freed.manager.machines after, c.1) (after, c.1)

  release_if-IsCalm :
      (o : Option (Machine D)) (e : ProcessEntry) → IsCalm (release_if os host o e d w).ran.daemon
  unfolding release_if
  release_if-IsCalm none e = c
  release_if-IsCalm (some m) e = release_found-IsCalm m e

  command_free-IsCalm :
      (v : Verb) (e : ProcessEntry)
      → lowers v ≡ false
      → IsCalm (command_free os host v e d w).ran.daemon
  unfolding command_free
  command_free-IsCalm throttle e l = cc
  command_free-IsCalm suspend e l = cc
  command_free-IsCalm resume e l =
      either_way (λ (a : Answer D W). IsCalm a.ran.daemon)
        (is_some (find_machine e.pid d.manager.machines))
        (force-AreNormal os d.manager w c.0 e.pid d.pressure true, c.1) c
  command_free-IsCalm release e l = release_if-IsCalm (find_machine e.pid d.manager.machines) e

  command_one-IsCalm :
      (v : Verb) (e : ProcessEntry)
      → lowers v ≡ false
      → IsCalm (command_one os host v e d w).ran.daemon
  unfolding command_one
  command_one-IsCalm v e l =
      either_way (λ (a : Answer D W). IsCalm a.ran.daemon)
        (contains host.same_name d.config.processes.critical_processes e.name) c
        (command_free-IsCalm v e l)

module _ {D W : Type 0} (os : Os W) (host : Host) where
  command_each-IsCalm :
      (v : Verb) (es : List ProcessEntry) (d : Daemon D) (w : W)
      → IsCalm d
      → lowers v ≡ false
      → IsCalm (command_each os host v es d w).ran.daemon
  unfolding command_each
  command_each-IsCalm v [] d w c l = c
  command_each-IsCalm v (e ∷ es) d w c l =
      let a = command_one os host v e d w in
      command_each-IsCalm v es a.ran.daemon a.ran.world (command_one-IsCalm os host d w c v e l) l

module _ {D W : Type 0} ⦃real : Real D⦄ (os : Os W) (api : ProtectApi W) (host : Host) where
  exempt_each-IsCalm :
      (target : List ℕ) (es : List ProcessEntry) (d : Daemon D) (w : W)
      → IsCalm d
      → IsCalm (exempt_each os api host target es d w).ran.daemon
  unfolding exempt_each exempt
  exempt_each-IsCalm target [] d w c = c
  exempt_each-IsCalm target (e ∷ es) d w c =
      let after = exempt api d.protector w e.pid in
      let meant =
        if all_digits target
        then eq_text (host.decimal e.pid) target
        else host.same_name e.name (host.widen target) in
      let none_left = ap (λ l. keep_if (λ (x : Entry D). not (x.pid == e.pid)) l) c.1 in
      either_way (λ (a : Answers D W). IsCalm a.ran.daemon) meant
        (exempt_each-IsCalm target es (record d { protector = after.protector }) after.world
          (c.0, none_left))
        (exempt_each-IsCalm target es d w c)

  exempt_found-IsCalm :
      (target : List ℕ) (rs : List (ℕ × Result)) (ran : Ran D W) (d : Daemon D) (w : W)
      → IsCalm d
      → IsCalm ran.daemon
      → IsCalm (exempt_found os api host target rs ran d w).ran.daemon
  unfolding exempt_found
  exempt_found-IsCalm target [] ran d w c t = c
  exempt_found-IsCalm target (r ∷ rs) ran d w c t = t

  command_found-IsCalm :
      (v : Verb) (target : List ℕ) (o : Option (List ProcessEntry)) (d : Daemon D) (w : W)
      → IsCalm d
      → lowers v ≡ false
      → IsCalm (command_found os api host v target o d w).ran.daemon
  unfolding command_found
  command_found-IsCalm v target none d w c l = c
  command_found-IsCalm v target (some []) d w c l = c
  command_found-IsCalm v target (some (e ∷ es)) d w c l =
      command_each-IsCalm os host v (e ∷ es) d w c l

  command_verb-IsCalm :
      (o : Option Verb) (word target : List ℕ) (snapshot : List ProcessEntry) (d : Daemon D) (w : W)
      → IsCalm d
      → ((v : Verb) → o ≡ some v → lowers v ≡ false)
      → IsCalm (command_verb os api host o word target snapshot d w).ran.daemon
  unfolding command_verb
  command_verb-IsCalm none word target snapshot d w c l = c
  command_verb-IsCalm (some v) word target snapshot d w c l =
      either_way (λ (h : Handled D W). IsCalm h.ran.daemon) (is_empty target) c
        (command_found-IsCalm v target (targets_of host target snapshot) d w c (l v refl))

  -- Where nothing is lowered, a line that is no `throttle` and no `suspend` lowers nothing.
  pub handle_command-IsCalm :
      (remote : Bool) (snapshot : List ProcessEntry) (line : List ℕ) (d : Daemon D) (w : W)
      → IsCalm d
      → IsGentle line
      → IsCalm (handle_command os api host remote snapshot line d w).ran.daemon
  unfolding handle_command
  handle_command-IsCalm remote snapshot line d w c l =
      let verb = verb_in line in
      let target = target_in line in
      let P : Handled D W → Type 0 = λ h. IsCalm h.ran.daemon in
      let found = exempt_each os api host target snapshot d w in
      either_way P (eq_text verb (codes "status")) c (
        either_way P (eq_text verb (codes "stop")) c (
          either_way P (eq_text verb (codes "exempt"))
            (either_way P (is_empty target) c (
              exempt_found-IsCalm target found.results found.ran d w c
                (exempt_each-IsCalm target snapshot d w c)))
            (command_verb-IsCalm (verb_of verb) verb target snapshot d w c l)))
