-- ===== src/Service/Daemon/Commands.antt =====
-- `HandleCommand` in src/service/Daemon.cpp: the manual commands. An exception that leaves the
-- function is the reply `thrown`.
pub mod Holds
pub mod Refusals
pub mod Kept
pub mod Words
pub mod Calm
pub mod Critical
use thread_haul_daemon.Base.{
  ℕ, zero, suc, ◌+◌, ◌-◌, ◌*◌, Bool, true, false, not, ◌&&◌, ◌||◌, List, [], ◌∷◌, ◌++◌, Option,
  none, some, leb, ltb, ◌==◌, if◌then◌else◌, any_of, is_some, map, codes, eq_text, Real,
}
use thread_haul_daemon.Actuator.Os.{Os}
use thread_haul_daemon.Actuator.Machine.{
  ProcessState, normal, throttled, suspended, is_normal, Machine,
}
use thread_haul_daemon.Actuator.Manager.{
  Manager, Managed, find_machine, add_batch_process, force_process_state, release_process,
  remove_batch_process,
}
use thread_haul_daemon.Config.Fields.{is_empty}
use thread_haul_daemon.Service.AutoProtect.{ProtectApi, exempt}
use thread_haul_daemon.Service.Daemon.{
  Host, Daemon, ProcessEntry, Note, manual_override, Ran, contains, holds, insert_pid, erase_pid,
  moves, managed,
}

pub data Verb : Type 0 where
  throttle suspend resume release : Verb

pub data Result : Type 0 where
  refused_critical refused_protected not_managed held resumed returned released : Result

abbrev pub is_done : Result → Bool
is_done refused_critical = false
is_done refused_protected = false
is_done not_managed = false
is_done _ = true

-- The result for one target, and what the command did.
pub record Answer (D W : Type 0) : Type 0 where
  pub result : Result
  pub ran : Ran D W

pub record Answers (D W : Type 0) : Type 0 where
  pub results : List (ℕ × Result)
  pub ran : Ran D W

module _ {D W : Type 0} (os : Os W) (host : Host) where
  abbrev unchanged : Result → Daemon D → W → Answer D W
  unchanged r d w = record { result = r; ran = record { daemon = d; world = w; notes = [] } }

  abbrev answered : Result → Daemon D → Managed D W → Answer D W
  answered r d m = record { result = r; ran = managed d m }

  -- `throttle` and `suspend`; a process that is not managed yet is added first.
  unfoldable pub hold_process : ProcessState → ProcessEntry → Daemon D → W → Answer D W
  hold_process s e d w =
      let (added, ok) = add_batch_process os d.manager w e.name e.pid in
      let adopted : Daemon D = record d { adhoc = insert_pid e.pid d.adhoc } in
      if is_some (find_machine e.pid d.manager.machines)
      then answered held d (force_process_state os d.manager w e.pid s d.pressure true).0
      else if not ok
      then unchanged refused_protected d w
      else answered held adopted
          (force_process_state os added.manager added.world e.pid s d.pressure true).0

  unfoldable pub release_found : Machine D → ProcessEntry → Daemon D → W → Answer D W
  release_found m e d w =
      let freed = (release_process os d.manager w e.pid).0 in
      let left : Daemon D = record d { adhoc = erase_pid e.pid d.adhoc } in
      if holds e.pid d.adhoc && is_normal m.state
      then answered released left (remove_batch_process os freed.manager freed.world e.pid)
      else answered returned d freed

  unfoldable pub release_if : Option (Machine D) → ProcessEntry → Daemon D → W → Answer D W
  unfolding release_found
  release_if none e d w = unchanged not_managed d w
  release_if (some m) e d w = release_found m e d w

  unfoldable pub command_free : Verb → ProcessEntry → Daemon D → W → Answer D W
  unfolding hold_process release_if
  command_free throttle e d w = hold_process throttled e d w
  command_free suspend e d w = hold_process suspended e d w
  command_free resume e d w =
      if is_some (find_machine e.pid d.manager.machines)
      then answered resumed d (force_process_state os d.manager w e.pid normal d.pressure true).0
      else unchanged not_managed d w
  command_free release e d w = release_if (find_machine e.pid d.manager.machines) e d w

  -- One target: a critical process is refused whatever the command is.
  unfoldable pub command_one : Verb → ProcessEntry → Daemon D → W → Answer D W
  unfolding command_free
  command_one v e d w =
      if contains host.same_name d.config.processes.critical_processes e.name
      then unchanged refused_critical d w
      else command_free v e d w

  unfoldable pub command_each : Verb → List ProcessEntry → Daemon D → W → Answers D W
  unfolding command_one
  command_each v [] d w = record {
    results = [];
    ran = record { daemon = d; world = w; notes = [] };
  }
  command_each v (e ∷ es) d w =
      let a = command_one v e d w in
      let rest = command_each v es a.ran.daemon a.ran.world in
      record {
        results = (e.pid, a.result) ∷ rest.results;
        ran = record rest.ran {
          notes = a.ran.notes ++ manual_override e.pid (is_done a.result) ∷ rest.ran.notes;
        };
      }

-- `isdigit`
abbrev pub is_digit : ℕ → Bool
is_digit c = leb b'0' c && leb c b'9'

abbrev pub all_digits : List ℕ → Bool
all_digits [] = true
all_digits (c ∷ cs) = is_digit c && all_digits cs

unfoldable pub number_from : ℕ → List ℕ → ℕ
number_from acc [] = acc
number_from acc (c ∷ cs) = number_from (acc * 10 + (c - b'0')) cs

-- `std::stoul` on digits: `none` is the exception for a number that is out of the range of
-- `unsigned long`, which has 32 bits on Windows.
unfoldable pub stoul : List ℕ → Option ℕ
unfolding number_from
stoul cs = if ltb 4294967295 (number_from 0 cs) then none else some (number_from 0 cs)

module _ (host : Host) where
  unfoldable pub named : List ℕ → List ProcessEntry → List ProcessEntry
  named target [] = []
  named target (e ∷ es) =
      let rest = named target es in
      if host.same_name e.name (host.widen target) then e ∷ rest else rest

  unfoldable pub numbered : ℕ → List ProcessEntry → List ProcessEntry
  numbered pid [] = []
  numbered pid (e ∷ es) = let rest = numbered pid es in if e.pid == pid then e ∷ rest else rest

  -- The processes of the snapshot that a target names; the number is read for each process, so only
  -- an empty snapshot hides an exception.
  unfoldable pub targets_of : List ℕ → List ProcessEntry → Option (List ProcessEntry)
  unfolding named numbered stoul
  targets_of target [] = some []
  targets_of target (e ∷ es) =
      if all_digits target
      then elim (stoul target) [ none ↦ none | some pid ↦ some (numbered pid (e ∷ es)) ]
      else some (named target (e ∷ es))

pub data Refusal : Type 0 where
  unknown_command no_target no_process runs_as_service : Refusal

pub data Reply : Type 0 where
  refused : Refusal → Reply
  status stopping : Reply
  done : List (ℕ × Result) → Reply
  exempted : List ℕ → Reply
  thrown : Reply

-- The reply that says that no process matches, which repeats the target.
abbrev pub no_match : Host → List ℕ → Reply
no_match host target = if host.is_utf8 target then refused no_process else thrown

pub record Handled (D W : Type 0) : Type 0 where
  pub reply : Reply
  pub ran : Ran D W

-- `isspace`
abbrev pub is_space : ℕ → Bool
is_space c = c == b' ' || leb 9 c && leb c 13

-- The characters up to the next white space, and the rest.
unfoldable pub word_from : List ℕ → List ℕ × List ℕ
word_from [] = ([], [])
word_from (c ∷ cs) = let w = word_from cs in if is_space c then ([], c ∷ cs) else (c ∷ w.0, w.1)

-- The first word of a line, and what follows it (`in >> word`).
unfoldable pub next_word : List ℕ → List ℕ × List ℕ
unfolding word_from
next_word [] = ([], [])
next_word (c ∷ cs) =
    let skipped = next_word cs in if is_space c then skipped else word_from (c ∷ cs)

-- `tolower`
abbrev pub to_lower : ℕ → ℕ
to_lower c = if leb b'A' c && leb c b'Z' then c + 32 else c

abbrev pub verb_in : List ℕ → List ℕ
verb_in line = map to_lower (next_word line).0

abbrev pub target_in : List ℕ → List ℕ
target_in line = (next_word (next_word line).1).0

unfoldable pub verb_of : List ℕ → Option Verb
verb_of word =
    if eq_text word (codes "throttle")
    then some throttle
    else if eq_text word (codes "suspend")
    then some suspend
    else if eq_text word (codes "resume")
    then some resume
    else if eq_text word (codes "release")
    then some release
    else none

module _ {D W : Type 0} ⦃real : Real D⦄ (os : Os W) (api : ProtectApi W) (host : Host) where
  abbrev replied : Reply → Daemon D → W → Handled D W
  replied r d w = record { reply = r; ran = record { daemon = d; world = w; notes = [] } }

  -- `exempt`: each process that the target names is left alone by auto-protect from now on.
  unfoldable pub exempt_each : List ℕ → List ProcessEntry → Daemon D → W → Answers D W
  exempt_each target [] d w = record {
    results = [];
    ran = record { daemon = d; world = w; notes = [] };
  }
  exempt_each target (e ∷ es) d w =
      let meant =
        if all_digits target
        then eq_text (host.decimal e.pid) target
        else host.same_name e.name (host.widen target) in
      let after = exempt api d.protector w e.pid in
      let here = exempt_each target es (record d { protector = after.protector }) after.world in
      let skipped = exempt_each target es d w in
      if meant then record here { results = (e.pid, released) ∷ here.results } else skipped

  unfoldable pub command_found :
      Verb → List ℕ → Option (List ProcessEntry) → Daemon D → W → Handled D W
  unfolding command_each
  command_found v target none d w = replied thrown d w
  command_found v target (some []) d w = replied (no_match host target) d w
  command_found v target (some (e ∷ es)) d w =
      let all = command_each os host v (e ∷ es) d w in
      record { reply = done all.results; ran = all.ran }

  unfoldable pub exempt_found : List ℕ → List (ℕ × Result) → Ran D W → Daemon D → W → Handled D W
  exempt_found target [] ran d w = replied (no_match host target) d w
  exempt_found target (r ∷ rs) ran d w = record {
    reply = exempted (map (λ x. x.0) (r ∷ rs));
    ran = ran;
  }

  -- The commands on managed processes. The reply to an unknown one repeats it.
  unfoldable pub command_verb :
      Option Verb → List ℕ → List ℕ → List ProcessEntry → Daemon D → W → Handled D W
  unfolding command_found targets_of
  command_verb none word target snapshot d w =
      replied (if host.is_utf8 word then refused unknown_command else thrown) d w
  command_verb (some v) word target snapshot d w =
      if is_empty target
      then replied (refused no_target) d w
      else command_found v target (targets_of host target snapshot) d w

  -- `remote` says whether there is an event that a remote stop may set.
  unfoldable pub handle_command : Bool → List ProcessEntry → List ℕ → Daemon D → W → Handled D W
  unfolding next_word verb_of exempt_found exempt_each command_verb
  handle_command remote snapshot line d w =
      let verb = verb_in line in
      let target = target_in line in
      let found = exempt_each target snapshot d w in
      if eq_text verb (codes "status")
      then replied status d w
      else if eq_text verb (codes "stop")
      then replied (if remote then stopping else refused runs_as_service) d w
      else if eq_text verb (codes "exempt")
      then (if is_empty target
          then replied (refused no_target) d w
          else exempt_found target found.results found.ran d w)
      else command_verb (verb_of verb) verb target snapshot d w
