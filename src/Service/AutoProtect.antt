-- ===== src/Service/AutoProtect.antt =====
-- src/service/AutoProtect.{h,cpp}: lowering the heaviest ordinary applications. The Windows calls are
-- the parameter `ProtectApi`; the system's load and the rows of the process table are arguments of
-- `tick`, and so is the test for excluded processes.
pub mod Limits
use thread_haul_daemon.Base.{
  ℕ, zero, suc, ◌+◌, ◌-◌, Bool, true, false, not, ◌&&◌, ◌||◌, List, [], ◌∷◌, ◌++◌, Option, none,
  some, ltb, leb, ◌==◌, if◌then◌else◌, length, any_of, keep_if, map, Real, ge,
}
use thread_haul_daemon.Telemetry.AutoPolicy.{
  AutoSettings, AutoLevel, AutoState, normal, throttle, idle, is_normal_level, AutoCandidate,
  reset_state, update_state, select_auto_targets,
}

pub record ProtectApi (W : Type 0) : Type 0 where
  -- `WaitForSingleObject(handle, 0) == WAIT_OBJECT_0`
  pub is_signalled : ℕ → W → Bool
  -- `OpenProcess`: a handle, `none` for null.
  pub open_process : ℕ → W → Option ℕ × W
  -- `GetPriorityClass`, 0 where it fails.
  pub get_priority_class : ℕ → W → ℕ
  pub set_priority_class : ℕ → ℕ → W → Bool × W
  pub close_handle : ℕ → W → W
  -- `GetTickCount64`
  pub tick_count : W → ℕ

unfoldable pub rank : ℕ → ℕ
rank c =
    if c == 0x40
    then 0
    else if c == 0x4000
    then 1
    else if c == 0x20
    then 2
    else if c == 0x8000
    then 3
    else if c == 0x80
    then 4
    else if c == 0x100
    then 5
    else 2

pub record Entry (D : Type 0) : Type 0 where
  pub pid : ℕ
  pub name : List ℕ
  pub process : ℕ
  pub original_class : ℕ
  pub current_class : ℕ
  pub cpu_at_action : D
  pub since_tick : ℕ

pub data ProcessSafety : Type 0 where
  ordinary service system essential : ProcessSafety

abbrev pub is_ordinary : ProcessSafety → Bool
is_ordinary ordinary = true
is_ordinary _ = false

pub record Row (D : Type 0) : Type 0 where
  pub pid : ℕ
  pub name : List ℕ
  pub cpu : D
  pub accessible : Bool
  pub safety : ProcessSafety

pub data LogName : Type 0 where
  throttled lowered_to_idle restored exempted level : LogName

-- A call of the log callback, without the wording of its last argument.
pub record Logged : Type 0 where
  pub event : LogName
  pub about : Option ℕ
  pub from_class : ℕ
  pub to_class : ℕ

-- The entries are in the order of their process ids, as in the map.
pub record Protector (D : Type 0) : Type 0 where
  pub settings : AutoSettings D
  pub state : AutoState
  pub entries : List (Entry D)
  pub exempt_pids : List ℕ
  pub system_cpu : D

pub record Entries (D W : Type 0) : Type 0 where
  pub list : List (Entry D)
  pub world : W
  pub logged : List Logged

pub record After (D W : Type 0) : Type 0 where
  pub protector : Protector D
  pub world : W
  pub logged : List Logged

abbrev pub target_of : AutoLevel → ℕ
target_of idle = 0x40
target_of _ = 0x4000

-- `map::emplace`: an entry that is there already stays.
unfoldable pub emplace : {D : Type 0} → Entry D → List (Entry D) → List (Entry D)
emplace e [] = e ∷ []
emplace e (x ∷ xs) =
    if e.pid == x.pid then x ∷ xs else if ltb e.pid x.pid then e ∷ x ∷ xs else x ∷ emplace e xs

unfoldable pub find_row : {D : Type 0} → ℕ → List (Row D) → Option (Row D)
find_row p [] = none
find_row p (r ∷ rs) = if r.pid == p then some r else find_row p rs

module _ {D : Type 0} where
  unfoldable pub eligible_rows :
      (List ℕ → ℕ → Bool) → List (Entry D) → List ℕ → List (Row D) → List (Row D)
  eligible_rows exclude es exempt_pids = keep_if (λ r.
      r.accessible
      && is_ordinary r.safety
      && not (any_of (λ e. e.pid == r.pid) es)
      && not (any_of (λ p. p == r.pid) exempt_pids)
      && not (exclude r.name r.pid))

  -- The heaviest of them, as many as there is room for.
  unfoldable pub choose :
      ⦃real : Real D⦄
      → (List ℕ → ℕ → Bool)
      → List (Row D)
      → Protector D
      → List (Entry D)
      → List ℕ
      → List (AutoCandidate D)
  unfolding eligible_rows
  choose exclude rows q es exempt_pids =
      select_auto_targets
        (map (λ (r : Row D). record { pid = r.pid; name = r.name; cpu = r.cpu })
          (eligible_rows exclude es exempt_pids rows))
        q.settings.min_process_cpu (q.settings.max_processes - length es)

module _ {D W : Type 0} (api : ProtectApi W) where
  unfoldable pub forget_exited : List (Entry D) → W → Entries D W
  forget_exited [] w = record { list = []; world = w; logged = [] }
  forget_exited (e ∷ es) w =
      let gone = forget_exited es (api.close_handle e.process w) in
      let kept = forget_exited es w in
      if api.is_signalled e.process w then gone else record kept { list = e ∷ kept.list }

  unfoldable pub restore : Entry D → W → W × List Logged
  restore e w =
      let (done, w') = api.set_priority_class e.process e.original_class w in
      let call : Logged = record {
        event = restored;
        about = some e.pid;
        from_class = e.current_class;
        to_class = e.original_class;
      } in
      if api.is_signalled e.process w
      then (api.close_handle e.process w, [])
      else (api.close_handle e.process w', call ∷ [])

  -- Each entry is restored and erased, the first one first, until none is left.
  unfoldable pub restore_all : List (Entry D) → W → Entries D W
  unfolding restore
  restore_all [] w = record { list = []; world = w; logged = [] }
  restore_all (e ∷ es) w =
      let first = restore e w in
      let rest = restore_all es first.0 in record rest { logged = first.1 ++ rest.logged }

  unfoldable pub escalate : ℕ → List (Entry D) → W → Entries D W
  unfolding rank
  escalate target [] w = record { list = []; world = w; logged = [] }
  escalate target (e ∷ es) w =
      let (done, w') = api.set_priority_class e.process target w in
      let called = escalate target es w' in
      let passed = escalate target es w in
      let call : Logged = record {
        event = lowered_to_idle;
        about = some e.pid;
        from_class = e.current_class;
        to_class = target;
      } in
      if leb (rank e.current_class) (rank target)
      then record passed { list = e ∷ passed.list }
      else if not done
      then record called { list = e ∷ called.list }
      else record called {
        list = record e { current_class = target } ∷ called.list;
        logged = call ∷ called.logged;
      }

  -- `Lower` on a process that could be opened.
  unfoldable pub lower_opened : ℕ → Row D → ℕ → List (Entry D) → W → Entries D W
  unfolding rank emplace
  lower_opened process row target es w =
      let original = api.get_priority_class process w in
      let (done, w') = api.set_priority_class process target w in
      let e : Entry D = record {
        pid = row.pid;
        name = row.name;
        process = process;
        original_class = original;
        current_class = target;
        cpu_at_action = row.cpu;
        since_tick = api.tick_count w';
      } in
      let call : Logged = record {
        event = throttled;
        about = some row.pid;
        from_class = original;
        to_class = target;
      } in
      if original == 0 || leb (rank original) (rank target)
      then record { list = es; world = api.close_handle process w; logged = [] }
      else if not done
      then record { list = es; world = api.close_handle process w'; logged = [] }
      else record { list = emplace e es; world = w'; logged = call ∷ [] }

  unfoldable pub lower : Row D → ℕ → List (Entry D) → W → Entries D W
  unfolding lower_opened
  lower row target es w =
      let o = api.open_process row.pid w in
      elim o.0 [
        | none ↦ record { list = es; world = o.1; logged = [] }
        | some process ↦ lower_opened process row target es o.1
      ]

  unfoldable pub lower_chosen :
      List (AutoCandidate D) → List (Row D) → ℕ → List (Entry D) → W → Entries D W
  unfolding lower find_row
  lower_chosen [] rows target es w = record { list = es; world = w; logged = [] }
  lower_chosen (c ∷ cs) rows target es w =
      let one : Entries D W = elim (find_row c.pid rows) [
        | none ↦ record { list = es; world = w; logged = [] }
        | some row ↦ lower row target es w
      ] in
      let rest = lower_chosen cs rows target one.list one.world in
      record rest { logged = one.logged ++ rest.logged }

  module _ ⦃real : Real D⦄ (p : Protector D) (w : W) where
    unfoldable pub configure : AutoSettings D → After D W
    unfolding restore_all
    configure s =
        let q : Protector D = record p { settings = s } in
        let r = restore_all p.entries w in
        if not s.enabled
        then record {
          protector = record q { entries = r.list; state = reset_state };
          world = r.world;
          logged = r.logged;
        }
        else record { protector = q; world = w; logged = [] }

    -- `Exempt`
    unfoldable pub exempt : ℕ → After D W
    unfolding restore_all
    exempt pid =
        let call : Logged = record {
          event = exempted;
          about = some pid;
          from_class = 0;
          to_class = 0;
        } in
        let found = keep_if (λ (e : Entry D). e.pid == pid) p.entries in
        let r = restore_all found w in
        record {
          protector = record p {
            entries = keep_if (λ (e : Entry D). not (e.pid == pid)) p.entries;
            exempt_pids = pid ∷ p.exempt_pids;
          };
          world = r.world;
          logged = r.logged ++ (call ∷ []);
        }

    -- `Tick` where the level is not normal.
    -- The exemptions of processes that are not gone.
    abbrev pub alive_pids : List (Row D) → Protector D → List ℕ
    alive_pids rows q = keep_if (λ pid. any_of (λ (r : Row D). r.pid == pid) rows) q.exempt_pids

    unfoldable pub protect : (List ℕ → ℕ → Bool) → List (Row D) → Protector D → W → After D W
    unfolding escalate lower_chosen choose
    protect exclude rows q w' =
        let alive = alive_pids rows q in
        let target = target_of q.state.level in
        let raised = escalate target q.entries w' in
        let chosen = choose exclude rows q raised.list alive in
        let added = lower_chosen chosen rows target raised.list raised.world in
        if ltb (length raised.list) q.settings.max_processes
        then record {
          protector = record q { entries = added.list; exempt_pids = alive };
          world = added.world;
          logged = raised.logged ++ added.logged;
        }
        else record {
          protector = record q { entries = raised.list; exempt_pids = alive };
          world = raised.world;
          logged = raised.logged;
        }

    abbrev level_call : AutoLevel → AutoLevel → List Logged
    level_call before after =
        let call : Logged = record { event = level; about = none; from_class = 0; to_class = 0 } in
        elim before [
          | normal ↦ elim after [ normal ↦ [] | _ ↦ call ∷ [] ]
          | throttle ↦ elim after [ throttle ↦ [] | _ ↦ call ∷ [] ]
          | idle ↦ elim after [ idle ↦ [] | _ ↦ call ∷ [] ]
        ]

    unfoldable pub tick : (List ℕ → ℕ → Bool) → D → List (Row D) → After D W
    unfolding forget_exited protect restore_all
    tick exclude cpu rows =
        let sampled : Protector D = record p { system_cpu = cpu } in
        let left = forget_exited p.entries w in
        let next = update_state cpu p.settings p.state in
        let q : Protector D = record sampled { entries = left.list; state = next } in
        let calm = restore_all left.list left.world in
        let busy = protect exclude rows q left.world in
        let changed = level_call p.state.level next.level in
        if not p.settings.enabled
        then record { protector = sampled; world = w; logged = [] }
        else if is_normal_level next.level
        then record {
          protector = record q { entries = calm.list };
          world = calm.world;
          logged = changed ++ calm.logged;
        }
        else record busy { logged = changed ++ busy.logged }
