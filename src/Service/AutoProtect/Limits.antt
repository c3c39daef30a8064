-- ===== src/Service/AutoProtect/Limits.antt =====
-- How many processes auto-protect holds lowered, and from where to where (src/service/AutoProtect.cpp).
use thread_haul_daemon.Base.{
  subst, sym, ℕ, ◌+◌, ◌-◌, ◌≤◌, ◌<◌, ◌≡◌, refl, Bool, true, false, not, ◌||◌, List, [], ◌∷◌, Option,
  none, some, ltb, leb, ◌==◌, if◌then◌else◌, length, All, arith, Bool-cases, inl, inr, Real,
}
use thread_haul_daemon.Telemetry.AutoPolicy.{AutoCandidate, is_normal_level, update_state}
use thread_haul_daemon.Telemetry.AutoPolicy.Selection.{length-select_auto_targets}
use thread_haul_daemon.Service.AutoProtect.{
  restore, restore_all, ProtectApi, rank, Entry, Row, Protector, Entries, After, emplace, find_row,
  forget_exited, escalate, lower_opened, lower, lower_chosen, choose, alive_pids, target_of,
  protect, tick,
}

-- Every process that is held has a lower priority than it had.
abbrev pub AreLowered : {D : Type 0} → List (Entry D) → Type 0
AreLowered = All (λ e. rank e.current_class < rank e.original_class)

-- Entries that are lowered, at most `n` of them.
abbrev pub IsWithin : {D : Type 0} → ℕ → List (Entry D) → Type 0
IsWithin n es = AreLowered es × (length es ≤ n)

emplace_lem :
    {D : Type 0} (n : ℕ) (e : Entry D) (es : List (Entry D))
    → rank e.current_class < rank e.original_class
    → IsWithin n es
    → IsWithin (n + 1) (emplace e es)
unfolding emplace
emplace_lem n e [] h i = ((h, tt), omega arith)
emplace_lem n e (x ∷ xs) h i =
    let rest = emplace_lem (length xs) e xs h (i.0.1, omega arith) in
    elim (Bool-cases (e.pid == x.pid)) [
      | inl same ↦ rw same (i.0, omega (arith, i.1))
      | inr other ↦ elim (Bool-cases (ltb e.pid x.pid)) [
        | inl below ↦ rw (other, below) ((h, i.0), omega (arith, i.1))
        | inr above ↦ rw (other, above) ((i.0.0, rest.0), omega (arith, i.1, rest.1))
      ]
    ]

over :
    {D : Type 0} (target : ℕ) (e : Entry D)
    → leb (rank e.current_class) (rank target) ≡ false
    → rank e.current_class < rank e.original_class
    → rank target < rank e.original_class
over target e h l = ground arith

branches_lem :
    {D W : Type 0} (n : ℕ) (on calm : Bool) (x y z : After D W)
    → IsWithin n x.protector.entries
    → IsWithin n y.protector.entries
    → IsWithin n z.protector.entries
    → IsWithin n (if not on then x else if calm then y else z).protector.entries
branches_lem n false calm x y z hx hy hz = hx
branches_lem n true true x y z hx hy hz = hy
branches_lem n true false x y z hx hy hz = hz

module _ {D W : Type 0} (api : ProtectApi W) where
  forget_exited_lem :
      (es : List (Entry D)) (w : W)
      → AreLowered es
      → AreLowered (forget_exited api es w).list
        × (length (forget_exited api es w).list ≤ length es)
  unfolding forget_exited
  forget_exited_lem [] w h = (tt, omega arith)
  forget_exited_lem (e ∷ es) w h = elim (Bool-cases (api.is_signalled e.process w)) [
    | inl gone ↦
        let ih = forget_exited_lem es (api.close_handle e.process w) h.1 in
        rw gone (ih.0, omega (arith, ih.1))
    | inr kept ↦ let ih = forget_exited_lem es w h.1 in rw kept ((h.0, ih.0), omega (arith, ih.1))
  ]

  escalate_lem :
      (target : ℕ) (es : List (Entry D)) (w : W)
      → AreLowered es
      → AreLowered (escalate api target es w).list
        × (length (escalate api target es w).list ≡ length es)
  unfolding escalate
  escalate_lem target [] w h = (tt, refl)
  escalate_lem target (e ∷ es) w h =
      let done = (api.set_priority_class e.process target w).0 in
      let called = escalate_lem target es (api.set_priority_class e.process target w).1 h.1 in
      let passed = escalate_lem target es w h.1 in
      elim (Bool-cases (leb (rank e.current_class) (rank target))) [
        | inl low ↦ rw low ((h.0, passed.0), omega (arith, passed.1))
        | inr high ↦ elim (Bool-cases done) [
          | inl d ↦ rw (high, d) ((over target e high h.0, called.0), omega (arith, called.1))
          | inr d ↦ rw (high, d) ((h.0, called.0), omega (arith, called.1))
        ]
      ]

  lower_opened_lem :
      (n process target : ℕ) (row : Row D) (es : List (Entry D)) (w : W)
      → IsWithin n es
      → IsWithin (n + 1) (lower_opened api process row target es w).list
  unfolding lower_opened
  lower_opened_lem n process target row es w i =
      let original = api.get_priority_class process w in
      let done = (api.set_priority_class process target w).0 in
      let stays : IsWithin (n + 1) es = (i.0, omega (arith, i.1)) in
      elim (Bool-cases (original == 0 || leb (rank original) (rank target))) [
        | inl low ↦ rw low stays
        | inr high ↦ elim (Bool-cases done) [
          | inl d ↦ rw (high, d) (emplace_lem n _ es (ground arith) i)
          | inr d ↦ rw (high, d) stays
        ]
      ]

  lower_lem :
      (n target : ℕ) (row : Row D) (es : List (Entry D)) (w : W)
      → IsWithin n es
      → IsWithin (n + 1) (lower api row target es w).list
  unfolding lower
  lower_lem n target row es w i =
      elim (api.open_process row.pid w).0
        as (λ o. IsWithin (n + 1) (
          Entries.list (elim o [
            | none ↦ record { list = es; world = (api.open_process row.pid w).1; logged = [] }
            | some process ↦ lower_opened api process row target es (api.open_process row.pid w).1
          ]))) [
            | none ↦ (i.0, omega (arith, i.1))
            | some process ↦
                lower_opened_lem n process target row es (api.open_process row.pid w).1 i
          ]

  lower_chosen_lem :
      (n target : ℕ) (cs : List (AutoCandidate D)) (rows : List (Row D)) (es : List (Entry D))
      (w : W)
      → IsWithin n es
      → IsWithin (n + length cs) (lower_chosen api cs rows target es w).list
  unfolding lower_chosen
  lower_chosen_lem n target [] rows es w i = (i.0, omega (arith, i.1))
  lower_chosen_lem n target (c ∷ cs) rows es w i =
      let found : Option (Row D) → Entries D W = λ o. elim o [
        | none ↦ record { list = es; world = w; logged = [] }
        | some row ↦ lower api row target es w
      ] in
      let one = found (find_row c.pid rows) in
      let step : IsWithin (n + 1) one.list =
        elim (find_row c.pid rows) as (λ o. IsWithin (n + 1) (found o).list) [
          | none ↦ (i.0, omega (arith, i.1))
          | some row ↦ lower_lem n target row es w i
        ] in
      let rest = lower_chosen_lem (n + 1) target cs rows one.list one.world step in
      (rest.0, omega (arith, rest.1))

  -- Restoring leaves nothing lowered.
  pub restore_all-list : (es : List (Entry D)) (w : W) → (restore_all api es w).list ≡ []
  unfolding restore_all
  restore_all-list [] w = refl
  restore_all-list (e ∷ es) w = restore_all-list es (restore api e w).0

  length-choose :
      ⦃real : Real D⦄ (exclude : List ℕ → ℕ → Bool) (rows : List (Row D)) (q : Protector D)
      (es : List (Entry D)) (exempt_pids : List ℕ)
      → length (choose exclude rows q es exempt_pids) ≤ q.settings.max_processes - length es
  unfolding choose
  length-choose exclude rows q es exempt_pids = length-select_auto_targets _ _ _

  module _ ⦃real : Real D⦄ (p : Protector D) (w : W) where
    protect_lem :
        (exclude : List ℕ → ℕ → Bool) (rows : List (Row D)) (q : Protector D) (w' : W)
        → IsWithin q.settings.max_processes q.entries
        → IsWithin q.settings.max_processes (protect api p w exclude rows q w').protector.entries
    unfolding protect
    protect_lem exclude rows q w' i =
        let target = target_of q.state.level in
        let raised = escalate api target q.entries w' in
        let kept = escalate_lem target q.entries w' i.0 in
        let chosen = choose exclude rows q raised.list (alive_pids api p w rows q) in
        let added =
          lower_chosen_lem (length raised.list) target chosen rows raised.list raised.world
            (kept.0, omega arith) in
        elim (Bool-cases (ltb (length raised.list) q.settings.max_processes)) [
          | inl room ↦ rw room (
            added.0,
            ground (
              arith,
              added.1,
              length-choose exclude rows q raised.list (alive_pids api p w rows q),
            ),
          )
          | inr full ↦ rw full (kept.0, omega (arith, kept.1, i.1))
        ]

    -- While auto-protect holds no more processes than its limit, each below its original priority,
    -- the same is true after a tick, whatever the load is and whatever Windows answers.
    pub tick-IsWithin :
        (exclude : List ℕ → ℕ → Bool) (cpu : D) (rows : List (Row D))
        → IsWithin p.settings.max_processes p.entries
        → IsWithin p.settings.max_processes (tick api p w exclude cpu rows).protector.entries
    unfolding tick
    tick-IsWithin exclude cpu rows i =
        let left = forget_exited api p.entries w in
        let few = forget_exited_lem p.entries w i.0 in
        let next = update_state cpu p.settings p.state in
        let q : Protector D = record p { system_cpu = cpu; entries = left.list; state = next } in
        branches_lem p.settings.max_processes p.settings.enabled (is_normal_level next.level) _ _ _
          i
          (subst (IsWithin p.settings.max_processes) (sym (restore_all-list left.list left.world))
            (tt, omega arith))
          (protect_lem exclude rows q left.world (few.0, omega (arith, few.1, i.1)))
