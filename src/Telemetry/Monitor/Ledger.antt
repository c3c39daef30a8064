-- ===== src/Telemetry/Monitor/Ledger.antt =====
-- The lifecycle events account for the tracked instances (src/telemetry/ProcessMonitor.cpp).
use thread_haul_daemon.Base.{
  ℕ, suc, ◌+◌, ◌%◌, ◌^◌, ◌≡◌, refl, ap, Bool, true, false, not, ◌&&◌, List, [], ◌∷◌, ◌++◌, Option,
  none, some, ◌==◌, ltb, if◌then◌else◌, length, any_of, arith, either_way, by_test, All-mono,
  and-true_parts, All, Any, inl, inr, Real,
}
use thread_haul_daemon.Actuator.Threads.{Opened, handle, null}
use thread_haul_daemon.Telemetry.Adaptive.{Arithmetic}
use thread_haul_daemon.Telemetry.Window.{find_by_name}
use thread_haul_daemon.Telemetry.Monitor.{
  ProcessSample, LifecycleKind, acquired, exited, crashed, restarted, LifecycleEvent, MonitorApi,
  Instance, TrackedProcess, Step, has, is_idle, insert_instance, drop_exited, pick_opened, pick_up,
  sample_timed, sample_instance, sample_all, poll_tracked,
}

abbrev pub is_start : LifecycleKind → Bool
is_start acquired = true
is_start restarted = true
is_start _ = false

abbrev pub is_end : LifecycleKind → Bool
is_end exited = true
is_end crashed = true
is_end _ = false

-- How many of the events are of the kind.
abbrev pub count_of : (LifecycleKind → Bool) → List LifecycleEvent → ℕ
count_of f [] = 0
count_of f (e ∷ es) = (if f e.kind then 1 else 0) + count_of f es

count_of-++ :
    (f : LifecycleKind → Bool) (xs ys : List LifecycleEvent)
    → count_of f (xs ++ ys) ≡ count_of f xs + count_of f ys
count_of-++ f [] ys = omega arith
count_of-++ f (x ∷ xs) ys = omega (arith, count_of-++ f xs ys)

length-insert_instance :
    (pid : ℕ) (i : Instance) (is : List (ℕ × Instance))
    → length (insert_instance pid i is) ≡ suc (length is)
unfolding insert_instance
length-insert_instance pid i [] = refl
length-insert_instance pid i ((p, j) ∷ rest) =
    either_way (λ (l : List (ℕ × Instance)). length l ≡ suc (suc (length rest))) (ltb pid p) refl
      (ap (λ n. suc n) (length-insert_instance pid i rest))

-- Before and after: instances, starts and ends balance.
abbrev Balances : ℕ → ℕ → List LifecycleEvent → Type 0
Balances before after events = after + count_of is_end events ≡ before + count_of is_start events

Balances-++ :
    (a b c : ℕ) (xs ys : List LifecycleEvent)
    → Balances a b xs
    → Balances b c ys
    → Balances a c (xs ++ ys)
Balances-++ a b c xs ys h k =
    omega (arith, h, k, count_of-++ is_end xs ys, count_of-++ is_start xs ys)

exit-ends :
    (code : ℕ)
    → (is_end (if code == 0 then exited else crashed) ≡ true)
      × (is_start (if code == 0 then exited else crashed) ≡ false)
exit-ends code =
    either_way (λ k. (is_end k ≡ true) × (is_start k ≡ false)) (code == 0) (refl, refl) (refl, refl)

start-starts :
    (b : Bool)
    → (is_end (if b then restarted else acquired) ≡ false)
      × (is_start (if b then restarted else acquired) ≡ true)
start-starts b =
    either_way (λ k. (is_end k ≡ false) × (is_start k ≡ true)) b (refl, refl) (refl, refl)

-- One of the instances has the process id and had been sampled before.
abbrev pub HasPrimed : ℕ → List (ℕ × Instance) → Type 0
HasPrimed pid is = Any (λ e. (e.0 ≡ pid) × (e.1.primed ≡ true)) is

insert-primed :
    (pid p : ℕ) (i : Instance) (is : List (ℕ × Instance))
    → i.primed ≡ false
    → HasPrimed p (insert_instance pid i is)
    → HasPrimed p is
unfolding insert_instance
insert-primed pid p i [] new_ = λ h. elim h [ inl k ↦ cc (k.1, new_) | inr k ↦ k ]
insert-primed pid p i ((q, j) ∷ rest) new_ =
    either_way (λ (l : List (ℕ × Instance)). HasPrimed p l → HasPrimed p ((q, j) ∷ rest))
      (ltb pid q) (λ h. elim h [ inl k ↦ cc (k.1, new_) | inr k ↦ k ])
      (λ h. elim h [ inl k ↦ inl k | inr k ↦ inr (insert-primed pid p i rest new_ k) ])

module _ {W : Type 0} (api : MonitorApi W) where
  drop-Balances :
      (is : List (ℕ × Instance)) (last : ℕ) (w : W)
      → let o = drop_exited api is last w in Balances (length is) (length o.0) o.3
  unfolding drop_exited
  drop-Balances [] last w = refl
  drop-Balances ((pid, i) ∷ rest) last w =
      let gone = drop-Balances rest pid (api.close_handle i.process w) in
      let kept = drop-Balances rest last w in
      let kind = exit-ends (api.exit_code i.process w) in
      by_test
        (λ (o : List (ℕ × Instance) × ℕ × W × List LifecycleEvent).
          Balances (suc (length rest)) (length o.0) o.3)
        (api.is_signalled i.process w) (λ _. rw (kind.0, kind.1) (omega (arith, gone)))
        (λ _. omega (arith, kept))

  pick_opened-Balances :
      (pid : ℕ) (o : Opened) (w : W) (t : TrackedProcess)
      → let s = pick_opened api pid o w t in
        Balances (length t.instances) (length s.tracked.instances) s.events
  unfolding pick_opened
  pick_opened-Balances pid (null code) w t =
      either_way
        (λ (s : Step W). Balances (length t.instances) (length s.tracked.instances) s.events)
        (code == 5 && not (any_of (λ p. p == pid) t.denied)) refl refl
  pick_opened-Balances pid (handle h) w t =
      let s = pick_opened api pid (handle h) w t in
      let longer : length s.tracked.instances ≡ suc (length t.instances) =
        length-insert_instance pid _ t.instances in
      let kind =
        start-starts
          (is_idle t.instances && not (t.last_exited == 0) && not (t.last_exited == pid)) in
      rw (kind.0, kind.1) (omega (arith, longer))

  pick_up-Balances :
      (pids : List ℕ) (t : TrackedProcess) (w : W)
      → let s = pick_up api pids t w in
        Balances (length t.instances) (length s.tracked.instances) s.events
  unfolding pick_up
  pick_up-Balances [] t w = refl
  pick_up-Balances (pid ∷ pids) t w =
      let (opened, w') = api.open_process pid w in
      let one = pick_opened api pid opened w' t in
      let fresh = pick_up api pids one.tracked one.world in
      by_test (λ (s : Step W). Balances (length t.instances) (length s.tracked.instances) s.events)
        (has pid t.instances) (λ _. pick_up-Balances pids t w)
        (λ _.
          Balances-++ (length t.instances) (length one.tracked.instances)
            (length fresh.tracked.instances) one.events fresh.events
            (pick_opened-Balances pid opened w' t) (pick_up-Balances pids one.tracked one.world))

  drop-HasPrimed :
      (p : ℕ) (is : List (ℕ × Instance)) (last : ℕ) (w : W)
      → HasPrimed p (drop_exited api is last w).0
      → HasPrimed p is
  unfolding drop_exited
  drop-HasPrimed p [] last w = λ h. h
  drop-HasPrimed p ((pid, i) ∷ rest) last w =
      either_way
        (λ (o : List (ℕ × Instance) × ℕ × W × List LifecycleEvent).
          HasPrimed p o.0 → HasPrimed p ((pid, i) ∷ rest))
        (api.is_signalled i.process w)
        (λ h. inr (drop-HasPrimed p rest pid (api.close_handle i.process w) h))
        (λ h. elim h [ inl k ↦ inl k | inr k ↦ inr (drop-HasPrimed p rest last w k) ])

  pick_opened-HasPrimed :
      (p pid : ℕ) (o : Opened) (w : W) (t : TrackedProcess)
      → HasPrimed p (pick_opened api pid o w t).tracked.instances
      → HasPrimed p t.instances
  unfolding pick_opened
  pick_opened-HasPrimed p pid (null code) w t =
      either_way (λ (s : Step W). HasPrimed p s.tracked.instances → HasPrimed p t.instances)
        (code == 5 && not (any_of (λ q. q == pid) t.denied)) (λ h. h) (λ h. h)
  pick_opened-HasPrimed p pid (handle h) w t = insert-primed pid p _ t.instances refl

  pick_up-HasPrimed :
      (p : ℕ) (pids : List ℕ) (t : TrackedProcess) (w : W)
      → HasPrimed p (pick_up api pids t w).tracked.instances
      → HasPrimed p t.instances
  unfolding pick_up
  pick_up-HasPrimed p [] t w = λ h. h
  pick_up-HasPrimed p (pid ∷ pids) t w =
      let (opened, w') = api.open_process pid w in
      let one = pick_opened api pid opened w' t in
      either_way (λ (s : Step W). HasPrimed p s.tracked.instances → HasPrimed p t.instances)
        (has pid t.instances) (pick_up-HasPrimed p pids t w)
        (λ h.
          pick_opened-HasPrimed p pid opened w' t
            (pick_up-HasPrimed p pids one.tracked one.world h))

module _ {D W : Type 0} ⦃r : Real D⦄ (ar : Arithmetic D) (api : MonitorApi W) where
  length-sample_all :
      (t : TrackedProcess) (is : List (ℕ × Instance)) (w : W)
      → length (sample_all ar api t is w).0 ≡ length is
  unfolding sample_all
  length-sample_all t [] w = refl
  length-sample_all t ((pid, i) ∷ rest) w = ap (λ n. suc n) (length-sample_all t rest w)

  -- A valid sample comes from one of these instances that had been sampled before.
  abbrev IsPrimedIn : List (ℕ × Instance) → ProcessSample D → Type 0
  IsPrimedIn is s = s.valid ≡ true → HasPrimed s.pid is

  sample_timed-primed :
      (t : TrackedProcess) (pid : ℕ) (i : Instance) (w : W) (cpu : ℕ)
      → let s = (sample_timed ar api t pid i w cpu).1 in
        s.valid ≡ true → (pid ≡ s.pid) × (i.primed ≡ true)
  unfolding sample_timed
  sample_timed-primed t pid i w cpu =
      by_test (λ (s : ProcessSample D). s.valid ≡ true → (pid ≡ s.pid) × (i.primed ≡ true))
        (i.primed && ltb i.last_wall (api.now_ticks w))
        (λ e _. (refl, (and-true_parts i.primed (ltb i.last_wall (api.now_ticks w)) e).0))
        (λ _ h. cc)

  sample_instance-IsPrimedIn :
      (t : TrackedProcess) (pid : ℕ) (i : Instance) (rest : List (ℕ × Instance)) (w : W)
      (times : Option (ℕ × ℕ)) (more : List (ProcessSample D))
      → All (IsPrimedIn rest) more
      → All (IsPrimedIn ((pid, i) ∷ rest)) ((sample_instance ar api t pid i w times).1 ++ more)
  unfolding sample_instance
  sample_instance-IsPrimedIn t pid i rest w none more h =
      All-mono (IsPrimedIn rest) (IsPrimedIn ((pid, i) ∷ rest)) (λ s k v. inr (k v)) more h
  sample_instance-IsPrimedIn t pid i rest w (some (kernel, user)) more h = (
    λ v. inl (sample_timed-primed t pid i w ((kernel + user) % 2 ^ 64) v),
    All-mono (IsPrimedIn rest) (IsPrimedIn ((pid, i) ∷ rest)) (λ s k v. inr (k v)) more h,
  )

  sample_all-IsPrimedIn :
      (t : TrackedProcess) (is : List (ℕ × Instance)) (w : W)
      → All (IsPrimedIn is) (sample_all ar api t is w).1
  unfolding sample_all
  sample_all-IsPrimedIn t [] w = tt
  sample_all-IsPrimedIn t ((pid, i) ∷ rest) w =
      sample_instance-IsPrimedIn t pid i rest w (api.process_times i.process w)
        (sample_all ar api t rest w).1 (sample_all-IsPrimedIn t rest w)

  -- The lifecycle events of a poll account for the tracked instances: those before and the starts
  -- that are reported are as many as those after and the ends. A sample of the poll is valid only if
  -- its process was tracked before the poll and had been sampled: one that was just acquired gives
  -- no percentage yet.
  pub poll_tracked_lem :
      (same_name : List ℕ → List ℕ → Bool) (snapshot : List (List ℕ × ℕ)) (t : TrackedProcess)
      (w : W)
      → let o = poll_tracked ar api same_name snapshot t w in
        (length o.0.tracked.instances + count_of is_end o.0.events
          ≡ length t.instances + count_of is_start o.0.events)
        × All (λ s. s.valid ≡ true → HasPrimed s.pid t.instances) o.1
  unfolding poll_tracked
  poll_tracked_lem same_name snapshot t w =
      let dropped = drop_exited api t.instances t.last_exited w in
      let t' : TrackedProcess = record t { instances = dropped.0; last_exited = dropped.1 } in
      let pids = find_by_name same_name snapshot t.name in
      let picked = pick_up api pids t' dropped.2 in
      let is = picked.tracked.instances in
      let kept = length-sample_all picked.tracked is picked.world in
      let books =
        Balances-++ (length t.instances) (length dropped.0) (length is) dropped.3 picked.events
          (drop-Balances api t.instances t.last_exited w)
          (pick_up-Balances api pids t' dropped.2) in
      (
        omega (arith, kept, books),
        All-mono (IsPrimedIn is) (λ s. s.valid ≡ true → HasPrimed s.pid t.instances)
            (λ s h v.
              drop-HasPrimed api s.pid t.instances t.last_exited w
                (pick_up-HasPrimed api s.pid pids t' dropped.2 (h v)))
            (sample_all ar api picked.tracked is picked.world).1
            (sample_all-IsPrimedIn picked.tracked is picked.world),
      )
