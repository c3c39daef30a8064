-- ===== src/Actuator/Threads/Restore.antt =====
-- Suspending and then resuming (src/actuator/ThreadControl.cpp) leaves every thread as it was.
use thread_haul_daemon.Base.{
  ℕ, ◌+◌, ◌-◌, ◌≤◌, ◌≡◌, sym, ap, subst, suc, List, [], ◌∷◌, arith, length, count, ◌==◌,
  if◌then◌else◌,
}
use thread_haul_daemon.Actuator.Threads.{
  ThreadApi, ThreadOpResult, Opened, handle, null, no_result, dword_max, call_opened, call_each,
  enumerate_thread_ids, suspend_all_threads, resume_all_threads,
}

-- What Windows documents of the calls: a thread has a suspend count; `SuspendThread` adds one and
-- `ResumeThread` takes one off a count above zero, unless they fail; the others do not touch it.
pub record ThreadLaws {W : Type 0} (api : ThreadApi W) : Type 0 where
  pub suspends : W → ℕ → ℕ
  pub target : ℕ → W → ℕ
  pub snapshot_keeps : (w : W) (t : ℕ) → suspends (api.snapshot w).1 t ≡ suspends w t
  pub open_keeps : (tid : ℕ) (w : W) (t : ℕ) → suspends (api.open_thread tid w).1 t ≡ suspends w t
  pub open_target :
      (tid : ℕ) (w : W) (h : ℕ)
      → (api.open_thread tid w).0 ≡ handle h
      → target h (api.open_thread tid w).1 ≡ tid
  pub close_keeps : (h : ℕ) (w : W) (t : ℕ) → suspends (api.close_handle h w) t ≡ suspends w t
  pub suspend_adds :
      (h : ℕ) (w : W) (t : ℕ)
      → suspends (api.suspend_thread h w).1 t ≡ (
          if (api.suspend_thread h w).0 == dword_max
          then suspends w t
          else suspends w t + (if target h w == t then 1 else 0))
  pub resume_takes :
      (h : ℕ) (w : W) (t : ℕ)
      → suspends (api.resume_thread h w).1 t ≡ (
          if (api.resume_thread h w).0 == dword_max
          then suspends w t
          else suspends w t - (if target h w == t then 1 else 0))

-- No call failed and no thread was skipped.
pub record IsClean (n : ℕ) (r s : ThreadOpResult) : Type 0 where
  pub none_failed : s.failed ≡ r.failed
  pub none_skipped : s.attempted ≡ r.attempted + n

-- A call raises the attempts by at most one for each thread, and lowers no counter.
record Grows (n : ℕ) (r s : ThreadOpResult) : Type 0 where
  failed_up : r.failed ≤ s.failed
  attempted_within : s.attempted ≤ r.attempted + n

module _ {W : Type 0} (api : ThreadApi W) (call : ℕ → W → ℕ × W) where
  call_opened-Grows :
      (o : Opened) (r : ThreadOpResult) (w : W) → Grows 1 r (call_opened api call o r w).0
  unfolding call_opened
  call_opened-Grows (handle h) r w = ground arith
  call_opened-Grows (null code) r w = ground arith

  call_each-Grows :
      (tids : List ℕ) (r : ThreadOpResult) (w : W)
      → Grows (length tids) r (call_each api call tids r w).0
  unfolding call_each
  call_each-Grows [] r w = omega arith
  call_each-Grows (tid ∷ tids) r w =
      let o = (api.open_thread tid w).0 in
      let w' = (api.open_thread tid w).1 in
      let next = call_opened api call o r w' in
      omega (arith, call_opened-Grows o r w', call_each-Grows tids next.0 next.1)

-- A clean loop is a clean first step and a clean rest.
split-IsClean :
    (n : ℕ) (r s t : ThreadOpResult)
    → Grows 1 r s
    → Grows n s t
    → IsClean (suc n) r t
    → IsClean 1 r s × IsClean n s t
split-IsClean n r s t g h c = omega arith

module _ {W : Type 0} (api : ThreadApi W) (laws : ThreadLaws api) where
  abbrev once : ℕ → ℕ → ℕ
  once tid t = if tid == t then 1 else 0

  -- One thread of the loop: opened, called without failure, and closed.
  suspend_opened_adds :
      (o : Opened) (r : ThreadOpResult) (w : W) (tid t : ℕ)
      → ((h : ℕ) → o ≡ handle h → laws.target h w ≡ tid)
      → IsClean 1 r (call_opened api api.suspend_thread o r w).0
      → laws.suspends (call_opened api api.suspend_thread o r w).1 t
        ≡ laws.suspends w t + once tid t
  unfolding call_opened
  suspend_opened_adds (handle h) r w tid t target clean =
      ground
        (arith, target h, laws.close_keeps h (api.suspend_thread h w).1 t, laws.suspend_adds h w t)
  suspend_opened_adds (null code) r w tid t target clean = ground arith

  resume_opened_takes :
      (o : Opened) (r : ThreadOpResult) (w : W) (tid t : ℕ)
      → ((h : ℕ) → o ≡ handle h → laws.target h w ≡ tid)
      → IsClean 1 r (call_opened api api.resume_thread o r w).0
      → laws.suspends (call_opened api api.resume_thread o r w).1 t ≡ laws.suspends w t - once tid t
  unfolding call_opened
  resume_opened_takes (handle h) r w tid t target clean =
      ground
        (arith, target h, laws.close_keeps h (api.resume_thread h w).1 t, laws.resume_takes h w t)
  resume_opened_takes (null code) r w tid t target clean = ground arith

  suspend_each_adds :
      (tids : List ℕ) (r : ThreadOpResult) (w : W) (t : ℕ)
      → IsClean (length tids) r (call_each api api.suspend_thread tids r w).0
      → laws.suspends (call_each api api.suspend_thread tids r w).1 t
        ≡ laws.suspends w t + count t tids
  unfolding call_each
  suspend_each_adds [] r w t clean = omega arith
  suspend_each_adds (tid ∷ tids) r w t clean =
      let o = (api.open_thread tid w).0 in
      let w' = (api.open_thread tid w).1 in
      let next = call_opened api api.suspend_thread o r w' in
      let (first, rest) =
        split-IsClean (length tids) r next.0 _ (call_opened-Grows api api.suspend_thread o r w')
          (call_each-Grows api api.suspend_thread tids next.0 next.1) clean in
      omega (
        arith,
        suspend_each_adds tids next.0 next.1 t rest,
        suspend_opened_adds o r w' tid t (laws.open_target tid w) first,
        laws.open_keeps tid w t,
      )

  resume_each_takes :
      (tids : List ℕ) (r : ThreadOpResult) (w : W) (t : ℕ)
      → IsClean (length tids) r (call_each api api.resume_thread tids r w).0
      → laws.suspends (call_each api api.resume_thread tids r w).1 t
        ≡ laws.suspends w t - count t tids
  unfolding call_each
  resume_each_takes [] r w t clean = omega arith
  resume_each_takes (tid ∷ tids) r w t clean =
      let o = (api.open_thread tid w).0 in
      let w' = (api.open_thread tid w).1 in
      let next = call_opened api api.resume_thread o r w' in
      let (first, rest) =
        split-IsClean (length tids) r next.0 _ (call_opened-Grows api api.resume_thread o r w')
          (call_each-Grows api api.resume_thread tids next.0 next.1) clean in
      omega (
        arith,
        resume_each_takes tids next.0 next.1 t rest,
        resume_opened_takes o r w' tid t (laws.open_target tid w) first,
        laws.open_keeps tid w t,
      )

  -- Let a process be suspended and then resumed, with the same threads in both snapshots, none of
  -- them failing or skipped in either pass. Then every thread of the system has the suspend count
  -- that it had before: those of the process run again, and those that someone else had suspended
  -- stay suspended.
  pub suspend-resume :
      (pid : ℕ) (w : W)
      → let tids = (enumerate_thread_ids api pid w).0 in
        let s = suspend_all_threads api pid w in
        let r = resume_all_threads api pid s.1 in
        (enumerate_thread_ids api pid s.1).0 ≡ tids
        → IsClean (length tids) no_result s.0
        → IsClean (length tids) no_result r.0
        → (t : ℕ) → laws.suspends r.1 t ≡ laws.suspends w t
  unfolding suspend_all_threads resume_all_threads
  suspend-resume pid w same clean_s clean_r t =
      let e = enumerate_thread_ids api pid w in
      let s = suspend_all_threads api pid w in
      let f = enumerate_thread_ids api pid s.1 in
      let r = resume_all_threads api pid s.1 in
      let clean = subst (λ n. IsClean n no_result r.0) (ap length (sym same)) clean_r in
      omega (
        arith,
        suspend_each_adds e.0 no_result e.1 t clean_s,
        resume_each_takes f.0 no_result f.1 t clean,
        ap (count t) same,
        laws.snapshot_keeps w t,
        laws.snapshot_keeps s.1 t,
      )
