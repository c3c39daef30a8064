-- ===== src/Actuator/Threads/Counts.antt =====
-- The counters of `ThreadOpResult` (src/actuator/ThreadControl.cpp) add up.
use thread_haul_daemon.Base.{ℕ, ◌+◌, ◌≤◌, ◌≡◌, refl, List, [], ◌∷◌, arith, length}
use thread_haul_daemon.Actuator.Threads.{
  ThreadApi, ThreadOpResult, Opened, handle, null, no_result, call_opened, call_each,
  enumerate_thread_ids, suspend_all_threads, resume_all_threads,
}

pub record IsBalanced (n : ℕ) (r : ThreadOpResult) : Type 0 where
  pub total : r.attempted ≡ r.succeeded + r.failed
  pub within : r.attempted ≤ n

module _ {W : Type 0} (api : ThreadApi W) (call : ℕ → W → ℕ × W) where
  call_opened-IsBalanced :
      (o : Opened) (r : ThreadOpResult) (w : W) (n : ℕ)
      → IsBalanced n r
      → IsBalanced (n + 1) (call_opened api call o r w).0
  unfolding call_opened
  call_opened-IsBalanced (handle h) r w n b = ground arith
  call_opened-IsBalanced (null code) r w n b = ground arith

  pub call_each-IsBalanced :
      (tids : List ℕ) (r : ThreadOpResult) (w : W) (n : ℕ)
      → IsBalanced n r
      → IsBalanced (n + length tids) (call_each api call tids r w).0
  unfolding call_each
  call_each-IsBalanced [] r w n b = omega arith
  call_each-IsBalanced (tid ∷ tids) r w n b =
      let o = (api.open_thread tid w).0 in
      let w' = (api.open_thread tid w).1 in
      let next = call_opened api call o r w' in
      let ih =
        call_each-IsBalanced tids next.0 next.1 (n + 1) (call_opened-IsBalanced o r w' n b) in
      record { total = ih.total; within = omega (arith, ih.within) }

module _ {W : Type 0} (api : ThreadApi W) (pid : ℕ) (w : W) where
  -- Suspending or resuming a process counts each attempt once, as a success or as a failure, and
  -- makes at most one attempt for each thread of the snapshot.
  pub all_threads-IsBalanced :
      let n = length (enumerate_thread_ids api pid w).0 in
      IsBalanced n (suspend_all_threads api pid w).0 × IsBalanced n (resume_all_threads api pid w).0
  unfolding suspend_all_threads resume_all_threads
  all_threads-IsBalanced =
      let tids = (enumerate_thread_ids api pid w).0 in
      let w' = (enumerate_thread_ids api pid w).1 in
      let start : IsBalanced 0 no_result = record { total = refl; within = omega arith } in
      let s = call_each-IsBalanced api api.suspend_thread tids no_result w' 0 start in
      let r = call_each-IsBalanced api api.resume_thread tids no_result w' 0 start in
      (
        record { total = s.total; within = omega (arith, s.within) },
        record { total = r.total; within = omega (arith, r.within) },
      )
