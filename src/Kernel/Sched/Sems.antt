-- ===== src/Kernel/Sched/Sems.antt =====
-- The counts of the semaphores.
use nju_oslab.Prelude.{
  ℕ, zero, suc, ◌-◌, ◌^◌, ◌≤◌, ◌<◌, ◌≡◌, refl, ◌∙◌, true, lt→ltb, eq→==, ne→==, update, ok, pure,
  ◌>>=◌, Returns, returns, Returns-mono, add32, sub32, arith,
}
use nju_oslab.Kernel.State.{Kernel, KernelM, Exit, back, sem_pool_size, sem_at, sem_put}
use nju_oslab.Kernel.Sched.{
  sem_assert, positive_int, e_success, sys_sem_open, sys_sem_post, sys_sem_wait, sem_wait_with,
}

-- The pool with the count of one semaphore set.
abbrev pub counted : Kernel → ℕ → ℕ → Kernel
counted s k count = record s { sem_pool = update s.sem_pool k count }

sem_assert-ok : (k : ℕ) → sem_assert k ≡ true
unfolding sem_assert
sem_assert-ok k = ground arith

sys_sem_post-ok :
    (k : ℕ) (s : Kernel)
    → k < sem_pool_size
    → sys_sem_post k s ≡ ok e_success (counted s k (add32 (s.sem_pool k) 1))
unfolding sys_sem_post sem_at sem_put
sys_sem_post-ok k s h = rw (sem_assert-ok k, lt→ltb k sem_pool_size h) refl

sys_sem_wait-ok :
    (fuel k : ℕ) (s : Kernel)
    → k < sem_pool_size
    → 0 < s.sem_pool k
    → sys_sem_wait fuel k s ≡ ok (back e_success) (counted s k (sub32 (s.sem_pool k) 1))
unfolding sys_sem_wait sem_wait_with sem_at sem_put
sys_sem_wait-ok fuel k s h p =
    rw (sem_assert-ok k, lt→ltb k sem_pool_size h, ne→== (s.sem_pool k) 0 (omega (arith, p))) refl

-- `n` waits of the semaphore in a row, without a call of the scheduler.
abbrev pub waits : ℕ → ℕ → ℕ → KernelM Exit
waits fuel k zero = pure (back e_success)
waits fuel k (suc n) = do _ ← sys_sem_wait fuel k; waits fuel k n

waits-Returns :
    (fuel k n count : ℕ) (s : Kernel)
    → k < sem_pool_size
    → n ≤ count
    → count < 2 ^ 31
    → s.sem_pool k ≡ count
    → Returns
        (λ e t. (e ≡ back e_success) × (t.sem_pool k ≡ count - n) × (t.user_pcbs ≡ s.user_pcbs))
        (waits fuel k n s)
waits-Returns fuel k zero count s h a b e = returns (refl, e ∙ omega arith, refl)
waits-Returns fuel k (suc n) count s h a b e = rw (sys_sem_wait-ok fuel k s h (omega (arith, e))) (
    Returns-mono
      (waits-Returns fuel k n (count - 1) (counted s k (sub32 (s.sem_pool k) 1)) h (omega arith)
        (omega arith) (rw (eq→== k k refl) (omega (arith, e))))
      (λ r t q. (q.0, q.1 ∙ omega arith, q.2)))

sys_sem_open-ok :
    (k value : ℕ) (s : Kernel)
    → k < sem_pool_size
    → 0 < value
    → value < 2 ^ 31
    → sys_sem_open k value s ≡ ok k (counted s k value)
unfolding sys_sem_open positive_int sem_put
sys_sem_open-ok k value s h p q =
    rw (sem_assert-ok k, lt→ltb 0 value p, lt→ltb value (2 ^ 31) q, lt→ltb k sem_pool_size h) refl

-- A semaphore of the pool opened with a value that is positive as an int lets that many waits
-- through: after n of them, n up to the value, the last answer is E_SUCCESS, the count is the
-- value less n, and no PCB has changed.
pub sys_sem_open-waits :
    (fuel k value n : ℕ) (s : Kernel)
    → k < sem_pool_size
    → 0 < value
    → value < 2 ^ 31
    → n ≤ value
    → Returns
        (λ e t. (e ≡ back e_success) × (t.sem_pool k ≡ value - n) × (t.user_pcbs ≡ s.user_pcbs))
        ((do _ ← sys_sem_open k value; waits fuel k n) s)
sys_sem_open-waits fuel k value n s h p q a =
    rw (sys_sem_open-ok k value s h p q)
      (waits-Returns fuel k n value (counted s k value) h a q (rw (eq→== k k refl) refl))

-- A post and a wait of a semaphore of the pool, its count below 2 ^ 32 - 1, leave its count as
-- it was: the wait answers E_SUCCESS at once, and no PCB has changed.
pub sys_sem_post-wait :
    (fuel k : ℕ) (s : Kernel)
    → k < sem_pool_size
    → s.sem_pool k < 2 ^ 32 - 1
    → Returns
        (λ e t. (e ≡ back e_success) × (t.sem_pool k ≡ s.sem_pool k) × (t.user_pcbs ≡ s.user_pcbs))
        ((do _ ← sys_sem_post k; sys_sem_wait fuel k) s)
sys_sem_post-wait fuel k s h b =
    let c : ℕ = add32 (s.sem_pool k) 1 in
    rw
      (
        sys_sem_post-ok k s h,
        sys_sem_wait-ok fuel k (counted s k c) h (rw (eq→== k k refl) (omega (arith, b))),
      )
      (returns (refl, rw (eq→== k k refl) (omega (arith, b)), refl))
