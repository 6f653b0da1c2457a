-- ===== src/Scan/Pool.antt =====
-- The worker pool of `Run` in internal/scan/scan.go: which states the goroutines and the main loop
-- can reach together. Every constructor of Step is one indivisible action of one of them, and any
-- interleaving is a sequence of steps.
pub mod Totals
pub mod Safety
pub mod Progress
pub mod Reports
pub mod Refinement
mod Tests
use kubetidy.Base.{
  ◌==◌, if◌then◌else◌, ℕ, suc, ◌-◌, ◌<◌, ◌≡◌, Bool, true, false, Option, none, some, List, [], ◌∷◌,
  ◌++◌,
}

-- Where the goroutine of one workload stands: not launched, analysing, its slot written, its number
-- taken from the counter, its progress reported, its place in the semaphore given back, and done
-- for the wait group.
pub data Phase : Type 0 where
  waiting running written : Phase
  numbered : ℕ → Phase
  told released finished : Phase

-- The slots, the counter and the semaphore that the goroutines share, the next workload that the
-- main loop launches, and the calls of `Progress` so far.
pub record Pool (R : Type 0) : Type 0 where
  pub next : ℕ
  pub sem : ℕ
  pub phase : ℕ → Phase
  pub slots : ℕ → Option R
  pub done : ℕ
  pub reports : List ℕ

unfoldable pub scan_workers : ℕ
scan_workers = 12

unfoldable pub update : {A : Type 0} → (ℕ → A) → ℕ → A → ℕ → A
update f i v j = if j == i then v else f j

-- Nothing launched, every slot zero.
unfoldable pub start : {R : Type 0} → Pool R
start = record {
  next = 0;
  sem = 0;
  phase = λ i. waiting;
  slots = λ i. none;
  done = 0;
  reports = [];
}

module _ {R : Type 0} where
  -- One goroutine goes on to a phase.
  unfoldable pub moved : Pool R → ℕ → Phase → Pool R
  unfolding update
  moved s i p = record s { phase = update s.phase i p }

  -- `sem <- struct{}{}` and `go`
  unfoldable pub launched : Pool R → Pool R
  unfolding moved
  launched s = record (moved s s.next running) { next = suc s.next; sem = suc s.sem }

  -- `perWorkload[i] = …`
  unfoldable pub wrote : Pool R → ℕ → R → Pool R
  unfolding moved update
  wrote s i r = record (moved s i written) { slots = update s.slots i (some r) }

  -- `atomic.AddInt64(&done, 1)`
  unfoldable pub counted : Pool R → ℕ → Pool R
  unfolding moved
  counted s i = record (moved s i (numbered (suc s.done))) { done = suc s.done }

  -- `e.Progress`
  unfoldable pub reported : Pool R → ℕ → ℕ → Pool R
  unfolding moved
  reported s i k = record (moved s i told) { reports = s.reports ++ (k ∷ []) }

  -- `<-sem`
  unfoldable pub gave_back : Pool R → ℕ → Pool R
  unfolding moved
  gave_back s i = record (moved s i released) { sem = s.sem - 1 }

module _ {R : Type 0} (n : ℕ) (notify : Bool) (analyze : ℕ → R) where
  -- The deferred calls run last first: the semaphore before the wait group.
  pub data Step (s : Pool R) : Pool R → Type 0 where
    launch : s.next < n → s.sem < scan_workers → Step s (launched s)
    write : (i : ℕ) → s.phase i ≡ running → Step s (wrote s i (analyze i))
    count : (i : ℕ) → notify ≡ true → s.phase i ≡ written → Step s (counted s i)
    skip : (i : ℕ) → notify ≡ false → s.phase i ≡ written → Step s (moved s i told)
    report : (i k : ℕ) → s.phase i ≡ numbered k → Step s (reported s i k)
    release : (i : ℕ) → s.phase i ≡ told → Step s (gave_back s i)
    finish : (i : ℕ) → s.phase i ≡ released → Step s (moved s i finished)

  pub data Reach : Pool R → Type 0 where
    here : Reach start
    next : {s t : Pool R} → Reach s → Step s t → Reach t

  -- `wg.Wait()` returns: all are launched and done.
  pub record IsOver (s : Pool R) : Type 0 where
    pub launched_all : s.next ≡ n
    pub all_done : (i : ℕ) → i < n → s.phase i ≡ finished
