-- ===== src/Scan/Pool/Safety.antt =====
-- The invariant of the pool, and the bound on how many analyses run at a time.
use native.Mathlib.Decide.{dec_lt}
use kubetidy.Base.{
  ℕ, suc, ◌-◌, ◌≤◌, ◌<◌, ◌≡◌, refl, sym, Bool, true, false, some, List, [], ◌∷◌, ◌++◌, arith,
}
use kubetidy.Scan.Pool.{
  Phase, waiting, running, written, numbered, told, released, finished, Pool, scan_workers, update,
  start, moved, launched, wrote, counted, reported, gave_back, Step, launch, write, count, skip,
  report, release, finish, Reach, here, next,
}
use kubetidy.Scan.Pool.Totals.{total, total-update, total_zero, holds, remaining}

module _ {R : Type 0} (n : ℕ) (notify : Bool) (analyze : ℕ → R) where
  -- Whether the slot of a goroutine is written.
  abbrev pub has_written : Phase → Bool
  has_written waiting = false
  has_written running = false
  has_written _ = true

  -- Launched goroutines are those below `next`, the semaphore counts its holders, and a written slot
  -- has the analysis of its workload.
  pub record IsConsistent (s : Pool R) : Type 0 where
    pub within : s.next ≤ n
    pub later : (i : ℕ) → s.next ≤ i → s.phase i ≡ waiting
    pub earlier : (i : ℕ) → i < s.next → 0 < 6 - remaining (s.phase i)
    pub held : s.sem ≡ total holds s.phase n
    pub bounded : s.sem ≤ scan_workers
    pub filled : (i : ℕ) → has_written (s.phase i) ≡ true → s.slots i ≡ some (analyze i)

  start-IsConsistent : IsConsistent start
  unfolding start holds
  start-IsConsistent = record {
    within = omega arith;
    later = λ i h. refl;
    earlier = λ i h. absurd (omega arith);
    held = sym (total_zero holds (λ i. waiting) n (λ i h. refl));
    bounded = omega arith;
    filled = λ i h. absurd (ground arith);
  }

  -- What has left the first phase is launched.
  pub launched-lt : (s : Pool R) (i : ℕ) → IsConsistent s → remaining (s.phase i) < 6 → i < s.next
  unfolding remaining
  launched-lt s i h r = elim (dec_lt i s.next) [
    | yes lt ↦ lt
    | no ge ↦ absurd (ground (arith, h.later i (omega arith)))
  ]

  -- A move of a launched goroutine that keeps its place in the semaphore and its slot.
  moved-IsConsistent :
      (s : Pool R) (i : ℕ) (p : Phase)
      → IsConsistent s
      → remaining (s.phase i) < 6
      → remaining p < 6
      → holds p ≡ holds (s.phase i)
      → (has_written p ≡ true → has_written (s.phase i) ≡ true)
      → IsConsistent (moved s i p)
  unfolding moved update
  moved-IsConsistent s i p h r q k v =
      let lt = launched-lt s i h r in
      record {
        within = h.within;
        later = λ j l. ground (arith, h.later j l);
        earlier = λ j l. ground (arith, h.earlier j l);
        held = ground (arith, total-update holds s.phase i p n (omega (arith, h.within)), h.held);
        bounded = h.bounded;
        filled = λ j t. grind (arith, v, h.filled j);
      }

  launched-IsConsistent :
      (s : Pool R) → s.next < n → s.sem < scan_workers → IsConsistent s → IsConsistent (launched s)
  unfolding launched moved update holds remaining
  launched-IsConsistent s l b h = record {
    within = omega arith;
    later = λ j k. ground (arith, h.later j);
    earlier = λ j k. ground (arith, h.earlier j);
    held = ground (arith, total-update holds s.phase s.next running n l, h.held, h.later s.next);
    bounded = omega arith;
    filled = λ j t. grind (arith, h.filled j);
  }

  wrote-IsConsistent :
      (s : Pool R) (i : ℕ)
      → s.phase i ≡ running
      → IsConsistent s
      → IsConsistent (wrote s i (analyze i))
  unfolding wrote moved update holds remaining
  wrote-IsConsistent s i e h =
      let lt = launched-lt s i h (rw e (omega arith)) in
      record {
        within = h.within;
        later = λ j k. ground (arith, h.later j k);
        earlier = λ j k. ground (arith, h.earlier j k);
        held =
            ground
              (arith, total-update holds s.phase i written n (omega (arith, h.within)), h.held, e);
        bounded = h.bounded;
        filled = λ j t. grind (arith, h.filled j);
      }

  gave_back-IsConsistent :
      (s : Pool R) (i : ℕ) → s.phase i ≡ told → IsConsistent s → IsConsistent (gave_back s i)
  unfolding gave_back moved update holds remaining
  gave_back-IsConsistent s i e h =
      let lt = launched-lt s i h (rw e (omega arith)) in
      record {
        within = h.within;
        later = λ j k. ground (arith, h.later j k);
        earlier = λ j k. ground (arith, h.earlier j k);
        held =
            ground
              (arith, total-update holds s.phase i released n (omega (arith, h.within)), h.held, e);
        bounded = omega (arith, h.bounded);
        filled = λ j t. grind (arith, h.filled j, h.filled i);
      }

  -- The invariant does not read the counter nor the reports.
  retold-IsConsistent :
      (s : Pool R) (d : ℕ) (ks : List ℕ)
      → IsConsistent s
      → IsConsistent (record s { done = d; reports = ks })
  retold-IsConsistent s d ks h = record {
    within = h.within;
    later = h.later;
    earlier = h.earlier;
    held = h.held;
    bounded = h.bounded;
    filled = h.filled;
  }

  -- A launched goroutine that holds its place and has written goes on.
  told-IsConsistent :
      (s : Pool R) (i : ℕ) (p q : Phase)
      → s.phase i ≡ p
      → remaining p < 6
      → remaining q < 6
      → holds q ≡ holds p
      → has_written p ≡ true
      → IsConsistent s
      → IsConsistent (moved s i q)
  told-IsConsistent s i p q e a b k v h =
      moved-IsConsistent s i q h (rw e a) b (rw e k) (λ u. rw e v)

  Step-IsConsistent : {s t : Pool R} → Step n notify analyze s t → IsConsistent s → IsConsistent t
  unfolding counted reported holds remaining
  Step-IsConsistent (launch l b) h = launched-IsConsistent _ l b h
  Step-IsConsistent (write i e) h = wrote-IsConsistent _ i e h
  Step-IsConsistent {s} (count i u e) h =
      retold-IsConsistent (moved s i (numbered (suc s.done))) (suc s.done) s.reports (
        told-IsConsistent s i written (numbered (suc s.done)) e (omega arith) (omega arith) refl
          refl h)
  Step-IsConsistent (skip i u e) h =
      moved-IsConsistent _ i told h (rw e (omega arith)) (omega arith) (rw e refl) (λ v. rw e refl)
  Step-IsConsistent {s} (report i k e) h =
      retold-IsConsistent (moved s i told) s.done (s.reports ++ (k ∷ []))
        (told-IsConsistent s i (numbered k) told e (omega arith) (omega arith) refl refl h)
  Step-IsConsistent (release i e) h = gave_back-IsConsistent _ i e h
  Step-IsConsistent (finish i e) h =
      moved-IsConsistent _ i finished h (rw e (omega arith)) (omega arith) (rw e refl)
        (λ v. rw e refl)

  pub Reach-IsConsistent : {s : Pool R} → Reach n notify analyze s → IsConsistent s
  Reach-IsConsistent here = start-IsConsistent
  Reach-IsConsistent (next r st) = Step-IsConsistent st (Reach-IsConsistent r)

  -- In every state that the pool can reach, the semaphore counts the goroutines that hold a place in
  -- it, and these are at most twelve.
  pub busy-le :
      {s : Pool R}
      → Reach n notify analyze s
      → (s.sem ≡ total holds s.phase n) × (total holds s.phase n ≤ scan_workers)
  busy-le r = let h = Reach-IsConsistent r in (h.held, omega (arith, h.held, h.bounded))
