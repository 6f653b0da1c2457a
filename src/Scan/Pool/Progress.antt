-- ===== src/Scan/Pool/Progress.antt =====
-- The pool ends: no run is longer than six steps a workload, and none gets stuck before it is over.
use mathlib.Core.Path.{subst⁻¹}
use native.Mathlib.Decide.{dec_lt}
use kubetidy.Base.{
  Bool-cases, ℕ, zero, suc, ◌+◌, ◌*◌, ◌≤◌, ◌<◌, ◌≡◌, refl, ◌⊎◌, inl, inr, Bool, arith,
}
use kubetidy.Scan.Pool.{
  Phase, waiting, running, written, numbered, told, released, finished, Pool, scan_workers, start,
  moved, launched, wrote, counted, reported, gave_back, Step, launch, write, count, skip, report,
  release, finish, Reach, here, next, IsOver,
}
use kubetidy.Scan.Pool.Safety.{IsConsistent, launched-lt, Reach-IsConsistent}
use kubetidy.Scan.Pool.Totals.{total, total-update, total_zero, holds, remaining}

module _ {R : Type 0} (n : ℕ) (notify : Bool) (analyze : ℕ → R) where
  -- One move of a goroutine lessens what remains.
  moved-lt :
      (s : Pool R) (i : ℕ) (p : Phase)
      → IsConsistent n notify analyze s
      → i < n
      → remaining p < remaining (s.phase i)
      → total remaining (moved s i p).phase n < total remaining s.phase n
  unfolding moved
  moved-lt s i p h l d = omega (arith, total-update remaining s.phase i p n l)

  goes-lt :
      (s : Pool R) (i : ℕ) (p q : Phase)
      → s.phase i ≡ p
      → remaining p < 6
      → remaining q < remaining p
      → IsConsistent n notify analyze s
      → total remaining (moved s i q).phase n < total remaining s.phase n
  goes-lt s i p q e a d h =
      let l = launched-lt n notify analyze s i h (rw e a) in
      moved-lt s i q h (omega (arith, h.within)) (rw e d)

  Step-lt :
      {s t : Pool R}
      → Step n notify analyze s t
      → IsConsistent n notify analyze s
      → total remaining t.phase n < total remaining s.phase n
  unfolding launched wrote counted reported gave_back remaining
  Step-lt {s} (launch l b) h =
      moved-lt s s.next running h l (rw (h.later s.next (omega arith)) (omega arith))
  Step-lt {s} (write i e) h = goes-lt s i running written e (omega arith) (omega arith) h
  Step-lt {s} (count i u e) h =
      goes-lt s i written (numbered (suc s.done)) e (omega arith) (omega arith) h
  Step-lt {s} (skip i u e) h = goes-lt s i written told e (omega arith) (omega arith) h
  Step-lt {s} (report i k e) h = goes-lt s i (numbered k) told e (omega arith) (omega arith) h
  Step-lt {s} (release i e) h = goes-lt s i told released e (omega arith) (omega arith) h
  Step-lt {s} (finish i e) h = goes-lt s i released finished e (omega arith) (omega arith) h

  -- The number of steps of a run.
  abbrev pub steps : {s : Pool R} → Reach n notify analyze s → ℕ
  steps here = 0
  steps (next r st) = suc (steps r)

  total-waiting : (k : ℕ) → total remaining (λ i. waiting) k ≡ 6 * k
  unfolding remaining
  total-waiting zero = omega arith
  total-waiting (suc k) = omega (arith, total-waiting k)

  -- Every run of the pool from its start ends: it has at most six steps for each workload.
  pub steps-le :
      {s : Pool R} (r : Reach n notify analyze s) → steps r + total remaining s.phase n ≤ 6 * n
  unfolding start
  steps-le here = omega (arith, total-waiting n)
  steps-le (next r st) =
      omega (arith, steps-le r, Step-lt st (Reach-IsConsistent n notify analyze r))

  can_move :
      (s : Pool R) (i : ℕ) (p : Phase)
      → s.phase i ≡ p
      → (p ≡ waiting) ⊎ (p ≡ finished) ⊎ ((t : Pool R) × Step n notify analyze s t)
  can_move s i waiting e = inl refl
  can_move s i running e = inr (inr (wrote s i (analyze i), write i e))
  can_move s i written e = elim (Bool-cases notify) [
    | inl yes' ↦ inr (inr (counted s i, count i yes' e))
    | inr no' ↦ inr (inr (moved s i told, skip i no' e))
  ]
  can_move s i (numbered k) e = inr (inr (reported s i k, report i k e))
  can_move s i told e = inr (inr (gave_back s i, release i e))
  can_move s i released e = inr (inr (moved s i finished, finish i e))
  can_move s i finished e = inr (inl refl)

  abbrev Rests : Pool R → ℕ → Type 0
  Rests s i = (s.phase i ≡ waiting) ⊎ (s.phase i ≡ finished)

  Rests-below :
      (s : Pool R) (k : ℕ)
      → ((i : ℕ) → i < k → Rests s i)
      → Rests s k
      → (i : ℕ) → i < suc k
      → Rests s i
  Rests-below s k rest last i h = elim (dec_lt i k) [
    | yes lt ↦ rest i lt
    | no ge ↦ let same : i ≡ k = omega arith in subst⁻¹ (Rests s) same last
  ]

  -- Below any number, some goroutine can go on or all rest.
  some_move :
      (s : Pool R) (k : ℕ)
      → ((t : Pool R) × Step n notify analyze s t) ⊎ ((i : ℕ) → i < k → Rests s i)
  some_move s zero = inr (λ i h. absurd (omega arith))
  some_move s (suc k) = elim (some_move s k) [
    | inl m ↦ inl m
    | inr rest ↦ elim (can_move s k (s.phase k) refl) [
      | inl w ↦ inr (Rests-below s k rest (inl w))
      | inr (inl f) ↦ inr (Rests-below s k rest (inr f))
      | inr (inr m) ↦ inl m
    ]
  ]

  -- Where all rest, nobody holds a place in the semaphore.
  free_place :
      (s : Pool R)
      → IsConsistent n notify analyze s
      → ((i : ℕ) → i < n → Rests s i)
      → s.sem < scan_workers
  unfolding scan_workers holds
  free_place s h rest =
      let none_held =
        total_zero holds s.phase n
          (λ i l. elim (rest i l) [ inl w ↦ rw w refl | inr f ↦ rw f refl ]) in
      omega (arith, h.held, none_held)

  finished_launched :
      (s : Pool R)
      → IsConsistent n notify analyze s
      → (i : ℕ) → i < s.next
      → Rests s i
      → s.phase i ≡ finished
  unfolding remaining
  finished_launched s h i l (inl w) = absurd (ground (arith, h.earlier i l))
  finished_launched s h i l (inr f) = f

  -- No run is stuck: a state that the pool can reach is over, or has a next step.
  pub IsOver-or_steps :
      {s : Pool R}
      → Reach n notify analyze s
      → IsOver n notify analyze s ⊎ ((t : Pool R) × Step n notify analyze s t)
  IsOver-or_steps {s} r =
      let h = Reach-IsConsistent n notify analyze r in
      elim (some_move s n) [
        | inl m ↦ inr m
        | inr rest ↦ elim (dec_lt s.next n) [
          | yes lt ↦ inr (launched s, launch lt (free_place s h rest))
          | no ge ↦ inl (record {
            launched_all = omega (arith, h.within);
            all_done = λ i l. finished_launched s h i (omega (arith, h.within)) (rest i l);
          })
        ]
      ]
