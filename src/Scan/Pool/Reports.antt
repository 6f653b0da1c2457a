-- ===== src/Scan/Pool/Reports.antt =====
-- The calls of `Progress`: which numbers they are given.
use kubetidy.Base.{
  ltb, leb, ◌==◌, if◌then◌else◌, ℕ, suc, ◌+◌, ◌-◌, ◌<◌, ◌≡◌, refl, sym, true, ◌&&◌, Option, some,
  List, [], ◌∷◌, ◌++◌, arith,
}
use kubetidy.Scan.Pool.{
  Phase, waiting, running, written, numbered, told, released, finished, Pool, update, start, moved,
  launched, wrote, counted, reported, gave_back, Step, launch, write, count, skip, report, release,
  finish, Reach, here, next, IsOver,
}
use kubetidy.Scan.Pool.Safety.{IsConsistent, launched-lt, Reach-IsConsistent}
use kubetidy.Scan.Pool.Totals.{total, total-update, total_zero, total_one, remaining, has_number}

abbrev pub occurrences : ℕ → List ℕ → ℕ
occurrences k [] = 0
occurrences k (j ∷ js) = (if j == k then 1 else 0) + occurrences k js

occurrences-append :
    (k j : ℕ) (js : List ℕ)
    → occurrences k (js ++ (j ∷ [])) ≡ occurrences k js + (if j == k then 1 else 0)
occurrences-append k j [] = omega arith
occurrences-append k j (i ∷ js) = omega (arith, occurrences-append k j js)

-- Once for each number that the counter has passed.
abbrev pub once_up_to : ℕ → ℕ → ℕ
once_up_to d k = if ltb 0 k && leb k d then 1 else 0

-- A goroutine has taken the number and not reported it.
holds_number : ℕ → Phase → ℕ
holds_number k (numbered j) = if j == k then 1 else 0
holds_number k _ = 0

module _ {R : Type 0} (n : ℕ) (analyze : ℕ → R) where
  -- The counter counts the goroutines with a number, and each number that it passed is reported once
  -- or about to be.
  record IsNumbered (s : Pool R) : Type 0 where
    counter : s.done ≡ total has_number s.phase n
    each :
        (k : ℕ) → occurrences k s.reports + total (holds_number k) s.phase n ≡ once_up_to s.done k

  start-IsNumbered : IsNumbered start
  unfolding start has_number holds_number
  start-IsNumbered = record {
    counter = sym (total_zero has_number (λ i. waiting) n (λ i h. refl));
    each = λ k. ground (arith, total_zero (holds_number k) (λ i. waiting) n (λ i h. refl));
  }

  -- A move that takes no number and gives none away.
  moved-IsNumbered :
      (s : Pool R) (i : ℕ) (p q : Phase)
      → s.phase i ≡ p
      → i < n
      → has_number q ≡ has_number p
      → ((k : ℕ) → holds_number k q ≡ holds_number k p)
      → IsNumbered s
      → IsNumbered (moved s i q)
  unfolding moved
  moved-IsNumbered s i p q e l c a h = record {
    counter = ground (arith, e, c, h.counter, total-update has_number s.phase i q n l);
    each = λ k. ground (arith, e, a k, h.each k, total-update (holds_number k) s.phase i q n l);
  }

  counted-IsNumbered :
      (s : Pool R) (i : ℕ) → s.phase i ≡ written → i < n → IsNumbered s → IsNumbered (counted s i)
  unfolding counted moved has_number holds_number
  counted-IsNumbered s i e l h =
      let p = numbered (suc s.done) in
      record {
        counter = ground (arith, e, h.counter, total-update has_number s.phase i p n l);
        each = λ k. ground (arith, e, h.each k, total-update (holds_number k) s.phase i p n l);
      }

  reported-IsNumbered :
      (s : Pool R) (i k : ℕ)
      → s.phase i ≡ numbered k
      → i < n
      → IsNumbered s
      → IsNumbered (reported s i k)
  unfolding reported moved has_number holds_number
  reported-IsNumbered s i j e l h = record {
    counter = ground (arith, e, h.counter, total-update has_number s.phase i told n l);
    each = λ k. ground (
      arith,
      e,
      h.each k,
      occurrences-append k j s.reports,
      total-update (holds_number k) s.phase i told n l,
    );
  }

  -- The numbers do not depend on the slots, the semaphore and the main loop.
  beside-IsNumbered :
      (s : Pool R) (x m : ℕ) (slots : ℕ → Option R)
      → IsNumbered s
      → IsNumbered (record s { next = x; sem = m; slots = slots })
  beside-IsNumbered s x m slots h = record { counter = h.counter; each = h.each }

  -- A goroutine in a phase after the first is one of the n.
  lt_of_phase :
      (s : Pool R) (i : ℕ) (p : Phase)
      → s.phase i ≡ p
      → remaining p < 6
      → IsConsistent n true analyze s
      → i < n
  lt_of_phase s i p e a c =
      let l = launched-lt n true analyze s i c (rw e a) in omega (arith, c.within)

  Step-IsNumbered :
      {s t : Pool R}
      → Step n true analyze s t
      → IsConsistent n true analyze s
      → IsNumbered s
      → IsNumbered t
  unfolding launched wrote gave_back moved has_number holds_number remaining
  Step-IsNumbered {s} (launch l b) c h =
      beside-IsNumbered (moved s s.next running) (suc s.next) (suc s.sem) s.slots (
        moved-IsNumbered s s.next waiting running (c.later s.next (omega arith)) l refl (λ k. refl)
          h)
  Step-IsNumbered {s} (write i e) c h =
      beside-IsNumbered (moved s i written) s.next s.sem (update s.slots i (some (analyze i))) (
        moved-IsNumbered s i running written e (lt_of_phase s i running e (omega arith) c) refl
          (λ k. refl) h)
  Step-IsNumbered {s} (count i u e) c h =
      counted-IsNumbered s i e (lt_of_phase s i written e (omega arith) c) h
  Step-IsNumbered {s} (skip i u e) c h = absurd (ground arith)
  Step-IsNumbered {s} (report i k e) c h =
      reported-IsNumbered s i k e (lt_of_phase s i (numbered k) e (omega arith) c) h
  Step-IsNumbered {s} (release i e) c h =
      beside-IsNumbered (moved s i released) s.next (s.sem - 1) s.slots (
        moved-IsNumbered s i told released e (lt_of_phase s i told e (omega arith) c) refl
          (λ k. refl) h)
  Step-IsNumbered {s} (finish i e) c h =
      moved-IsNumbered s i released finished e (lt_of_phase s i released e (omega arith) c) refl
        (λ k. refl) h

  Reach-IsNumbered : {s : Pool R} → Reach n true analyze s → IsNumbered s
  Reach-IsNumbered here = start-IsNumbered
  Reach-IsNumbered (next r st) =
      Step-IsNumbered st (Reach-IsConsistent n true analyze r) (Reach-IsNumbered r)

  -- When the pool is over, `Progress` was called with each of the numbers 1 to n exactly once, and
  -- with no other, in whatever order the goroutines came to report.
  pub reports_once :
      {s : Pool R}
      → Reach n true analyze s
      → IsOver n true analyze s
      → (k : ℕ) → occurrences k s.reports ≡ once_up_to n k
  unfolding has_number holds_number
  reports_once {s} r o k =
      let h = Reach-IsNumbered r in
      let all = total_one has_number s.phase n (λ i l. rw (o.all_done i l) refl) in
      let none_left = total_zero (holds_number k) s.phase n (λ i l. rw (o.all_done i l) refl) in
      ground (arith, h.counter, h.each k)
