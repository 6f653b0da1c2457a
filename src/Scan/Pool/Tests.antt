-- ===== src/Scan/Pool/Tests.antt =====
-- A run of the pool with two workloads, whose goroutines interleave.
use kubetidy.Base.{ℕ, ◌+◌, ◌*◌, ◌≤◌, ◌≡◌, refl, ◌⊎◌, true, arith}
use kubetidy.Scan.Pool.{
  finished, Pool, scan_workers, update, start, moved, launched, wrote, counted, reported, gave_back,
  Step, launch, write, count, report, release, finish, Reach, here, next, IsOver,
}
use kubetidy.Scan.Pool.Progress.{steps, steps-le, IsOver-or_steps}
use kubetidy.Scan.Pool.Reports.{occurrences, once_up_to, reports_once}
use kubetidy.Scan.Pool.Safety.{busy-le}
use kubetidy.Scan.Pool.Totals.{total, holds, remaining}

abbrev tens : ℕ → ℕ
tens i = 10 * i

-- The second goroutine takes the first number and reports last.
abbrev after_launch : Pool ℕ
after_launch = launched (launched start)

abbrev after_write : Pool ℕ
after_write = wrote (wrote after_launch 1 10) 0 0

abbrev after_count : Pool ℕ
after_count = counted (counted after_write 1) 0

abbrev after_report : Pool ℕ
after_report = reported (reported after_count 0 2) 1 1

abbrev after_release : Pool ℕ
after_release = gave_back (gave_back after_report 1) 0

abbrev last_state : Pool ℕ
last_state = moved (moved after_release 1 finished) 0 finished

reached : Reach 2 true tens last_state
unfolding start launched wrote counted reported gave_back moved update scan_workers
reached =
    next
      (next
        (next
          (next
            (next
              (next
                (next
                  (next
                    (next
                      (next
                        (next (next here (launch (omega arith) (omega arith)))
                          (launch (omega arith) (omega arith)))
                        (write 1 refl))
                      (write 0 refl))
                    (count 1 refl refl))
                  (count 0 refl refl))
                (report 0 2 refl))
              (report 1 1 refl))
            (release 1 refl))
          (release 0 refl))
        (finish 1 refl))
      (finish 0 refl)

over : IsOver 2 true tens last_state
unfolding start launched wrote counted reported gave_back moved update
over = record { launched_all = refl; all_done = λ i l. ground arith }

reports_once_example : occurrences 2 last_state.reports ≡ once_up_to 2 2
reports_once_example = reports_once 2 tens reached over 2

busy-le_example :
    (last_state.sem ≡ total holds last_state.phase 2)
    × (total holds last_state.phase 2 ≤ scan_workers)
busy-le_example = busy-le 2 true tens reached

steps-le_example : steps 2 true tens reached + total remaining last_state.phase 2 ≤ 6 * 2
steps-le_example = steps-le 2 true tens reached

launched_one : Reach 2 true tens (launched start)
unfolding start scan_workers
launched_one = next here (launch (omega arith) (omega arith))

IsOver-or_steps_example :
    IsOver 2 true tens (launched start) ⊎ ((t : Pool ℕ) × Step 2 true tens (launched start) t)
IsOver-or_steps_example = IsOver-or_steps 2 true tens launched_one
