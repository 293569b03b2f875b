-- ===== src/Examples/Race.antt =====
-- The theorems on interleaved appends, applied: a ring of two slots and two threads.
use ccnvme.Prelude.{◌≡◌, ◌+◌, arith, refl}
use ccnvme.Ring.{ring_count, ring_space, ring_next}
use ccnvme.Race.{
  outside, marked, tested, reserved, Shared, at_thread, Step, read_watermark, test_space,
  swap_watermark, swap_tail, free_head, FreshRun, stay, move,
}
use ccnvme.Race.Exclusive.{IsShared, idle_at, run-IsShared, run_progress, stale_swap-empties}

-- thread 0 has tested the space, and has reserved the slot
abbrev read : Shared
read = record (idle_at 0) { pc = at_thread 0 (marked 0) (λ i. outside) }

abbrev began : Shared
began = record read { pc = at_thread 0 (tested 0) read.pc }

abbrev took : Shared
took = record began { watermark = 1; pc = at_thread 0 (reserved 0) began.pc }

took-run : FreshRun 2 (idle_at 0) took
unfolding ring_space
took-run = move (idle_at 0) read took (read_watermark (idle_at 0) 0 refl) tt (
    move read began took (test_space read 0 0 refl (omega arith)) tt
      (move began took took (swap_watermark began 0 0 refl refl) (omega arith) (stay took)))

run-IsShared_example : IsShared 2 took
run-IsShared_example = run-IsShared 2 0 took (omega arith) (omega arith) took-run

run_progress_example : (u : Shared) × Step 2 took u × (u.tail ≡ ring_next 0 2)
run_progress_example = run_progress 2 0 took (omega arith) (omega arith) took-run (omega arith)

-- Thread 0 waits; thread 1 appends, a checkpoint frees the entry, and thread 1 appends again.
abbrev one_read : Shared
one_read = record began { pc = at_thread 1 (marked 0) began.pc }

abbrev one_tested : Shared
one_tested = record one_read { pc = at_thread 1 (tested 0) one_read.pc }

abbrev one_took : Shared
one_took = record one_tested { watermark = 1; pc = at_thread 1 (reserved 0) one_tested.pc }

abbrev one_done : Shared
one_done = record one_took { tail = 1; pc = at_thread 1 outside one_took.pc }

abbrev freed : Shared
freed = record one_done { head = 1 }

abbrev two_read : Shared
two_read = record freed { pc = at_thread 1 (marked 1) freed.pc }

abbrev two_tested : Shared
two_tested = record two_read { pc = at_thread 1 (tested 1) two_read.pc }

abbrev two_took : Shared
two_took = record two_tested { watermark = 0; pc = at_thread 1 (reserved 1) two_tested.pc }

abbrev lapped : Shared
lapped = record two_took { tail = 0; pc = at_thread 1 outside two_took.pc }

lapped-run : FreshRun 2 (idle_at 0) lapped
unfolding ring_space
lapped-run = move (idle_at 0) read lapped (read_watermark (idle_at 0) 0 refl) tt (
    move read began lapped (test_space read 0 0 refl (omega arith)) tt (
      move began one_read lapped (read_watermark began 1 refl) tt (
        move one_read one_tested lapped (test_space one_read 1 0 refl (omega arith)) tt (
          move one_tested one_took lapped (swap_watermark one_tested 1 0 refl refl) (omega arith) (
            move one_took one_done lapped (swap_tail one_took 1 0 refl refl) tt (
              move one_done freed lapped (free_head one_done (omega arith)) tt (
                move freed two_read lapped (read_watermark freed 1 refl) tt (
                  move two_read two_tested lapped (test_space two_read 1 1 refl (omega arith)) tt (
                    move two_tested two_took lapped (swap_watermark two_tested 1 1 refl refl)
                      (omega arith)
                      (move two_took lapped lapped (swap_tail two_took 1 1 refl refl) tt
                        (stay lapped)))))))))))

stale_swap-empties_example :
    (u : Shared) × Step 2 lapped u
    × (ring_count u.head u.watermark 2 ≡ 0)
    × (ring_count 1 0 2 + 1 ≡ 2)
unfolding ring_space
stale_swap-empties_example =
    stale_swap-empties 2 0 0 lapped (omega arith) (omega arith) lapped-run refl refl
