-- ===== src/Examples/Queue.antt =====
-- LockFreeCircleQueue.h at concrete inputs.
use ranking_server.Base.{ℕ, ◌+◌, ◌^◌, ◌<◌, ◌≡◌, refl, List, [], ◌∷◌, ◌++◌, true, false, arith}
use ranking_server.Ring.{Ring, printed}
use ranking_server.Ring.Bounds.{IsValid, in_bounds}
use ranking_server.Ring.Refine.{Call, pushes, pops, pushed, popped, replies, replies_refine}
use ranking_server.Ring.Atomic.{
  Turn, call_push, run_pusher, call_pop, run_popper, run, push_step, pop_step, load_input,
  load_output, returned,
}
use ranking_server.Ring.Atomic
use ranking_server.Ring.Atomic.Spsc.{start, run-delivered}
use ranking_server.Ring.Atomic.Race.{push_duel, lockstep, push_race}

-- 8, then 9, round the end of the storage.
abbrev wrapped : Ring ℕ
wrapped = record { max_size = 4; input = 1; output = 3; buffer = 9 ∷ 5 ∷ 6 ∷ 8 ∷ [] }

wrapped-IsValid : IsValid wrapped
wrapped-IsValid = omega arith

printed-wrapped : printed 0 wrapped ≡ 8 ∷ 9 ∷ []
printed-wrapped = refl

abbrev calls : List (Call ℕ)
calls = pushes 1 ∷ pushes 2 ∷ pops ∷ pops ∷ pops ∷ pops ∷ []

in_bounds_example : (1 + 1 < 2 ^ 31) × (3 + 1 < 2 ^ 31) × (1 < 4) × (3 < 4)
in_bounds_example = in_bounds wrapped wrapped-IsValid

replies_refine_example :
    replies 0 wrapped calls
    ≡ pushed true ∷ pushed false ∷ popped 8 ∷ popped 9 ∷ popped 1 ∷ popped 0 ∷ []
replies_refine_example = replies_refine 0 calls wrapped wrapped-IsValid

-- A push that starts, a pop that finds the queue empty, the rest of the push, and a pop.
abbrev schedule : List (Turn ℕ)
schedule =
    call_push 7
    ∷ run_pusher
    ∷ run_pusher
    ∷ call_pop
    ∷ run_popper
    ∷ run_popper
    ∷ run_pusher
    ∷ run_pusher
    ∷ call_pop
    ∷ run_popper
    ∷ run_popper
    ∷ run_popper
    ∷ run_popper
    ∷ []

abbrev after_schedule : Atomic.System ℕ
after_schedule = run 0 (start 0 3) schedule

run-delivered_example :
    after_schedule.sent ≡ after_schedule.received ++ printed 0 after_schedule.ring
run-delivered_example = run-delivered 0 3 schedule (omega arith) (omega arith)

push_race_example :
    let (r', p, q) = push_duel wrapped (load_input 1) (load_input 2) lockstep in
    (p ≡ returned true) × (q ≡ returned true) × (printed 0 r' ≡ 8 ∷ 9 ∷ 2 ∷ [])
push_race_example = push_race 0 wrapped 1 2 wrapped-IsValid (omega arith)
