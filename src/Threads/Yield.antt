-- ===== src/Threads/Yield.antt =====
-- What yield answers, against the abstract view of the table.
use p.Base.{
  ℕ, ◌-◌, ◌%◌, ◌^◌, ◌<◌, ◌≤◌, ◌≡◌, ◌≢◌, refl, ◌==◌, leb, Option, none, some, true, false, ≢→ne,
  arith,
}
use p.Sched.{Status}
use p.Threads.Defs.{ThreadMap, hashmap_size, looked_up, get_thread_from_id}
use p.Threads.Calls.{YieldCall, yield_to, yield_found, yield_handler}
use p.Threads.Table.{Run, get_thread_from_id-Run}

-- The answer that the abstract view calls for.
abbrev pub yield_answer : (ℕ → Status) → Option ℕ → YieldCall
yield_answer status none = YieldCall.err_inval
yield_answer status (some thr) = yield_to (status thr)

yield_found-looked_up :
    (status : ℕ → Status) (o : Option ℕ) → yield_found status (looked_up o) ≡ yield_answer status o
unfolding yield_found
yield_found-looked_up status none = refl
yield_found-looked_up status (some thr) = refl

-- After a run of the table as above, yield to an id below 2^31 returns ERR_INVAL when the id
-- names no thread, ERR_FAILURE when its thread is waiting or descheduled, and otherwise switches
-- to whichever thread the scheduler chooses.
yield_handler-Run :
    {s : ThreadMap} {m : ℕ → Option ℕ} (tid : ℕ)
    → Run s m
    → tid < 2 ^ 31
    → yield_handler tid s ≡ yield_answer s.status (m tid)
unfolding yield_handler
yield_handler-Run {s} {m} tid r small =
    let other : (tid == 2 ^ 32 - 1) ≡ false = ground arith in
    rw (other, get_thread_from_id-Run tid r small) (yield_found-looked_up s.status (m tid))

-- yield to a negative id other than -1 that is no multiple of the size of the table reads outside it.
yield_handler-outside :
    (tid : ℕ) (s : ThreadMap)
    → 2 ^ 31 ≤ tid
    → tid < 2 ^ 32 - 1
    → (2 ^ 32 - tid) % hashmap_size ≢ 0
    → yield_handler tid s ≡ YieldCall.fault
unfolding yield_handler get_thread_from_id yield_found
yield_handler-outside tid s negative other remainder =
    let not_all : (tid == 2 ^ 32 - 1) ≡ false = ground arith in
    let is_negative : leb (2 ^ 31) tid ≡ true = ground arith in
    let off : ((2 ^ 32 - tid) % hashmap_size == 0) ≡ false = ≢→ne _ _ remainder in
    rw (not_all, is_negative, off) refl
