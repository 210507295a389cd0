-- ===== src/Threads/Tests.antt =====
-- Tests of the table of threads and of yield at concrete tables.
use p.Base.{
  ℕ, ◌+◌, ◌≡◌, ◌∉◌, ◌==◌, if◌then◌else◌, true, [], ◌∷◌, refl, Option, none, some, update, arith,
}
use p.Sched.{Status}
use p.Sched.Invariant.{IsQueued, HasRunning}
use p.Threads.Defs.{
  ThreadMap, Lookup, kernel_threads_init, create_thread, add_thread_to_map, remove_thread_from_map,
  get_thread_from_id,
}
use p.Threads.Table.{Run, start, create, remove, get_thread_from_id-Run}
use p.Frames.{user_mem_start}
use p.Vm.{Vm, is_pointer_valid, is_memory_range_mapped, scan_pages, is_page_mapped}
use p.Vm.Entry.{entry_default, present, user_mode}
use p.Threads.Deschedule.{
  ThreadState, Ended, deschedule_handler, make_runnable_handler, deschedule_checked,
}
use p.Threads.Runnable.{asleep, awake, make_runnable-deschedule}

abbrev boot : ThreadMap
boot = kernel_threads_init (λ _. 7) (λ _. Status.waiting)

abbrev two_threads : ThreadMap
two_threads = create_thread 96 (create_thread 64 boot)

abbrev first_gone : ThreadMap
first_gone = remove_thread_from_map 1 two_threads

abbrev view : ℕ → Option ℕ
view = update (update (update (λ _. none) 1 (some 64)) 2 (some 96)) 1 none

first_gone-Run : Run first_gone view
unfolding kernel_threads_init create_thread add_thread_to_map
first_gone-Run =
    remove 1
      (create 96 (create 64 (start (λ _. 7) (λ _. Status.waiting)) (λ b. refl) (omega arith))
        (λ b. ground arith) (omega arith))
      (omega arith)

get_thread_from_id-Run_example : get_thread_from_id 2 first_gone ≡ Lookup.thread 96
get_thread_from_id-Run_example = get_thread_from_id-Run 2 first_gone-Run (omega arith)

-- A page of zeros.
abbrev memory : Vm
memory = record {
  frames = record { free_frames_arr = λ i. 0; free_list_head = 0 };
  frame_ref_count = λ i. 1;
  word = λ page i.
      if page == 4096
      then if i == 4 then 8192 + 7 else entry_default
      else if i == 0
      then user_mem_start + 4096 + (present + user_mode)
      else entry_default;
  page = λ frame i. 0;
  cr3 = 4096;
  heap = [];
}

zeros_valid : is_pointer_valid 2 user_mem_start 4 memory ≡ some true
unfolding is_pointer_valid is_memory_range_mapped scan_pages is_page_mapped
zeros_valid = refl

-- Thread 96 runs; thread 64 waits in the run queue.
abbrev busy : ThreadState
busy = record {
  map = first_gone;
  deschedule_cond_var = λ thr. awake;
  sched = record {
    status = λ t. if t == 96 then Status.running else Status.runnable;
    wake_time = λ t. 0;
    runnable_threads = 64 ∷ [];
    sleeping_threads = some [];
    curr = some 96;
    ticks = 0;
  };
}

abbrev descheduled : ThreadState
descheduled = record busy {
  deschedule_cond_var = λ thr. if thr == 96 then asleep 96 else awake;
  sched = record {
    status = λ t. if t == 96 then Status.descheduled else Status.running;
    wake_time = λ t. 0;
    runnable_threads = [];
    sleeping_threads = some [];
    curr = some 64;
    ticks = 0;
  };
}

found_96 : get_thread_from_id 2 first_gone ≡ Lookup.thread 96
found_96 = get_thread_from_id-Run 2 first_gone-Run (omega arith)

busy-IsQueued : IsQueued 1 busy.sched
busy-IsQueued = record {
  runq_once = ground arith;
  sleep_once = tt;
  sorted = tt;
  runq_status = λ t i. ground arith;
  sleep_status = λ t i. cc;
  idle_out = ground arith;
  idle_runs = λ e. ground arith;
}

make_runnable-deschedule_example :
    (waiting runnable : ThreadState) × (deschedule_handler 2 1 96 memory user_mem_start busy
      ≡ some (Ended.waits waiting))
    × (waiting.deschedule_cond_var 96 ≡ asleep 96)
    × (waiting.sched.status 96 ≡ Status.descheduled)
    × (96 ∉ waiting.sched.runnable_threads)
    × HasRunning waiting.sched
    × (make_runnable_handler 2 descheduled ≡ some (Ended.returned runnable))
    × (runnable.deschedule_cond_var 96 ≡ awake)
    × (runnable.sched.status 96 ≡ Status.runnable)
    × (runnable.sched.runnable_threads ≡ 96 ∷ [])
    × (make_runnable_handler 2 runnable ≡ some Ended.err_inval)
make_runnable-deschedule_example =
    make_runnable-deschedule 2 1 96 2 memory user_mem_start busy descheduled zeros_valid refl refl
      busy-IsQueued refl (omega arith) refl refl (omega arith) found_96

-- The word at `reject` is not 0.
rejected_run : deschedule_checked 1 96 (some true) 5 busy ≡ some (Ended.returned busy)
unfolding deschedule_checked
rejected_run = refl
