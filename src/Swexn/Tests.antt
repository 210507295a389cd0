-- ===== src/Swexn/Tests.antt =====
-- Tests of faults at concrete registers, with a process of one private copy-on-write page.
use p.Base.{ℕ, ◌+◌, ◌-◌, ◌^◌, ◌≡◌, refl, true, false, ◌==◌, if◌then◌else◌, [], update, arith}
use p.Frames.{ok, user_mem_start}
use p.Vm.{Vm}
use p.Vm.Entry.{entry_default, present, user_mode, read_write, cow_mode}
use p.Vm.Cow.{with_table}
use p.Vm.Fault.{is_addr_cow_lem, handle_cow_private}
use p.Swexn.Defs.{Regs, segsel_user_ds, enter_with_code, leave, syscall_return, validate_uregs}
use p.Swexn.Handlers.{Swexn, value, handle_fault, page_fault_handler, swexn}
use p.Swexn.Resume.{handle_fault-swexn}
use p.Swexn.Faults.{page_fault_handler-leave, handle_fault-handle_fault}

abbrev regs : Regs
regs = record {
  eax = 10;
  ecx = 11;
  edx = 12;
  ebx = 13;
  ebp = 14;
  esi = 15;
  edi = 16;
  eip = 0x1000000;
  cs = 0x23;
  eflags = 0x202;
  esp = 0xc0000000;
  ss = 0x2b;
}

abbrev task : Swexn
task = record {
  k_stack = λ n. n;
  eip = 0x1000400;
  swexn_args = 5;
  swexn_esp = 0x2000000;
  mem = λ a. 0;
  exit_status = 0;
  vanished = false;
}

abbrev words : ℕ → ℕ → ℕ
words page i =
    if page == 4096
    then if i == 4 then 8192 + 7 else entry_default
    else if i == 0
    then user_mem_start + 4096 + (present + user_mode + cow_mode)
    else entry_default

abbrev memory : Vm
memory = record {
  frames = record { free_frames_arr = λ i. 0; free_list_head = 0 };
  frame_ref_count = λ i. 1;
  word = words;
  page = λ _ i. i;
  cr3 = 4096;
  heap = [];
}

handle_fault-swexn_example :
    let f = handle_fault 14 7 (record task { k_stack = enter_with_code 6 regs task.k_stack }) in
    let t = swexn 0x2000000 0x1000400 5 (0x2000000 - 80) (record f { k_stack = λ n. 0 }) in
    (t.0 ≡ value 10) × (syscall_return 10 t.1.k_stack ≡ record regs { ss = segsel_user_ds })
unfolding validate_uregs
handle_fault-swexn_example =
    handle_fault-swexn 14 7 6 0x2000000 0x1000400 5 regs (λ n. 0) task (omega arith) (omega arith)
      (omega arith) (omega arith) refl

page_fault_handler-leave_example :
    let f = record task { k_stack = enter_with_code 7 regs task.k_stack } in
    (page_fault_handler 8 user_mem_start memory f
      ≡ ok (
        with_table memory 8192
            (update (words 8192) 0 (user_mem_start + 4096 + (present + user_mode + read_write))),
        f,
      ))
    × (leave 6 f.k_stack ≡ record regs { ecx = 7 })
page_fault_handler-leave_example =
    page_fault_handler-leave 8 user_mem_start 7 regs memory memory
      (with_table memory 8192
        (update (words 8192) 0 (user_mem_start + 4096 + (present + user_mode + read_write))))
      task (is_addr_cow_lem user_mem_start memory (omega arith))
      (handle_cow_private 8 user_mem_start memory (ground arith) (ground arith) refl)

-- A page fault, and a division by 0 in the handler.
handle_fault-handle_fault_example :
    let f = handle_fault 14 9 (record task { k_stack = enter_with_code 7 regs task.k_stack }) in
    let g = handle_fault 0 9 (record f { k_stack = λ n. 0 }) in
    (leave 6 f.k_stack ≡ record regs { ecx = 7; eip = 0x1000400; esp = 0x1ffffa4 })
    × (f.vanished ≡ false)
    × (g.vanished ≡ true)
    × (g.exit_status ≡ 2 ^ 32 - 2)
handle_fault-handle_fault_example =
    handle_fault-handle_fault 14 9 7 0 9 0x1ffffa4 regs (λ n. 0) task (omega arith) (omega arith)
