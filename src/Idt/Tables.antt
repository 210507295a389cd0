-- ===== src/Idt/Tables.antt =====
-- The handlers and the tables in which they are installed. A handler is named by its symbol; the
-- linker gives its address.
use p.Base.{ℕ, Option, none, some, List, [], ◌∷◌}
use p.Idt.Defs.{IdtEntry, trap_gate, interrupt_gate, kernel_dpl, user_dpl, add_idt_entry}

pub data Handler : Type 0 where
  timer_handler keyboard_handler divide_error_handler page_fault_handler : Handler
  debug_exception_handler non_maskable_interrupt_handler breakpoint_handler : Handler
  overflow_handler bound_range_handler undefined_opcode_handler : Handler
  no_math_coprocessor_handler cso_handler invalid_tss_handler snp_handler ssf_handler : Handler
  gpf_handler math_fault_handler alignment_check_handler machine_check_handler : Handler
  floating_point_exp_handler gettid_handler print_handler fork_handler : Handler
  thread_fork_handler exec_handler set_status_handler halt_handler wait_handler : Handler
  vanish_handler new_pages_handler readline_handler remove_pages_handler yield_handler : Handler
  memory_check_handler sleep_handler deschedule_handler make_runnable_handler : Handler
  get_ticks_handler swexn_handler readfile_handler set_term_color_handler : Handler
  set_cursor_pos_handler get_cursor_pos_handler getchar_handler : Handler

-- The arguments of one call of `add_idt_entry`.
pub record Gate : Type 0 where
  pub handler : Handler
  pub num : ℕ
  pub kind : ℕ
  pub dpl : ℕ

-- TIMER_IDT_ENTRY
abbrev pub timer_gate : Gate
timer_gate = record {
  handler = Handler.timer_handler;
  num = 0x20;
  kind = interrupt_gate;
  dpl = kernel_dpl;
}

-- KEY_IDT_ENTRY
abbrev keyboard_gate : Gate
keyboard_gate = record {
  handler = Handler.keyboard_handler;
  num = 0x21;
  kind = trap_gate;
  dpl = kernel_dpl;
}

-- IDT_DE
abbrev divide_error_gate : Gate
divide_error_gate = record {
  handler = Handler.divide_error_handler;
  num = 0;
  kind = trap_gate;
  dpl = kernel_dpl;
}

-- IDT_DB
abbrev debug_exception_gate : Gate
debug_exception_gate = record {
  handler = Handler.debug_exception_handler;
  num = 1;
  kind = trap_gate;
  dpl = kernel_dpl;
}

-- IDT_NMI
abbrev non_maskable_interrupt_gate : Gate
non_maskable_interrupt_gate = record {
  handler = Handler.non_maskable_interrupt_handler;
  num = 2;
  kind = trap_gate;
  dpl = kernel_dpl;
}

-- IDT_BP
abbrev breakpoint_gate : Gate
breakpoint_gate = record {
  handler = Handler.breakpoint_handler;
  num = 3;
  kind = trap_gate;
  dpl = kernel_dpl;
}

-- IDT_OF
abbrev overflow_gate : Gate
overflow_gate = record {
  handler = Handler.overflow_handler;
  num = 4;
  kind = trap_gate;
  dpl = kernel_dpl;
}

-- IDT_BR
abbrev bound_range_gate : Gate
bound_range_gate = record {
  handler = Handler.bound_range_handler;
  num = 5;
  kind = trap_gate;
  dpl = kernel_dpl;
}

-- IDT_OF
abbrev undefined_opcode_gate : Gate
undefined_opcode_gate = record {
  handler = Handler.undefined_opcode_handler;
  num = 4;
  kind = trap_gate;
  dpl = kernel_dpl;
}

-- IDT_NM
abbrev no_math_coprocessor_gate : Gate
no_math_coprocessor_gate = record {
  handler = Handler.no_math_coprocessor_handler;
  num = 7;
  kind = trap_gate;
  dpl = kernel_dpl;
}

-- IDT_CSO
abbrev cso_gate : Gate
cso_gate = record { handler = Handler.cso_handler; num = 9; kind = trap_gate; dpl = kernel_dpl }

-- IDT_TS
abbrev invalid_tss_gate : Gate
invalid_tss_gate = record {
  handler = Handler.invalid_tss_handler;
  num = 10;
  kind = trap_gate;
  dpl = kernel_dpl;
}

-- IDT_NP
abbrev snp_gate : Gate
snp_gate = record { handler = Handler.snp_handler; num = 11; kind = trap_gate; dpl = kernel_dpl }

-- IDT_GP
abbrev gpf_gate : Gate
gpf_gate = record { handler = Handler.gpf_handler; num = 13; kind = trap_gate; dpl = kernel_dpl }

-- IDT_PF
abbrev page_fault_gate : Gate
page_fault_gate = record {
  handler = Handler.page_fault_handler;
  num = 14;
  kind = trap_gate;
  dpl = kernel_dpl;
}

-- IDT_MF
abbrev math_fault_gate : Gate
math_fault_gate = record {
  handler = Handler.math_fault_handler;
  num = 16;
  kind = trap_gate;
  dpl = kernel_dpl;
}

-- IDT_AC
abbrev alignment_check_gate : Gate
alignment_check_gate = record {
  handler = Handler.alignment_check_handler;
  num = 17;
  kind = trap_gate;
  dpl = kernel_dpl;
}

-- IDT_MC
abbrev machine_check_gate : Gate
machine_check_gate = record {
  handler = Handler.machine_check_handler;
  num = 18;
  kind = trap_gate;
  dpl = kernel_dpl;
}

-- IDT_XF
abbrev floating_point_exp_gate : Gate
floating_point_exp_gate = record {
  handler = Handler.floating_point_exp_handler;
  num = 19;
  kind = trap_gate;
  dpl = kernel_dpl;
}

abbrev pub handlers : List Gate
handlers =
    timer_gate ∷ keyboard_gate ∷ divide_error_gate ∷ debug_exception_gate
    ∷ non_maskable_interrupt_gate ∷ breakpoint_gate ∷ overflow_gate ∷ bound_range_gate
    ∷ undefined_opcode_gate ∷ no_math_coprocessor_gate ∷ cso_gate ∷ invalid_tss_gate ∷ snp_gate
    ∷ gpf_gate ∷ page_fault_gate ∷ math_fault_gate ∷ alignment_check_gate ∷ machine_check_gate
    ∷ floating_point_exp_gate ∷ []

-- PRINT_INT
abbrev print_gate : Gate
print_gate = record {
  handler = Handler.print_handler;
  num = 0x4E;
  kind = trap_gate;
  dpl = user_dpl;
}

-- FORK_INT
abbrev fork_gate : Gate
fork_gate = record { handler = Handler.fork_handler; num = 0x41; kind = trap_gate; dpl = user_dpl }

-- THREAD_FORK_INT
abbrev thread_fork_gate : Gate
thread_fork_gate = record {
  handler = Handler.thread_fork_handler;
  num = 0x52;
  kind = trap_gate;
  dpl = user_dpl;
}

-- EXEC_INT
abbrev exec_gate : Gate
exec_gate = record { handler = Handler.exec_handler; num = 0x42; kind = trap_gate; dpl = user_dpl }

-- SET_STATUS_INT
abbrev set_status_gate : Gate
set_status_gate = record {
  handler = Handler.set_status_handler;
  num = 0x59;
  kind = trap_gate;
  dpl = user_dpl;
}

-- HALT_INT
abbrev halt_gate : Gate
halt_gate = record { handler = Handler.halt_handler; num = 0x55; kind = trap_gate; dpl = user_dpl }

-- WAIT_INT
abbrev wait_gate : Gate
wait_gate = record { handler = Handler.wait_handler; num = 0x44; kind = trap_gate; dpl = user_dpl }

-- VANISH_INT
abbrev vanish_gate : Gate
vanish_gate = record {
  handler = Handler.vanish_handler;
  num = 0x60;
  kind = trap_gate;
  dpl = user_dpl;
}

-- NEW_PAGES_INT
abbrev new_pages_gate : Gate
new_pages_gate = record {
  handler = Handler.new_pages_handler;
  num = 0x49;
  kind = trap_gate;
  dpl = user_dpl;
}

-- REMOVE_PAGES_INT
abbrev remove_pages_gate : Gate
remove_pages_gate = record {
  handler = Handler.remove_pages_handler;
  num = 0x4A;
  kind = trap_gate;
  dpl = user_dpl;
}

-- READLINE_INT
abbrev readline_gate : Gate
readline_gate = record {
  handler = Handler.readline_handler;
  num = 0x4D;
  kind = trap_gate;
  dpl = user_dpl;
}

-- YIELD_INT
abbrev pub yield_gate : Gate
yield_gate = record {
  handler = Handler.yield_handler;
  num = 0x45;
  kind = trap_gate;
  dpl = user_dpl;
}

-- SYSCALL_RESERVED_1
abbrev pub memcheck_gate : Gate
memcheck_gate = record {
  handler = Handler.memory_check_handler;
  num = 0x81;
  kind = interrupt_gate;
  dpl = user_dpl;
}

-- GETTID_INT
abbrev gettid_gate : Gate
gettid_gate = record {
  handler = Handler.gettid_handler;
  num = 0x48;
  kind = trap_gate;
  dpl = user_dpl;
}

-- DESCHEDULE_INT
abbrev deschedule_gate : Gate
deschedule_gate = record {
  handler = Handler.deschedule_handler;
  num = 0x46;
  kind = trap_gate;
  dpl = user_dpl;
}

-- MAKE_RUNNABLE_INT
abbrev make_runnable_gate : Gate
make_runnable_gate = record {
  handler = Handler.make_runnable_handler;
  num = 0x47;
  kind = trap_gate;
  dpl = user_dpl;
}

-- GET_TICKS_INT
abbrev get_ticks_gate : Gate
get_ticks_gate = record {
  handler = Handler.get_ticks_handler;
  num = 0x53;
  kind = trap_gate;
  dpl = user_dpl;
}

-- SLEEP_INT
abbrev sleep_gate : Gate
sleep_gate = record {
  handler = Handler.sleep_handler;
  num = 0x4B;
  kind = trap_gate;
  dpl = user_dpl;
}

-- SWEXN_INT
abbrev swexn_gate : Gate
swexn_gate = record {
  handler = Handler.swexn_handler;
  num = 0x74;
  kind = trap_gate;
  dpl = user_dpl;
}

-- READFILE_INT
abbrev readfile_gate : Gate
readfile_gate = record {
  handler = Handler.readfile_handler;
  num = 0x62;
  kind = trap_gate;
  dpl = user_dpl;
}

-- SET_TERM_COLOR_INT
abbrev set_term_color_gate : Gate
set_term_color_gate = record {
  handler = Handler.set_term_color_handler;
  num = 0x4F;
  kind = trap_gate;
  dpl = user_dpl;
}

-- SET_CURSOR_POS_INT
abbrev set_cursor_pos_gate : Gate
set_cursor_pos_gate = record {
  handler = Handler.set_cursor_pos_handler;
  num = 0x50;
  kind = trap_gate;
  dpl = user_dpl;
}

-- GET_CURSOR_POS_INT
abbrev get_cursor_pos_gate : Gate
get_cursor_pos_gate = record {
  handler = Handler.get_cursor_pos_handler;
  num = 0x51;
  kind = trap_gate;
  dpl = user_dpl;
}

-- GETCHAR_INT
abbrev getchar_gate : Gate
getchar_gate = record {
  handler = Handler.getchar_handler;
  num = 0x4C;
  kind = trap_gate;
  dpl = user_dpl;
}

abbrev pub syscall_handlers : List Gate
syscall_handlers =
    print_gate ∷ fork_gate ∷ thread_fork_gate ∷ exec_gate ∷ set_status_gate ∷ halt_gate ∷ wait_gate
    ∷ vanish_gate ∷ new_pages_gate ∷ remove_pages_gate ∷ readline_gate ∷ yield_gate ∷ memcheck_gate
    ∷ gettid_gate ∷ deschedule_gate ∷ make_runnable_gate ∷ get_ticks_gate ∷ sleep_gate ∷ swexn_gate
    ∷ readfile_gate ∷ set_term_color_gate ∷ set_cursor_pos_gate ∷ get_cursor_pos_gate ∷ getchar_gate
    ∷ []

-- Not called by `install_handlers`.
abbrev ssf_gate : Gate
ssf_gate = record { handler = Handler.ssf_handler; num = 12; kind = trap_gate; dpl = kernel_dpl }

module _ (address : Handler → ℕ) (entry : IdtEntry) where
  -- One call after the other, as long as each succeeds.
  unfoldable pub install_all : List Gate → (ℕ → ℕ) → Option (ℕ → ℕ)
  unfolding add_idt_entry
  install_all [] idt = some idt
  install_all (g ∷ gs) idt = elim (add_idt_entry entry (address g.handler) g.num g.kind g.dpl idt) [
    | none ↦ none
    | some idt' ↦ install_all gs idt'
  ]

  -- The registers of the timer, and the condition variable and mutex of the keyboard, are set up in
  -- between, which does not fail.
  unfoldable pub install_handlers : (ℕ → ℕ) → Option (ℕ → ℕ)
  unfolding install_all
  install_handlers idt = install_all handlers idt

  unfoldable pub install_syscall_handlers : (ℕ → ℕ) → Option (ℕ → ℕ)
  unfolding install_all
  install_syscall_handlers idt = install_all syscall_handlers idt
