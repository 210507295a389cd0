-- ===== src/Swexn/Faults.antt =====
-- How faults end, and what is left of the registers.
use p.Base.{arith, ◌+◌, ℕ, ◌^◌, ◌-◌, ◌≡◌, ◌≢◌, refl, true, ≢→ne}
use p.Frames.{ok}
use p.Vm.{Vm, success, is_addr_cow, handle_cow}
use p.Swexn.Defs.{Regs, push_frame, pusha, enter_with_code, enter, leave}
use p.Swexn.Handlers.{
  Swexn, setup_swexn_stack, invoke_swexn_handler, kill_current_thread, handle_fault,
  update_fault_stack, after_cow, fault_on, page_fault_handler,
}

-- A page fault that is_addr_cow accepts and that handle_cow settles leaves the kernel stack as it
-- was entered, and the program goes on with its registers, but with the error code in ecx.
pub page_fault_handler-leave :
    (count addr code : ℕ) (r : Regs) (t u v : Vm) (s : Swexn)
    → is_addr_cow addr t ≡ ok (true, u)
    → handle_cow count addr u ≡ ok (success, v)
    → let f = record s { k_stack = enter_with_code code r s.k_stack } in
      (page_fault_handler count addr t f ≡ ok (v, f))
      × (leave 6 f.k_stack ≡ record r { ecx = code })
unfolding page_fault_handler fault_on after_cow leave enter_with_code push_frame pusha
page_fault_handler-leave count addr code r t u v s cow done = (rw (cow, done) refl, refl)

-- A handler for a fault without an error code that leaves the stack as it was returns to the code
-- segment as an instruction, with the flags as a code segment, the stack pointer as flags and the
-- stack segment as stack pointer.
enter-leave :
    (r : Regs) (k : ℕ → ℕ)
    → leave 5 (enter r k)
      ≡ record r { ecx = r.eip; eip = r.cs; cs = r.eflags; eflags = r.esp; esp = r.ss; ss = k 0 }
unfolding leave enter push_frame pusha
enter-leave r k = refl

-- When a fault for which the processor pushes an error code is handled with a registered handler,
-- on a stack at address 92 or above, the return from it has the handler as eip, a stack pointer
-- 92 below that stack, the error code in ecx and the other registers of the program, and the
-- thread lives; whatever the kernel stack, a further fault before a handler is registered again
-- kills the thread, with exit status -2.
pub handle_fault-handle_fault :
    (cause cr2 code cause' cr2' bottom : ℕ) (r : Regs) (k' : ℕ → ℕ) (s : Swexn)
    → s.eip ≢ 0
    → s.swexn_esp ≡ bottom + 92
    → let f = handle_fault cause cr2 (record s { k_stack = enter_with_code code r s.k_stack }) in
      let g = handle_fault cause' cr2' (record f { k_stack = k' }) in
      (leave 6 f.k_stack ≡ record r { ecx = code; eip = s.eip; esp = bottom })
      × (f.vanished ≡ s.vanished)
      × (g.vanished ≡ true)
      × (g.exit_status ≡ 2 ^ 32 - 2)
unfolding handle_fault invoke_swexn_handler kill_current_thread update_fault_stack setup_swexn_stack
    leave enter_with_code push_frame pusha
handle_fault-handle_fault cause cr2 code cause' cr2' bottom r k' s registered room =
    let below : s.swexn_esp - 80 - 12 ≡ bottom = omega (arith, room) in
    rw (≢→ne s.eip 0 registered) (rw below refl, refl, refl, refl)
