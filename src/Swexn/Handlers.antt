-- ===== src/Swexn/Handlers.antt =====
-- What a fault does, and the system call that registers a handler.
use p.Base.{
  ℕ, ◌+◌, ◌-◌, ◌*◌, ◌^◌, Bool, true, false, ◌&&◌, ◌||◌, ◌==◌, if◌then◌else◌, Option, none, some,
  List, [], ◌∷◌, update,
}
use p.Frames.{Outcome, ok, panic}
use p.Vm.{Vm, Status, is_addr_cow, handle_cow, is_pointer_valid, is_memory_writable}
use p.Swexn.Defs.{Ureg, segsel_user_ds, validate_uregs, write_regs, populate_ureg}

-- The kernel stack of the thread, the handler of its task, and user memory as the words stored in it,
-- by address. `exit_status` is set, and `vanished`, when the thread is killed.
pub record Swexn : Type 0 where
  pub k_stack : ℕ → ℕ
  pub eip : ℕ
  pub swexn_args : ℕ
  pub swexn_esp : ℕ
  pub mem : ℕ → ℕ
  pub exit_status : ℕ
  pub vanished : Bool

pub data Result : Type 0 where
  value : ℕ → Result
  err_inval err_failure : Result

-- `setup_kernel_stack`; false for ERR_INVAL.
unfoldable pub setup_kernel_stack : Ureg → Swexn → Bool × Swexn
unfolding validate_uregs write_regs
setup_kernel_stack u s =
    if validate_uregs u then (true, record s { k_stack = write_regs u s.k_stack }) else (false, s)

-- The 20 words of a `ureg_t`.
abbrev pub ureg_words : Ureg → List ℕ
ureg_words u =
    u.cause ∷ u.cr2 ∷ u.ds ∷ segsel_user_ds ∷ segsel_user_ds ∷ segsel_user_ds ∷ u.edi ∷ u.esi
    ∷ u.ebp ∷ 0 ∷ u.ebx ∷ u.edx ∷ u.ecx ∷ u.eax ∷ u.error_code ∷ u.eip ∷ u.cs ∷ u.eflags ∷ u.esp
    ∷ u.ss ∷ []

unfoldable pub store : (addr : ℕ) → List ℕ → (ℕ → ℕ) → ℕ → ℕ
store addr [] m = m
store addr (w ∷ ws) m = store (addr + 4) ws (update m addr w)

-- Its fields by their place, and the `ureg_t` that a pointer points to.
abbrev pub of_words : (ℕ → ℕ) → Ureg
of_words f = record {
  cause = f 0;
  cr2 = f 1;
  ds = f 2;
  edi = f 6;
  esi = f 7;
  ebp = f 8;
  ebx = f 10;
  edx = f 11;
  ecx = f 12;
  eax = f 13;
  error_code = f 14;
  eip = f 15;
  cs = f 16;
  eflags = f 17;
  esp = f 18;
  ss = f 19;
}

unfoldable pub ureg_at : (ℕ → ℕ) → (addr : ℕ) → Ureg
ureg_at m addr = of_words (λ i. m (addr + 4 * i))

-- The stack address lies above the memory of the kernel, so nothing wraps around.
unfoldable pub setup_swexn_stack : (esp3 : ℕ) → Ureg → (arg : ℕ) → (ℕ → ℕ) → ℕ × (ℕ → ℕ)
unfolding store
setup_swexn_stack esp3 u arg m =
    let bottom = esp3 - 80 in
    (
      bottom - 12,
      update (update (update (store bottom (ureg_words u) m) (bottom - 4) bottom) (bottom - 8) arg)
          (bottom - 12) u.eip,
    )

unfoldable pub update_fault_stack : (esp eip : ℕ) → (ℕ → ℕ) → ℕ → ℕ
update_fault_stack esp eip k = update (update k 2 esp) 5 eip

-- False when no handler is registered. `cr2` is the value of the register.
unfoldable pub invoke_swexn_handler : (cause cr2 : ℕ) → Swexn → Bool × Swexn
unfolding populate_ureg setup_swexn_stack update_fault_stack
invoke_swexn_handler cause cr2 s =
    if s.eip == 0
    then (false, s)
    else let (esp, m) =
        setup_swexn_stack s.swexn_esp (populate_ureg cause cr2 1 s.k_stack) s.swexn_args s.mem in
      (true, record s { k_stack = update_fault_stack esp s.eip s.k_stack; mem = m; eip = 0 })

-- THREAD_KILL_EXIT_STATUS is -2. The message on the console is left out.
unfoldable pub kill_current_thread : Swexn → Swexn
kill_current_thread s = record s { exit_status = 2 ^ 32 - 2; vanished = true }

unfoldable pub handle_fault : (cause cr2 : ℕ) → Swexn → Swexn
unfolding invoke_swexn_handler kill_current_thread
handle_fault cause cr2 s =
    let r = invoke_swexn_handler cause cr2 s in if r.0 then r.1 else kill_current_thread r.1

abbrev pub cause_pagefault : ℕ
cause_pagefault = 14

unfoldable pub after_cow : Outcome (Status × Vm) → Swexn → Outcome (Vm × Swexn)
unfolding kill_current_thread
after_cow panic s = panic
after_cow (ok (Status.success, t)) s = ok (t, s)
after_cow (ok (Status.error e, t)) s = ok (t, kill_current_thread s)

module _ (count : ℕ) where
  unfoldable pub fault_on : (addr : ℕ) → Outcome (Bool × Vm) → Swexn → Outcome (Vm × Swexn)
  unfolding after_cow handle_fault handle_cow
  fault_on addr panic s = panic
  fault_on addr (ok (true, t)) s = after_cow (handle_cow count addr t) s
  fault_on addr (ok (false, t)) s = ok (t, handle_fault cause_pagefault addr s)

  -- `addr` is what cr2 holds.
  unfoldable pub page_fault_handler : (addr : ℕ) → Vm → Swexn → Outcome (Vm × Swexn)
  unfolding fault_on is_addr_cow
  page_fault_handler addr t s = fault_on addr (is_addr_cow addr t) s

-- A pointer of 0 passes.
abbrev pub optional : (ptr : ℕ) → Option Bool → Option Bool
optional ptr valid = if ptr == 0 then some true else valid

abbrev pub and_writable : Bool → Option Bool → Option Bool
and_writable w none = none
and_writable w (some valid) = some (valid && w)

unfoldable pub guard : Option Bool → Swexn → Option (Result × Swexn) → Option (Result × Swexn)
guard none s next = none
guard (some false) s next = some (Result.err_inval, s)
guard (some true) s next = next

-- The handler is registered before the new registers are looked at.
unfoldable pub install : (esp3 eip arg newureg : ℕ) → Swexn → Result × Swexn
unfolding setup_kernel_stack ureg_at
install esp3 eip arg newureg s =
    let t = record s { eip = eip; swexn_args = arg; swexn_esp = esp3 } in
    let r = setup_kernel_stack (ureg_at s.mem newureg) t in
    if newureg == 0
    then (Result.value 0, t)
    else if r.0
    then (Result.value (ureg_at s.mem newureg).eax, r.1)
    else (Result.err_failure, t)

unfoldable pub swexn : (esp3 eip arg newureg : ℕ) → Swexn → Result × Swexn
unfolding install
swexn esp3 eip arg newureg s =
    if (esp3 == 0) || (eip == 0)
    then (Result.value 0, record s { eip = 0 })
    else install esp3 eip arg newureg s

unfoldable pub swexn_handler :
    (fuel : ℕ) → Vm → (esp3 eip arg newureg : ℕ) → Swexn → Option (Result × Swexn)
unfolding is_pointer_valid is_memory_writable guard swexn
swexn_handler fuel t esp3 eip arg newureg s =
    guard
      (optional esp3 (and_writable (is_memory_writable esp3 4 t) (is_pointer_valid fuel esp3 4 t)))
      s
      (guard (optional eip (is_pointer_valid fuel eip 4 t)) s (
        guard (optional newureg (is_pointer_valid fuel newureg 4 t)) s
          (some (swexn esp3 eip arg newureg s))))
