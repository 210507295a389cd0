-- ===== src/Swexn/Resume.antt =====
-- A fault, the record of registers that its handler gets, and the return to where it was.
use p.Base.{
  zero, suc, ◌*◌, Bool-cases, inl, inr, eq→≡, ℕ, ◌+◌, ◌-◌, ◌<◌, ◌≡◌, ◌≢◌, refl, ap, ◌∙◌, true, ◌==◌,
  ≢→ne, List, [], ◌∷◌, update, arith,
}
use p.Swexn.Defs.{
  Regs, Ureg, segsel_user_ds, push_frame, pusha, enter_with_code, syscall_return, validate_uregs,
  write_regs, populate_ureg,
}
use p.Swexn.Handlers.{
  Swexn, value, ureg_words, store, of_words, ureg_at, setup_kernel_stack, setup_swexn_stack,
  invoke_swexn_handler, handle_fault, install, swexn,
}

-- The record for the registers at a fault with an error code.
abbrev pub ureg_of : (cause cr2 code : ℕ) → Regs → Ureg
ureg_of cause cr2 code r = record {
  cause = cause;
  cr2 = cr2;
  ds = segsel_user_ds;
  edi = r.edi;
  esi = r.esi;
  ebp = r.ebp;
  ebx = r.ebx;
  edx = r.edx;
  ecx = r.ecx;
  eax = r.eax;
  error_code = code;
  eip = r.eip;
  cs = r.cs;
  eflags = r.eflags;
  esp = r.esp;
  ss = r.ss;
}

populate_ureg-enter_with_code :
    (cause cr2 code : ℕ) (r : Regs) (k : ℕ → ℕ)
    → populate_ureg cause cr2 1 (enter_with_code code r k) ≡ ureg_of cause cr2 code r
unfolding populate_ureg enter_with_code push_frame pusha
populate_ureg-enter_with_code cause cr2 code r k = refl

store-below : (addr a : ℕ) (ws : List ℕ) (m : ℕ → ℕ) → a < addr → store addr ws m a ≡ m a
unfolding store
store-below addr a [] m low = refl
store-below addr a (w ∷ ws) m low =
    store-below (addr + 4) a ws (update m addr w) (omega arith) ∙ ground (arith, low)

-- The i-th word of a list, and what stands behind it.
abbrev index : List ℕ → (ℕ → ℕ) → ℕ → ℕ
index [] rest i = rest i
index (w ∷ ws) rest zero = w
index (w ∷ ws) rest (suc i) = index ws (λ j. rest (suc j)) i

store-index :
    (addr : ℕ) (ws : List ℕ) (m : ℕ → ℕ) (i : ℕ)
    → store addr ws m (addr + 4 * i) ≡ index ws (λ j. m (addr + 4 * j)) i
unfolding store
store-index addr [] m i = refl
store-index addr (w ∷ ws) m zero =
    let here : addr + 4 * 0 ≡ addr = omega arith in
    rw here (store-below (addr + 4) addr ws (update m addr w) (omega arith) ∙ ground arith)
store-index addr (w ∷ ws) m (suc i) =
    let next : addr + 4 * suc i ≡ addr + 4 + 4 * i = omega arith in
    let untouched : (j : ℕ) → update m addr w (addr + 4 + 4 * j) ≡ m (addr + 4 * suc j) = λ j.
      elim (Bool-cases (addr + 4 + 4 * j == addr)) [
        | inl e ↦ absurd (omega (arith, eq→≡ _ _ e))
        | inr e ↦ rw e (ap m (omega arith))
      ] in
    rw next (store-index (addr + 4) ws (update m addr w) i ∙ (λ k. index ws (λ j. untouched j k) i))

-- Words below the record do not change it.
ureg_at-update : (m : ℕ → ℕ) (b a w : ℕ) → a < b → ureg_at (update m a w) b ≡ ureg_at m b
unfolding ureg_at
ureg_at-update m b a w low =
    let untouched : (i : ℕ) → update m a w (b + 4 * i) ≡ m (b + 4 * i) = λ i. ground (arith, low) in
    λ k. of_words (λ i. untouched i k)

ureg_at-store : (b : ℕ) (u : Ureg) (m : ℕ → ℕ) → ureg_at (store b (ureg_words u) m) b ≡ u
unfolding ureg_at
ureg_at-store b u m = λ k. of_words (λ i. store-index b (ureg_words u) m i k)

syscall_return-write_regs :
    (u : Ureg) (k : ℕ → ℕ)
    → syscall_return u.eax (write_regs u k) ≡ record {
      eax = u.eax;
      ecx = u.ecx;
      edx = u.edx;
      ebx = u.ebx;
      ebp = u.ebp;
      esi = u.esi;
      edi = u.edi;
      eip = u.eip;
      cs = u.cs;
      eflags = u.eflags;
      esp = u.esp;
      ss = u.ds;
    }
unfolding syscall_return write_regs
syscall_return-write_regs u k = refl

-- The user memory of a handler that a fault has started.
abbrev pub handler_mem : Ureg → Swexn → ℕ → ℕ
handler_mem u s = (setup_swexn_stack s.swexn_esp u s.swexn_args s.mem).1

ureg_at-handler_mem :
    (u : Ureg) (s : Swexn) → 92 < s.swexn_esp → ureg_at (handler_mem u s) (s.swexn_esp - 80) ≡ u
unfolding setup_swexn_stack
ureg_at-handler_mem u s room =
    let b = s.swexn_esp - 80 in
    ureg_at-update _ b (b - 12) _ (omega (arith, room))
    ∙ ureg_at-update _ b (b - 8) _ (omega (arith, room))
    ∙ ureg_at-update _ b (b - 4) _ (omega (arith, room))
    ∙ ureg_at-store b u s.mem

handle_fault-mem :
    (cause cr2 code : ℕ) (r : Regs) (s : Swexn)
    → s.eip ≢ 0
    → (handle_fault cause cr2 (record s { k_stack = enter_with_code code r s.k_stack })).mem
      ≡ handler_mem (ureg_of cause cr2 code r) s
unfolding handle_fault invoke_swexn_handler
handle_fault-mem cause cr2 code r s registered =
    rw (≢→ne s.eip 0 registered)
      (ap (λ u. handler_mem u s) (populate_ureg-enter_with_code cause cr2 code r s.k_stack))

swexn_lem :
    (esp3 eip arg b : ℕ) (s : Swexn)
    → esp3 ≢ 0
    → eip ≢ 0
    → b ≢ 0
    → validate_uregs (ureg_at s.mem b) ≡ true
    → swexn esp3 eip arg b s ≡ (
      value (ureg_at s.mem b).eax,
      record s {
        eip = eip;
        swexn_args = arg;
        swexn_esp = esp3;
        k_stack = write_regs (ureg_at s.mem b) s.k_stack;
      },
    )
unfolding swexn install setup_kernel_stack
swexn_lem esp3 eip arg b s stack handler given valid =
    rw (≢→ne esp3 0 stack, ≢→ne eip 0 handler, ≢→ne b 0 given, valid) refl

resumed :
    (esp3 eip arg b : ℕ) (s : Swexn) (u : Ureg)
    → ureg_at s.mem b ≡ u
    → esp3 ≢ 0
    → eip ≢ 0
    → b ≢ 0
    → validate_uregs u ≡ true
    → ((swexn esp3 eip arg b s).0 ≡ value u.eax)
      × (syscall_return u.eax (swexn esp3 eip arg b s).1.k_stack
          ≡ syscall_return u.eax (write_regs u s.k_stack))
resumed esp3 eip arg b s u same stack handler given valid =
    let e = swexn_lem esp3 eip arg b s stack handler given (ap validate_uregs same ∙ valid) in
    (
      ap (λ t. t.0) e ∙ ap (λ v. value v.eax) same,
      ap (λ t. syscall_return u.eax t.1.k_stack) e
          ∙ ap (λ v. syscall_return u.eax (write_regs v s.k_stack)) same,
    )

-- When a fault with an error code starts a registered handler on a stack above address 92, and
-- the handler calls swexn with a stack, a handler and the register record that it was given,
-- whose flags are valid, the return of that system call has the registers of the faulting
-- program, but for ss, which is the user data segment.
pub handle_fault-swexn :
    (cause cr2 code esp3 eip arg : ℕ) (r : Regs) (k : ℕ → ℕ) (s : Swexn)
    → s.eip ≢ 0
    → 92 < s.swexn_esp
    → esp3 ≢ 0
    → eip ≢ 0
    → validate_uregs (ureg_of cause cr2 code r) ≡ true
    → let f = handle_fault cause cr2 (record s { k_stack = enter_with_code code r s.k_stack }) in
      let t = swexn esp3 eip arg (s.swexn_esp - 80) (record f { k_stack = k }) in
      (t.0 ≡ value r.eax) × (syscall_return r.eax t.1.k_stack ≡ record r { ss = segsel_user_ds })
handle_fault-swexn cause cr2 code esp3 eip arg r k s registered room stack handler valid =
    let u = ureg_of cause cr2 code r in
    let f = handle_fault cause cr2 (record s { k_stack = enter_with_code code r s.k_stack }) in
    let b = s.swexn_esp - 80 in
    let same =
      ap (λ m. ureg_at m b) (handle_fault-mem cause cr2 code r s registered)
      ∙ ureg_at-handler_mem u s room in
    let (result, regs) =
      resumed esp3 eip arg b (record f { k_stack = k }) u same stack handler (omega (arith, room))
        valid in
    (result, regs ∙ syscall_return-write_regs u k)
