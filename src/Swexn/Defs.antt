-- ===== src/Swexn/Defs.antt =====
-- The kernel stack and the registers on it. A stack is a function: `k n` is the word n words below
-- its base.
use p.Base.{ℕ, ◌+◌, ◌-◌, ◌/◌, ◌%◌, Bool, ◌&&◌, not, ◌==◌, if◌then◌else◌, update}

-- What a user program has in its registers.
pub record Regs : Type 0 where
  pub eax : ℕ
  pub ecx : ℕ
  pub edx : ℕ
  pub ebx : ℕ
  pub ebp : ℕ
  pub esi : ℕ
  pub edi : ℕ
  pub eip : ℕ
  pub cs : ℕ
  pub eflags : ℕ
  pub esp : ℕ
  pub ss : ℕ

-- `ureg_t`, without `es`, `fs`, `gs` and `zero`, which are constants in all of them.
pub record Ureg : Type 0 where
  pub cause : ℕ
  pub cr2 : ℕ
  pub ds : ℕ
  pub edi : ℕ
  pub esi : ℕ
  pub ebp : ℕ
  pub ebx : ℕ
  pub edx : ℕ
  pub ecx : ℕ
  pub eax : ℕ
  pub error_code : ℕ
  pub eip : ℕ
  pub cs : ℕ
  pub eflags : ℕ
  pub esp : ℕ
  pub ss : ℕ

abbrev pub segsel_user_ds : ℕ
segsel_user_ds = 0x2b

-- What the processor pushes: the frame that `iret` takes.
unfoldable pub push_frame : Regs → (ℕ → ℕ) → ℕ → ℕ
push_frame r k =
    update (update (update (update (update k 1 r.ss) 2 r.esp) 3 r.eflags) 4 r.cs) 5 r.eip

-- `pusha` with the stack pointer `top` words below the base.
unfoldable pub pusha : (top : ℕ) → Regs → (ℕ → ℕ) → ℕ → ℕ
pusha top r k =
    update
      (update
        (update
          (update (update (update (update k (top + 1) r.eax) (top + 2) r.ecx) (top + 3) r.edx)
            (top + 4) r.ebx)
          (top + 6) r.ebp)
        (top + 7) r.esi)
      (top + 8) r.edi

-- The way into a handler, for faults with an error code and for those without one.
unfoldable pub enter_with_code : (code : ℕ) → Regs → (ℕ → ℕ) → ℕ → ℕ
unfolding push_frame pusha
enter_with_code code r k = pusha 6 r (update (push_frame r k) 6 code)

unfoldable pub enter : Regs → (ℕ → ℕ) → ℕ → ℕ
unfolding push_frame pusha
enter r k = pusha 5 r (push_frame r k)

-- `popa`, `popl %ecx` and `iret` of the handlers, where `pusha` was with `top` words on the stack.
unfoldable pub leave : (top : ℕ) → (ℕ → ℕ) → Regs
leave top k = record {
  eax = k (top + 1);
  ecx = k top;
  edx = k (top + 3);
  ebx = k (top + 4);
  ebp = k (top + 6);
  esi = k (top + 7);
  edi = k (top + 8);
  eip = k (top - 1);
  cs = k (top - 2);
  eflags = k (top - 3);
  esp = k (top - 4);
  ss = k (top - 5);
}

-- RESTORE_REGS and `iret` at the end of a system call, whose result is in eax.
unfoldable pub syscall_return : (result : ℕ) → (ℕ → ℕ) → Regs
syscall_return result k = record {
  eax = result;
  ecx = k 6;
  edx = k 8;
  ebx = k 9;
  ebp = k 11;
  esi = k 13;
  edi = k 12;
  eip = k 5;
  cs = k 4;
  eflags = k 3;
  esp = k 2;
  ss = k 1;
}

-- EFLAGS_IOPL are the bits 12 and 13, EFLAGS_IF is bit 9.
unfoldable pub validate_uregs : Ureg → Bool
validate_uregs u = not (u.eflags / 4096 % 4 == 3) && (u.eflags / 512 % 2 == 1)

unfoldable pub write_regs : Ureg → (ℕ → ℕ) → ℕ → ℕ
write_regs u k =
    let frame =
      update (update (update (update (update k 1 u.ds) 2 u.esp) 3 u.eflags) 4 u.cs) 5 u.eip in
    update
      (update
        (update (update (update (update (update frame 6 u.ecx) 7 u.eax) 8 u.edx) 9 u.ebx) 11 u.ebp)
        12 u.edi)
      13 u.esi

-- `populate_ureg` with `err_code_avail`; the other fields are the caller's.
unfoldable pub populate_ureg : (cause cr2 err_code_avail : ℕ) → (ℕ → ℕ) → Ureg
populate_ureg cause cr2 err_code_avail k = record {
  cause = cause;
  cr2 = cr2;
  ds = segsel_user_ds;
  edi = k (13 + err_code_avail);
  esi = k (12 + err_code_avail);
  ebp = k (11 + err_code_avail);
  ebx = k (9 + err_code_avail);
  edx = k (8 + err_code_avail);
  ecx = k (7 + err_code_avail);
  eax = k (6 + err_code_avail);
  error_code = if err_code_avail == 1 then k 6 else 0;
  eip = k 5;
  cs = k 4;
  eflags = k 3;
  esp = k 2;
  ss = k 1;
}
