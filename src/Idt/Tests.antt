-- ===== src/Idt/Tests.antt =====
-- The tables at concrete addresses.
use p.Base.{ℕ, ◌<◌, ◌^◌, ◌≡◌, refl, if◌then◌else◌, some, none, [], ◌∷◌, has, arith}
use p.Idt.Defs.{IdtEntry, add_idt_entry, trap_gate, kernel_dpl, user_dpl}
use p.Idt.Tables.{
  Handler, timer_gate, yield_gate, memcheck_gate, install_all, install_handlers,
  install_syscall_handlers, syscall_handlers,
}
use p.Idt.Gates.{decode, installed_gate}
use p.Idt.Installed.{
  last_gate, seen, nums, install_all-decode, install_syscall_handlers-decode,
  install_handlers-undefined_opcode,
}

abbrev address : Handler → ℕ
address Handler.timer_handler = 0x00100040
address Handler.page_fault_handler = 0x89abcdef
address h = 0x00123456

address_bounded : (h : Handler) → address h < 2 ^ 32
address_bounded Handler.timer_handler = omega arith
address_bounded Handler.page_fault_handler = omega arith
address_bounded h = omega arith

-- What was on the stack.
abbrev on_stack : IdtEntry
on_stack = record {
  offset_1 = 1;
  seg_selector = 2;
  reserved = 31;
  zeroes = 7;
  flags = 1;
  dpl = 1;
  present = 0;
  offset_2 = 9;
}

abbrev cleared : ℕ → ℕ
cleared a = 0

unknown_run : add_idt_entry on_stack 0x89abcdef 14 2 kernel_dpl cleared ≡ none
unfolding add_idt_entry
unknown_run = refl

install_all-decode_example :
    (idt' : ℕ → ℕ) × (install_all address on_stack
        (timer_gate ∷ yield_gate ∷ memcheck_gate ∷ yield_gate ∷ [])
        cleared
      ≡ some idt')
    × ((n : ℕ)
        → decode idt' n
          ≡ seen address
              (last_gate n (timer_gate ∷ yield_gate ∷ memcheck_gate ∷ yield_gate ∷ []))
              (decode cleared n))
install_all-decode_example =
    install_all-decode address on_stack address_bounded
      (timer_gate ∷ yield_gate ∷ memcheck_gate ∷ yield_gate ∷ []) cleared refl

install_syscall_handlers-decode_example :
    (booted with_syscalls : ℕ → ℕ) × (install_handlers address on_stack cleared ≡ some booted)
    × (install_syscall_handlers address on_stack booted ≡ some with_syscalls)
    × ((n : ℕ)
        → (decode with_syscalls n).dpl
          ≡ (if has n (nums syscall_handlers) then user_dpl else kernel_dpl))
install_syscall_handlers-decode_example =
    install_syscall_handlers-decode address on_stack address_bounded cleared (λ n. refl)

install_handlers-undefined_opcode_example :
    (idt' : ℕ → ℕ) × (install_handlers address on_stack cleared ≡ some idt')
    × (decode idt' 4 ≡ installed_gate 0x00123456 trap_gate kernel_dpl)
    × (decode idt' 6 ≡ decode cleared 6)
    × (decode idt' 12 ≡ decode cleared 12)
install_handlers-undefined_opcode_example =
    install_handlers-undefined_opcode address on_stack address_bounded cleared
