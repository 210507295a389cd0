-- ===== src/Idt/Defs.antt =====
-- Entries of the descriptor table and their bytes. The table is a memory of bytes from its base on.
use p.Base.{ℕ, ◌+◌, ◌*◌, ◌/◌, ◌%◌, ◌==◌, ltb, if◌then◌else◌, Option, none, some, memcpy}

-- The bit fields of `idt_entry`.
pub record IdtEntry : Type 0 where
  pub offset_1 : ℕ
  pub seg_selector : ℕ
  pub reserved : ℕ
  pub zeroes : ℕ
  pub flags : ℕ
  pub dpl : ℕ
  pub present : ℕ
  pub offset_2 : ℕ

abbrev pub trap_gate : ℕ
trap_gate = 0

abbrev pub interrupt_gate : ℕ
interrupt_gate = 1

abbrev pub kernel_dpl : ℕ
kernel_dpl = 0

abbrev pub user_dpl : ℕ
user_dpl = 3

-- SEGSEL_KERNEL_CS
abbrev pub segsel_kernel_cs : ℕ
segsel_kernel_cs = 0x10

-- `reserved` is not written, so it has the bits that were on the stack.
unfoldable pub get_default_trap_idt : (dpl : ℕ) → IdtEntry → IdtEntry
get_default_trap_idt dpl e = record e {
  seg_selector = segsel_kernel_cs;
  zeroes = 0;
  flags = 15;
  dpl = dpl % 4;
  present = 1;
}

unfoldable pub get_default_interrupt_idt : (dpl : ℕ) → IdtEntry → IdtEntry
get_default_interrupt_idt dpl e = record e {
  seg_selector = segsel_kernel_cs;
  zeroes = 0;
  flags = 14;
  dpl = dpl % 4;
  present = 1;
}

-- The layout of the bit fields, from the low bit on.
unfoldable pub entry_byte : IdtEntry → (i : ℕ) → ℕ
entry_byte e i =
    if i == 0
    then e.offset_1 % 256
    else if i == 1
    then e.offset_1 / 256 % 256
    else if i == 2
    then e.seg_selector % 256
    else if i == 3
    then e.seg_selector / 256 % 256
    else if i == 4
    then e.reserved % 32 + 32 * (e.zeroes % 8)
    else if i == 5
    then e.flags % 32 + 32 * (e.dpl % 4) + 128 * (e.present % 2)
    else if i == 6
    then e.offset_2 % 256
    else e.offset_2 / 256 % 256

-- `entry` is the variable on the stack before anything is written to it. `none` for ERR_FAILURE.
unfoldable pub add_idt_entry :
    (entry : IdtEntry) (handler interrupt_num type dpl : ℕ) → (ℕ → ℕ) → Option (ℕ → ℕ)
unfolding get_default_trap_idt get_default_interrupt_idt entry_byte
add_idt_entry entry handler interrupt_num type dpl idt =
    if ltb 1 type
    then none
    else let e =
        if type == trap_gate
        then get_default_trap_idt dpl entry
        else get_default_interrupt_idt dpl entry in
      let e' = record e { offset_1 = handler % 65536; offset_2 = handler / 65536 % 65536 } in
      some (memcpy idt (entry_byte e') (8 * interrupt_num) 0 8)
