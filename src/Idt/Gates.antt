-- ===== src/Idt/Gates.antt =====
-- What the processor reads from the table.
use p.Base.{
  ℕ, ◌+◌, ◌-◌, ◌*◌, ◌/◌, ◌%◌, ◌^◌, ◌≤◌, ◌<◌, ◌≡◌, ◌≢◌, refl, ◌∙◌, true, false, ◌&&◌, ◌==◌, ltb, leb,
  if◌then◌else◌, Bool-cases, inl, inr, some, memcpy, arith,
}
use p.Idt.Defs.{
  IdtEntry, segsel_kernel_cs, trap_gate, get_default_trap_idt, get_default_interrupt_idt,
  entry_byte, add_idt_entry,
}

-- A gate as it stands in the table: present or not, who may call it, of which type, and to where.
pub record Decoded : Type 0 where
  pub present : ℕ
  pub dpl : ℕ
  pub type : ℕ
  pub selector : ℕ
  pub offset : ℕ

-- The gate of the eight bytes of one entry.
abbrev gate_of : (byte : ℕ → ℕ) → Decoded
gate_of byte = record {
  present = byte 5 / 128;
  dpl = byte 5 / 32 % 4;
  type = byte 5 % 32;
  selector = byte 2 + 256 * byte 3;
  offset = byte 0 + 256 * byte 1 + 65536 * byte 6 + 16777216 * byte 7;
}

abbrev pub decode : (ℕ → ℕ) → (vector : ℕ) → Decoded
decode idt n = gate_of (λ i. idt (8 * n + i))

abbrev pub gate_type : ℕ → ℕ
gate_type kind = if kind == trap_gate then 15 else 14

gate_type_small : (kind : ℕ) → gate_type kind < 32
gate_type_small kind = elim (Bool-cases (kind == trap_gate)) [
  | inl trap ↦ rw trap (omega arith)
  | inr interrupt ↦ rw interrupt (omega arith)
]

-- The gate that the arguments of `add_idt_entry` ask for.
abbrev pub installed_gate : (handler kind dpl : ℕ) → Decoded
installed_gate handler kind dpl = record {
  present = 1;
  dpl = dpl;
  type = gate_type kind;
  selector = segsel_kernel_cs;
  offset = handler;
}

-- The entry that is copied.
abbrev pub entry_of : IdtEntry → (handler kind dpl : ℕ) → IdtEntry
entry_of e handler kind dpl = record {
  offset_1 = handler % 65536;
  seg_selector = segsel_kernel_cs;
  reserved = e.reserved;
  zeroes = 0;
  flags = gate_type kind;
  dpl = dpl % 4;
  present = 1;
  offset_2 = handler / 65536 % 65536;
}

add_idt_entry_lem :
    (e : IdtEntry) (handler n kind dpl : ℕ) (idt : ℕ → ℕ)
    → kind ≤ 1
    → add_idt_entry e handler n kind dpl idt
      ≡ some (memcpy idt (entry_byte (entry_of e handler kind dpl)) (8 * n) 0 8)
unfolding add_idt_entry get_default_trap_idt get_default_interrupt_idt
add_idt_entry_lem e handler n kind dpl idt known =
    let fine : ltb 1 kind ≡ false = ground arith in
    elim (Bool-cases (kind == trap_gate)) [
      | inl trap ↦ rw (fine, trap) refl
      | inr interrupt ↦ rw (fine, interrupt) refl
    ]

copied : (to from : ℕ → ℕ) (n i : ℕ) → i < 8 → memcpy to from (8 * n) 0 8 (8 * n + i) ≡ from i
copied to from n i small =
    let at : 0 + (8 * n + i - 8 * n) ≡ i = omega arith in
    let inside : (leb (8 * n) (8 * n + i) && ltb (8 * n + i) (8 * n + 8)) ≡ true =
      ground (arith, small) in
    rw (inside, at) refl

kept :
    (to from : ℕ → ℕ) (n m i : ℕ)
    → i < 8
    → m ≢ n
    → memcpy to from (8 * n) 0 8 (8 * m + i) ≡ to (8 * m + i)
kept to from n m i small apart =
    let outside : (leb (8 * n) (8 * m + i) && ltb (8 * m + i) (8 * n + 8)) ≡ false =
      ground (arith, small, apart) in
    rw outside refl

same_bytes : (a b : ℕ → ℕ) → ((i : ℕ) → i < 8 → a i ≡ b i) → gate_of a ≡ gate_of b
same_bytes a b same =
    rw
      (
        same 0 (omega arith),
        same 1 (omega arith),
        same 2 (omega arith),
        same 3 (omega arith),
        same 5 (omega arith),
        same 6 (omega arith),
        same 7 (omega arith),
      )
      refl

flag_bits :
    (flags level : ℕ)
    → flags < 32
    → level < 4
    → ((flags % 32 + 32 * (level % 4 % 4) + 128) / 128 ≡ 1)
      × ((flags % 32 + 32 * (level % 4 % 4) + 128) / 32 % 4 ≡ level)
      × ((flags % 32 + 32 * (level % 4 % 4) + 128) % 32 ≡ flags)
flag_bits flags level small low = (omega arith, omega arith, omega arith)

offset_bits :
    (handler : ℕ)
    → handler < 2 ^ 32
    → handler % 65536 % 256
        + 256 * (handler % 65536 / 256 % 256)
        + 65536 * (handler / 65536 % 65536 % 256)
        + 16777216 * (handler / 65536 % 65536 / 256 % 256)
      ≡ handler
offset_bits handler small = omega arith

-- The bytes of an entry are those of the gate that it was made for.
entry-gate_of :
    (e : IdtEntry) (handler kind dpl : ℕ)
    → handler < 2 ^ 32
    → dpl < 4
    → gate_of (entry_byte (entry_of e handler kind dpl)) ≡ installed_gate handler kind dpl
unfolding entry_byte
entry-gate_of e handler kind dpl small low =
    let (is_present, its_level, its_type) =
      flag_bits (gate_type kind) dpl (gate_type_small kind) low in
    rw (is_present, its_level, its_type, offset_bits handler small) refl

-- After an entry is added, its vector has the gate, and every other vector what it had.
pub add_idt_entry-decode :
    (e : IdtEntry) (handler n kind dpl : ℕ) (idt : ℕ → ℕ)
    → kind ≤ 1
    → handler < 2 ^ 32
    → dpl < 4
    → (idt' : ℕ → ℕ) × (add_idt_entry e handler n kind dpl idt ≡ some idt')
      × (decode idt' n ≡ installed_gate handler kind dpl)
      × ((m : ℕ) → m ≢ n → decode idt' m ≡ decode idt m)
add_idt_entry-decode e handler n kind dpl idt known small low =
    let entry = entry_byte (entry_of e handler kind dpl) in
    let idt' = memcpy idt entry (8 * n) 0 8 in
    let here : decode idt' n ≡ gate_of entry =
      same_bytes (λ i. idt' (8 * n + i)) entry (copied idt entry n) in
    let there : (m : ℕ) → m ≢ n → decode idt' m ≡ decode idt m = λ m apart.
      same_bytes (λ i. idt' (8 * m + i)) (λ i. idt (8 * m + i))
        (λ i within. kept idt entry n m i within apart) in
    (
      idt',
      add_idt_entry_lem e handler n kind dpl idt known,
      here ∙ entry-gate_of e handler kind dpl small low,
      there,
    )
