-- ===== src/Idt/Installed.antt =====
-- The table after its entries are installed.
use p.Base.{
  ℕ, ◌<◌, ◌^◌, ◌≡◌, refl, ap, ◌∙◌, Bool, true, false, ◌&&◌, ◌||◌, ◌==◌, ltb, leb, if◌then◌else◌,
  Option, none, some, List, [], ◌∷◌, map, has, arith,
}
use p.Idt.Defs.{IdtEntry, trap_gate, kernel_dpl, user_dpl, add_idt_entry}
use p.Idt.Tables.{
  Handler, Gate, install_all, install_handlers, install_syscall_handlers, handlers,
  syscall_handlers, undefined_opcode_handler,
}
use p.Idt.Gates.{Decoded, decode, installed_gate, add_idt_entry-decode}

abbrev later : Option Gate → (own : Bool) → Gate → Option Gate
later (some last) own g = some last
later none true g = some g
later none false g = none

-- The last gate of a list for a vector.
abbrev pub last_gate : (vector : ℕ) → List Gate → Option Gate
last_gate n [] = none
last_gate n (g ∷ gs) = later (last_gate n gs) (n == g.num) g

-- Every gate has one of the two types, and a level.
abbrev pub are_known : List Gate → Bool
are_known [] = true
are_known (g ∷ gs) = leb g.kind 1 && ltb g.dpl 4 && are_known gs

abbrev pub nums : List Gate → List ℕ
nums = map (λ g. g.num)

-- Every gate has the level.
abbrev have_level : ℕ → List Gate → Bool
have_level dpl [] = true
have_level dpl (g ∷ gs) = (g.dpl == dpl) && have_level dpl gs

-- A gate was found, of the level, or none was.
abbrev Fits : (dpl : ℕ) → (found : Bool) → Option Gate → Type 0
Fits dpl found none = found ≡ false
Fits dpl found (some g) = (found ≡ true) × (g.dpl ≡ dpl)

Fits-later :
    (rest : Option Gate) (own found : Bool) (g : Gate) (dpl : ℕ)
    → g.dpl ≡ dpl
    → Fits dpl found rest
    → Fits dpl (own || found) (later rest own g)
Fits-later (some last) own found g dpl level (is_found, same) = (ground arith, same)
Fits-later none true found g dpl level fits = (refl, level)
Fits-later none false found g dpl level fits = fits

last_gate-Fits :
    (n dpl : ℕ) (gs : List Gate)
    → have_level dpl gs ≡ true
    → Fits dpl (has n (nums gs)) (last_gate n gs)
last_gate-Fits n dpl [] level = refl
last_gate-Fits n dpl (g ∷ gs) level =
    Fits-later (last_gate n gs) (n == g.num) (has n (nums gs)) g dpl (ground arith)
      (last_gate-Fits n dpl gs (ground arith))

same_either : (found : Bool) {level : ℕ} → level ≡ 0 → (if found then 0 else level) ≡ 0
same_either true same = refl
same_either false same = same

module _ (address : Handler → ℕ) where
  -- What a vector decodes to, by the last gate for it and what it decoded to before.
  abbrev pub seen : Option Gate → Decoded → Decoded
  seen none before = before
  seen (some g) before = installed_gate (address g.handler) g.kind g.dpl

  seen-later :
      (rest : Option Gate) (own : Bool) (g : Gate) (before after : Decoded)
      → (own ≡ true → after ≡ installed_gate (address g.handler) g.kind g.dpl)
      → (own ≡ false → after ≡ before)
      → seen rest after ≡ seen (later rest own g) before
  seen-later (some last) own g before after here there = refl
  seen-later none true g before after here there = here refl
  seen-later none false g before after here there = there refl

  module _ (entry : IdtEntry) (bounded : (h : Handler) → address h < 2 ^ 32) where
    installed_before :
        (g : Gate) (gs : List Gate) (idt idt' final : ℕ → ℕ)
        → add_idt_entry entry (address g.handler) g.num g.kind g.dpl idt ≡ some idt'
        → install_all address entry gs idt' ≡ some final
        → install_all address entry (g ∷ gs) idt ≡ some final
    unfolding install_all
    installed_before g gs idt idt' final added rest = rw (install_all, added) rest

    -- With addresses of 32 bits, gates of the two types and levels below 4, the calls of
    -- add_idt_entry for a list of gates all succeed, and every vector then decodes from the bytes
    -- of the table to the last gate of the list for it, or to what it was before when there is
    -- none.
    pub install_all-decode :
        (gs : List Gate) (idt : ℕ → ℕ)
        → are_known gs ≡ true
        → (idt' : ℕ → ℕ) × (install_all address entry gs idt ≡ some idt')
          × ((n : ℕ) → decode idt' n ≡ seen (last_gate n gs) (decode idt n))
    unfolding install_all
    install_all-decode [] idt known = (idt, refl, λ n. refl)
    install_all-decode (g ∷ gs) idt known =
        let (idt', added, here, there) =
          add_idt_entry-decode entry (address g.handler) g.num g.kind g.dpl idt (ground arith)
            (bounded g.handler) (ground arith) in
        let (final, installed, rest) = install_all-decode gs idt' (ground arith) in
        (
          final,
          installed_before g gs idt idt' final added installed,
          λ n.
              rest n
              ∙ seen-later (last_gate n gs) (n == g.num) g (decode idt n) (decode idt' n)
                  (λ own. ap (decode idt') (ground arith) ∙ here) (λ other. there n (ground arith)),
        )

  -- Gates of one level have that level at their own vectors, and leave the others.
  seen-dpl :
      (dpl : ℕ) (found : Bool) (last : Option Gate) (before : Decoded)
      → Fits dpl found last
      → (seen last before).dpl ≡ (if found then dpl else before.dpl)
  seen-dpl dpl found none before fits = rw fits refl
  seen-dpl dpl found (some g) before (is_found, same) = rw is_found same

  module _ (entry : IdtEntry) (bounded : (h : Handler) → address h < 2 ^ 32) where
    -- With addresses of 32 bits and from a table in which no vector has another level than 0,
    -- install_handlers and then install_syscall_handlers succeed, and a vector has level 3 when
    -- it is one of the system calls, level 0 otherwise.
    pub install_syscall_handlers-decode :
        (idt : ℕ → ℕ)
        → ((n : ℕ) → (decode idt n).dpl ≡ 0)
        → (booted with_syscalls : ℕ → ℕ) × (install_handlers address entry idt ≡ some booted)
          × (install_syscall_handlers address entry booted ≡ some with_syscalls)
          × ((n : ℕ)
              → (decode with_syscalls n).dpl
                ≡ (if has n (nums syscall_handlers) then user_dpl else kernel_dpl))
    unfolding install_handlers install_syscall_handlers
    install_syscall_handlers-decode idt clear =
        let (booted, is_booted, by_handlers) = install_all-decode entry bounded handlers idt refl in
        let (final, is_final, by_syscalls) =
          install_all-decode entry bounded syscall_handlers booted refl in
        let kernel_only : (n : ℕ) → (decode booted n).dpl ≡ 0 = λ n.
          ap (λ d. d.dpl) (by_handlers n)
          ∙ seen-dpl 0 (has n (nums handlers)) (last_gate n handlers) (decode idt n)
              (last_gate-Fits n 0 handlers refl)
          ∙ same_either (has n (nums handlers)) (clear n) in
        let levels : (n : ℕ)
            → (decode final n).dpl
              ≡ (if has n (nums syscall_handlers) then user_dpl else kernel_dpl) =
          λ n.
            ap (λ d. d.dpl) (by_syscalls n)
            ∙ seen-dpl user_dpl (has n (nums syscall_handlers)) (last_gate n syscall_handlers)
                (decode booted n) (last_gate-Fits n user_dpl syscall_handlers refl)
            ∙ ap (λ d. if has n (nums syscall_handlers) then user_dpl else d) (kernel_only n) in
        (booted, final, is_booted, is_final, levels)

    -- With addresses of 32 bits, after install_handlers the overflow vector 4 leads to the
    -- undefined opcode handler, and the vectors 6 of undefined opcodes and 12 of stack faults
    -- decode to what they were before.
    pub install_handlers-undefined_opcode :
        (idt : ℕ → ℕ)
        → (idt' : ℕ → ℕ) × (install_handlers address entry idt ≡ some idt')
          × (decode idt' 4 ≡ installed_gate (address undefined_opcode_handler) trap_gate kernel_dpl)
          × (decode idt' 6 ≡ decode idt 6)
          × (decode idt' 12 ≡ decode idt 12)
    unfolding install_handlers
    install_handlers-undefined_opcode idt =
        let (idt', installed, decoded) = install_all-decode entry bounded handlers idt refl in
        (idt', installed, decoded 4, decoded 6, decoded 12)
