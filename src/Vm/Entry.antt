-- ===== src/Vm/Entry.antt =====
-- Page table entries and addresses of kern/inc/vm/vm.h: the frame address in the upper 20 bits, the
-- flags in the lower 12. A mask of one bit is its value, a power of two, and `addr | flags` is a sum,
-- since frames and tables are aligned to pages.
use p.Base.{ℕ, ◌+◌, ◌-◌, ◌*◌, ◌/◌, ◌%◌, ◌^◌, Bool, ◌==◌, if◌then◌else◌}

abbrev pub present : ℕ
present = 1

abbrev pub read_write : ℕ
read_write = 2

abbrev pub user_mode : ℕ
user_mode = 4

abbrev pub cow_mode : ℕ
cow_mode = 512

abbrev pub newpage_page : ℕ
newpage_page = 1024

abbrev pub newpage_start : ℕ
newpage_start = 2048

abbrev pub newpage_end : ℕ
newpage_end = 3072

-- PAGE_DIR_ENTRY_DEFAULT and PAGE_TABLE_ENTRY_DEFAULT
abbrev pub entry_default : ℕ
entry_default = 2

-- `e & m`, `e | m` and `e & ~m` for a mask of one bit
abbrev pub has_bit : (m e : ℕ) → Bool
has_bit m e = e / m % 2 == 1

abbrev pub set_bit : (m e : ℕ) → ℕ
set_bit m e = if has_bit m e then e else e + m

abbrev pub clear_bit : (m e : ℕ) → ℕ
clear_bit m e = if has_bit m e then e - m else e

-- GET_ADDR_FROM_ENTRY, GET_FLAGS_FROM_ENTRY, and rounding down to a page
abbrev pub entry_addr : ℕ → ℕ
entry_addr e = e - e % 4096

abbrev pub entry_flags : ℕ → ℕ
entry_flags e = e % 4096

abbrev pub page_round_down : ℕ → ℕ
page_round_down a = a - a % 4096

-- GET_PD_INDEX and GET_PT_INDEX
abbrev pub pd_index : ℕ → ℕ
pd_index a = a / 2 ^ 22 % 1024

abbrev pub pt_index : ℕ → ℕ
pt_index a = a / 2 ^ 12 % 1024

-- GET_NEWPAGE_FLAGS, SET_NEWPAGE_START, SET_NEWPAGE_END
abbrev pub newpage_flags : ℕ → ℕ
newpage_flags e = e / 1024 % 4 * 1024

abbrev pub set_newpage_start : ℕ → ℕ
set_newpage_start e = e - newpage_flags e + newpage_start

abbrev pub set_newpage_end : ℕ → ℕ
set_newpage_end e = e - newpage_flags e + newpage_end
