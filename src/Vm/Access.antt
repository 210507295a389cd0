-- ===== src/Vm/Access.antt =====
-- Looking addresses up: the checks of vm.c and kern/syscalls/syscall_util.c on what a user passes in,
-- and the two handlers of kern/syscalls/memory_syscalls.c.
use p.Base.{
  ℕ, zero, suc, ◌+◌, ◌-◌, ◌%◌, ◌^◌, Bool, true, false, ◌&&◌, ◌||◌, not, ◌==◌, ltb, leb,
  if◌then◌else◌, Option, none, some,
}
use p.Frames.{user_mem_start}
use p.Vm.Entry.{entry_default, entry_addr, has_bit, read_write, pd_index, pt_index, page_round_down}
use p.Vm.Defs.{Vm, M, pure}
use p.Vm.Mapping.{Status, error, inval, map_new_pages, unmap_new_pages}

-- The answers of `is_memory_range_mapped`: MEMORY_REGION_MAPPED, MEMORY_REGION_UNMAPPED, ERR_INVAL.
pub data Region : Type 0 where
  mapped unmapped invalid : Region

-- Whether the current page directory has a table for the page, and the table an entry.
unfoldable pub is_page_mapped : Vm → ℕ → Bool
is_page_mapped s addr =
    let e = s.word s.cr3 (pd_index addr) in
    not (e == entry_default) && not (s.word (entry_addr e) (pt_index addr) == entry_default)

-- `while (base <= end_addr)` on fuel, `none` when it runs out. The address wraps at 2^32.
unfoldable pub scan_pages : Vm → (end fuel base : ℕ) → Option Region
unfolding is_page_mapped
scan_pages s end zero base = none
scan_pages s end (suc fuel) base =
    let rest = scan_pages s end fuel ((base + 4096) % 2 ^ 32) in
    if leb base end
    then if is_page_mapped s base then some Region.mapped else rest
    else some Region.unmapped

-- MAX_MEMORY_ADDR - USER_MEM_START
abbrev pub max_available_user_mem : ℕ
max_available_user_mem = 0xffffffff - user_mem_start

-- `len` is the bit pattern of an int, negative from 2^31 on. No 32-bit address is above the maximum.
unfoldable pub is_memory_range_mapped : (fuel base len : ℕ) → Vm → Option Region
unfolding scan_pages
is_memory_range_mapped fuel base len s =
    if (base == 0) || (len == 0) || leb (2 ^ 31) len || ltb max_available_user_mem len
    then some Region.invalid
    else if ltb base user_mem_start
    then some Region.mapped
    else scan_pages s ((base + len) % 2 ^ 32) fuel (page_round_down base)

-- `bytes` is not used by the source.
unfoldable pub is_memory_writable : (ptr bytes : ℕ) → Vm → Bool
is_memory_writable ptr bytes s =
    let e = s.word s.cr3 (pd_index ptr) in
    let v = s.word (entry_addr e) (pt_index ptr) in
    not (e == entry_default) && (not (v == entry_default) && has_bit read_write v)

-- Only the answer UNMAPPED is refused.
abbrev pub accepted : Option Region → Option Bool
accepted none = none
accepted (some Region.unmapped) = some false
accepted (some Region.mapped) = some true
accepted (some Region.invalid) = some true

unfoldable pub is_pointer_valid : (fuel ptr bytes : ℕ) → Vm → Option Bool
unfolding is_memory_range_mapped
is_pointer_valid fuel ptr bytes s =
    if ltb ptr user_mem_start
    then some false
    else accepted (is_memory_range_mapped fuel ptr bytes s)

module _ (count : ℕ) where
  unfoldable pub map_if_unmapped : (fuel base len : ℕ) → Option Region → M (Option Status)
  unfolding map_new_pages
  map_if_unmapped fuel base len none = pure none
  map_if_unmapped fuel base len (some Region.unmapped) = map_new_pages count fuel base len
  map_if_unmapped fuel base len (some Region.mapped) = pure (some (error inval))
  map_if_unmapped fuel base len (some Region.invalid) = pure (some (error inval))

  -- `new_pages`, for a length whose sign bit is bit 31.
  unfoldable pub new_pages_handler : (fuel base len : ℕ) → M (Option Status)
  unfolding is_memory_range_mapped map_if_unmapped
  new_pages_handler fuel base len s =
      if (len == 0) || leb (2 ^ 31) len || not (len % 4096 == 0) || not (base % 4096 == 0)
      then pure (some (error inval)) s
      else map_if_unmapped fuel base len (is_memory_range_mapped fuel base len s) s

  unfoldable pub remove_pages_handler : (fuel base : ℕ) → M (Option Status)
  unfolding unmap_new_pages
  remove_pages_handler fuel base =
      if not (base % 4096 == 0) then pure (some (error inval)) else unmap_new_pages count fuel base
