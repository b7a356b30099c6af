-- ===== src/Commands/Pages.antt =====
-- The commands kalloc, kfree, free and freecount of arch/x86/kernel/shell.c. `none` stands for a stop of
-- the machine inside the allocator.
use cobra_os.Base.{ℕ, ◌==◌, if◌then◌else◌, List, Option, none, some}
use cobra_os.Heap.{HeapState, ◌>>=◌}
use cobra_os.Heap.Alloc.{kmalloc, kfree}
use cobra_os.Shell.Numbers.{parse_dec, parse_hex}

-- what the commands report; the numbers are printed by print_uint and hexprint
pub data Report : Type 0 where
  usage failed : Report
  allocated : ℕ → ℕ → Report
  freed : ℕ → Report

abbrev pub allocation : ℕ → HeapState × ℕ → HeapState × Report
allocation size (h, ptr) = (h, if ptr == 0 then failed else allocated size ptr)

unfoldable pub kalloc_size : HeapState → Option ℕ → Option (HeapState × Report)
kalloc_size h none = some (h, usage)
kalloc_size h (some size) = kmalloc h size >>= λ answer. some (allocation size answer)

unfoldable pub cmd_kalloc : HeapState → List ℕ → Option (HeapState × Report)
cmd_kalloc h args = kalloc_size h (parse_dec args)

unfoldable pub kfree_at : HeapState → Option ℕ → Option (HeapState × Report)
kfree_at h none = some (h, usage)
kfree_at h (some addr) = kfree h addr >>= λ h'. some (h', freed addr)

unfoldable pub cmd_kfree : HeapState → List ℕ → Option (HeapState × Report)
cmd_kfree h args = kfree_at h (parse_hex args)
