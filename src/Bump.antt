-- ===== src/Bump.antt =====
-- kernel/src/allocator/bump.rs: the bump allocator, on addresses.
pub mod Blocks
mod Tests
use heine_os.Prelude.{ℕ, zero, suc, ◌+◌, ◌-◌, ◌%◌, ◌^◌, List, [], ◌∷◌, if◌then◌else◌, ◌==◌}
use heine_os.Allocator.{align_up}

pub record BumpAllocator : Type 0 where
  pub heap_start : ℕ
  pub heap_end : ℕ
  pub next : ℕ
  pub allocations : ℕ

unfoldable pub new_bump : BumpAllocator
new_bump = record { heap_start = 0; heap_end = 0; next = 0; allocations = 0 }

unfoldable pub init_bump : ℕ → ℕ → BumpAllocator → BumpAllocator
init_bump heap_start heap_size b = record b {
  heap_start = heap_start;
  heap_end = (heap_start + heap_size) % 2 ^ 64;
  next = heap_start;
}

-- The address, for a size and an alignment.
unfoldable pub bump_alloc : ℕ → ℕ → BumpAllocator → ℕ × BumpAllocator
bump_alloc size align b =
    let aligned_ptr = align_up b.next align in
    (
      aligned_ptr,
      record b { next = (aligned_ptr + size) % 2 ^ 64; allocations = (b.allocations + 1) % 2 ^ 64 },
    )

unfoldable pub bump_dealloc : BumpAllocator → BumpAllocator
bump_dealloc b =
    let left = (b.allocations + 2 ^ 64 - 1) % 2 ^ 64 in
    if left == 0
    then record b { allocations = left; next = b.heap_start }
    else record b { allocations = left }
