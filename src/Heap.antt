-- ===== src/Heap.antt =====
-- Allocation. The environment's answers to the coming calls of `malloc` are a list: `true` for a
-- block, `false` for `NULL`; past its end every call succeeds.
use android_boot_image_edito.Common.{Bool, true, List, [], ◌∷◌}

abbrev pub Heap : Type 0
Heap = List Bool

abbrev pub malloc : Heap → Bool × Heap
malloc [] = (true, [])
malloc (b ∷ h) = (b, h)

-- A computation that may allocate.
abbrev pub Alloc : Type 0 → Type 0
Alloc A = Heap → A × Heap

-- Every allocation succeeds.
abbrev pub Plenty : Heap
Plenty = []
