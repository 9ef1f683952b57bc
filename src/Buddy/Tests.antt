-- ===== src/Buddy/Tests.antt =====
-- The buddy allocator's arithmetic on small inputs.
use os_advanced_course.Base.{ℕ, ◌+◌, ◌^◌, ◌≡◌, ◌≤◌, ◌<◌, none, some, arith, ◌-◌, ◌%◌}
use os_advanced_course.Buddy.{Array, firstk, addr, blk_index_next, blk_size}
use os_advanced_course.Buddy.Bits.{IsBytes}
use os_advanced_course.Buddy.Sizes.{IsSmallest, firstk_lem, firstk-none}
use os_advanced_course.Buddy.Blocks.{addr-blk_index_next}

abbrev ones : Array
ones i = 255

ones-IsBytes : IsBytes ones
ones-IsBytes i = omega arith

abbrev zeros : Array
zeros i = 0

zeros-IsBytes : IsBytes zeros
zeros-IsBytes i = omega arith

firstk_lem_example : (k : ℕ) × (firstk 61 100 ≡ some k) × IsSmallest 100 k
firstk_lem_example = firstk_lem 100 (omega arith)

firstk-none_example : firstk 100 (2 ^ 63 + 1) ≡ none
firstk-none_example = firstk-none (2 ^ 63 + 1) 100 (omega arith)

addr-blk_index_next_example :
    (5000 ≤ addr 4096 2 (blk_index_next 4096 2 5000))
    × (addr 4096 2 (blk_index_next 4096 2 5000) < 5000 + blk_size 2)
    × ((5000 - 4096) % blk_size 2 ≡ 0 → addr 4096 2 (blk_index_next 4096 2 5000) ≡ 5000)
addr-blk_index_next_example =
    addr-blk_index_next 4096 2 5000 (omega arith) (omega arith) (omega arith)
