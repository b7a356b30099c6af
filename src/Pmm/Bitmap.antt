-- ===== src/Pmm/Bitmap.antt =====
-- The three bitmap helpers of arch/x86/kernel/pmm.c: each touches the bit of one frame.
use cobra_os.Base.{ℕ, ◌/◌, ◌%◌, ◌≡◌, true, false, not, Array, arith, ◌==◌, ap, if◌then◌else◌}
use cobra_os.Base.Bits.{bit, bit_and-pow_zero, bit-set, bit-clear}
use cobra_os.Pmm.{bitmap_set, bitmap_clear, bitmap_test}

-- The test reads one digit of one word.
bitmap_test-bit : (m : Array) (i : ℕ) → bitmap_test m i ≡ not (bit (m (i / 32)) (i % 32) == 0)
unfolding bitmap_test
bitmap_test-bit m i = ap not (bit_and-pow_zero (m (i / 32)) (i % 32))

-- Setting the bit of frame `j` changes the test of that frame alone.
pub bitmap_test-bitmap_set :
    (m : Array) (i j : ℕ)
    → bitmap_test (bitmap_set m j) i ≡ (if j == i then true else bitmap_test m i)
unfolding bitmap_set
bitmap_test-bitmap_set m i j = ground (
  arith,
  bitmap_test-bit (bitmap_set m j) i,
  bitmap_test-bit m i,
  bit-set (m (j / 32)) (j % 32) (i % 32),
)

-- Clearing the bit of frame `j` changes the test of that frame alone.
pub bitmap_test-bitmap_clear :
    (m : Array) (i j : ℕ)
    → bitmap_test (bitmap_clear m j) i ≡ (if j == i then false else bitmap_test m i)
unfolding bitmap_clear
bitmap_test-bitmap_clear m i j = ground (
  arith,
  bitmap_test-bit (bitmap_clear m j) i,
  bitmap_test-bit m i,
  bit-clear 32 (m (j / 32)) (j % 32) (i % 32),
)
