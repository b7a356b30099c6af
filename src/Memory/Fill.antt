-- ===== src/Memory/Fill.antt =====
-- memset of lib/string.c on an array of bytes that starts at a word's boundary: single bytes up to a
-- boundary, then words of four bytes, then single bytes.
use cobra_os.Base.{
  ℕ, zero, suc, ◌+◌, ◌-◌, ◌*◌, ◌/◌, ◌%◌, ◌≤◌, ◌≡◌, Array, update, ltb, leb, ◌&&◌, if◌then◌else◌,
  arith,
}

-- `while (count > 0) *p++ = c`
unfoldable pub fill_bytes : Array → ℕ → ℕ → ℕ → Array
fill_bytes f p c zero = f
fill_bytes f p c (suc n) = fill_bytes (update f p c) (suc p) c n

-- `*wp++ = word` for `n` words
unfoldable pub fill_words : Array → ℕ → ℕ → ℕ → Array
fill_words f p c zero = f
fill_words f p c (suc n) =
    fill_words (update (update (update (update f p c) (p + 1) c) (p + 2) c) (p + 3) c) (p + 4) c n

-- the bytes up to the next boundary, at most `count`
abbrev pub head_bytes : ℕ → ℕ → ℕ
head_bytes p count = let k = (4 - p % 4) % 4 in if ltb count k then count else k

unfoldable pub memset : Array → ℕ → ℕ → ℕ → Array
memset f p ch count =
    let c = ch % 256 in
    let k = head_bytes p count in
    let w = (count - k) / 4 in
    fill_bytes (fill_words (fill_bytes f p c k) (p + k) c w) (p + k + 4 * w) c (count - k - 4 * w)

-- `c` at the positions `p ≤ j < p + n`
abbrev pub filled : Array → ℕ → ℕ → ℕ → Array
filled f p c n j = if leb p j && ltb j (p + n) then c else f j

fill_bytes_at : (f : Array) (p c n j : ℕ) → fill_bytes f p c n j ≡ filled f p c n j
unfolding fill_bytes
fill_bytes_at f p c zero j = ground arith
fill_bytes_at f p c (suc n) j = ground (arith, fill_bytes_at (update f p c) (suc p) c n j)

fill_words_at : (f : Array) (p c n j : ℕ) → fill_words f p c n j ≡ filled f p c (4 * n) j
unfolding fill_words
fill_words_at f p c zero j = ground arith
fill_words_at f p c (suc n) j = ground (
  arith,
  fill_words_at (update (update (update (update f p c) (p + 1) c) (p + 2) c) (p + 3) c) (p + 4) c n
      j,
)

-- memset writes the byte at each of the `count` positions from `p` on, and nowhere else.
pub memset_at :
    (f : Array) (p ch count j : ℕ) → memset f p ch count j ≡ filled f p (ch % 256) count j
unfolding memset
memset_at f p ch count j =
    let c = ch % 256 in
    let k = head_bytes p count in
    let w = (count - k) / 4 in
    parts k w (ground arith)
      (fill_bytes_at (fill_words (fill_bytes f p c k) (p + k) c w) (p + k + 4 * w) c
        (count - k - 4 * w) j)
      (fill_words_at (fill_bytes f p c k) (p + k) c w j) (fill_bytes_at f p c k j)
  where
    parts :
        (k w : ℕ)
        → (k + 4 * w ≤ count)
        → fill_bytes
            (fill_words (fill_bytes f p (ch % 256) k) (p + k) (ch % 256) w)
            (p + k + 4 * w)
            (ch % 256)
            (count - k - 4 * w)
            j
          ≡ filled
              (fill_words (fill_bytes f p (ch % 256) k) (p + k) (ch % 256) w)
              (p + k + 4 * w)
              (ch % 256)
              (count - k - 4 * w)
              j
        → fill_words (fill_bytes f p (ch % 256) k) (p + k) (ch % 256) w j
          ≡ filled (fill_bytes f p (ch % 256) k) (p + k) (ch % 256) (4 * w) j
        → fill_bytes f p (ch % 256) k j ≡ filled f p (ch % 256) k j
        → fill_bytes
            (fill_words (fill_bytes f p (ch % 256) k) (p + k) (ch % 256) w)
            (p + k + 4 * w)
            (ch % 256)
            (count - k - 4 * w)
            j
          ≡ filled f p (ch % 256) count j
    parts k w le a b c = ground arith
