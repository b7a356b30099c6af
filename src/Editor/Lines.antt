-- ===== src/Editor/Lines.antt =====
-- What the line operations of arch/x86/snake/snake.c do at each position.
use cobra_os.Base.{
  ℕ, ◌+◌, ◌-◌, ◌<◌, ◌≤◌, ◌≡◌, refl, Array, ltb, leb, ◌==◌, if◌then◌else◌, true, false, Option, none,
  some, arith, Bool-cases, inl, inr,
}
use cobra_os.Memory.Copy.{memmove}
use cobra_os.Memory.{copied, memcpy_at, memmove_at}
use cobra_os.Editor.Line.{
  Heap, later, Line, line_move, line_reserve, line_insert_char, line_delete_char, empty_line,
  line_split, line_join,
}

-- two lines with the same characters, both there
pub record SameText (l l' : Line) : Type 0 where
  pub same_null : l.null ≡ false
  pub same_len : l.len ≡ l'.len
  pub same_bytes : (k : ℕ) → k < l'.len → l.bytes k ≡ l'.bytes k

-- A successful reservation keeps the characters, of a line that is there or that has none.
line_move-SameText :
    (l : Line) (needed : ℕ) (b : Option Array) (h : Heap)
    → l.null ≡ false
    → SameText (line_move l needed b h).line l
unfolding line_move
line_move-SameText l needed none h e = record {
  same_null = e;
  same_len = refl;
  same_bytes = λ k lt. refl;
}
line_move-SameText l needed (some b) h e = record {
  same_null = refl;
  same_len = refl;
  same_bytes = λ k lt. rw e (ground (arith, memcpy_at b 0 l.bytes 0 (l.len + 1) k));
}

line_move-null :
    (b : Option Array) (needed : ℕ) (h : Heap)
    → (line_move empty_line needed b h).ok ≡ true
    → (line_move empty_line needed b h).line.null ≡ false
unfolding line_move
line_move-null none needed h ok = cc
line_move-null (some b) needed h ok = refl

pub line_reserve-SameText :
    (l : Line) (needed : ℕ) (h : Heap) → l.null ≡ false → SameText (line_reserve l needed h).line l
unfolding line_reserve
line_reserve-SameText l needed h e = elim (Bool-cases (leb needed l.cap)) [
  | inl fits ↦ rw fits (record { same_null = e; same_len = refl; same_bytes = λ k lt. refl })
  | inr grows ↦ rw grows (line_move-SameText l needed (h 0) (later h) e)
]

-- A line with `c` inserted at `pos`.
pub record Inserted (l' l : Line) (pos c : ℕ) : Type 0 where
  pub ins_null : l'.null ≡ false
  pub ins_len : l'.len ≡ l.len + 1
  pub ins_bytes :
      (k : ℕ)
      → k ≤ l.len
      → l'.bytes k ≡ (if ltb k pos then l.bytes k else if k == pos then c else l.bytes (k - 1))

pub line_insert_char-Inserted :
    (l : Line) (pos c : ℕ) (h : Heap)
    → l.null ≡ false
    → pos ≤ l.len
    → (line_insert_char l pos c h).ok ≡ true
    → Inserted (line_insert_char l pos c h).line l pos c
unfolding line_insert_char
line_insert_char-Inserted l pos c h e le ok = elim (Bool-cases (ltb l.len pos)) [
  | inl out ↦ absurd (ground arith)
  | inr in_line ↦
      let r = line_reserve l (l.len + 2) h in
      let m : (k : ℕ)
          → memmove r.line.bytes (pos + 1) pos (l.len - pos + 1) k
            ≡ copied r.line.bytes (pos + 1) r.line.bytes pos (l.len - pos + 1) k =
        memmove_at r.line.bytes (pos + 1) pos (l.len - pos + 1) in
      let same = line_reserve-SameText l (l.len + 2) h e in
      elim (Bool-cases r.ok) [
        | inl y ↦
            rw (in_line, y)
              (record {
                ins_null = same.same_null;
                ins_len = refl;
                ins_bytes = λ k lt. ground (arith, m k, same.same_bytes k, same.same_bytes (k - 1));
              })
        | inr n ↦ absurd (ground arith)
      ]
]

-- A line without its character at `pos`.
pub record Deleted (l' l : Line) (pos : ℕ) : Type 0 where
  pub del_null : l'.null ≡ false
  pub del_len : l'.len ≡ l.len - 1
  pub del_bytes :
      (k : ℕ) → k < l.len → l'.bytes k ≡ (if ltb k pos then l.bytes k else l.bytes (k + 1))

pub line_delete_char-Deleted :
    (l : Line) (pos : ℕ) (h : Heap)
    → l.null ≡ false
    → pos < l.len
    → ((line_delete_char l pos h).ok ≡ true)
      × ((line_delete_char l pos h).heap ≡ h)
      × Deleted (line_delete_char l pos h).line l pos
unfolding line_delete_char
line_delete_char-Deleted l pos h e lt = elim (Bool-cases (leb l.len pos)) [
  | inl out ↦ absurd (ground arith)
  | inr in_line ↦ rw in_line (
    refl,
    refl,
    record {
      del_null = e;
      del_len = refl;
      del_bytes = λ k q. ground (arith, memmove_at l.bytes pos (pos + 1) (l.len - pos) k);
    },
  )
]

-- A line cut at `pos` into a head and a tail.
pub record Cut (head tail l : Line) (pos : ℕ) : Type 0 where
  pub head_null : head.null ≡ false
  pub head_len : head.len ≡ pos
  pub head_bytes : (k : ℕ) → k < pos → head.bytes k ≡ l.bytes k
  pub tail_null : tail.null ≡ false
  pub tail_len : tail.len ≡ l.len - pos
  pub tail_bytes : (k : ℕ) → k < l.len - pos → tail.bytes k ≡ l.bytes (pos + k)

-- A new line is always moved to a block.
reserve_empty-null :
    (needed : ℕ) (h : Heap)
    → 0 < needed
    → (line_reserve empty_line needed h).ok ≡ true
    → (line_reserve empty_line needed h).line.null ≡ false
unfolding line_reserve
reserve_empty-null needed h pos ok = elim (Bool-cases (leb needed 0)) [
  | inl fits ↦ absurd (ground arith)
  | inr grows ↦ rw grows (moved (h 0) (rw grows at ok))
]
  where
    moved :
        (b : Option Array)
        → (line_move empty_line needed b (later h)).ok ≡ true
        → (line_move empty_line needed b (later h)).line.null ≡ false
    moved b ok = line_move-null b needed (later h) ok

pub line_split-Cut :
    (l : Line) (pos : ℕ) (h : Heap)
    → l.null ≡ false
    → pos ≤ l.len
    → (line_split l pos h).tail.ok ≡ true
    → Cut (line_split l pos h).head (line_split l pos h).tail.line l pos
unfolding line_split
line_split-Cut l pos h e le ok = elim (Bool-cases (ltb l.len pos)) [
  | inl out ↦ absurd (ground arith)
  | inr in_line ↦
      let r = line_reserve empty_line (l.len - pos + 1) h in
      elim (Bool-cases r.ok) [
        | inl y ↦
            rw (in_line, y)
              (record {
                head_null = e;
                head_len = refl;
                head_bytes = λ k lt. ground arith;
                tail_null = reserve_empty-null (l.len - pos + 1) h (omega arith) y;
                tail_len = refl;
                tail_bytes =
                    λ k lt. ground (arith, memcpy_at r.line.bytes 0 l.bytes pos (l.len - pos) k);
              })
        | inr n ↦ absurd (ground arith)
      ]
]

-- A line with another appended.
pub record Joined (l' dest src : Line) : Type 0 where
  pub join_null : l'.null ≡ false
  pub join_len : l'.len ≡ dest.len + src.len
  pub join_bytes :
      (k : ℕ)
      → k < dest.len + src.len
      → l'.bytes k ≡ (if ltb k dest.len then dest.bytes k else src.bytes (k - dest.len))

pub line_join-Joined :
    (dest src : Line) (h : Heap)
    → dest.null ≡ false
    → (line_join dest src h).ok ≡ true
    → Joined (line_join dest src h).line dest src
unfolding line_join
line_join-Joined dest src h e ok =
    let r = line_reserve dest (dest.len + src.len + 1) h in
    let same = line_reserve-SameText dest (dest.len + src.len + 1) h e in
    elim (Bool-cases r.ok) [
      | inl y ↦ rw y (record {
        join_null = same.same_null;
        join_len = refl;
        join_bytes = λ k lt.
            ground
              (arith, memcpy_at r.line.bytes dest.len src.bytes 0 src.len k, same.same_bytes k);
      })
      | inr n ↦ absurd (ground arith)
    ]
