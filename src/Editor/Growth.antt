-- ===== src/Editor/Growth.antt =====
-- line_reserve of arch/x86/snake/snake.c: the doubling loop ends, and the line gets its room.
use cobra_os.Base.{
  ℕ, zero, suc, ◌+◌, ◌-◌, ◌*◌, ◌%◌, ◌^◌, ◌<◌, ◌≤◌, ◌≡◌, refl, sym, ap, subst, ◌∙◌, ltb, leb, ◌==◌,
  if◌then◌else◌, Array, Option, none, some, true, false, arith, Bool-cases, inl, inr,
}
use native.Mathlib.Nat.{pow-suc}
use cobra_os.Editor.Line.{
  Heap, later, Line, grow, line_new_cap, line_move, line_reserve, line_insert_char, line_join,
}
use cobra_os.Memory.{memcpy_at, memmove_at}
use cobra_os.Editor.Lines.{line_reserve-SameText}

doubled : (c x y : ℕ) → y ≡ 2 * x → c * y ≡ c * 2 * x
doubled c x y e = ap (λ t. c * t) e ∙ grind arith

-- The doubling loop of line_reserve ends with room enough: for a request of at most 2^31 bytes, as many
-- rounds as it takes for the capacity to reach the request are enough. The result is the capacity times
-- a power of two, so that no doubling wraps around.
pub le-grow :
    (fuel cap needed : ℕ)
    → needed ≤ cap * 2 ^ fuel
    → needed ≤ 2 ^ 31
    → (needed ≤ grow fuel cap needed) × ((j : ℕ) × (grow fuel cap needed ≡ cap * 2 ^ j))
unfolding grow
le-grow zero cap needed enough small = (omega arith, (0, omega arith))
le-grow (suc fuel) cap needed enough small = elim (Bool-cases (ltb cap needed)) [
  | inl short ↦
      let (room, (j, e)) =
        le-grow fuel (cap * 2 % 2 ^ 32) needed
          (subst (λ c. needed ≤ c * 2 ^ fuel) (ground arith)
            (subst (λ t. needed ≤ t)
              (doubled cap (2 ^ fuel) (2 ^ suc fuel) (omega (arith, pow-suc 2 fuel))) enough))
          small in
      rw short (
        room,
        (
          suc j,
          e
              ∙ ap (λ c. c * 2 ^ j) {y = cap * 2} (ground arith)
              ∙ sym (doubled cap (2 ^ j) (2 ^ suc j) (omega (arith, pow-suc 2 j))),
        ),
      )
  | inr fits ↦ rw fits (ground arith, (0, omega arith))
]

-- a line in memory: its characters and the NUL behind them lie within its block
pub record IsStored (l : Line) : Type 0 where
  pub there : l.null ≡ false
  pub fits : l.len < l.cap
  pub closed : l.bytes l.len ≡ 0

line_new_cap-enough :
    (l : Line) (needed : ℕ) → l.cap < needed → needed ≤ 2 ^ 31 → needed ≤ line_new_cap l needed
unfolding line_new_cap
line_new_cap-enough l needed short small =
    (le-grow 32 (if l.cap == 0 then 16 else l.cap * 2 % 2 ^ 32) needed
      (enough (if l.cap == 0 then 16 else l.cap * 2 % 2 ^ 32) (ground arith)) small).0
  where
    enough : (s : ℕ) → 0 < s → needed ≤ s * 2 ^ 32
    enough s pos = omega arith

line_move-stored :
    (l : Line) (needed : ℕ) (b : Option Array) (h : Heap)
    → IsStored l
    → l.cap < needed
    → needed ≤ 2 ^ 31
    → (line_move l needed b h).ok ≡ true
    → (needed ≤ (line_move l needed b h).line.cap) × ((line_move l needed b h).line.bytes l.len ≡ 0)
unfolding line_move
line_move-stored l needed none h v short small ok = cc
line_move-stored l needed (some b) h v short small ok = (
  line_new_cap-enough l needed short small,
  rw (v.there) (ground (arith, memcpy_at b 0 l.bytes 0 (l.len + 1) l.len, v.closed)),
)

-- A reservation that succeeds gives the room, and keeps the characters and the NUL.
pub line_reserve-stored :
    (l : Line) (needed : ℕ) (h : Heap)
    → IsStored l
    → needed ≤ 2 ^ 31
    → (line_reserve l needed h).ok ≡ true
    → (needed ≤ (line_reserve l needed h).line.cap)
      × ((line_reserve l needed h).line.bytes l.len ≡ 0)
unfolding line_reserve
line_reserve-stored l needed h v small ok = elim (Bool-cases (leb needed l.cap)) [
  | inl roomy ↦ rw roomy (ground arith, v.closed)
  | inr short ↦
      rw short (line_move-stored l needed (h 0) (later h) v (ground arith) small (rw short at ok))
]

line_move-failed :
    (l : Line) (needed : ℕ) (b : Option Array) (h : Heap)
    → (line_move l needed b h).ok ≡ false
    → (line_move l needed b h).line ≡ l
unfolding line_move
line_move-failed l needed none h no_room = refl
line_move-failed l needed (some b) h no_room = cc

line_reserve-failed :
    (l : Line) (needed : ℕ) (h : Heap)
    → (line_reserve l needed h).ok ≡ false
    → (line_reserve l needed h).line ≡ l
unfolding line_reserve
line_reserve-failed l needed h no_room = elim (Bool-cases (leb needed l.cap)) [
  | inl roomy ↦ rw roomy refl
  | inr short ↦ rw short (line_move-failed l needed (h 0) (later h) (rw short at no_room))
]

-- A reservation that fails leaves the line alone.
failed :
    (l : Line) (needed : ℕ) (h : Heap)
    → IsStored l
    → (line_reserve l needed h).ok ≡ false
    → IsStored (line_reserve l needed h).line
failed l needed h v no_room = subst IsStored (sym (line_reserve-failed l needed h no_room)) v

-- Inserting a character into a line keeps its characters and the closing NUL within its block, whatever
-- kmalloc answers, for lines of less than 2^31 - 1 characters.
pub line_insert_char-IsStored :
    (l : Line) (pos c : ℕ) (h : Heap)
    → IsStored l
    → l.len + 2 ≤ 2 ^ 31
    → IsStored (line_insert_char l pos c h).line
unfolding line_insert_char
line_insert_char-IsStored l pos c h v small =
    let r = line_reserve l (l.len + 2) h in
    let same = line_reserve-SameText l (l.len + 2) h v.there in
    elim (Bool-cases (ltb l.len pos)) [
      | inl out ↦ rw out v
      | inr inside ↦ elim (Bool-cases r.ok) [
        | inl ok ↦
            let (room, nul) = line_reserve-stored l (l.len + 2) h v small ok in
            rw (inside, ok)
              (record {
                there = same.same_null;
                fits = omega (arith, room);
                closed = ground (
                  arith,
                  nul,
                  memmove_at r.line.bytes (pos + 1) pos (l.len - pos + 1) (l.len + 1),
                );
              })
        | inr fails ↦ rw (inside, fails) (failed l (l.len + 2) h v fails)
      ]
    ]

-- So does joining another line to it.
pub line_join-IsStored :
    (dest src : Line) (h : Heap)
    → IsStored dest
    → dest.len + src.len + 1 ≤ 2 ^ 31
    → IsStored (line_join dest src h).line
unfolding line_join
line_join-IsStored dest src h v small =
    let n = dest.len + src.len + 1 in
    let r = line_reserve dest n h in
    let same = line_reserve-SameText dest n h v.there in
    elim (Bool-cases r.ok) [
      | inl ok ↦
          let (room, nul) = line_reserve-stored dest n h v small ok in
          rw ok
            (record { there = same.same_null; fits = omega (arith, room); closed = ground arith })
      | inr fails ↦ rw fails (failed dest n h v fails)
    ]
