-- ===== src/Editor/Line.antt =====
-- One line of the editor, arch/x86/snake/snake.c: a growing buffer. What kmalloc answers is an input:
-- `none` for NULL, `some b` for a block with the contents `b`. kfree leaves no trace in the model,
-- since the answers are arbitrary.
use cobra_os.Base.{
  ℕ, zero, suc, ◌+◌, ◌-◌, ◌*◌, ◌%◌, ◌^◌, Array, update, ltb, leb, ◌==◌, if◌then◌else◌, Bool, true,
  false, Option, none, some,
}
pub use cobra_os.Memory.Heap.{Heap, later}
use cobra_os.Memory.Copy.{memcpy, memmove}

-- `data` is NULL if `null` is set, else it points to `bytes`
pub record Line : Type 0 where
  pub null : Bool
  pub bytes : Array
  pub len : ℕ
  pub cap : ℕ

-- what a fallible operation returns, the line it leaves, and the answers that are left
pub record Attempt : Type 0 where
  pub ok : Bool
  pub line : Line
  pub heap : Heap

-- `while (new_cap < needed) new_cap *= 2` on a 32-bit size_t
unfoldable pub grow : ℕ → ℕ → ℕ → ℕ
grow zero new_cap needed = new_cap
grow (suc fuel) new_cap needed =
    let rest = grow fuel (new_cap * 2 % 2 ^ 32) needed in
    if ltb new_cap needed then rest else new_cap

unfoldable pub line_new_cap : Line → ℕ → ℕ
line_new_cap l needed = grow 32 (if l.cap == 0 then 16 else l.cap * 2 % 2 ^ 32) needed

-- line_reserve from the answer of kmalloc on
unfoldable pub line_move : Line → ℕ → Option Array → Heap → Attempt
line_move l needed none h = record { ok = false; line = l; heap = h }
line_move l needed (some b) h = record {
  ok = true;
  line = record {
    null = false;
    bytes = if l.null then b else memcpy b 0 l.bytes 0 (l.len + 1);
    len = l.len;
    cap = line_new_cap l needed;
  };
  heap = h;
}

unfoldable pub line_reserve : Line → ℕ → Heap → Attempt
line_reserve l needed h =
    if leb needed l.cap
    then record { ok = true; line = l; heap = h }
    else line_move l needed (h 0) (later h)

unfoldable pub line_insert_char : Line → ℕ → ℕ → Heap → Attempt
line_insert_char l pos c h =
    let r = line_reserve l (l.len + 2) h in
    if ltb l.len pos
    then record { ok = false; line = l; heap = h }
    else if r.ok
    then record r {
      line = record r.line {
        bytes = update (memmove r.line.bytes (pos + 1) pos (l.len - pos + 1)) pos c;
        len = l.len + 1;
      };
    }
    else r

unfoldable pub line_delete_char : Line → ℕ → Heap → Attempt
line_delete_char l pos h =
    if leb l.len pos then record { ok = false; line = l; heap = h } else record {
      ok = true;
      line = record l { bytes = memmove l.bytes pos (pos + 1) (l.len - pos); len = l.len - 1 };
      heap = h;
    }

-- a line whose `data` is NULL
abbrev pub empty_line : Line
empty_line = record { null = true; bytes = λ i. 0; len = 0; cap = 0 }

-- line_split: the head that stays in `line`, and the new line for the tail
pub record Split : Type 0 where
  pub head : Line
  pub tail : Attempt

unfoldable pub line_split : Line → ℕ → Heap → Split
line_split l pos h =
    let n = l.len - pos in
    let r = line_reserve empty_line (n + 1) h in
    if ltb l.len pos
    then record { head = l; tail = record { ok = false; line = empty_line; heap = h } }
    else if r.ok
    then record {
      head = record l { bytes = update l.bytes pos 0; len = pos };
      tail = record r {
        line = record r.line { bytes = update (memcpy r.line.bytes 0 l.bytes pos n) n 0; len = n };
      };
    }
    else record { head = l; tail = r }

unfoldable pub line_join : Line → Line → Heap → Attempt
line_join dest src h =
    let r = line_reserve dest (dest.len + src.len + 1) h in
    if r.ok
    then record r {
      line = record r.line {
        bytes = update (memcpy r.line.bytes dest.len src.bytes 0 src.len) (dest.len + src.len) 0;
        len = dest.len + src.len;
      };
    }
    else r
