-- ===== src/Ramfs/Node.antt =====
-- File nodes and open files of arch/x86/fs/ramfs.c: reading and writing. The locks of the SMP build are
-- left out. Offsets and sizes are 32-bit words.
use cobra_os.Base.{
  ℕ, ◌+◌, ◌-◌, ◌/◌, ◌%◌, ◌^◌, Array, ltb, leb, ◌==◌, not, if◌then◌else◌, Bool, Option, none, some,
  List,
}
use cobra_os.Memory.Copy.{memcpy}
use cobra_os.Memory.Fill.{memset}
use cobra_os.Memory.Heap.{Heap, later}

-- an int that a function returns: a count, or the absolute value of a negative number
pub data Result : Type 0 where
  done fail : ℕ → Result

-- `bytes` is the block `data` points to. `data` is NULL while nothing was written; the size is 0 then.
-- A parent and a child are given by the number of their node; `children` lists the chain that starts at
-- the pointer of this name and runs through `next`.
pub record Node : Type 0 where
  pub name : List ℕ
  pub kind : ℕ
  pub size : ℕ
  pub bytes : Array
  pub parent : Option ℕ
  pub children : List ℕ

-- `node->type & FS_FILE`, `node->type & FS_DIRECTORY`
abbrev pub is_file : Node → Bool
is_file n = not (n.kind % 2 == 0)

abbrev pub is_directory : Node → Bool
is_directory n = not (n.kind / 2 % 2 == 0)

-- `(int)size` of a 32-bit word
abbrev pub to_int : ℕ → Result
to_int size = if ltb size (2 ^ 31) then done size else fail (2 ^ 32 - size)

-- what a read returns and leaves in the buffer
pub record Read : Type 0 where
  pub result : Result
  pub buffer : Array

-- the number of bytes that default_read copies
unfoldable pub read_size : Node → ℕ → ℕ → ℕ
read_size n offset size = if ltb n.size ((offset + size) % 2 ^ 32) then n.size - offset else size

unfoldable pub default_read : Node → ℕ → ℕ → Array → Read
default_read n offset size buffer =
    let count = read_size n offset size in
    if not (is_file n)
    then record { result = fail 1; buffer = buffer }
    else if leb n.size offset
    then record { result = done 0; buffer = buffer }
    else if count == 0
    then record { result = done 0; buffer = buffer }
    else record { result = to_int count; buffer = memcpy buffer 0 n.bytes offset count }

-- what a write returns, the node it leaves, and the answers of kmalloc to come
pub record Written : Type 0 where
  pub result : Result
  pub node : Node
  pub heap : Heap

-- the longer block: the old bytes, and zeros behind them
abbrev pub grown : Node → ℕ → Array → Node
grown n new_size b = record n {
  bytes = memset (memcpy b 0 n.bytes 0 n.size) n.size 0 (new_size - n.size);
  size = new_size;
}

abbrev pub overwritten : Node → ℕ → ℕ → Array → Node
overwritten n offset size buffer = record n { bytes = memcpy n.bytes offset buffer 0 size }

-- default_write where the file grows, from the answer of kmalloc on
unfoldable pub write_grown : Node → ℕ → ℕ → Array → Option Array → Heap → Written
write_grown n offset size buffer none h = record { result = fail 1; node = n; heap = h }
write_grown n offset size buffer (some b) h = record {
  result = to_int size;
  node = overwritten (grown n ((offset + size) % 2 ^ 32) b) offset size buffer;
  heap = h;
}

unfoldable pub default_write : Node → ℕ → ℕ → Array → Heap → Written
default_write n offset size buffer h =
    if not (is_file n)
    then record { result = fail 1; node = n; heap = h }
    else if ltb n.size ((offset + size) % 2 ^ 32)
    then write_grown n offset size buffer (h 0) (later h)
    else record { result = to_int size; node = overwritten n offset size buffer; heap = h }

-- an open file: the number of its node, its flags and its position
pub record File : Type 0 where
  pub node : ℕ
  pub flags : ℕ
  pub position : ℕ

-- `flags & O_READ`, `flags & O_WRITE`, `flags & O_APPEND`
abbrev pub reads : ℕ → Bool
reads flags = not (flags % 2 == 0)

abbrev pub writes : ℕ → Bool
writes flags = not (flags / 2 % 2 == 0)

abbrev pub appends : ℕ → Bool
appends flags = not (flags / 4 % 2 == 0)

-- ramfs_open of the node with this number, `none` for NULL; kmalloc answers `answer`
unfoldable pub ramfs_open : ℕ → Node → ℕ → Option Array → Option File
ramfs_open i n flags none = none
ramfs_open i n flags (some b) =
    if is_file n
    then some (record { node = i; flags = flags; position = if appends flags then n.size else 0 })
    else none

-- `if (count > 0) file->position += count`, with 32-bit words
abbrev pub advance : File → Result → File
advance f (done k) = record f { position = (f.position + k) % 2 ^ 32 }
advance f (fail k) = f

-- ramfs_read and ramfs_write on an open file, whose node is `n`
unfoldable pub ramfs_read : File → Node → ℕ → Array → Read × File
ramfs_read f n size buffer =
    let r = default_read n f.position size buffer in
    if reads f.flags
    then (r, advance f r.result)
    else (record { result = fail 1; buffer = buffer }, f)

unfoldable pub ramfs_write : File → Node → ℕ → Array → Heap → Written × File
ramfs_write f n size buffer h =
    let w = default_write n f.position size buffer h in
    if writes f.flags
    then (w, advance f w.result)
    else (record { result = fail 1; node = n; heap = h }, f)
