-- ===== src/Lib.antt =====
-- CobraOS, a 32-bit x86 kernel in C: a verification library for its parts that carry state.
--
-- The kernel boots through Multiboot, hands the memory map's available pages to the physical page
-- allocator, and then serves a shell and an editor that read characters from the keyboard driver.
--
-- Base: shared names, Boolean tests, lists and arrays over native numbers, and the single binary
--   digits of a word under `&`, `|` and `~`.
-- Pmm: arch/x86/kernel/pmm.c, the page allocator. `Pmm` is the file's static variables; `init`,
--   `alloc_page`, `free_page`, `get_free_page_count` and `is_page_free` are the functions
--   `pmm_...` of these names. The source indexes its bitmap unchecked: a call that would leave the
--   bitmap returns `none`. Pmm/Spec is the promise, a stack of pages in distinct frames;
--   Pmm/Invariant ties bitmap and stack together; Pmm/Refine and Pmm/Capacity prove the operations.
-- Keyboard: arch/x86/drivers/keyboard/keyboard.c and its key tables. Keyboard/State has the static
--   variables, the bitmap of keys that are down and the ring buffer of 256 bytes; Keyboard/Keystroke
--   the modifiers, the cursor keys and process_character; Keyboard/Interrupt keyboard_handler with
--   its wait for the controller. The reads of the status port and the scancode are the handler's
--   input, its acknowledgement at port 0x20 its output. Keyboard/Buffer relates the ring to a queue,
--   Keyboard/Keys and Keyboard/Handler treat keys and modifiers, Keyboard/Output and Keyboard/Bounds
--   the characters typed.
-- Shell: the line editor of arch/x86/kernel/shell.c. Shell/Line has the static variables,
--   insertion, deletion and cursor moves; Shell/Feed shell_feed_char, the escape sequences and the
--   history, with strlen, strcpy and strcmp of lib/string.c. Shell/Zipper reads the buffer as the
--   text before and after the cursor; Shell/Strings and Shell/Safe treat the bounds of the
--   buffers. The string loops run for at most 256 steps, the size of the buffers, and every string
--   in them ends earlier.
-- Rtc: arch/x86/drivers/cmos/rtc.c, the decoding of the clock's registers by rtc_read_datetime;
--   the registers are a function of their number. Rtc/Encode says how a clock stores a date.
-- Memory: memcpy, memmove and memset of lib/string.c, on arrays of elements of any type, and what
--   kmalloc answers to its callers.
-- Editor: arch/x86/snake/snake.c, the text editor. Editor/Line has the growing lines, Editor/State
--   the editor with its undo and redo stacks, Editor/Edit the commands and cursor moves,
--   Editor/Keys kbd_read_event, Editor/File opening and saving, Editor/Session a turn of the
--   event loop and the dialogs, Editor/Loop the loop of editor_run; what the file system returns
--   is an input there. What kmalloc answers is an input, a sequence of blocks or refusals, so that every
--   failure is covered; what it hands out has arbitrary contents, and kfree leaves no trace. The
--   fields that the source's EditorState shares with Editor are the editor's `page`. Editor/Spec
--   and Editor/Page read a page as a text with a cursor; Editor/Lines, Editor/Clone,
--   Editor/Stacks, Editor/Pages, Editor/Breaks and Editor/Joins prove the parts, Editor/Refine,
--   Editor/Erase and Editor/Commands the commands, Editor/Undo undo and redo, Editor/Growth the
--   room of the lines, Editor/Saved, Editor/Parsed, Editor/Found and Editor/Reopened the files,
--   Editor/Supply, Editor/Opening, Editor/Rounds and Editor/Runs whole runs, Editor/Decode the keys that Keyboard queues. The results of
--   fs_read_file and fs_write_file are inputs of opening and saving; drawing is left out. The
--   doubling of a line's capacity has fuel for 32 rounds, which is enough up to 2^31 bytes.
-- Ramfs: arch/x86/fs/ramfs.c. Ramfs/Node has the nodes and open files with reading and writing,
--   Ramfs/Tree the directories and the lookup of paths, Ramfs/Files the editor's fs_read_file and
--   fs_write_file. Nodes are numbered, and a chain of siblings is the list of their numbers;
--   strings are lists of characters. Ramfs/Content, Ramfs/Lookup and Ramfs/Reread prove them. The
--   loop over a path has as many rounds as the path has characters, which is enough since each
--   round takes one at least.
-- Screen: arch/x86/drivers/screen/screen.c, characters, scrolling and the cursor, in Screen/Print.
--   The video memory is an array of cells. Screen/Bounds treats the bounds of the screen,
--   Screen/Text printed text. Screen/Format has the formats of viprint; the text that a conversion
--   makes of an argument is an input.
-- Tasks: arch/x86/kernel/task.c, the queue of tasks and schedule, in Tasks/Schedule. Tasks/Fair
--   and Tasks/Turns treat the order of the tasks. The loop of schedule has as many rounds as the
--   queue has tasks, which is enough.
-- Heap: arch/x86/kernel/heap.c, the buddy allocator. The memory is a function from the address to the
--   32-bit word there, so headers, payloads and the word before an aligned pointer share it; the
--   chain of next pointers of a free list is the list of its blocks. Heap has the list operations,
--   split_block and coalesce, Heap/Alloc the rest; `none` stands for the loops of `cli; hlt`. The
--   loops have as many rounds as there are orders, which is their bound in the source. Heap/Tree
--   has the abstract view, a tree of halves, Heap/Invariant what it says of the memory and the
--   lists, Heap/Sizes, Heap/Places and Heap/Listed the lemmas on addresses, trees and lists,
--   Heap/Split, Heap/Search, Heap/Take and Heap/Granted allocation, Heap/Merge, Heap/Coalesce and
--   Heap/Release the way back, Heap/Contract what clients see, Heap/Powers and Heap/OnBoundary
--   aligned allocation, and Heap/Clients, Heap/Blocks and Heap/Sessions whole sessions of clients.
--   The other components still take what kmalloc answers as an input.
-- Commands: the commands of arch/x86/kernel/shell.c. Commands has the parts of a line,
--   Commands/Files cd, ls, cat, mkdir, rm, touch and pwd on the file system of Ramfs,
--   Commands/Pages kalloc and kfree on the heap of Heap; Shell/Numbers has the numbers they print
--   and read. What a command prints is a value; the names that ls
--   and pwd print are formats of viprint. cat has a bound on its rounds as an argument, and
--   pwd follows at most as many parents as there are nodes. Commands/Parts, Commands/WayBack,
--   Commands/MakeEnter, Commands/Cat, Commands/Dangling, Commands/FreeBack and Shell/ReadBack
--   prove them.
-- Timers: the timer queue of arch/x86/cpu/timer.c. The callbacks are recorded and leave the queue
--   alone; timer_tick has a bound on its rounds, and Timers/Ticks says how many are enough.
--
-- C arrays are functions of the index; unsigned arithmetic wraps where the source's could. Of the
-- loops on fuel, the handler's wait has the source's own timeout of 1000 reads for its fuel.
-- A char is a byte from 0 to 255; only bytes below 128 are compared with letters, so the sign of
-- char does not matter.
--
-- Not modelled: which messages the code prints, port programming of the controllers, inline assembly,
-- and the parts that have no module here: the kernel log, the walk of the memory map,
-- the scheduled shutdown, descriptor tables, and the other commands of the shell.
pub mod Base
pub mod Memory
pub mod Pmm
pub mod Heap
pub mod Commands
pub mod Keyboard
pub mod Shell
pub mod Rtc
pub mod Editor
pub mod Ramfs
pub mod Screen
pub mod Tasks
pub mod Timers
