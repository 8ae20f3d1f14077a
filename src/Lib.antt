-- ===== src/Lib.antt =====
-- A verification library for the three assignments of the repository: a shell with variables (a1),
-- a shell with processes, scheduling and demand paging (a2), and a paging kernel over a file system
-- (a3). C pointers are addresses in an explicit store, global variables are fields of a state that
-- each operation takes and returns, and loops that the code does not bound run on fuel.
--
-- Prelude holds what the parts share: tests on numbers, arrays as lists (Lists), strings as lists
-- of bytes without the closing NUL (Bytes), integers (Int), the search loop (Scan), the splitting
-- of strings (Span), streams read by fgets and feof (Stream), arrays of keyed cells (Table), ranges
-- of a list (Ranges), and fields of nodes and arrays as functions with one place written (Update).
--
-- A1, the first assignment. A1.Memory: a1/shellmemory.c (mem_init, mem_set_value, mem_get_value,
-- match, extract); its children Laws and Text hold the proofs. A1.Shell: the words that parseInput
-- of a1/shell.c finds. A1.Interpreter: the dispatch of a1/interpreter.c up to each call, with its
-- if in Branches. A1.Wc: the counting of my_wc of the same file.
--
-- A2, the second assignment. A line of input goes through parseInput to the interpreter, which asks
-- the kernel to create processes and to schedule them; the kernel takes processes from the ready
-- queue, reads their lines from the frame store and hands them to parseInput again. A2.Pcb:
-- a2/pcb.h and a2/pcb.c (makePCB). A2.Store: nodes at addresses and the global head of the ready
-- queue; A2.Store.Chain says what list of nodes a store holds. A2.ReadyQueue: a2/ready_queue.c, one
-- function for each of its own; its children hold the proofs about the two ends, the swap, the
-- sort, the scores and the promotion. A2.Memory and A2.Loader: a2/shellmemory.c, the cells, with
-- whether their strings are literals, which free must not be given, the search for frames and
-- victims, and load_file, load_frame, remove_frame and mem_get_value_at_line. A2.Shell: parseInput
-- of a2/shell.c, over any interpreter. A2.Interpreter: a2/interpreter.c, the dispatch on the words
-- and the commands that work on the memory and the kernel. A2.Kernel and A2.Scheduler: a2/kernel.c,
-- where parseInput on the line of a script is a parameter, since it may run any command, and so are
-- the sizes that the Makefile sets and the names of the copied files.
--
-- A3, the third assignment. A3.Memory: a3/shellmemory.c, the allocation of frames of three lines
-- and the variables; A3.Pcb: a3/pcb.h and a3/pcb.c, the process blocks, their page tables, and the
-- reading, evicting and freeing of pages. What sprintf prints of a process number is a parameter.
-- A3.List: a3/linked_list.h and a3/linked_list.c on a store of nodes with explicit pointers; Nodes
-- says which list a structure of nodes stands for, Insert and Remove how a node comes in and goes
-- out, Ends, Pops, Values and Removal what each operation of the code does to the list. A3.Shell:
-- parseInput of a3/shell.c over any interpreter, with the string that strtok keeps as a part of the
-- program's state; Words and Lines hold the proofs. A3.Interpreter: a3/interpreter.c, the buffers
-- and copies of scripts that a command needs; Dispatch the chain of comparisons up to the call;
-- Replies what becomes of its result, with print, echo, set, run and exec; Buffers and Names hold
-- the proofs. isalnum and atoi are parameters. A3.Kernel: a3/cpu.c and a3/kernel.c, with plain
-- lists for the linked lists, and processes by their addresses, so that the cache of pages, the
-- ready queue and the list of all processes share them; Turns says what a turn does to the ready
-- queue, and Pages and Endless what becomes of a process whose file ends early. parseInput is a
-- parameter there.
--
-- Fs, the file system of the third assignment. Fs.Cache: a3/fs/cache.c over any device; its
-- children say which disk a state of the cache stands for (Agrees, Flushing), that the clock stops
-- (Eviction), and what reads, writes, the start and the end of the cache do to that disk (Coherent,
-- Closing). Fs.Sectors is the interface that the inodes use, a disk that is read and written, which
-- the cache fills. Fs.Inode: a3/fs/inode.c, with its proofs in Index, Listing and Reading; how the
-- words and the bytes of a struct lie in a sector are parameters. Fs.Space: the growing and the
-- freeing of files in a3/fs/inode.c over any free map; Reserved says what a growth that succeeds
-- leaves. Fs.Storage puts a free map beside the disk, and Full is about growth on it when the map
-- is full. Fs.Writing: inode_write_at, with the bytes of a file after it in Round, Apart, Bytes,
-- Loop and Contents. Fs.FreeMap: a3/fs/free-map.c over a bitmap with the laws of its operations,
-- and Allocating with the proofs. Fs.Directory: a3/fs/directory.c over files of entries, where an
-- offset counts entries; Search and Adding hold the proofs, and Entries puts the entries of one
-- open directory in the bytes of its inode; how a compiler lays out an entry is a parameter.
-- Fs.Path: split_path_filename of the same file. Fs.File: a3/fs/file.c, the open files, their
-- positions and their table, and the commands on them in a3/fs/fsutil.c, over the inodes and the
-- opening of a file as an interface; Entries and Positions hold the proofs.
--
-- Bounds and fuel. A loop over a queue of n nodes needs n + 1 rounds, and the sort needs one more
-- pass to see that nothing moved; the theorems ask for that much and prove that the code ends.
-- load_file gets 4 rounds, more than the two pages and the last test it can take. parseInput of a2
-- needs one round more than the words of the line and the end; a line has less than 1000 bytes, and
-- a word of 200 bytes or a command of more than 100 words is a result of its own, the write behind
-- an array. The clock of the block cache needs one round more than the 64 entries. A scheduler has
-- no bound of its own: a script may start other processes. inode_read_at and inode_write_at need
-- one round more than the bytes asked for. The search in a linked list needs one round more than
-- its elements and its last dummy node. Numbers are natural numbers where the code keeps an int
-- that is never negative; the index -1 is `none`.
--
-- Not modelled: the terminal loop and its prompts, the directory of the backing store (a copy of a
-- file that is there is taken to succeed), memory that runs out in malloc, the printing of queues
-- and memory, of a3 the scheduler run_proc_FIFO, which no command reaches, and lines of scripts
-- that start scripts themselves, and of its file system the list of open inodes, the walk along a
-- path, the opening of files by it and the other utilities, its copies of the Pintos library, the
-- run of a1, and commands that only call the operating system.
pub mod Prelude
pub mod A1
pub mod A2
pub mod A3
pub mod Fs
