-- ===== src/Lib.antt =====
-- The kernel of Project Luciano, as functions that can be run and theorems about them.
--
-- The program: kernel/vfs splits a path and walks the directory tree through the functions of the
-- mounted driver, which is the RAM file system of kernel/drivers/ramfs; that keeps the bytes of its
-- files in the growing buffers of kernel/lib/kbuf.c. kernel/memory_manager/pmm.c hands out the
-- physical frames, kernel/arch/x86_64/vmm.c builds page tables from them, and the kernel heap of
-- kernel/memory_manager/kmalloc.c maps its blocks through these. kernel/process holds the round-
-- robin queue, which the timer tick and the process system calls of kernel/arch/x86_64/syscalls
-- change. kernel/diskmanager collects the drives, reads partition tables and cuts requests to a
-- volume; kernel/drivers/ide reads the sectors. kernel/arch/x86_64/debug.c prints to the serial
-- port. kernel/arch/x86_64 encodes the descriptor tables, and its boot/limine.c takes the memory
-- map and the screens over from the bootloader.
--
-- Which file models what:
-- - Base: names and lemmas on lists, bits and machine integers that the parts share.
-- - Libc: kernel/libc/string.c. A block of memory is the list of its bytes, and an access behind
--   its end is `none`.
-- - Kbuf: kernel/lib/kbuf.c, and the loop of `ramfs_write` that grows a buffer.
-- - Fs/Path: `vfs_aux_parse_path` of kernel/vfs/vfs_dentry.c. The array of rows is a function from
--   offsets to bytes, so that a store behind a row or behind the array lands where it does in C:
--   behind the last row that is the field `depth`, which overwrites a component stored there. A
--   path in the theorems about files is the list of the names that the parser leaves of a string.
-- - Fs/World: the inodes, dentries, private nodes and file buffers on heaps by address. A run ends
--   with a result, in a fault (an access through NULL or out of bounds), or stuck without rounds.
-- - Fs/Ramfs: kernel/drivers/ramfs/ramfs.c, one function for each of its functions; reading and
--   writing are in Files, directory listings in Readdir, the initialisers in Boot.
-- - Fs/Vfs: kernel/vfs/vfs.c and kernel/lib/kstring.c; the calls on descriptors are in Io. The
--   drivers, and what the stack holds before the parser runs, are parameters.
-- - Fs/Vfs/Tree: a mounted RAM file system as a map from paths to directories and files, read from
--   the memory without the code. The calls are compared with that map in Mkdir, Open and CreateFile
--   (the part past the walk in Made, the whole call in Outcome), sequences of them in History, the
--   mount in Mount, and VFS_O_CREAT on a path that exists in Reopen.
-- - Memory/Pmm: kernel/memory_manager/pmm.c, with the bitmap as a list of bytes.
-- - Memory/Vmm: kernel/arch/x86_64/vmm.c, on a memory of 64-bit words by their addresses in the
--   direct map. vmm_create and vmm_destroy are in Space, vmm_init in Boot. Tree says when the page
--   tables form a tree, by a label for each frame: the indices that lead to it from a top table.
-- - Memory/Kmalloc: kernel/memory_manager/kmalloc.c, over Vmm and Pmm.
-- - Sched: kernel/process/scheduler.c; process.c, `task_is_main` and a pass of the cleanup daemon
--   are in Queue, the creation of tasks and processes in Create, the system calls of syscall.c and
--   syscall_proc.c in Exit. The software interrupt of `scheduler_yield` is a tick, and what a
--   call returns says which task runs then.
-- - Disk: `diskmanager_mbr_check` in Mbr, the volume calls of diskmanager.c in Volume,
--   block_device.c in Drives, the setup of diskmanager.c at boot in Setup. The driver's functions
--   are parameters.
-- - Disk/Ide: kernel/drivers/ide/ide.c. What each read of a port gives is a parameter, and the
--   writes to the ports are kept in their order. The ports and the waits are in Ports.
-- - Console: kernel/arch/x86_64/debug.c, as the bytes that are written; the serial port they go to
--   is in Serial. What each read of its status gives is a parameter.
-- - Framebuffer: kernel/drivers/framebuffer/fb.c, on the bytes of the screen.
-- - Cpu: `create_gdt_entry` and `create_idt_entry` of kernel/arch/x86_64, the tables that
--   `gdt_init` and `idt_init` build from them and the task state segment in Tables; the handlers of
--   isr.c and pic.c in Interrupt, as accesses to ports.
-- - Boot: kernel/arch/x86_64/boot/limine.c. What the bootloader answered is a parameter.
--
-- Bounds and rounds: machine integers wrap where the source's do, with `% 2 ^ w` written out. The
-- loop that grows a buffer has 66 rounds, since a size that starts at 0 or more doubles at most 64
-- times before `kbuf_grow` reports an overflow. The search of the scheduler has as many rounds as
-- the queue has entries, as in the source. The other loops recur on a list, or on the number of
-- rounds that the source's loop counts. A loop of the IDE driver that waits for the device has a
-- number of rounds that is a parameter, and is `none` without an answer; the theorem on reads asks
-- for as many rounds as the device needs reads to have data.
--
-- In the file system `kmalloc` is a parameter: a function from the number of the call and the size
-- to NULL or a block with any contents; where a theorem needs it, the block's size is the one asked
-- for. `kfree` does nothing, as in the kernel build. Log lines are left out.
--
-- Not modelled: the allocation of the scheduler's sentinel, the fonts, everything in assembler (the
-- switch of tasks, the interrupt stubs, the instructions that load the descriptor tables), and
-- kernel/kmain.c, which calls the initialisers and starts sample tasks.
pub mod Base
pub mod Libc
pub mod Kbuf
pub mod Fs
pub mod Memory
pub mod Sched
pub mod Disk
pub mod Cpu
pub mod Boot
pub mod Console
pub mod Framebuffer
