-- ===== src/Lib.antt =====
-- Griffin, an x86-64 kernel in Rust: its memory management, the kernel heap, its file systems and the
-- drivers under them, and the tables and registers of the processor.
--
-- The boot code hands the kernel a memory map. `init` of src/arch/x86_64/mm/pmm.rs builds from it a
-- bitmap with a bit for each page, from which `alloc` and `calloc` take runs of pages. The virtual
-- memory manager of src/mm/vmm.rs takes its page tables from that allocator and walks them, and the heap of
-- src/mm/slab.rs its slabs. File systems are mounted in src/fs/vfs.rs and called through it.
--   Common: outcomes (a panic is a value), machine words, lists
--   Bits: the bits of a number, and masks as arithmetic
--   Utils/Math, Utils/Bitmap: src/utils/math.rs and src/utils/bitmap.rs
--   Arch/PhysAddr, Arch/Pmm: src/arch/x86_64/mm/pmm.rs; Pmm/Init is its `init`, with the
--     loops in Init/Marks and their result in Init/Places, Pmm/Buffers `PmmBox`
--   Arch/Memory: the words that page tables are made of
--   Mm/Flags, Mm/VirtAddr, Mm/Vmm: src/mm/vmm.rs
--   Mm/Ranges: the ranges of src/mm/vmm.rs; Ranges/Lookup is `get_range`, Ranges/Mmap `mmap`, with the
--     loop over its pages in Ranges/Pages, and Ranges/Spaces `VirtualMemManager::new`
--   Mm/Slab: src/mm/slab.rs; Slab/Objects is one slab, Slab/Caches a cache, Slab/Sizes the choice of one
--   Arch/Interrupts: the interrupt table of src/arch/x86_64/interrupts.rs; Interrupts/Stubs is the
--     assembly around a handler, as instructions on registers and a stack
--   Arch/Pci: src/arch/x86_64/pci.rs, over what the ports do, a parameter; Pci/Devices finds the devices
--   Arch/Gdt, Arch/Cpu, Arch/Apic, Arch/Acpi: gdt.rs, cpu.rs, apic.rs and acpi/mod.rs of src/arch/x86_64,
--     over the instructions and the registers
--   Drivers/Ahci: src/drivers/ahci.rs; Ahci/Command is a command in memory, Ahci/Port `send_command` over
--     the registers of a port, Ahci/Transfer `read` and `write` over commands, Ahci/Setup `new` and `init`
--   Drivers/Hpet: src/drivers/hpet.rs; Hpet/Setup is its `init`
--   Proc/Process: src/proc/process.rs, the numbers of processes and threads, and new ones of both
--   Fs/Vfs: src/fs/vfs.rs; Vfs/Mounts is `mount`, Vfs/Opens `get_mount_point`
--   Fs/Device: `read` and `write` of the disk as the file systems call them
--   Fs/Ext2: src/fs/ext2.rs; Ext2/Layout is the structs on the disk, Ext2/Volume where they lie,
--     Ext2/Alloc the free blocks and inodes, Ext2/Pointers the block of an index, Ext2/Files reads and
--     writes, Ext2/Directory the entries, Ext2/Paths the calls that src/fs/vfs.rs makes
--   Fs/Partitions: src/fs/partitions.rs; Partitions/Entries is the scan of the table's entries,
--     Partitions/Verdict what the disk's bytes say of a partition
--   Video: src/video; Video/Fonts is the font, Video/Glyphs what a character draws, Video/Lines text
--   Serial: src/serial.rs, over the byte ports, a parameter
--   Sync/Spinlock: src/spinlock.rs, with any number of processors that take turns in any order
--   Examples: tests, and each theorem at a concrete state
--
-- A number of the source is a natural number, and the operators that can overflow panic, as in the
-- debug build that the Makefile makes. Bit sets of the `bitflags` crate are numbers with the crate's
-- operations as a parameter (`Bitflags`). Memory is a function from physical addresses to words;
-- the higher half maps all of it, so an address and its higher-half alias name the same word. Loops
-- over `a..b` are recursion on the number of rounds `b - a`, which is exact.
-- A loop that the data or the hardware ends has fuel: as many rounds as bytes are asked for in reads
-- and writes of files, each of which moves a byte at least; as many as the directory has bytes in
-- the search of a directory, where an entry has a byte at least; 256 in the walk through the
-- capabilities of a device, whose offsets are one byte; and a number of rounds that the caller chooses
-- where a register is polled. A loop that runs out of fuel, and a copy or a transfer behind a buffer,
-- for which the source has no check and which is undefined there, are panics.
-- The disk under ext2 is the record `Device`, the mounted file system, `EXT2_FS`, an argument, and the
-- controller under `read` and `write` the record `Controller`. Both records are interfaces that cut the
-- program in two: `Device` stands for `read` and `write` of src/drivers/ahci.rs as src/fs calls them,
-- which may fail but have no panic among their outcomes here, and `Controller` stands for
-- `send_command`, whose steps on the registers of a port are the subject of Ahci/Port. Nothing here
-- links these three layers.
-- The bytes of the page bitmap are a part of the allocator's state and not of the memory that `calloc`
-- clears. The two are apart where the pages of the bitmap are in use, which Pmm/Buffers names
-- `KeepsOwn`; that a bitmap is cleared as memory, since its last page was handed out, is not modelled.
--
-- Not modelled: the locks inside the allocators, which are those of the spin crate (each operation holds
-- its lock to the end), single instructions that change only processor state (cr3, the address cache,
-- the interrupt flag), the pages of the temporary buffers of src/fs/ext2.rs and src/drivers/ahci.rs, the
-- order of the initialisers in src/main.rs, src/proc/scheduler.rs and the page-fault handler of
-- src/mm/vmm.rs, which are commented out, and the parts that the modules above do not name.
pub mod Common
pub mod Bits
pub mod Utils
pub mod Arch
pub mod Mm
pub mod Proc
pub mod Fs
pub mod Sync
pub mod Serial
pub mod Video
pub mod Drivers
pub mod Examples
