-- ===== src/Lib.antt =====
-- A model of arcpi: an ARC firmware environment and the Windows NT boot loader for the Raspberry Pi
-- 2 (arcfw/), in C.
--
-- The parts and how they interact:
--   * Firmware (arcfw/arm/memory.c, and `AEGetMemoryDescriptor` of arcfw/arm/arcemul.c): the static
--     memory map of the board, its fixup at start-up, and the walk that hands it out.
--   * Memory (arcfw/ported/blmemory.c): the loader's page descriptors and its heap.
--     `Memory.Startup` is `BlMemoryInitialize`, which reads the firmware's map (Memory/Startup/Board
--     puts the two together); Memory itself has `BlAllocateHeap`, `BlAllocateHeapAligned`,
--     `BlAllocateDescriptor`, `BlGenerateDescriptor` and `BlFindMemoryDescriptor`. The state is the record `Loader` (`BlHeapFree`, `BlHeapLimit`, the
--     descriptor list of `BlLoaderBlock`). A descriptor is named by its position in the list, which
--     only grows at its end. What a descriptor list means is `covered` (Memory/Cover): how often
--     it describes a page as a kind of memory.
--   * Disk (arcfw/arm/ramdisk.c): the disk image in memory as a block device, over a `Machine` of
--     memory, image and file table (`BlFileTable`).
--   * Emulator (arcfw/arm/arcemul.c): the firmware vector. Emulator itself is `ParsePartitionNumber`
--     and `AEDeviceOpen`, Emulator/Vector is `AEOpen` and `AEGetDisplayStatus`, Emulator/Dispatch
--     the routines that dispatch through the file table. `BlOpen` and the entry table of a file
--     system are parameters.
--   * Fat (arcfw/ported/fatboot.c, arcfw/inc/fat.h, arcfw/inc/fatboot.h): the FAT file system. Its
--     routines return on the first bad status, which the monad of Fat/Action writes as do blocks.
--     Fat itself has the geometry macros and `FatInterpretClusterType`; Fat/Entry the 12 and 16 bit
--     entries of a FAT; Fat/Device `FatDiskRead` and `FatDiskWrite` over `ArcSeek`, `ArcRead` and
--     `ArcWrite`, which are parameters with the laws `IsDisk`; Fat/Cache the window of the FAT in
--     memory (`FatLookupFatEntry`, `FatSetFatEntry`, `FatFlushFatEntries`). What a window and a disk
--     hold together is Fat/Cache/View. The other routines are written over the interface of
--     Fat/Interface, operations `FatOps` with laws `IsFat`, and Fat/Volume fills it with a mounted
--     volume: Fat/Cluster is `FatAllocateClusters`, Fat/Mcb `FatLoadMcb` and `FatVboToLbo`,
--     Fat/Truncate `FatTruncateFileAllocation` and `FatIncreaseFileAllocation`, Fat/Directory
--     `FatSearchForDirent` (over `DiskRead`, which Fat/Directory/OnVolume fills), Fat/Dirent
--     `FatSetDirent`, and Fat/Names `FatFirstComponent` and the names of `FatDirToArcDir`.
--   * Runtime (arcfw/arm/clib.c): `memcpy`, `memmove`, `memset`, `memcmp` over a memory, and
--     `strcmp`, `strncmp`, `stricmp`, `strstr` over lists of bytes (Runtime/Strings, Runtime/Search).
--   * Framebuffer (arcfw/arm/fb.c, and the drawing routines of arcfw/arm/fbcon.c): pixels in memory.
--   * Console (arcfw/arm/fbcon.c): the byte by byte state machine of the text console. It is
--     written over the interface `Display`, which both the framebuffer and the abstract grid of
--     cells (Console/Grid) fill; Console/Simulation carries a relation between two surfaces
--     through every byte, and Framebuffer/Grid gives the relation.
--   * Base: Boolean tests, lists and ℤ over the native ℕ, 32-bit words, and status codes.
--
-- Bounds and fuel: ULONG and `unsigned int` wrap at 2^32 (`add32`, `sub32`, `mul32`). Lists are
-- walked by structural recursion. `visited` and `erase_cells` run on fuel; their theorems give the
-- fuel that is enough. The waiting loop of `AERead` runs over the list of what each poll finds.
-- The loops of fatboot.c that follow a cluster chain run on fuel, since a FAT can hold a cycle. A run
-- out of fuel is EMAXIMUM, which that code never returns, and the theorems about files give enough
-- fuel, the length of the chain. They ask of the geometry that the volume lies below 2^32 bytes.
--
-- Not modelled: of fatboot.c the creation of directory entries, the entry
-- points that call the routines above (FatOpen, FatRead, FatWrite and the others of its table), the
-- recognition of a volume, and the double-space code, which is compiled out; the registry hives
-- (arcfw/ported/config), the image loader (arcfw/ported/peldr.c, blload.c, blbind.c), the device I/O
-- layer (arcfw/ported/blio.c, arcdisk.c) and the configuration tree, which are parts of their own
-- that the modelled ones do not depend on beyond the parameters named above; osloader.c, arcdos.c
-- and arcfw/kernel, which mainly call the others; and the register-level drivers (usb.c, uart.c,
-- timer.c, mailbox.c). The glyphs (font8x8.h) are a third-party table, a parameter.
-- BlFindFreeMemoryBlock and BlDetermineTotalMemory are compiled only under SETUP.
pub mod Base
pub mod Console
pub mod Disk
pub mod Display
pub mod Emulator
pub mod Fat
pub mod Firmware
pub mod Framebuffer
pub mod Memory
pub mod Runtime
