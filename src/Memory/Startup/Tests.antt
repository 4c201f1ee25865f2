-- ===== src/Memory/Startup/Tests.antt =====
-- `BlMemoryInitialize` of arcfw/ported/blmemory.c at the memory map of the board.
use arcpi.Base.{refl, [], ◌∷◌, List, arith}
use arcpi.Firmware.{MemoryDescriptor, memory_descriptor, firmware_permanent, loaded_program, free}
use arcpi.Firmware.{stack_top, md_array, fixup_memory_map}
use arcpi.Memory.{Loader}
use arcpi.Memory.Startup.{initialize_memory, find_program, find_below, find_large, find_heap_memory}
use arcpi.Memory.Startup.Map.{Source}
use arcpi.Memory.Startup.Board.{initialize_memory-fixup_memory_map}
use arcpi.Memory.Startup.Built.{Built, initialize_memory-Built}

abbrev firmware_map : List MemoryDescriptor
firmware_map =
    memory_descriptor firmware_permanent 0 0x10
    ∷ memory_descriptor loaded_program 0x10 0xF0
    ∷ memory_descriptor free 0x100 0x37F00
    ∷ []

abbrev blank : Loader
blank = record { heap_free = 0; heap_limit = 0; descriptors = [] }

initialize_memory-Built_example :
    let (s, m') = initialize_memory 400 firmware_map blank in
    Source firmware_map 2 (memory_descriptor free 0x100 0x37F00) × Built 0x38000 firmware_map s m'
unfolding find_program find_heap_memory find_below find_large
initialize_memory-Built_example =
    initialize_memory-Built 400 firmware_map blank (omega arith) (omega arith) refl refl
      (omega arith) (omega arith)

initialize_memory-fixup_memory_map_example :
    let ds = fixup_memory_map (stack_top 0x660000) md_array in
    let (s, m') = initialize_memory 400 ds blank in Built 0x38000 ds s m'
initialize_memory-fixup_memory_map_example =
    initialize_memory-fixup_memory_map (stack_top 0x660000) 400 blank (omega arith) (omega arith)
