-- ===== src/Firmware/Tests.antt =====
-- The memory map of arcfw/arm/memory.c at the image of the QEMU build.
use arcpi.Base.{◌≡◌, none, arith}
use arcpi.Firmware.{md_array, stack_top, fixup_memory_map, visited}
use arcpi.Firmware.Walk.{upto, visited-upto, IsFixedUp, fixup_memory_map-IsFixedUp}

visited-upto_example : visited 4 3 none ≡ upto 0 3
visited-upto_example = visited-upto 4 3 (omega arith) (omega arith) (omega arith)

fixup_memory_map-IsFixedUp_example :
    IsFixedUp 0x660123 (fixup_memory_map (stack_top 0x660123) md_array)
fixup_memory_map-IsFixedUp_example = fixup_memory_map-IsFixedUp (stack_top 0x660123) (omega arith)
