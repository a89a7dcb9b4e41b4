-- ===== src/Opcode.antt =====
-- opcode/opcode.h and opcode/opcode.c: the opcodes, the table that describes them, and the lookups
-- in it. `Table` holds `g_opcodes`, `Lookup` the functions, `Arity` and `Names` what holds of them.
pub mod Table
pub mod Lookup
pub mod Arity
use open_scm.Prelude.{ℕ}

-- `ScmlOpcode`. (`modulo` is SCML_OP_MOD.)
pub data Opcode : Type 0 where
  nop halt push_int push_str store load add sub mul div jmp wait if_eq if_ne if_gt : Opcode
  if_lt print log file_read file_write entity_spawn entity_set heap_alloc heap_store : Opcode
  heap_load call return end_thread event_bind event_trigger free array_create modulo : Opcode
  input strcat to_int to_float if_ge if_le bit_and bit_or bit_xor bit_not shl shr pow : Opcode
  strlen substr array_len call_native print_raw console_clear sin cos tan sqrt atan2 : Opcode
  floor ceil round abs str_repeat console_color console_reset console_move : Opcode
  console_erase_line console_style span_create span_pin span_fill span_write_u8 : Opcode
  span_read_u8 console_render_span console_render_span_dirty : Opcode

-- The value of the enumeration constant, the byte that stands for it in bytecode.
unfoldable pub number : Opcode → ℕ
number nop = 0x00
number halt = 0x01
number push_int = 0x02
number push_str = 0x03
number store = 0x04
number load = 0x05
number add = 0x06
number sub = 0x07
number mul = 0x08
number div = 0x09
number jmp = 0x0a
number wait = 0x0b
number if_eq = 0x0c
number if_ne = 0x0d
number if_gt = 0x0e
number if_lt = 0x0f
number print = 0x10
number log = 0x11
number file_read = 0x12
number file_write = 0x13
number entity_spawn = 0x14
number entity_set = 0x15
number heap_alloc = 0x16
number heap_store = 0x17
number heap_load = 0x18
number call = 0x19
number return = 0x1a
number end_thread = 0x1b
number event_bind = 0x1c
number event_trigger = 0x1d
number free = 0x1e
number array_create = 0x1f
number modulo = 0x20
number input = 0x21
number strcat = 0x22
number to_int = 0x23
number to_float = 0x24
number if_ge = 0x25
number if_le = 0x26
number bit_and = 0x27
number bit_or = 0x28
number bit_xor = 0x29
number bit_not = 0x2a
number shl = 0x2b
number shr = 0x2c
number pow = 0x2d
number strlen = 0x2e
number substr = 0x2f
number array_len = 0x30
number call_native = 0x31
number print_raw = 0x32
number console_clear = 0x33
number sin = 0x34
number cos = 0x35
number tan = 0x36
number sqrt = 0x37
number atan2 = 0x38
number floor = 0x39
number ceil = 0x3a
number round = 0x3b
number abs = 0x3c
number str_repeat = 0x3d
number console_color = 0x3e
number console_reset = 0x3f
number console_move = 0x40
number console_erase_line = 0x41
number console_style = 0x42
number span_create = 0x43
number span_pin = 0x44
number span_fill = 0x45
number span_write_u8 = 0x46
number span_read_u8 = 0x47
number console_render_span = 0x48
number console_render_span_dirty = 0x49

-- `ScmlOperandType`.
pub data OperandType : Type 0 where
  none_type int_type string_type var_type address_type float_type : OperandType

unfoldable pub tag : OperandType → ℕ
tag none_type = 0
tag int_type = 1
tag string_type = 2
tag var_type = 3
tag address_type = 4
tag float_type = 5
