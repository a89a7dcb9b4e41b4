-- ===== src/Opcode/Table.antt =====
-- `g_opcodes` of opcode/opcode.c: what the assembler and the machine know of each opcode.
use open_scm.Prelude.{ℕ, List, [], ◌∷◌}
use open_scm.Prelude.Text.{Text, codes}
use open_scm.Opcode.{
  Opcode, nop, halt, push_int, push_str, store, load, add, sub, mul, div, jmp, wait, if_eq, if_ne,
  if_gt, if_lt, print, log, file_read, file_write, entity_spawn, entity_set, heap_alloc, heap_store,
  heap_load, call, return, end_thread, event_bind, event_trigger, free, array_create, modulo, input,
  strcat, to_int, to_float, if_ge, if_le, bit_and, bit_or, bit_xor, bit_not, shl, shr, pow, strlen,
  substr, array_len, call_native, print_raw, console_clear, sin, cos, tan, sqrt, atan2, floor, ceil,
  round, abs, str_repeat, console_color, console_reset, console_move, console_erase_line,
  console_style, span_create, span_pin, span_fill, span_write_u8, span_read_u8, console_render_span,
  console_render_span_dirty,
}

-- `ScmlOpcodeInfo`.
pub record OpcodeInfo : Type 0 where
  pub scm_code : ℕ
  pub opcode : Opcode
  pub name : Text
  pub min_args : ℕ
  pub max_args : ℕ

abbrev row : ℕ → Opcode → Text → ℕ → ℕ → OpcodeInfo
row code op text low high = record {
  scm_code = code;
  opcode = op;
  name = text;
  min_args = low;
  max_args = high;
}

unfoldable pub g_opcodes : List OpcodeInfo
g_opcodes =
    row 0x0000 nop (codes "NOP") 0 0
    ∷ row 0x0001 halt (codes "HALT") 0 0
    ∷ row 0x0002 push_int (codes "PUSH_INT") 1 1
    ∷ row 0x0003 push_str (codes "PUSH_STR") 1 1
    ∷ row 0x0004 store (codes "SET") 2 2
    ∷ row 0x0005 load (codes "GET") 1 1
    ∷ row 0x0006 add (codes "ADD") 3 3
    ∷ row 0x0007 sub (codes "SUB") 3 3
    ∷ row 0x0008 mul (codes "MUL") 3 3
    ∷ row 0x0009 div (codes "DIV") 3 3
    ∷ row 0x000a jmp (codes "JUMP") 1 1
    ∷ row 0x000b wait (codes "WAIT") 1 1
    ∷ row 0x00d6 if_eq (codes "IF_EQ") 3 3
    ∷ row 0x00d7 if_ne (codes "IF_NE") 3 3
    ∷ row 0x00d8 if_gt (codes "IF_GT") 3 3
    ∷ row 0x00d9 if_lt (codes "IF_LT") 3 3
    ∷ row 0x03e5 print (codes "PRINT") 1 1
    ∷ row 0x03e6 log (codes "LOG") 1 1
    ∷ row 0x0a10 file_read (codes "FILE_READ") 2 2
    ∷ row 0x0a20 file_write (codes "FILE_WRITE") 2 2
    ∷ row 0x0a30 event_bind (codes "BIND_EVENT") 2 2
    ∷ row 0x0a31 event_trigger (codes "TRIGGER_EVENT") 1 1
    ∷ row 0x0b00 entity_spawn (codes "ENTITY_SPAWN") 5 5
    ∷ row 0x0b01 entity_set (codes "ENTITY_SET") 3 3
    ∷ row 0x0b10 heap_alloc (codes "ALLOC") 2 2
    ∷ row 0x0b11 free (codes "FREE") 1 1
    ∷ row 0x0b12 heap_load (codes "READ") 3 3
    ∷ row 0x0b13 heap_store (codes "WRITE") 3 3
    ∷ row 0x0b14 array_create (codes "ARRAY_CREATE") 2 2
    ∷ row 0x0b20 modulo (codes "MOD") 3 3
    ∷ row 0x0b21 input (codes "INPUT") 2 2
    ∷ row 0x0b22 strcat (codes "STRCAT") 3 3
    ∷ row 0x0b23 to_int (codes "TO_INT") 2 2
    ∷ row 0x0b24 to_float (codes "TO_FLOAT") 2 2
    ∷ row 0x0b25 if_ge (codes "IF_GE") 3 3
    ∷ row 0x0b26 if_le (codes "IF_LE") 3 3
    ∷ row 0x0b27 bit_and (codes "BIT_AND") 3 3
    ∷ row 0x0b28 bit_or (codes "BIT_OR") 3 3
    ∷ row 0x0b29 bit_xor (codes "BIT_XOR") 3 3
    ∷ row 0x0b2a bit_not (codes "BIT_NOT") 2 2
    ∷ row 0x0b2b shl (codes "SHL") 3 3
    ∷ row 0x0b2c shr (codes "SHR") 3 3
    ∷ row 0x0b2d pow (codes "POW") 3 3
    ∷ row 0x0b2e strlen (codes "STRLEN") 2 2
    ∷ row 0x0b2f substr (codes "SUBSTR") 4 4
    ∷ row 0x0b30 array_len (codes "ARRAY_LEN") 2 2
    ∷ row 0x0b31 call_native (codes "CALL_NATIVE") 1 8
    ∷ row 0x0b32 print_raw (codes "PRINT_RAW") 1 1
    ∷ row 0x0b33 console_clear (codes "CONSOLE_CLEAR") 0 0
    ∷ row 0x0b34 sin (codes "SIN") 2 2
    ∷ row 0x0b35 cos (codes "COS") 2 2
    ∷ row 0x0b36 tan (codes "TAN") 2 2
    ∷ row 0x0b37 sqrt (codes "SQRT") 2 2
    ∷ row 0x0b38 atan2 (codes "ATAN2") 3 3
    ∷ row 0x0b39 floor (codes "FLOOR") 2 2
    ∷ row 0x0b3a ceil (codes "CEIL") 2 2
    ∷ row 0x0b3b round (codes "ROUND") 2 2
    ∷ row 0x0b3c abs (codes "ABS") 2 2
    ∷ row 0x0b3d str_repeat (codes "STR_REPEAT") 3 3
    ∷ row 0x0b3e console_color (codes "CONSOLE_COLOR") 1 2
    ∷ row 0x0b3f console_reset (codes "CONSOLE_RESET") 0 0
    ∷ row 0x0b40 console_move (codes "CONSOLE_MOVE") 2 2
    ∷ row 0x0b41 console_erase_line (codes "CONSOLE_ERASE_LINE") 0 0
    ∷ row 0x0b42 console_style (codes "CONSOLE_STYLE") 1 1
    ∷ row 0x0b43 span_create (codes "SPAN_CREATE") 2 2
    ∷ row 0x0b44 span_pin (codes "SPAN_PIN") 1 1
    ∷ row 0x0b45 span_fill (codes "SPAN_FILL") 4 4
    ∷ row 0x0b46 span_write_u8 (codes "SPAN_WRITE_U8") 3 3
    ∷ row 0x0b47 span_read_u8 (codes "SPAN_READ_U8") 3 3
    ∷ row 0x0b48 console_render_span (codes "CONSOLE_RENDER_SPAN") 3 3
    ∷ row 0x0b49 console_render_span_dirty (codes "CONSOLE_RENDER_SPAN_DIRTY") 4 4
    ∷ row 0x0c00 heap_alloc (codes "HEAP_ALLOC") 2 2
    ∷ row 0x0c01 heap_store (codes "HEAP_STORE") 3 3
    ∷ row 0x0c02 heap_load (codes "HEAP_LOAD") 3 3
    ∷ row 0x0d00 call (codes "CALL") 1 8
    ∷ row 0x0d00 call (codes "GOSUB") 1 1
    ∷ row 0x000a jmp (codes "GOTO") 1 1
    ∷ row 0x0d01 return (codes "RETURN") 0 0
    ∷ row 0x0d02 end_thread (codes "END_THREAD") 0 0
    ∷ []
