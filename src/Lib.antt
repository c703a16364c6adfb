-- ===== src/Lib.antt =====
-- Verification of the core of Nazm, an assembler that turns Arabic mnemonics into x86-64 objects.
--
-- The program. The lexer (src/lexer) reads UTF-8 by src/unicode and finds mnemonics in its keyword
-- table; the parser builds instructions from opcodes and operands. The first pass
-- (src/passes/pass1.c) lays sections out by `encoder_instruction_size` and the sizes of the data
-- directives, and enters labels, bindings and external names in the symbol table (src/symtable); the
-- second pass (src/passes/pass2.c) looks labels up there and encodes by `encoder_encode`
-- (src/encoder) at the offsets that the first pass has assumed, and the writers (src/output) make the
-- object file.
--
-- The files.
--   Encoder           src/encoder: Registers and Bytes are modrm.c, rex.c and immediate.c, Operands
--                     and Opcodes are encoder.h, Emit has the helpers of table.c, Mov, Arith and
--                     Flow its instruction families, Sse2 is sse2.c, and Table has the two public
--                     functions. Encoder/Sizes, Shape and Agreement compare lengths and estimates,
--                     Accepts says which immediates are taken, Encoder/Decode is a reader of
--                     machine code that is independent of the encoder, and ReadBack puts the two
--                     together; Decode/Jumps does it for jumps and calls. RipRelative and
--                     Sizes/Estimate have the facts that the second pass relies on.
--   Unicode           src/unicode/arabic.c: Utf8 is the decoder, Utf8/Encoding the definition of
--                     UTF-8 that it is compared with, Utf8/Prefix is about the cut at a text's end,
--                     Classes has the classes of characters.
--   Symtable          src/symtable/symtable.c: Symbols has the specification as a map of symbols,
--                     Effects and Refinement carry it over to the hash table, WellFormed has the
--                     shape of the table.
--   Lexer             src/lexer: Search is the search of a table of spellings, which the four lookups
--                     share; Keywords is keywords.c; Registers, Cursor, Numbers and Identifiers are
--                     the register names, the reading position, the number literals and the scans
--                     of words of lexer.c. Numbers/Digits and Loop are about the loops over
--                     digits, Immediates about the values of literals, Identifiers/Words about the
--                     tables' names. The two Tables files have the spellings in bytes.
--   Passes            src/passes. Instruction is parser/instruction.h. The first pass is Data (sizes
--                     and validation of data directives), Debug (files and locations), Offsets,
--                     Reports and First (the loop and `pass1_run`); the second is Buffers (the bytes
--                     of data directives), Resolve (labels and relocations), Output (its state) and
--                     Second (the loop and `pass2_run`). Sizes and Emission compare sizes with
--                     bytes, Layout has the layout that both passes follow, Tables and Placed are
--                     about labels, and Agreement puts the passes together. Powers, Alignments and
--                     Aligned are about alignment, Values about the integer directives, Lines,
--                     Records and Locations about line records, Appends, Jumps, Middle and Reaches
--                     about jumps to labels.
--   DebugLine         src/output/debug_line.c, the DWARF section: Leb has the variable-length numbers,
--                     Program the contract and the writer, Rows the state machine of the standard
--                     that reads the program, Meaning the program as a whole.
--   Prelude           tests, lists, integers, masks and texts that the parts share.
--
-- Reading the models. An integer of the machine is a natural number or an integer with its
-- wrap-around written out: an `int64_t` immediate is an integer, `(uint8_t)v` is `to_u8 v`, and a
-- `uint32_t` product is taken modulo 2 ^ 32. A `Buf *` argument is an action on the list of bytes
-- written so far, and a byte past the fifteenth is dropped, as in the code. A register is the number
-- of its enumerator. The shape of an operand list is matched where the code compares kinds and
-- counts. An allocation of the arena is a value, so the symbol table's chains are lists, and a
-- store through a found pointer replaces the first entry of that name.
--
-- In the passes, an error is its message with its names, without the source span, and the errors are
-- all kept, without the limit of the error list; a section's buffer is the bytes written so far, with
-- its capacity as an argument; the addition of two `size_t` is taken modulo 2 ^ 64. The emission spans
-- of the lines behind an early return of the second pass are zero, as the arena clears its
-- memory. The theorems about whole programs take a program as the parser gives it (`IsParsed`): at most
-- three operands, none where the instruction takes none, and texts of less than 2 * 10 ^ 9 bytes,
-- since a source has at most 100 MiB; with fewer than 2 ^ 32 lines of less than 2 ^ 31 bytes each, an
-- offset stays below 2 ^ 63.
--
-- Loops. The passes walk over the list of instructions and its operands, the decoder's loop runs
-- over the count of continuation bytes, the walk back of `utf8_complete_prefix` over the three
-- steps that the code allows, and the searches over the chain or the table, so these are
-- structural. The loops over digits and words have fuel for every byte behind the cursor, which is
-- enough since each round passes one byte at least (Lexer/Numbers/Loop, Lexer/Identifiers/Runs).
-- The loops over a path in Passes/Debug have fuel for every byte of the path, of which each round
-- passes one at least. The loops of LEB128 have ten rounds, since a 64-bit value has at most ten
-- groups of seven bits.
--
-- Not modelled: the lexer apart from its keywords, register names, numbers and scans, the parser, the
-- object writers apart from the DWARF line section, the arena's blocks, and what is input and output
-- only (src/io, src/cli, src/error, src/main.c, src/api).
pub mod Prelude
pub mod Encoder
pub mod Passes
pub mod DebugLine
pub mod Lexer
pub mod Symtable
pub mod Unicode
