-- ===== src/Encoder/Decode/Jumps.antt =====
-- A reader of near jumps and calls with a displacement of four bytes, as the architecture manual
-- defines them, and the encoders of encoder/table.c held to it.
use nazm.Prelude.{
  ◌<◌, subst, ℕ, ◌+◌, ◌/◌, ◌%◌, ◌≡◌, false, List, [], ◌∷◌, ◌++◌, Option, none, some, ◌==◌,
  if◌then◌else◌, ℤ, pos, negsuc, IsI32, ◌↔◌, arith,
}
use nazm.Encoder.Bytes.{immediate_fits_i32}
use nazm.Encoder.Operands.{Text, label}
use nazm.Encoder.Opcodes.{Opcode, jmp, call, je, jne, jg, jge, jl, jle, jz, jnz, js, jns}
use nazm.Encoder.Emit.{EncodedInstruction, encoded, emit, ◌>>◌, emit32}
use nazm.Encoder.Flow.{enc_jmp, enc_call, enc_jcc}
use nazm.Encoder.Table.{encoder_encode}
use nazm.Encoder.Decode.{read_disp32}

-- A conditional jump has the number of its condition.
pub data Transfer : Type 0 where
  always linked : Transfer
  on_condition : ℕ → Transfer

abbrev pub with_displacement : Transfer → Option (ℤ × List ℕ) → Option (Transfer × ℤ × List ℕ)
with_displacement t none = none
with_displacement t (some (disp, rest)) = some (t, disp, rest)

-- Behind the byte 0F.
abbrev read_condition : List ℕ → Option (Transfer × ℤ × List ℕ)
read_condition [] = none
read_condition (b ∷ rest) =
    if b / 16 == 8
    then with_displacement (Transfer.on_condition (b % 16)) (read_disp32 rest)
    else none

-- The transfer of control that the bytes start with, its displacement, and the bytes behind it.
unfoldable pub read_jump : List ℕ → Option (Transfer × ℤ × List ℕ)
unfolding read_disp32
read_jump [] = none
read_jump (a ∷ rest) =
    if a == 0xE9
    then with_displacement Transfer.always (read_disp32 rest)
    else if a == 0xE8
    then with_displacement Transfer.linked (read_disp32 rest)
    else if a == 0x0F
    then read_condition rest
    else none

-- The transfer of control that an opcode names: the conditions are ZF, its negation, and the
-- comparisons with a sign.
abbrev pub transfer_of : Opcode → Option Transfer
transfer_of jmp = some Transfer.always
transfer_of call = some Transfer.linked
transfer_of je = some (Transfer.on_condition 4)
transfer_of jz = some (Transfer.on_condition 4)
transfer_of jne = some (Transfer.on_condition 5)
transfer_of jnz = some (Transfer.on_condition 5)
transfer_of js = some (Transfer.on_condition 8)
transfer_of jns = some (Transfer.on_condition 9)
transfer_of jl = some (Transfer.on_condition 12)
transfer_of jge = some (Transfer.on_condition 13)
transfer_of jle = some (Transfer.on_condition 14)
transfer_of jg = some (Transfer.on_condition 15)
transfer_of _ = none

-- The encoding of a transfer to `v`: it fails out of range, and reads back in it.
abbrev Jumps : Transfer → ℤ → EncodedInstruction → Type 0
Jumps t v enc =
    ((enc.error ≡ false) ↔ IsI32 v)
    × (IsI32 v → (more : List ℕ) → read_jump (enc.bytes ++ more) ≡ some (t, v, more))

enc_jmp-Jumps : (name : Text) (v : ℤ) → Jumps Transfer.always v (enc_jmp (label name ∷ []) v)
unfolding enc_jmp encoded emit ◌>>◌ emit32 read_jump read_disp32 immediate_fits_i32
enc_jmp-Jumps name (pos n) = (ground arith, λ h more. ground arith)
enc_jmp-Jumps name (negsuc n) = (ground arith, λ h more. ground arith)

enc_call-Jumps : (name : Text) (v : ℤ) → Jumps Transfer.linked v (enc_call (label name ∷ []) v)
unfolding enc_call encoded emit ◌>>◌ emit32 read_jump read_disp32 immediate_fits_i32
enc_call-Jumps name (pos n) = (ground arith, λ h more. ground arith)
enc_call-Jumps name (negsuc n) = (ground arith, λ h more. ground arith)

enc_jcc-Jumps :
    (name : Text) (v : ℤ) (condition : ℕ)
    → condition < 16
    → Jumps (Transfer.on_condition condition) v (enc_jcc (label name ∷ []) v (0x80 + condition))
unfolding enc_jcc encoded emit ◌>>◌ emit32 read_jump read_disp32 immediate_fits_i32
enc_jcc-Jumps name (pos n) condition c = (ground arith, λ h more. ground arith)
enc_jcc-Jumps name (negsuc n) condition c = (ground arith, λ h more. ground arith)

-- Where an opcode names a transfer of control.
abbrev Named : Option Transfer → ℤ → EncodedInstruction → Type 0
Named none v enc = Unit
Named (some t) v enc = Jumps t v enc

transfer_of-Named :
    (op : Opcode) (name : Text) (v : ℤ)
    → Named (transfer_of op) v (encoder_encode op (label name ∷ []) v)
unfolding encoder_encode
transfer_of-Named jmp name v = enc_jmp-Jumps name v
transfer_of-Named call name v = enc_call-Jumps name v
transfer_of-Named je name v = enc_jcc-Jumps name v 4 (omega arith)
transfer_of-Named jz name v = enc_jcc-Jumps name v 4 (omega arith)
transfer_of-Named jne name v = enc_jcc-Jumps name v 5 (omega arith)
transfer_of-Named jnz name v = enc_jcc-Jumps name v 5 (omega arith)
transfer_of-Named js name v = enc_jcc-Jumps name v 8 (omega arith)
transfer_of-Named jns name v = enc_jcc-Jumps name v 9 (omega arith)
transfer_of-Named jl name v = enc_jcc-Jumps name v 12 (omega arith)
transfer_of-Named jge name v = enc_jcc-Jumps name v 13 (omega arith)
transfer_of-Named jle name v = enc_jcc-Jumps name v 14 (omega arith)
transfer_of-Named jg name v = enc_jcc-Jumps name v 15 (omega arith)
transfer_of-Named _ name v = tt

-- JMP, CALL and the ten conditional jumps to a label, with the displacement `v`: the encoder takes
-- exactly the values of an int32_t; and then the bytes, whatever follows them, read back as the
-- transfer of control that the opcode names, with the displacement `v`.
pub read_jump-encoder_encode :
    (op : Opcode) (t : Transfer) (name : Text) (v : ℤ)
    → transfer_of op ≡ some t
    → (((encoder_encode op (label name ∷ []) v).error ≡ false) ↔ IsI32 v)
      × (IsI32 v
          → (more : List ℕ)
          → read_jump ((encoder_encode op (label name ∷ []) v).bytes ++ more) ≡ some (t, v, more))
read_jump-encoder_encode op t name v h =
    subst (λ found. Named found v (encoder_encode op (label name ∷ []) v)) h
      (transfer_of-Named op name v)
