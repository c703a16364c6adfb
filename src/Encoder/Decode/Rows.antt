-- ===== src/Encoder/Decode/Rows.antt =====
-- The opcodes of MOV, TEST and the ALU group in the reader's table.
use nazm.Prelude.{ℕ, ◌+◌, ◌%◌, ◌≡◌, refl, Bool, true, false, ◌==◌, some}
use nazm.Encoder.Opcodes.{Opcode, mov, add, sub, and, or, xor, cmp, test}
use nazm.Encoder.Decode.Heads.{is_prefix}
use nazm.Encoder.Decode.Instruction.{meaning}
use nazm.Encoder.Decode.RoundTrip.{IsPair}

-- A pair of opcodes, from the six facts about it that evaluation finds.
computed-IsPair :
    (opcode8 opcode : ℕ) (op : Opcode) (first : Bool)
    → (((opcode8 % 2 == 0) ≡ true) × ((opcode % 2 == 0) ≡ false))
    → ((is_prefix opcode8 ≡ false) × (is_prefix opcode ≡ false))
    → ((meaning opcode8 ≡ some (op, first)) × (meaning opcode ≡ some (op, first)))
    → IsPair opcode8 opcode op first
computed-IsPair opcode8 opcode op first parity plain means = record {
  even = parity.0;
  odd = parity.1;
  plain8 = plain.0;
  plain = plain.1;
  meaning8 = means.0;
  meaning_is = means.1;
}

pub mov_store : IsPair 0x88 0x89 mov false
unfolding meaning
mov_store = computed-IsPair 0x88 0x89 mov false (refl, refl) (refl, refl) (refl, refl)

pub mov_load : IsPair 0x8A 0x8B mov true
unfolding meaning
mov_load = computed-IsPair 0x8A 0x8B mov true (refl, refl) (refl, refl) (refl, refl)

pub test_pair : IsPair 0x84 0x85 test false
unfolding meaning
test_pair = computed-IsPair 0x84 0x85 test false (refl, refl) (refl, refl) (refl, refl)

-- The two rows of an operation of the ALU group, computed from its opcode as the encoder does.
pub record IsAlu (op_rr : ℕ) (op : Opcode) : Type 0 where
  pub store : IsPair ((op_rr + 255) % 256) op_rr op false
  pub load : IsPair (((op_rr + 255) % 256 + 2) % 256) ((op_rr + 2) % 256) op true

pub add_rows : IsAlu 0x01 add
unfolding meaning
add_rows = record {
  store = computed-IsPair _ _ add false (refl, refl) (refl, refl) (refl, refl);
  load = computed-IsPair _ _ add true (refl, refl) (refl, refl) (refl, refl);
}

pub or_rows : IsAlu 0x09 or
unfolding meaning
or_rows = record {
  store = computed-IsPair _ _ or false (refl, refl) (refl, refl) (refl, refl);
  load = computed-IsPair _ _ or true (refl, refl) (refl, refl) (refl, refl);
}

pub and_rows : IsAlu 0x21 and
unfolding meaning
and_rows = record {
  store = computed-IsPair _ _ and false (refl, refl) (refl, refl) (refl, refl);
  load = computed-IsPair _ _ and true (refl, refl) (refl, refl) (refl, refl);
}

pub sub_rows : IsAlu 0x29 sub
unfolding meaning
sub_rows = record {
  store = computed-IsPair _ _ sub false (refl, refl) (refl, refl) (refl, refl);
  load = computed-IsPair _ _ sub true (refl, refl) (refl, refl) (refl, refl);
}

pub xor_rows : IsAlu 0x31 xor
unfolding meaning
xor_rows = record {
  store = computed-IsPair _ _ xor false (refl, refl) (refl, refl) (refl, refl);
  load = computed-IsPair _ _ xor true (refl, refl) (refl, refl) (refl, refl);
}

pub cmp_rows : IsAlu 0x39 cmp
unfolding meaning
cmp_rows = record {
  store = computed-IsPair _ _ cmp false (refl, refl) (refl, refl) (refl, refl);
  load = computed-IsPair _ _ cmp true (refl, refl) (refl, refl) (refl, refl);
}
