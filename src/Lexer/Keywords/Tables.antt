-- ===== src/Lexer/Keywords/Tables.antt =====
-- The mnemonics of lexer/keywords.c, in UTF-8.
use nazm.Prelude.{ℕ, List, [], ◌∷◌}
use nazm.Encoder.Opcodes.{
  Opcode, mov, push, pop, lea, movzx, movsx, add, sub, imul, idiv, div, cqo, inc, dec, neg, addsd,
  subsd, mulsd, divsd, ucomisd, xorpd, cvtsi2sd, cvttsd2si, and, or, xor, not, shl, shr, sar, cmp,
  test, sete, setne, setg, setl, setge, setle, seta, setb, setae, setbe, setp, setnp, jmp, call,
  ret, je, jne, jg, jge, jl, jle, jz, jnz, js, jns, syscall, nop, rdtsc, hlt, int,
}

-- `KEYWORD_TABLE`, less the entry that ends it.
unfoldable pub keyword_table : List (List ℕ × Opcode)
keyword_table =
    (0xD8 ∷ 0xA7 ∷ 0xD9 ∷ 0x86 ∷ 0xD9 ∷ 0x82 ∷ 0xD9 ∷ 0x84 ∷ [], mov)
    ∷ (0xD8 ∷ 0xA7 ∷ 0xD8 ∷ 0xAF ∷ 0xD9 ∷ 0x81 ∷ 0xD8 ∷ 0xB9 ∷ [], push)
    ∷ (0xD8 ∷ 0xA7 ∷ 0xD8 ∷ 0xB3 ∷ 0xD8 ∷ 0xAD ∷ 0xD8 ∷ 0xA8 ∷ [], pop)
    ∷ (
      0xD8 ∷ 0xA7 ∷ 0xD8 ∷ 0xAD ∷ 0xD8 ∷ 0xB3 ∷ 0xD8 ∷ 0xA8 ∷ 0x5F ∷ 0xD8 ∷ 0xB9 ∷ 0xD9 ∷ 0x86
          ∷ 0xD9 ∷ 0x88 ∷ 0xD8 ∷ 0xA7 ∷ 0xD9 ∷ 0x86 ∷ [],
      lea,
    )
    ∷ (
      0xD9 ∷ 0x88 ∷ 0xD8 ∷ 0xB3 ∷ 0xD8 ∷ 0xB9 ∷ 0x5F ∷ 0xD8 ∷ 0xA8 ∷ 0xD8 ∷ 0xB5 ∷ 0xD9 ∷ 0x81
          ∷ 0xD8 ∷ 0xB1 ∷ [],
      movzx,
    )
    ∷ (
      0xD9 ∷ 0x88 ∷ 0xD8 ∷ 0xB3 ∷ 0xD8 ∷ 0xB9 ∷ 0x5F ∷ 0xD8 ∷ 0xA8 ∷ 0xD8 ∷ 0xA5 ∷ 0xD8 ∷ 0xB4
          ∷ 0xD8 ∷ 0xA7 ∷ 0xD8 ∷ 0xB1 ∷ 0xD8 ∷ 0xA9 ∷ [],
      movsx,
    )
    ∷ (0xD8 ∷ 0xA3 ∷ 0xD8 ∷ 0xB6 ∷ 0xD9 ∷ 0x81 ∷ [], add)
    ∷ (0xD8 ∷ 0xA7 ∷ 0xD8 ∷ 0xB7 ∷ 0xD8 ∷ 0xB1 ∷ 0xD8 ∷ 0xAD ∷ [], sub)
    ∷ (
      0xD8 ∷ 0xA7 ∷ 0xD8 ∷ 0xB6 ∷ 0xD8 ∷ 0xB1 ∷ 0xD8 ∷ 0xA8 ∷ 0x5F ∷ 0xD9 ∷ 0x85 ∷ 0xD9 ∷ 0x88
          ∷ 0xD9 ∷ 0x82 ∷ 0xD8 ∷ 0xB9 ∷ [],
      imul,
    )
    ∷ (
      0xD8 ∷ 0xA7 ∷ 0xD9 ∷ 0x82 ∷ 0xD8 ∷ 0xB3 ∷ 0xD9 ∷ 0x85 ∷ 0x5F ∷ 0xD9 ∷ 0x85 ∷ 0xD9 ∷ 0x88
          ∷ 0xD9 ∷ 0x82 ∷ 0xD8 ∷ 0xB9 ∷ [],
      idiv,
    )
    ∷ (
      0xD8 ∷ 0xA7 ∷ 0xD9 ∷ 0x82 ∷ 0xD8 ∷ 0xB3 ∷ 0xD9 ∷ 0x85 ∷ 0x5F ∷ 0xD8 ∷ 0xBA ∷ 0xD9 ∷ 0x8A
          ∷ 0xD8 ∷ 0xB1 ∷ 0x5F ∷ 0xD9 ∷ 0x85 ∷ 0xD9 ∷ 0x88 ∷ 0xD9 ∷ 0x82 ∷ 0xD8 ∷ 0xB9 ∷ [],
      div,
    )
    ∷ (
      0xD9 ∷ 0x88 ∷ 0xD8 ∷ 0xB3 ∷ 0xD8 ∷ 0xB9 ∷ 0x5F ∷ 0xD8 ∷ 0xA5 ∷ 0xD8 ∷ 0xB4 ∷ 0xD8 ∷ 0xA7
          ∷ 0xD8 ∷ 0xB1 ∷ 0xD8 ∷ 0xA9 ∷ 0x5F ∷ 0xD8 ∷ 0xA7 ∷ 0xD9 ∷ 0x84 ∷ 0xD9 ∷ 0x82 ∷ 0xD8 ∷ 0xB3
          ∷ 0xD9 ∷ 0x85 ∷ 0xD8 ∷ 0xA9 ∷ [],
      cqo,
    )
    ∷ (0xD8 ∷ 0xB2 ∷ 0xD8 ∷ 0xAF ∷ [], inc)
    ∷ (0xD8 ∷ 0xA7 ∷ 0xD9 ∷ 0x86 ∷ 0xD9 ∷ 0x82 ∷ 0xD8 ∷ 0xB5 ∷ [], dec)
    ∷ (
      0xD8 ∷ 0xA7 ∷ 0xD8 ∷ 0xB9 ∷ 0xD9 ∷ 0x83 ∷ 0xD8 ∷ 0xB3 ∷ 0x5F ∷ 0xD8 ∷ 0xA7 ∷ 0xD9 ∷ 0x84
          ∷ 0xD8 ∷ 0xA5 ∷ 0xD8 ∷ 0xB4 ∷ 0xD8 ∷ 0xA7 ∷ 0xD8 ∷ 0xB1 ∷ 0xD8 ∷ 0xA9 ∷ [],
      neg,
    )
    ∷ (
      0xD8 ∷ 0xAC ∷ 0xD9 ∷ 0x85 ∷ 0xD8 ∷ 0xB9 ∷ 0x5F ∷ 0xD8 ∷ 0xB9 ∷ 0xD8 ∷ 0xB4 ∷ 0xD8 ∷ 0xB1
          ∷ 0xD9 ∷ 0x8A ∷ [],
      addsd,
    )
    ∷ (
      0xD8 ∷ 0xB7 ∷ 0xD8 ∷ 0xB1 ∷ 0xD8 ∷ 0xAD ∷ 0x5F ∷ 0xD8 ∷ 0xB9 ∷ 0xD8 ∷ 0xB4 ∷ 0xD8 ∷ 0xB1
          ∷ 0xD9 ∷ 0x8A ∷ [],
      subsd,
    )
    ∷ (
      0xD8 ∷ 0xB6 ∷ 0xD8 ∷ 0xB1 ∷ 0xD8 ∷ 0xA8 ∷ 0x5F ∷ 0xD8 ∷ 0xB9 ∷ 0xD8 ∷ 0xB4 ∷ 0xD8 ∷ 0xB1
          ∷ 0xD9 ∷ 0x8A ∷ [],
      mulsd,
    )
    ∷ (
      0xD9 ∷ 0x82 ∷ 0xD8 ∷ 0xB3 ∷ 0xD9 ∷ 0x85 ∷ 0xD8 ∷ 0xA9 ∷ 0x5F ∷ 0xD8 ∷ 0xB9 ∷ 0xD8 ∷ 0xB4
          ∷ 0xD8 ∷ 0xB1 ∷ 0xD9 ∷ 0x8A ∷ 0xD8 ∷ 0xA9 ∷ [],
      divsd,
    )
    ∷ (
      0xD9 ∷ 0x85 ∷ 0xD9 ∷ 0x82 ∷ 0xD8 ∷ 0xA7 ∷ 0xD8 ∷ 0xB1 ∷ 0xD9 ∷ 0x86 ∷ 0xD8 ∷ 0xA9 ∷ 0x5F
          ∷ 0xD8 ∷ 0xB9 ∷ 0xD8 ∷ 0xB4 ∷ 0xD8 ∷ 0xB1 ∷ 0xD9 ∷ 0x8A ∷ 0xD8 ∷ 0xA9 ∷ [],
      ucomisd,
    )
    ∷ (
      0xD8 ∷ 0xAE ∷ 0xD9 ∷ 0x84 ∷ 0xD8 ∷ 0xA7 ∷ 0xD9 ∷ 0x81 ∷ 0x5F ∷ 0xD8 ∷ 0xB9 ∷ 0xD8 ∷ 0xB4
          ∷ 0xD8 ∷ 0xB1 ∷ 0xD9 ∷ 0x8A ∷ [],
      xorpd,
    )
    ∷ (
      0xD8 ∷ 0xAA ∷ 0xD8 ∷ 0xAD ∷ 0xD9 ∷ 0x88 ∷ 0xD9 ∷ 0x8A ∷ 0xD9 ∷ 0x84 ∷ 0x5F ∷ 0xD8 ∷ 0xB5
          ∷ 0xD8 ∷ 0xAD ∷ 0xD9 ∷ 0x8A ∷ 0xD8 ∷ 0xAD ∷ 0x5F ∷ 0xD8 ∷ 0xA5 ∷ 0xD9 ∷ 0x84 ∷ 0xD9 ∷ 0x89
          ∷ 0x5F ∷ 0xD8 ∷ 0xB9 ∷ 0xD8 ∷ 0xB4 ∷ 0xD8 ∷ 0xB1 ∷ 0xD9 ∷ 0x8A ∷ [],
      cvtsi2sd,
    )
    ∷ (
      0xD8 ∷ 0xAA ∷ 0xD8 ∷ 0xAD ∷ 0xD9 ∷ 0x88 ∷ 0xD9 ∷ 0x8A ∷ 0xD9 ∷ 0x84 ∷ 0x5F ∷ 0xD8 ∷ 0xB9
          ∷ 0xD8 ∷ 0xB4 ∷ 0xD8 ∷ 0xB1 ∷ 0xD9 ∷ 0x8A ∷ 0x5F ∷ 0xD8 ∷ 0xA5 ∷ 0xD9 ∷ 0x84 ∷ 0xD9 ∷ 0x89
          ∷ 0x5F ∷ 0xD8 ∷ 0xB5 ∷ 0xD8 ∷ 0xAD ∷ 0xD9 ∷ 0x8A ∷ 0xD8 ∷ 0xAD ∷ [],
      cvttsd2si,
    )
    ∷ (0xD9 ∷ 0x88 ∷ 0x5F ∷ 0xD8 ∷ 0xA8 ∷ 0xD8 ∷ 0xAA ∷ 0xD9 ∷ 0x8A ∷ 0xD8 ∷ 0xA7 ∷ [], and)
    ∷ (
      0xD8 ∷ 0xA3 ∷ 0xD9 ∷ 0x88 ∷ 0x5F ∷ 0xD8 ∷ 0xA8 ∷ 0xD8 ∷ 0xAA ∷ 0xD9 ∷ 0x8A ∷ 0xD8 ∷ 0xA7 ∷ [],
      or,
    )
    ∷ (
      0xD8 ∷ 0xAE ∷ 0xD8 ∷ 0xA7 ∷ 0xD9 ∷ 0x84 ∷ 0xD9 ∷ 0x81 ∷ 0x5F ∷ 0xD8 ∷ 0xA8 ∷ 0xD8 ∷ 0xAA
          ∷ 0xD9 ∷ 0x8A ∷ 0xD8 ∷ 0xA7 ∷ [],
      xor,
    )
    ∷ (
      0xD8 ∷ 0xA7 ∷ 0xD8 ∷ 0xB9 ∷ 0xD9 ∷ 0x83 ∷ 0xD8 ∷ 0xB3 ∷ 0x5F ∷ 0xD8 ∷ 0xA7 ∷ 0xD9 ∷ 0x84
          ∷ 0xD8 ∷ 0xA8 ∷ 0xD8 ∷ 0xAA ∷ 0xD8 ∷ 0xA7 ∷ 0xD8 ∷ 0xAA ∷ [],
      not,
    )
    ∷ (
      0xD8 ∷ 0xA7 ∷ 0xD8 ∷ 0xB2 ∷ 0xD8 ∷ 0xAD ∷ 0x5F ∷ 0xD9 ∷ 0x8A ∷ 0xD8 ∷ 0xB3 ∷ 0xD8 ∷ 0xA7
          ∷ 0xD8 ∷ 0xB1 ∷ 0xD8 ∷ 0xA7 ∷ [],
      shl,
    )
    ∷ (
      0xD8 ∷ 0xA7 ∷ 0xD8 ∷ 0xB2 ∷ 0xD8 ∷ 0xAD ∷ 0x5F ∷ 0xD9 ∷ 0x85 ∷ 0xD9 ∷ 0x86 ∷ 0xD8 ∷ 0xB7
          ∷ 0xD9 ∷ 0x82 ∷ 0xD9 ∷ 0x8A ∷ 0xD8 ∷ 0xA7 ∷ 0x5F ∷ 0xD9 ∷ 0x8A ∷ 0xD9 ∷ 0x85 ∷ 0xD9 ∷ 0x8A
          ∷ 0xD9 ∷ 0x86 ∷ 0xD8 ∷ 0xA7 ∷ [],
      shr,
    )
    ∷ (
      0xD8 ∷ 0xA7 ∷ 0xD8 ∷ 0xB2 ∷ 0xD8 ∷ 0xAD ∷ 0x5F ∷ 0xD8 ∷ 0xAD ∷ 0xD8 ∷ 0xB3 ∷ 0xD8 ∷ 0xA7
          ∷ 0xD8 ∷ 0xA8 ∷ 0xD9 ∷ 0x8A ∷ 0xD8 ∷ 0xA7 ∷ 0x5F ∷ 0xD9 ∷ 0x8A ∷ 0xD9 ∷ 0x85 ∷ 0xD9 ∷ 0x8A
          ∷ 0xD9 ∷ 0x86 ∷ 0xD8 ∷ 0xA7 ∷ [],
      sar,
    )
    ∷ (0xD9 ∷ 0x82 ∷ 0xD8 ∷ 0xA7 ∷ 0xD8 ∷ 0xB1 ∷ 0xD9 ∷ 0x86 ∷ [], cmp)
    ∷ (
      0xD8 ∷ 0xA7 ∷ 0xD8 ∷ 0xAE ∷ 0xD8 ∷ 0xAA ∷ 0xD8 ∷ 0xA8 ∷ 0xD8 ∷ 0xB1 ∷ 0x5F ∷ 0xD8 ∷ 0xA7
          ∷ 0xD9 ∷ 0x84 ∷ 0xD8 ∷ 0xA8 ∷ 0xD8 ∷ 0xAA ∷ 0xD8 ∷ 0xA7 ∷ 0xD8 ∷ 0xAA ∷ [],
      test,
    )
    ∷ (
      0xD8 ∷ 0xB9 ∷ 0xD9 ∷ 0x8A ∷ 0xD9 ∷ 0x86 ∷ 0x5F ∷ 0xD9 ∷ 0x85 ∷ 0xD8 ∷ 0xB3 ∷ 0xD8 ∷ 0xA7
          ∷ 0xD9 ∷ 0x88 ∷ [],
      sete,
    )
    ∷ (
      0xD8 ∷ 0xB9 ∷ 0xD9 ∷ 0x8A ∷ 0xD9 ∷ 0x86 ∷ 0x5F ∷ 0xD8 ∷ 0xBA ∷ 0xD9 ∷ 0x8A ∷ 0xD8 ∷ 0xB1
          ∷ 0x5F ∷ 0xD9 ∷ 0x85 ∷ 0xD8 ∷ 0xB3 ∷ 0xD8 ∷ 0xA7 ∷ 0xD9 ∷ 0x88 ∷ [],
      setne,
    )
    ∷ (
      0xD8 ∷ 0xB9 ∷ 0xD9 ∷ 0x8A ∷ 0xD9 ∷ 0x86 ∷ 0x5F ∷ 0xD8 ∷ 0xA3 ∷ 0xD9 ∷ 0x83 ∷ 0xD8 ∷ 0xA8
          ∷ 0xD8 ∷ 0xB1 ∷ [],
      setg,
    )
    ∷ (
      0xD8 ∷ 0xB9 ∷ 0xD9 ∷ 0x8A ∷ 0xD9 ∷ 0x86 ∷ 0x5F ∷ 0xD8 ∷ 0xA3 ∷ 0xD8 ∷ 0xB5 ∷ 0xD8 ∷ 0xBA
          ∷ 0xD8 ∷ 0xB1 ∷ [],
      setl,
    )
    ∷ (
      0xD8 ∷ 0xB9 ∷ 0xD9 ∷ 0x8A ∷ 0xD9 ∷ 0x86 ∷ 0x5F ∷ 0xD8 ∷ 0xA3 ∷ 0xD9 ∷ 0x83 ∷ 0xD8 ∷ 0xA8
          ∷ 0xD8 ∷ 0xB1 ∷ 0x5F ∷ 0xD8 ∷ 0xA3 ∷ 0xD9 ∷ 0x88 ∷ 0x5F ∷ 0xD9 ∷ 0x85 ∷ 0xD8 ∷ 0xB3 ∷ 0xD8
          ∷ 0xA7 ∷ 0xD9 ∷ 0x88 ∷ [],
      setge,
    )
    ∷ (
      0xD8 ∷ 0xB9 ∷ 0xD9 ∷ 0x8A ∷ 0xD9 ∷ 0x86 ∷ 0x5F ∷ 0xD8 ∷ 0xA3 ∷ 0xD8 ∷ 0xB5 ∷ 0xD8 ∷ 0xBA
          ∷ 0xD8 ∷ 0xB1 ∷ 0x5F ∷ 0xD8 ∷ 0xA3 ∷ 0xD9 ∷ 0x88 ∷ 0x5F ∷ 0xD9 ∷ 0x85 ∷ 0xD8 ∷ 0xB3 ∷ 0xD8
          ∷ 0xA7 ∷ 0xD9 ∷ 0x88 ∷ [],
      setle,
    )
    ∷ (
      0xD8 ∷ 0xB9 ∷ 0xD9 ∷ 0x8A ∷ 0xD9 ∷ 0x86 ∷ 0x5F ∷ 0xD9 ∷ 0x81 ∷ 0xD9 ∷ 0x88 ∷ 0xD9 ∷ 0x82 ∷ [],
      seta,
    )
    ∷ (
      0xD8 ∷ 0xB9 ∷ 0xD9 ∷ 0x8A ∷ 0xD9 ∷ 0x86 ∷ 0x5F ∷ 0xD8 ∷ 0xAA ∷ 0xD8 ∷ 0xAD ∷ 0xD8 ∷ 0xAA ∷ [],
      setb,
    )
    ∷ (
      0xD8 ∷ 0xB9 ∷ 0xD9 ∷ 0x8A ∷ 0xD9 ∷ 0x86 ∷ 0x5F ∷ 0xD9 ∷ 0x81 ∷ 0xD9 ∷ 0x88 ∷ 0xD9 ∷ 0x82
          ∷ 0x5F ∷ 0xD8 ∷ 0xA3 ∷ 0xD9 ∷ 0x88 ∷ 0x5F ∷ 0xD9 ∷ 0x85 ∷ 0xD8 ∷ 0xB3 ∷ 0xD8 ∷ 0xA7 ∷ 0xD9
          ∷ 0x88 ∷ [],
      setae,
    )
    ∷ (
      0xD8 ∷ 0xB9 ∷ 0xD9 ∷ 0x8A ∷ 0xD9 ∷ 0x86 ∷ 0x5F ∷ 0xD8 ∷ 0xAA ∷ 0xD8 ∷ 0xAD ∷ 0xD8 ∷ 0xAA
          ∷ 0x5F ∷ 0xD8 ∷ 0xA3 ∷ 0xD9 ∷ 0x88 ∷ 0x5F ∷ 0xD9 ∷ 0x85 ∷ 0xD8 ∷ 0xB3 ∷ 0xD8 ∷ 0xA7 ∷ 0xD9
          ∷ 0x88 ∷ [],
      setbe,
    )
    ∷ (
      0xD8 ∷ 0xB9 ∷ 0xD9 ∷ 0x8A ∷ 0xD9 ∷ 0x86 ∷ 0x5F ∷ 0xD8 ∷ 0xAA ∷ 0xD9 ∷ 0x83 ∷ 0xD8 ∷ 0xA7
          ∷ 0xD9 ∷ 0x81 ∷ 0xD8 ∷ 0xA4 ∷ [],
      setp,
    )
    ∷ (
      0xD8 ∷ 0xB9 ∷ 0xD9 ∷ 0x8A ∷ 0xD9 ∷ 0x86 ∷ 0x5F ∷ 0xD8 ∷ 0xB9 ∷ 0xD8 ∷ 0xAF ∷ 0xD9 ∷ 0x85
          ∷ 0x5F ∷ 0xD8 ∷ 0xAA ∷ 0xD9 ∷ 0x83 ∷ 0xD8 ∷ 0xA7 ∷ 0xD9 ∷ 0x81 ∷ 0xD8 ∷ 0xA4 ∷ [],
      setnp,
    )
    ∷ (0xD8 ∷ 0xA7 ∷ 0xD9 ∷ 0x82 ∷ 0xD9 ∷ 0x81 ∷ 0xD8 ∷ 0xB2 ∷ [], jmp)
    ∷ (0xD9 ∷ 0x86 ∷ 0xD8 ∷ 0xA7 ∷ 0xD8 ∷ 0xAF ∷ [], call)
    ∷ (0xD8 ∷ 0xA7 ∷ 0xD8 ∷ 0xB1 ∷ 0xD8 ∷ 0xAC ∷ 0xD8 ∷ 0xB9 ∷ [], ret)
    ∷ (
      0xD8 ∷ 0xA7 ∷ 0xD9 ∷ 0x82 ∷ 0xD9 ∷ 0x81 ∷ 0xD8 ∷ 0xB2 ∷ 0x5F ∷ 0xD9 ∷ 0x85 ∷ 0xD8 ∷ 0xB3
          ∷ 0xD8 ∷ 0xA7 ∷ 0xD9 ∷ 0x88 ∷ [],
      je,
    )
    ∷ (
      0xD8 ∷ 0xA7 ∷ 0xD9 ∷ 0x82 ∷ 0xD9 ∷ 0x81 ∷ 0xD8 ∷ 0xB2 ∷ 0x5F ∷ 0xD8 ∷ 0xBA ∷ 0xD9 ∷ 0x8A
          ∷ 0xD8 ∷ 0xB1 ∷ 0x5F ∷ 0xD9 ∷ 0x85 ∷ 0xD8 ∷ 0xB3 ∷ 0xD8 ∷ 0xA7 ∷ 0xD9 ∷ 0x88 ∷ [],
      jne,
    )
    ∷ (
      0xD8 ∷ 0xA7 ∷ 0xD9 ∷ 0x82 ∷ 0xD9 ∷ 0x81 ∷ 0xD8 ∷ 0xB2 ∷ 0x5F ∷ 0xD8 ∷ 0xA3 ∷ 0xD9 ∷ 0x83
          ∷ 0xD8 ∷ 0xA8 ∷ 0xD8 ∷ 0xB1 ∷ [],
      jg,
    )
    ∷ (
      0xD8 ∷ 0xA7 ∷ 0xD9 ∷ 0x82 ∷ 0xD9 ∷ 0x81 ∷ 0xD8 ∷ 0xB2 ∷ 0x5F ∷ 0xD8 ∷ 0xA3 ∷ 0xD9 ∷ 0x83
          ∷ 0xD8 ∷ 0xA8 ∷ 0xD8 ∷ 0xB1 ∷ 0x5F ∷ 0xD8 ∷ 0xA3 ∷ 0xD9 ∷ 0x88 ∷ 0x5F ∷ 0xD9 ∷ 0x85 ∷ 0xD8
          ∷ 0xB3 ∷ 0xD8 ∷ 0xA7 ∷ 0xD9 ∷ 0x88 ∷ [],
      jge,
    )
    ∷ (
      0xD8 ∷ 0xA7 ∷ 0xD9 ∷ 0x82 ∷ 0xD9 ∷ 0x81 ∷ 0xD8 ∷ 0xB2 ∷ 0x5F ∷ 0xD8 ∷ 0xA3 ∷ 0xD8 ∷ 0xB5
          ∷ 0xD8 ∷ 0xBA ∷ 0xD8 ∷ 0xB1 ∷ [],
      jl,
    )
    ∷ (
      0xD8 ∷ 0xA7 ∷ 0xD9 ∷ 0x82 ∷ 0xD9 ∷ 0x81 ∷ 0xD8 ∷ 0xB2 ∷ 0x5F ∷ 0xD8 ∷ 0xA3 ∷ 0xD8 ∷ 0xB5
          ∷ 0xD8 ∷ 0xBA ∷ 0xD8 ∷ 0xB1 ∷ 0x5F ∷ 0xD8 ∷ 0xA3 ∷ 0xD9 ∷ 0x88 ∷ 0x5F ∷ 0xD9 ∷ 0x85 ∷ 0xD8
          ∷ 0xB3 ∷ 0xD8 ∷ 0xA7 ∷ 0xD9 ∷ 0x88 ∷ [],
      jle,
    )
    ∷ (
      0xD8 ∷ 0xA7 ∷ 0xD9 ∷ 0x82 ∷ 0xD9 ∷ 0x81 ∷ 0xD8 ∷ 0xB2 ∷ 0x5F ∷ 0xD8 ∷ 0xB5 ∷ 0xD9 ∷ 0x81
          ∷ 0xD8 ∷ 0xB1 ∷ [],
      jz,
    )
    ∷ (
      0xD8 ∷ 0xA7 ∷ 0xD9 ∷ 0x82 ∷ 0xD9 ∷ 0x81 ∷ 0xD8 ∷ 0xB2 ∷ 0x5F ∷ 0xD8 ∷ 0xBA ∷ 0xD9 ∷ 0x8A
          ∷ 0xD8 ∷ 0xB1 ∷ 0x5F ∷ 0xD8 ∷ 0xB5 ∷ 0xD9 ∷ 0x81 ∷ 0xD8 ∷ 0xB1 ∷ [],
      jnz,
    )
    ∷ (
      0xD8 ∷ 0xA7 ∷ 0xD9 ∷ 0x82 ∷ 0xD9 ∷ 0x81 ∷ 0xD8 ∷ 0xB2 ∷ 0x5F ∷ 0xD8 ∷ 0xB3 ∷ 0xD8 ∷ 0xA7
          ∷ 0xD9 ∷ 0x84 ∷ 0xD8 ∷ 0xA8 ∷ [],
      js,
    )
    ∷ (
      0xD8 ∷ 0xA7 ∷ 0xD9 ∷ 0x82 ∷ 0xD9 ∷ 0x81 ∷ 0xD8 ∷ 0xB2 ∷ 0x5F ∷ 0xD8 ∷ 0xBA ∷ 0xD9 ∷ 0x8A
          ∷ 0xD8 ∷ 0xB1 ∷ 0x5F ∷ 0xD8 ∷ 0xB3 ∷ 0xD8 ∷ 0xA7 ∷ 0xD9 ∷ 0x84 ∷ 0xD8 ∷ 0xA8 ∷ [],
      jns,
    )
    ∷ (
      0xD9 ∷ 0x86 ∷ 0xD8 ∷ 0xA7 ∷ 0xD8 ∷ 0xAF ∷ 0x5F ∷ 0xD8 ∷ 0xA7 ∷ 0xD9 ∷ 0x84 ∷ 0xD9 ∷ 0x86
          ∷ 0xD8 ∷ 0xB8 ∷ 0xD8 ∷ 0xA7 ∷ 0xD9 ∷ 0x85 ∷ [],
      syscall,
    )
    ∷ (
      0xD9 ∷ 0x84 ∷ 0xD8 ∷ 0xA7 ∷ 0x5F ∷ 0xD8 ∷ 0xAA ∷ 0xD9 ∷ 0x81 ∷ 0xD8 ∷ 0xB9 ∷ 0xD9 ∷ 0x84 ∷ [],
      nop,
    )
    ∷ (
      0xD8 ∷ 0xA7 ∷ 0xD9 ∷ 0x82 ∷ 0xD8 ∷ 0xB1 ∷ 0xD8 ∷ 0xA3 ∷ 0x5F ∷ 0xD8 ∷ 0xB9 ∷ 0xD8 ∷ 0xAF
          ∷ 0xD8 ∷ 0xA7 ∷ 0xD8 ∷ 0xAF ∷ 0x5F ∷ 0xD8 ∷ 0xA7 ∷ 0xD9 ∷ 0x84 ∷ 0xD8 ∷ 0xB2 ∷ 0xD9 ∷ 0x85
          ∷ 0xD9 ∷ 0x86 ∷ [],
      rdtsc,
    )
    ∷ (0xD8 ∷ 0xA3 ∷ 0xD9 ∷ 0x88 ∷ 0xD9 ∷ 0x82 ∷ 0xD9 ∷ 0x81 ∷ [], hlt)
    ∷ (
      0xD8 ∷ 0xA7 ∷ 0xD8 ∷ 0xB7 ∷ 0xD9 ∷ 0x84 ∷ 0xD8 ∷ 0xA8 ∷ 0x5F ∷ 0xD9 ∷ 0x85 ∷ 0xD9 ∷ 0x82
          ∷ 0xD8 ∷ 0xA7 ∷ 0xD8 ∷ 0xB7 ∷ 0xD8 ∷ 0xB9 ∷ 0xD8 ∷ 0xA9 ∷ [],
      int,
    )
    ∷ []

-- `LEGACY_KEYWORDS`, less the entry that ends it.
unfoldable pub legacy_keywords : List (List ℕ × List ℕ)
legacy_keywords =
    (
      0xD8 ∷ 0xA7 ∷ 0xD8 ∷ 0xAD ∷ 0xD9 ∷ 0x85 ∷ 0xD9 ∷ 0x84 ∷ [],
      0xD8 ∷ 0xA7 ∷ 0xD9 ∷ 0x86 ∷ 0xD9 ∷ 0x82 ∷ 0xD9 ∷ 0x84 ∷ [],
    )
    ∷ (
      0xD8 ∷ 0xB9 ∷ 0xD9 ∷ 0x86 ∷ 0xD9 ∷ 0x88 ∷ 0xD9 ∷ 0x86 ∷ [],
      0xD8 ∷ 0xA7 ∷ 0xD8 ∷ 0xAD ∷ 0xD8 ∷ 0xB3 ∷ 0xD8 ∷ 0xA8 ∷ 0x5F ∷ 0xD8 ∷ 0xB9 ∷ 0xD9 ∷ 0x86
          ∷ 0xD9 ∷ 0x88 ∷ 0xD8 ∷ 0xA7 ∷ 0xD9 ∷ 0x86 ∷ [],
    )
    ∷ (
      0xD8 ∷ 0xA7 ∷ 0xD8 ∷ 0xB6 ∷ 0xD8 ∷ 0xB1 ∷ 0xD8 ∷ 0xA8 ∷ [],
      0xD8 ∷ 0xA7 ∷ 0xD8 ∷ 0xB6 ∷ 0xD8 ∷ 0xB1 ∷ 0xD8 ∷ 0xA8 ∷ 0x5F ∷ 0xD9 ∷ 0x85 ∷ 0xD9 ∷ 0x88
          ∷ 0xD9 ∷ 0x82 ∷ 0xD8 ∷ 0xB9 ∷ [],
    )
    ∷ (
      0xD8 ∷ 0xA7 ∷ 0xD9 ∷ 0x82 ∷ 0xD8 ∷ 0xB3 ∷ 0xD9 ∷ 0x85 ∷ [],
      0xD8 ∷ 0xA7 ∷ 0xD9 ∷ 0x82 ∷ 0xD8 ∷ 0xB3 ∷ 0xD9 ∷ 0x85 ∷ 0x5F ∷ 0xD9 ∷ 0x85 ∷ 0xD9 ∷ 0x88
          ∷ 0xD9 ∷ 0x82 ∷ 0xD8 ∷ 0xB9 ∷ [],
    )
    ∷ (
      0xD8 ∷ 0xA7 ∷ 0xD8 ∷ 0xB3 ∷ 0xD9 ∷ 0x84 ∷ 0xD8 ∷ 0xA8 ∷ [],
      0xD8 ∷ 0xA7 ∷ 0xD8 ∷ 0xB9 ∷ 0xD9 ∷ 0x83 ∷ 0xD8 ∷ 0xB3 ∷ 0x5F ∷ 0xD8 ∷ 0xA7 ∷ 0xD9 ∷ 0x84
          ∷ 0xD8 ∷ 0xA5 ∷ 0xD8 ∷ 0xB4 ∷ 0xD8 ∷ 0xA7 ∷ 0xD8 ∷ 0xB1 ∷ 0xD8 ∷ 0xA9 ∷ [],
    )
    ∷ (
      0xD9 ∷ 0x88 ∷ [],
      0xD9 ∷ 0x88 ∷ 0x5F ∷ 0xD8 ∷ 0xA8 ∷ 0xD8 ∷ 0xAA ∷ 0xD9 ∷ 0x8A ∷ 0xD8 ∷ 0xA7 ∷ [],
    )
    ∷ (
      0xD8 ∷ 0xA3 ∷ 0xD9 ∷ 0x88 ∷ [],
      0xD8 ∷ 0xA3 ∷ 0xD9 ∷ 0x88 ∷ 0x5F ∷ 0xD8 ∷ 0xA8 ∷ 0xD8 ∷ 0xAA ∷ 0xD9 ∷ 0x8A ∷ 0xD8 ∷ 0xA7 ∷ [],
    )
    ∷ (
      0xD8 ∷ 0xAE ∷ 0xD8 ∷ 0xA7 ∷ 0xD9 ∷ 0x84 ∷ 0xD9 ∷ 0x81 ∷ [],
      0xD8 ∷ 0xAE ∷ 0xD8 ∷ 0xA7 ∷ 0xD9 ∷ 0x84 ∷ 0xD9 ∷ 0x81 ∷ 0x5F ∷ 0xD8 ∷ 0xA8 ∷ 0xD8 ∷ 0xAA
          ∷ 0xD9 ∷ 0x8A ∷ 0xD8 ∷ 0xA7 ∷ [],
    )
    ∷ (
      0xD8 ∷ 0xA7 ∷ 0xD9 ∷ 0x86 ∷ 0xD9 ∷ 0x81 ∷ 0xD9 ∷ 0x90 ∷ [],
      0xD8 ∷ 0xA7 ∷ 0xD8 ∷ 0xB9 ∷ 0xD9 ∷ 0x83 ∷ 0xD8 ∷ 0xB3 ∷ 0x5F ∷ 0xD8 ∷ 0xA7 ∷ 0xD9 ∷ 0x84
          ∷ 0xD8 ∷ 0xA8 ∷ 0xD8 ∷ 0xAA ∷ 0xD8 ∷ 0xA7 ∷ 0xD8 ∷ 0xAA ∷ [],
    )
    ∷ (
      0xD8 ∷ 0xA7 ∷ 0xD8 ∷ 0xB2 ∷ 0xD8 ∷ 0xAD ∷ 0xD9 ∷ 0x84 ∷ [],
      0xD8 ∷ 0xA7 ∷ 0xD8 ∷ 0xB2 ∷ 0xD8 ∷ 0xAD ∷ 0x5F ∷ 0xD9 ∷ 0x8A ∷ 0xD8 ∷ 0xB3 ∷ 0xD8 ∷ 0xA7
          ∷ 0xD8 ∷ 0xB1 ∷ 0xD8 ∷ 0xA7 ∷ [],
    )
    ∷ (
      0xD8 ∷ 0xA7 ∷ 0xD8 ∷ 0xB2 ∷ 0xD8 ∷ 0xAD ∷ 0xD9 ∷ 0x8A ∷ [],
      0xD8 ∷ 0xA7 ∷ 0xD8 ∷ 0xB2 ∷ 0xD8 ∷ 0xAD ∷ 0x5F ∷ 0xD9 ∷ 0x85 ∷ 0xD9 ∷ 0x86 ∷ 0xD8 ∷ 0xB7
          ∷ 0xD9 ∷ 0x82 ∷ 0xD9 ∷ 0x8A ∷ 0xD8 ∷ 0xA7 ∷ 0x5F ∷ 0xD9 ∷ 0x8A ∷ 0xD9 ∷ 0x85 ∷ 0xD9 ∷ 0x8A
          ∷ 0xD9 ∷ 0x86 ∷ 0xD8 ∷ 0xA7 ∷ [],
    )
    ∷ (
      0xD8 ∷ 0xA7 ∷ 0xD8 ∷ 0xB2 ∷ 0xD8 ∷ 0xAD ∷ 0xD8 ∷ 0xB1 ∷ [],
      0xD8 ∷ 0xA7 ∷ 0xD8 ∷ 0xB2 ∷ 0xD8 ∷ 0xAD ∷ 0x5F ∷ 0xD8 ∷ 0xAD ∷ 0xD8 ∷ 0xB3 ∷ 0xD8 ∷ 0xA7
          ∷ 0xD8 ∷ 0xA8 ∷ 0xD9 ∷ 0x8A ∷ 0xD8 ∷ 0xA7 ∷ 0x5F ∷ 0xD9 ∷ 0x8A ∷ 0xD9 ∷ 0x85 ∷ 0xD9 ∷ 0x8A
          ∷ 0xD9 ∷ 0x86 ∷ 0xD8 ∷ 0xA7 ∷ [],
    )
    ∷ (
      0xD8 ∷ 0xA7 ∷ 0xD8 ∷ 0xAE ∷ 0xD8 ∷ 0xAA ∷ 0xD8 ∷ 0xA8 ∷ 0xD8 ∷ 0xB1 ∷ [],
      0xD8 ∷ 0xA7 ∷ 0xD8 ∷ 0xAE ∷ 0xD8 ∷ 0xAA ∷ 0xD8 ∷ 0xA8 ∷ 0xD8 ∷ 0xB1 ∷ 0x5F ∷ 0xD8 ∷ 0xA7
          ∷ 0xD9 ∷ 0x84 ∷ 0xD8 ∷ 0xA8 ∷ 0xD8 ∷ 0xAA ∷ 0xD8 ∷ 0xA7 ∷ 0xD8 ∷ 0xAA ∷ [],
    )
    ∷ (
      0xD9 ∷ 0x86 ∷ 0xD8 ∷ 0xA7 ∷ 0xD8 ∷ 0xAF ∷ 0xD9 ∷ 0x90 ∷ [],
      0xD9 ∷ 0x86 ∷ 0xD8 ∷ 0xA7 ∷ 0xD8 ∷ 0xAF ∷ [],
    )
    ∷ (
      0xD8 ∷ 0xA7 ∷ 0xD9 ∷ 0x82 ∷ 0xD9 ∷ 0x81 ∷ 0xD8 ∷ 0xB2 ∷ 0x5F ∷ 0xD9 ∷ 0x85 ∷ 0xD8 ∷ 0xB3
          ∷ 0xD8 ∷ 0xA7 ∷ 0xD9 ∷ 0x88 ∷ 0xD9 ∷ 0x8D ∷ [],
      0xD8 ∷ 0xA7 ∷ 0xD9 ∷ 0x82 ∷ 0xD9 ∷ 0x81 ∷ 0xD8 ∷ 0xB2 ∷ 0x5F ∷ 0xD9 ∷ 0x85 ∷ 0xD8 ∷ 0xB3
          ∷ 0xD8 ∷ 0xA7 ∷ 0xD9 ∷ 0x88 ∷ [],
    )
    ∷ (
      0xD8 ∷ 0xA7 ∷ 0xD9 ∷ 0x82 ∷ 0xD9 ∷ 0x81 ∷ 0xD8 ∷ 0xB2 ∷ 0x5F ∷ 0xD9 ∷ 0x85 ∷ 0xD8 ∷ 0xAE
          ∷ 0xD8 ∷ 0xAA ∷ 0xD9 ∷ 0x84 ∷ 0xD9 ∷ 0x81 ∷ [],
      0xD8 ∷ 0xA7 ∷ 0xD9 ∷ 0x82 ∷ 0xD9 ∷ 0x81 ∷ 0xD8 ∷ 0xB2 ∷ 0x5F ∷ 0xD8 ∷ 0xBA ∷ 0xD9 ∷ 0x8A
          ∷ 0xD8 ∷ 0xB1 ∷ 0x5F ∷ 0xD9 ∷ 0x85 ∷ 0xD8 ∷ 0xB3 ∷ 0xD8 ∷ 0xA7 ∷ 0xD9 ∷ 0x88 ∷ [],
    )
    ∷ (
      0xD8 ∷ 0xA7 ∷ 0xD9 ∷ 0x82 ∷ 0xD9 ∷ 0x81 ∷ 0xD8 ∷ 0xB2 ∷ 0x5F ∷ 0xD8 ∷ 0xA3 ∷ 0xD9 ∷ 0x83
          ∷ 0xD8 ∷ 0xA8 ∷ 0xD8 ∷ 0xB1 ∷ 0x5F ∷ 0xD8 ∷ 0xA3 ∷ 0xD9 ∷ 0x88 ∷ [],
      0xD8 ∷ 0xA7 ∷ 0xD9 ∷ 0x82 ∷ 0xD9 ∷ 0x81 ∷ 0xD8 ∷ 0xB2 ∷ 0x5F ∷ 0xD8 ∷ 0xA3 ∷ 0xD9 ∷ 0x83
          ∷ 0xD8 ∷ 0xA8 ∷ 0xD8 ∷ 0xB1 ∷ 0x5F ∷ 0xD8 ∷ 0xA3 ∷ 0xD9 ∷ 0x88 ∷ 0x5F ∷ 0xD9 ∷ 0x85 ∷ 0xD8
          ∷ 0xB3 ∷ 0xD8 ∷ 0xA7 ∷ 0xD9 ∷ 0x88 ∷ [],
    )
    ∷ (
      0xD8 ∷ 0xA7 ∷ 0xD9 ∷ 0x82 ∷ 0xD9 ∷ 0x81 ∷ 0xD8 ∷ 0xB2 ∷ 0x5F ∷ 0xD8 ∷ 0xA3 ∷ 0xD8 ∷ 0xB5
          ∷ 0xD8 ∷ 0xBA ∷ 0xD8 ∷ 0xB1 ∷ 0x5F ∷ 0xD8 ∷ 0xA3 ∷ 0xD9 ∷ 0x88 ∷ [],
      0xD8 ∷ 0xA7 ∷ 0xD9 ∷ 0x82 ∷ 0xD9 ∷ 0x81 ∷ 0xD8 ∷ 0xB2 ∷ 0x5F ∷ 0xD8 ∷ 0xA3 ∷ 0xD8 ∷ 0xB5
          ∷ 0xD8 ∷ 0xBA ∷ 0xD8 ∷ 0xB1 ∷ 0x5F ∷ 0xD8 ∷ 0xA3 ∷ 0xD9 ∷ 0x88 ∷ 0x5F ∷ 0xD9 ∷ 0x85 ∷ 0xD8
          ∷ 0xB3 ∷ 0xD8 ∷ 0xA7 ∷ 0xD9 ∷ 0x88 ∷ [],
    )
    ∷ (
      0xD8 ∷ 0xA7 ∷ 0xD9 ∷ 0x82 ∷ 0xD9 ∷ 0x81 ∷ 0xD8 ∷ 0xB2 ∷ 0x5F ∷ 0xD9 ∷ 0x84 ∷ 0xD8 ∷ 0xA7
          ∷ 0xD8 ∷ 0xB5 ∷ 0xD9 ∷ 0x81 ∷ 0xD8 ∷ 0xB1 ∷ [],
      0xD8 ∷ 0xA7 ∷ 0xD9 ∷ 0x82 ∷ 0xD9 ∷ 0x81 ∷ 0xD8 ∷ 0xB2 ∷ 0x5F ∷ 0xD8 ∷ 0xBA ∷ 0xD9 ∷ 0x8A
          ∷ 0xD8 ∷ 0xB1 ∷ 0x5F ∷ 0xD8 ∷ 0xB5 ∷ 0xD9 ∷ 0x81 ∷ 0xD8 ∷ 0xB1 ∷ [],
    )
    ∷ (
      0xD8 ∷ 0xA7 ∷ 0xD9 ∷ 0x82 ∷ 0xD9 ∷ 0x81 ∷ 0xD8 ∷ 0xB2 ∷ 0x5F ∷ 0xD9 ∷ 0x85 ∷ 0xD9 ∷ 0x88
          ∷ 0xD8 ∷ 0xAC ∷ 0xD8 ∷ 0xA8 ∷ [],
      0xD8 ∷ 0xA7 ∷ 0xD9 ∷ 0x82 ∷ 0xD9 ∷ 0x81 ∷ 0xD8 ∷ 0xB2 ∷ 0x5F ∷ 0xD8 ∷ 0xBA ∷ 0xD9 ∷ 0x8A
          ∷ 0xD8 ∷ 0xB1 ∷ 0x5F ∷ 0xD8 ∷ 0xB3 ∷ 0xD8 ∷ 0xA7 ∷ 0xD9 ∷ 0x84 ∷ 0xD8 ∷ 0xA8 ∷ [],
    )
    ∷ (
      0xD9 ∷ 0x86 ∷ 0xD8 ∷ 0xAF ∷ 0xD8 ∷ 0xA7 ∷ 0xD8 ∷ 0xA1 ∷ 0x5F ∷ 0xD9 ∷ 0x86 ∷ 0xD8 ∷ 0xB8
          ∷ 0xD8 ∷ 0xA7 ∷ 0xD9 ∷ 0x85 ∷ [],
      0xD9 ∷ 0x86 ∷ 0xD8 ∷ 0xA7 ∷ 0xD8 ∷ 0xAF ∷ 0x5F ∷ 0xD8 ∷ 0xA7 ∷ 0xD9 ∷ 0x84 ∷ 0xD9 ∷ 0x86
          ∷ 0xD8 ∷ 0xB8 ∷ 0xD8 ∷ 0xA7 ∷ 0xD9 ∷ 0x85 ∷ [],
    )
    ∷ (
      0xD9 ∷ 0x84 ∷ 0xD8 ∷ 0xA7 ∷ 0xD8 ∷ 0xB4 ∷ 0xD9 ∷ 0x8A ∷ 0xD8 ∷ 0xA1 ∷ [],
      0xD9 ∷ 0x84 ∷ 0xD8 ∷ 0xA7 ∷ 0x5F ∷ 0xD8 ∷ 0xAA ∷ 0xD9 ∷ 0x81 ∷ 0xD8 ∷ 0xB9 ∷ 0xD9 ∷ 0x84 ∷ [],
    )
    ∷ (
      0xD9 ∷ 0x82 ∷ 0xD8 ∷ 0xA7 ∷ 0xD8 ∷ 0xB7 ∷ 0xD8 ∷ 0xB9 ∷ [],
      0xD8 ∷ 0xA7 ∷ 0xD8 ∷ 0xB7 ∷ 0xD9 ∷ 0x84 ∷ 0xD8 ∷ 0xA8 ∷ 0x5F ∷ 0xD9 ∷ 0x85 ∷ 0xD9 ∷ 0x82
          ∷ 0xD8 ∷ 0xA7 ∷ 0xD8 ∷ 0xB7 ∷ 0xD8 ∷ 0xB9 ∷ 0xD8 ∷ 0xA9 ∷ [],
    )
    ∷ []
