-- ===== src/Lexer/Registers/Tables.antt =====
-- The register names of lexer/lexer.c, in UTF-8.
use nazm.Prelude.{ℕ, List, [], ◌∷◌}
use nazm.Encoder.Registers.{RegId}

-- `REG_TABLE`, less the entry that ends it.
unfoldable pub reg_table : List (List ℕ × RegId)
reg_table =
    (
      0xD8 ∷ 0xB3 ∷ 0xD8 ∷ 0xAC ∷ 0xD9 ∷ 0x84 ∷ 0x5F ∷ 0xD8 ∷ 0xA7 ∷ 0xD9 ∷ 0x84 ∷ 0xD9 ∷ 0x85
          ∷ 0xD8 ∷ 0xB1 ∷ 0xD9 ∷ 0x83 ∷ 0xD9 ∷ 0x85 ∷ [],
      0,
    )
    ∷ (
      0xD8 ∷ 0xB3 ∷ 0xD8 ∷ 0xAC ∷ 0xD9 ∷ 0x84 ∷ 0x5F ∷ 0xD8 ∷ 0xA7 ∷ 0xD9 ∷ 0x84 ∷ 0xD8 ∷ 0xB9
          ∷ 0xD8 ∷ 0xAF ∷ 0xD8 ∷ 0xA7 ∷ 0xD8 ∷ 0xAF ∷ [],
      1,
    )
    ∷ (
      0xD8 ∷ 0xB3 ∷ 0xD8 ∷ 0xAC ∷ 0xD9 ∷ 0x84 ∷ 0x5F ∷ 0xD8 ∷ 0xA7 ∷ 0xD9 ∷ 0x84 ∷ 0xD8 ∷ 0xA8
          ∷ 0xD9 ∷ 0x8A ∷ 0xD8 ∷ 0xA7 ∷ 0xD9 ∷ 0x86 ∷ 0xD8 ∷ 0xA7 ∷ 0xD8 ∷ 0xAA ∷ [],
      2,
    )
    ∷ (
      0xD8 ∷ 0xB3 ∷ 0xD8 ∷ 0xAC ∷ 0xD9 ∷ 0x84 ∷ 0x5F ∷ 0xD8 ∷ 0xA7 ∷ 0xD9 ∷ 0x84 ∷ 0xD9 ∷ 0x82
          ∷ 0xD8 ∷ 0xA7 ∷ 0xD8 ∷ 0xB9 ∷ 0xD8 ∷ 0xAF ∷ 0xD8 ∷ 0xA9 ∷ [],
      3,
    )
    ∷ (
      0xD9 ∷ 0x85 ∷ 0xD8 ∷ 0xA4 ∷ 0xD8 ∷ 0xB4 ∷ 0xD8 ∷ 0xB1 ∷ 0x5F ∷ 0xD8 ∷ 0xA7 ∷ 0xD9 ∷ 0x84
          ∷ 0xD9 ∷ 0x85 ∷ 0xD9 ∷ 0x83 ∷ 0xD8 ∷ 0xAF ∷ 0xD8 ∷ 0xB3 ∷ [],
      4,
    )
    ∷ (
      0xD9 ∷ 0x85 ∷ 0xD8 ∷ 0xA4 ∷ 0xD8 ∷ 0xB4 ∷ 0xD8 ∷ 0xB1 ∷ 0x5F ∷ 0xD8 ∷ 0xA7 ∷ 0xD9 ∷ 0x84
          ∷ 0xD9 ∷ 0x82 ∷ 0xD8 ∷ 0xA7 ∷ 0xD8 ∷ 0xB9 ∷ 0xD8 ∷ 0xAF ∷ 0xD8 ∷ 0xA9 ∷ [],
      5,
    )
    ∷ (
      0xD9 ∷ 0x81 ∷ 0xD9 ∷ 0x87 ∷ 0xD8 ∷ 0xB1 ∷ 0xD8 ∷ 0xB3 ∷ 0x5F ∷ 0xD8 ∷ 0xA7 ∷ 0xD9 ∷ 0x84
          ∷ 0xD9 ∷ 0x85 ∷ 0xD8 ∷ 0xB5 ∷ 0xD8 ∷ 0xAF ∷ 0xD8 ∷ 0xB1 ∷ [],
      6,
    )
    ∷ (
      0xD9 ∷ 0x81 ∷ 0xD9 ∷ 0x87 ∷ 0xD8 ∷ 0xB1 ∷ 0xD8 ∷ 0xB3 ∷ 0x5F ∷ 0xD8 ∷ 0xA7 ∷ 0xD9 ∷ 0x84
          ∷ 0xD9 ∷ 0x88 ∷ 0xD8 ∷ 0xAC ∷ 0xD9 ∷ 0x87 ∷ 0xD8 ∷ 0xA9 ∷ [],
      7,
    )
    ∷ (
      0xD8 ∷ 0xB3 ∷ 0xD8 ∷ 0xAC ∷ 0xD9 ∷ 0x84 ∷ 0x5F ∷ 0xD8 ∷ 0xB9 ∷ 0xD8 ∷ 0xA7 ∷ 0xD9 ∷ 0x85
          ∷ 0x5F ∷ 0xD9 ∷ 0xA8 ∷ [],
      8,
    )
    ∷ (
      0xD8 ∷ 0xB3 ∷ 0xD8 ∷ 0xAC ∷ 0xD9 ∷ 0x84 ∷ 0x5F ∷ 0xD8 ∷ 0xB9 ∷ 0xD8 ∷ 0xA7 ∷ 0xD9 ∷ 0x85
          ∷ 0x5F ∷ 0xD9 ∷ 0xA9 ∷ [],
      9,
    )
    ∷ (
      0xD8 ∷ 0xB3 ∷ 0xD8 ∷ 0xAC ∷ 0xD9 ∷ 0x84 ∷ 0x5F ∷ 0xD8 ∷ 0xB9 ∷ 0xD8 ∷ 0xA7 ∷ 0xD9 ∷ 0x85
          ∷ 0x5F ∷ 0xD9 ∷ 0xA1 ∷ 0xD9 ∷ 0xA0 ∷ [],
      10,
    )
    ∷ (
      0xD8 ∷ 0xB3 ∷ 0xD8 ∷ 0xAC ∷ 0xD9 ∷ 0x84 ∷ 0x5F ∷ 0xD8 ∷ 0xB9 ∷ 0xD8 ∷ 0xA7 ∷ 0xD9 ∷ 0x85
          ∷ 0x5F ∷ 0xD9 ∷ 0xA1 ∷ 0xD9 ∷ 0xA1 ∷ [],
      11,
    )
    ∷ (
      0xD8 ∷ 0xB3 ∷ 0xD8 ∷ 0xAC ∷ 0xD9 ∷ 0x84 ∷ 0x5F ∷ 0xD8 ∷ 0xB9 ∷ 0xD8 ∷ 0xA7 ∷ 0xD9 ∷ 0x85
          ∷ 0x5F ∷ 0xD9 ∷ 0xA1 ∷ 0xD9 ∷ 0xA2 ∷ [],
      12,
    )
    ∷ (
      0xD8 ∷ 0xB3 ∷ 0xD8 ∷ 0xAC ∷ 0xD9 ∷ 0x84 ∷ 0x5F ∷ 0xD8 ∷ 0xB9 ∷ 0xD8 ∷ 0xA7 ∷ 0xD9 ∷ 0x85
          ∷ 0x5F ∷ 0xD9 ∷ 0xA1 ∷ 0xD9 ∷ 0xA3 ∷ [],
      13,
    )
    ∷ (
      0xD8 ∷ 0xB3 ∷ 0xD8 ∷ 0xAC ∷ 0xD9 ∷ 0x84 ∷ 0x5F ∷ 0xD8 ∷ 0xB9 ∷ 0xD8 ∷ 0xA7 ∷ 0xD9 ∷ 0x85
          ∷ 0x5F ∷ 0xD9 ∷ 0xA1 ∷ 0xD9 ∷ 0xA4 ∷ [],
      14,
    )
    ∷ (
      0xD8 ∷ 0xB3 ∷ 0xD8 ∷ 0xAC ∷ 0xD9 ∷ 0x84 ∷ 0x5F ∷ 0xD8 ∷ 0xB9 ∷ 0xD8 ∷ 0xA7 ∷ 0xD9 ∷ 0x85
          ∷ 0x5F ∷ 0xD9 ∷ 0xA1 ∷ 0xD9 ∷ 0xA5 ∷ [],
      15,
    )
    ∷ (
      0xD8 ∷ 0xB3 ∷ 0xD8 ∷ 0xAC ∷ 0xD9 ∷ 0x84 ∷ 0x5F ∷ 0xD8 ∷ 0xA7 ∷ 0xD9 ∷ 0x84 ∷ 0xD9 ∷ 0x85
          ∷ 0xD8 ∷ 0xB1 ∷ 0xD9 ∷ 0x83 ∷ 0xD9 ∷ 0x85 ∷ 0x5F ∷ 0xD9 ∷ 0xA3 ∷ 0xD9 ∷ 0xA2 ∷ [],
      16,
    )
    ∷ (
      0xD8 ∷ 0xB3 ∷ 0xD8 ∷ 0xAC ∷ 0xD9 ∷ 0x84 ∷ 0x5F ∷ 0xD8 ∷ 0xA7 ∷ 0xD9 ∷ 0x84 ∷ 0xD8 ∷ 0xB9
          ∷ 0xD8 ∷ 0xAF ∷ 0xD8 ∷ 0xA7 ∷ 0xD8 ∷ 0xAF ∷ 0x5F ∷ 0xD9 ∷ 0xA3 ∷ 0xD9 ∷ 0xA2 ∷ [],
      17,
    )
    ∷ (
      0xD8 ∷ 0xB3 ∷ 0xD8 ∷ 0xAC ∷ 0xD9 ∷ 0x84 ∷ 0x5F ∷ 0xD8 ∷ 0xA7 ∷ 0xD9 ∷ 0x84 ∷ 0xD8 ∷ 0xA8
          ∷ 0xD9 ∷ 0x8A ∷ 0xD8 ∷ 0xA7 ∷ 0xD9 ∷ 0x86 ∷ 0xD8 ∷ 0xA7 ∷ 0xD8 ∷ 0xAA ∷ 0x5F ∷ 0xD9 ∷ 0xA3
          ∷ 0xD9 ∷ 0xA2 ∷ [],
      18,
    )
    ∷ (
      0xD8 ∷ 0xB3 ∷ 0xD8 ∷ 0xAC ∷ 0xD9 ∷ 0x84 ∷ 0x5F ∷ 0xD8 ∷ 0xA7 ∷ 0xD9 ∷ 0x84 ∷ 0xD9 ∷ 0x82
          ∷ 0xD8 ∷ 0xA7 ∷ 0xD8 ∷ 0xB9 ∷ 0xD8 ∷ 0xAF ∷ 0xD8 ∷ 0xA9 ∷ 0x5F ∷ 0xD9 ∷ 0xA3 ∷ 0xD9 ∷ 0xA2
          ∷ [],
      19,
    )
    ∷ (
      0xD9 ∷ 0x85 ∷ 0xD8 ∷ 0xA4 ∷ 0xD8 ∷ 0xB4 ∷ 0xD8 ∷ 0xB1 ∷ 0x5F ∷ 0xD8 ∷ 0xA7 ∷ 0xD9 ∷ 0x84
          ∷ 0xD9 ∷ 0x85 ∷ 0xD9 ∷ 0x83 ∷ 0xD8 ∷ 0xAF ∷ 0xD8 ∷ 0xB3 ∷ 0x5F ∷ 0xD9 ∷ 0xA3 ∷ 0xD9 ∷ 0xA2
          ∷ [],
      20,
    )
    ∷ (
      0xD9 ∷ 0x85 ∷ 0xD8 ∷ 0xA4 ∷ 0xD8 ∷ 0xB4 ∷ 0xD8 ∷ 0xB1 ∷ 0x5F ∷ 0xD8 ∷ 0xA7 ∷ 0xD9 ∷ 0x84
          ∷ 0xD9 ∷ 0x82 ∷ 0xD8 ∷ 0xA7 ∷ 0xD8 ∷ 0xB9 ∷ 0xD8 ∷ 0xAF ∷ 0xD8 ∷ 0xA9 ∷ 0x5F ∷ 0xD9 ∷ 0xA3
          ∷ 0xD9 ∷ 0xA2 ∷ [],
      21,
    )
    ∷ (
      0xD9 ∷ 0x81 ∷ 0xD9 ∷ 0x87 ∷ 0xD8 ∷ 0xB1 ∷ 0xD8 ∷ 0xB3 ∷ 0x5F ∷ 0xD8 ∷ 0xA7 ∷ 0xD9 ∷ 0x84
          ∷ 0xD9 ∷ 0x85 ∷ 0xD8 ∷ 0xB5 ∷ 0xD8 ∷ 0xAF ∷ 0xD8 ∷ 0xB1 ∷ 0x5F ∷ 0xD9 ∷ 0xA3 ∷ 0xD9 ∷ 0xA2
          ∷ [],
      22,
    )
    ∷ (
      0xD9 ∷ 0x81 ∷ 0xD9 ∷ 0x87 ∷ 0xD8 ∷ 0xB1 ∷ 0xD8 ∷ 0xB3 ∷ 0x5F ∷ 0xD8 ∷ 0xA7 ∷ 0xD9 ∷ 0x84
          ∷ 0xD9 ∷ 0x88 ∷ 0xD8 ∷ 0xAC ∷ 0xD9 ∷ 0x87 ∷ 0xD8 ∷ 0xA9 ∷ 0x5F ∷ 0xD9 ∷ 0xA3 ∷ 0xD9 ∷ 0xA2
          ∷ [],
      23,
    )
    ∷ (
      0xD8 ∷ 0xB3 ∷ 0xD8 ∷ 0xAC ∷ 0xD9 ∷ 0x84 ∷ 0x5F ∷ 0xD8 ∷ 0xB9 ∷ 0xD8 ∷ 0xA7 ∷ 0xD9 ∷ 0x85
          ∷ 0x5F ∷ 0xD9 ∷ 0xA8 ∷ 0x5F ∷ 0xD9 ∷ 0xA3 ∷ 0xD9 ∷ 0xA2 ∷ [],
      24,
    )
    ∷ (
      0xD8 ∷ 0xB3 ∷ 0xD8 ∷ 0xAC ∷ 0xD9 ∷ 0x84 ∷ 0x5F ∷ 0xD8 ∷ 0xB9 ∷ 0xD8 ∷ 0xA7 ∷ 0xD9 ∷ 0x85
          ∷ 0x5F ∷ 0xD9 ∷ 0xA9 ∷ 0x5F ∷ 0xD9 ∷ 0xA3 ∷ 0xD9 ∷ 0xA2 ∷ [],
      25,
    )
    ∷ (
      0xD8 ∷ 0xB3 ∷ 0xD8 ∷ 0xAC ∷ 0xD9 ∷ 0x84 ∷ 0x5F ∷ 0xD8 ∷ 0xB9 ∷ 0xD8 ∷ 0xA7 ∷ 0xD9 ∷ 0x85
          ∷ 0x5F ∷ 0xD9 ∷ 0xA1 ∷ 0xD9 ∷ 0xA0 ∷ 0x5F ∷ 0xD9 ∷ 0xA3 ∷ 0xD9 ∷ 0xA2 ∷ [],
      26,
    )
    ∷ (
      0xD8 ∷ 0xB3 ∷ 0xD8 ∷ 0xAC ∷ 0xD9 ∷ 0x84 ∷ 0x5F ∷ 0xD8 ∷ 0xB9 ∷ 0xD8 ∷ 0xA7 ∷ 0xD9 ∷ 0x85
          ∷ 0x5F ∷ 0xD9 ∷ 0xA1 ∷ 0xD9 ∷ 0xA1 ∷ 0x5F ∷ 0xD9 ∷ 0xA3 ∷ 0xD9 ∷ 0xA2 ∷ [],
      27,
    )
    ∷ (
      0xD8 ∷ 0xB3 ∷ 0xD8 ∷ 0xAC ∷ 0xD9 ∷ 0x84 ∷ 0x5F ∷ 0xD8 ∷ 0xB9 ∷ 0xD8 ∷ 0xA7 ∷ 0xD9 ∷ 0x85
          ∷ 0x5F ∷ 0xD9 ∷ 0xA1 ∷ 0xD9 ∷ 0xA2 ∷ 0x5F ∷ 0xD9 ∷ 0xA3 ∷ 0xD9 ∷ 0xA2 ∷ [],
      28,
    )
    ∷ (
      0xD8 ∷ 0xB3 ∷ 0xD8 ∷ 0xAC ∷ 0xD9 ∷ 0x84 ∷ 0x5F ∷ 0xD8 ∷ 0xB9 ∷ 0xD8 ∷ 0xA7 ∷ 0xD9 ∷ 0x85
          ∷ 0x5F ∷ 0xD9 ∷ 0xA1 ∷ 0xD9 ∷ 0xA3 ∷ 0x5F ∷ 0xD9 ∷ 0xA3 ∷ 0xD9 ∷ 0xA2 ∷ [],
      29,
    )
    ∷ (
      0xD8 ∷ 0xB3 ∷ 0xD8 ∷ 0xAC ∷ 0xD9 ∷ 0x84 ∷ 0x5F ∷ 0xD8 ∷ 0xB9 ∷ 0xD8 ∷ 0xA7 ∷ 0xD9 ∷ 0x85
          ∷ 0x5F ∷ 0xD9 ∷ 0xA1 ∷ 0xD9 ∷ 0xA4 ∷ 0x5F ∷ 0xD9 ∷ 0xA3 ∷ 0xD9 ∷ 0xA2 ∷ [],
      30,
    )
    ∷ (
      0xD8 ∷ 0xB3 ∷ 0xD8 ∷ 0xAC ∷ 0xD9 ∷ 0x84 ∷ 0x5F ∷ 0xD8 ∷ 0xB9 ∷ 0xD8 ∷ 0xA7 ∷ 0xD9 ∷ 0x85
          ∷ 0x5F ∷ 0xD9 ∷ 0xA1 ∷ 0xD9 ∷ 0xA5 ∷ 0x5F ∷ 0xD9 ∷ 0xA3 ∷ 0xD9 ∷ 0xA2 ∷ [],
      31,
    )
    ∷ (
      0xD8 ∷ 0xB3 ∷ 0xD8 ∷ 0xAC ∷ 0xD9 ∷ 0x84 ∷ 0x5F ∷ 0xD8 ∷ 0xA7 ∷ 0xD9 ∷ 0x84 ∷ 0xD9 ∷ 0x85
          ∷ 0xD8 ∷ 0xB1 ∷ 0xD9 ∷ 0x83 ∷ 0xD9 ∷ 0x85 ∷ 0x5F ∷ 0xD9 ∷ 0xA1 ∷ 0xD9 ∷ 0xA6 ∷ [],
      32,
    )
    ∷ (
      0xD8 ∷ 0xB3 ∷ 0xD8 ∷ 0xAC ∷ 0xD9 ∷ 0x84 ∷ 0x5F ∷ 0xD8 ∷ 0xA7 ∷ 0xD9 ∷ 0x84 ∷ 0xD8 ∷ 0xB9
          ∷ 0xD8 ∷ 0xAF ∷ 0xD8 ∷ 0xA7 ∷ 0xD8 ∷ 0xAF ∷ 0x5F ∷ 0xD9 ∷ 0xA1 ∷ 0xD9 ∷ 0xA6 ∷ [],
      33,
    )
    ∷ (
      0xD8 ∷ 0xB3 ∷ 0xD8 ∷ 0xAC ∷ 0xD9 ∷ 0x84 ∷ 0x5F ∷ 0xD8 ∷ 0xA7 ∷ 0xD9 ∷ 0x84 ∷ 0xD8 ∷ 0xA8
          ∷ 0xD9 ∷ 0x8A ∷ 0xD8 ∷ 0xA7 ∷ 0xD9 ∷ 0x86 ∷ 0xD8 ∷ 0xA7 ∷ 0xD8 ∷ 0xAA ∷ 0x5F ∷ 0xD9 ∷ 0xA1
          ∷ 0xD9 ∷ 0xA6 ∷ [],
      34,
    )
    ∷ (
      0xD8 ∷ 0xB3 ∷ 0xD8 ∷ 0xAC ∷ 0xD9 ∷ 0x84 ∷ 0x5F ∷ 0xD8 ∷ 0xA7 ∷ 0xD9 ∷ 0x84 ∷ 0xD9 ∷ 0x82
          ∷ 0xD8 ∷ 0xA7 ∷ 0xD8 ∷ 0xB9 ∷ 0xD8 ∷ 0xAF ∷ 0xD8 ∷ 0xA9 ∷ 0x5F ∷ 0xD9 ∷ 0xA1 ∷ 0xD9 ∷ 0xA6
          ∷ [],
      35,
    )
    ∷ (
      0xD9 ∷ 0x85 ∷ 0xD8 ∷ 0xA4 ∷ 0xD8 ∷ 0xB4 ∷ 0xD8 ∷ 0xB1 ∷ 0x5F ∷ 0xD8 ∷ 0xA7 ∷ 0xD9 ∷ 0x84
          ∷ 0xD9 ∷ 0x85 ∷ 0xD9 ∷ 0x83 ∷ 0xD8 ∷ 0xAF ∷ 0xD8 ∷ 0xB3 ∷ 0x5F ∷ 0xD9 ∷ 0xA1 ∷ 0xD9 ∷ 0xA6
          ∷ [],
      36,
    )
    ∷ (
      0xD9 ∷ 0x85 ∷ 0xD8 ∷ 0xA4 ∷ 0xD8 ∷ 0xB4 ∷ 0xD8 ∷ 0xB1 ∷ 0x5F ∷ 0xD8 ∷ 0xA7 ∷ 0xD9 ∷ 0x84
          ∷ 0xD9 ∷ 0x82 ∷ 0xD8 ∷ 0xA7 ∷ 0xD8 ∷ 0xB9 ∷ 0xD8 ∷ 0xAF ∷ 0xD8 ∷ 0xA9 ∷ 0x5F ∷ 0xD9 ∷ 0xA1
          ∷ 0xD9 ∷ 0xA6 ∷ [],
      37,
    )
    ∷ (
      0xD9 ∷ 0x81 ∷ 0xD9 ∷ 0x87 ∷ 0xD8 ∷ 0xB1 ∷ 0xD8 ∷ 0xB3 ∷ 0x5F ∷ 0xD8 ∷ 0xA7 ∷ 0xD9 ∷ 0x84
          ∷ 0xD9 ∷ 0x85 ∷ 0xD8 ∷ 0xB5 ∷ 0xD8 ∷ 0xAF ∷ 0xD8 ∷ 0xB1 ∷ 0x5F ∷ 0xD9 ∷ 0xA1 ∷ 0xD9 ∷ 0xA6
          ∷ [],
      38,
    )
    ∷ (
      0xD9 ∷ 0x81 ∷ 0xD9 ∷ 0x87 ∷ 0xD8 ∷ 0xB1 ∷ 0xD8 ∷ 0xB3 ∷ 0x5F ∷ 0xD8 ∷ 0xA7 ∷ 0xD9 ∷ 0x84
          ∷ 0xD9 ∷ 0x88 ∷ 0xD8 ∷ 0xAC ∷ 0xD9 ∷ 0x87 ∷ 0xD8 ∷ 0xA9 ∷ 0x5F ∷ 0xD9 ∷ 0xA1 ∷ 0xD9 ∷ 0xA6
          ∷ [],
      39,
    )
    ∷ (
      0xD8 ∷ 0xB3 ∷ 0xD8 ∷ 0xAC ∷ 0xD9 ∷ 0x84 ∷ 0x5F ∷ 0xD8 ∷ 0xB9 ∷ 0xD8 ∷ 0xA7 ∷ 0xD9 ∷ 0x85
          ∷ 0x5F ∷ 0xD9 ∷ 0xA8 ∷ 0x5F ∷ 0xD9 ∷ 0xA1 ∷ 0xD9 ∷ 0xA6 ∷ [],
      40,
    )
    ∷ (
      0xD8 ∷ 0xB3 ∷ 0xD8 ∷ 0xAC ∷ 0xD9 ∷ 0x84 ∷ 0x5F ∷ 0xD8 ∷ 0xB9 ∷ 0xD8 ∷ 0xA7 ∷ 0xD9 ∷ 0x85
          ∷ 0x5F ∷ 0xD9 ∷ 0xA9 ∷ 0x5F ∷ 0xD9 ∷ 0xA1 ∷ 0xD9 ∷ 0xA6 ∷ [],
      41,
    )
    ∷ (
      0xD8 ∷ 0xB3 ∷ 0xD8 ∷ 0xAC ∷ 0xD9 ∷ 0x84 ∷ 0x5F ∷ 0xD8 ∷ 0xB9 ∷ 0xD8 ∷ 0xA7 ∷ 0xD9 ∷ 0x85
          ∷ 0x5F ∷ 0xD9 ∷ 0xA1 ∷ 0xD9 ∷ 0xA0 ∷ 0x5F ∷ 0xD9 ∷ 0xA1 ∷ 0xD9 ∷ 0xA6 ∷ [],
      42,
    )
    ∷ (
      0xD8 ∷ 0xB3 ∷ 0xD8 ∷ 0xAC ∷ 0xD9 ∷ 0x84 ∷ 0x5F ∷ 0xD8 ∷ 0xB9 ∷ 0xD8 ∷ 0xA7 ∷ 0xD9 ∷ 0x85
          ∷ 0x5F ∷ 0xD9 ∷ 0xA1 ∷ 0xD9 ∷ 0xA1 ∷ 0x5F ∷ 0xD9 ∷ 0xA1 ∷ 0xD9 ∷ 0xA6 ∷ [],
      43,
    )
    ∷ (
      0xD8 ∷ 0xB3 ∷ 0xD8 ∷ 0xAC ∷ 0xD9 ∷ 0x84 ∷ 0x5F ∷ 0xD8 ∷ 0xB9 ∷ 0xD8 ∷ 0xA7 ∷ 0xD9 ∷ 0x85
          ∷ 0x5F ∷ 0xD9 ∷ 0xA1 ∷ 0xD9 ∷ 0xA2 ∷ 0x5F ∷ 0xD9 ∷ 0xA1 ∷ 0xD9 ∷ 0xA6 ∷ [],
      44,
    )
    ∷ (
      0xD8 ∷ 0xB3 ∷ 0xD8 ∷ 0xAC ∷ 0xD9 ∷ 0x84 ∷ 0x5F ∷ 0xD8 ∷ 0xB9 ∷ 0xD8 ∷ 0xA7 ∷ 0xD9 ∷ 0x85
          ∷ 0x5F ∷ 0xD9 ∷ 0xA1 ∷ 0xD9 ∷ 0xA3 ∷ 0x5F ∷ 0xD9 ∷ 0xA1 ∷ 0xD9 ∷ 0xA6 ∷ [],
      45,
    )
    ∷ (
      0xD8 ∷ 0xB3 ∷ 0xD8 ∷ 0xAC ∷ 0xD9 ∷ 0x84 ∷ 0x5F ∷ 0xD8 ∷ 0xB9 ∷ 0xD8 ∷ 0xA7 ∷ 0xD9 ∷ 0x85
          ∷ 0x5F ∷ 0xD9 ∷ 0xA1 ∷ 0xD9 ∷ 0xA4 ∷ 0x5F ∷ 0xD9 ∷ 0xA1 ∷ 0xD9 ∷ 0xA6 ∷ [],
      46,
    )
    ∷ (
      0xD8 ∷ 0xB3 ∷ 0xD8 ∷ 0xAC ∷ 0xD9 ∷ 0x84 ∷ 0x5F ∷ 0xD8 ∷ 0xB9 ∷ 0xD8 ∷ 0xA7 ∷ 0xD9 ∷ 0x85
          ∷ 0x5F ∷ 0xD9 ∷ 0xA1 ∷ 0xD9 ∷ 0xA5 ∷ 0x5F ∷ 0xD9 ∷ 0xA1 ∷ 0xD9 ∷ 0xA6 ∷ [],
      47,
    )
    ∷ (
      0xD8 ∷ 0xB3 ∷ 0xD8 ∷ 0xAC ∷ 0xD9 ∷ 0x84 ∷ 0x5F ∷ 0xD8 ∷ 0xA7 ∷ 0xD9 ∷ 0x84 ∷ 0xD9 ∷ 0x85
          ∷ 0xD8 ∷ 0xB1 ∷ 0xD9 ∷ 0x83 ∷ 0xD9 ∷ 0x85 ∷ 0x5F ∷ 0xD9 ∷ 0xA8 ∷ [],
      48,
    )
    ∷ (
      0xD8 ∷ 0xB3 ∷ 0xD8 ∷ 0xAC ∷ 0xD9 ∷ 0x84 ∷ 0x5F ∷ 0xD8 ∷ 0xA7 ∷ 0xD9 ∷ 0x84 ∷ 0xD8 ∷ 0xB9
          ∷ 0xD8 ∷ 0xAF ∷ 0xD8 ∷ 0xA7 ∷ 0xD8 ∷ 0xAF ∷ 0x5F ∷ 0xD9 ∷ 0xA8 ∷ [],
      49,
    )
    ∷ (
      0xD8 ∷ 0xB3 ∷ 0xD8 ∷ 0xAC ∷ 0xD9 ∷ 0x84 ∷ 0x5F ∷ 0xD8 ∷ 0xA7 ∷ 0xD9 ∷ 0x84 ∷ 0xD8 ∷ 0xA8
          ∷ 0xD9 ∷ 0x8A ∷ 0xD8 ∷ 0xA7 ∷ 0xD9 ∷ 0x86 ∷ 0xD8 ∷ 0xA7 ∷ 0xD8 ∷ 0xAA ∷ 0x5F ∷ 0xD9 ∷ 0xA8
          ∷ [],
      50,
    )
    ∷ (
      0xD8 ∷ 0xB3 ∷ 0xD8 ∷ 0xAC ∷ 0xD9 ∷ 0x84 ∷ 0x5F ∷ 0xD8 ∷ 0xA7 ∷ 0xD9 ∷ 0x84 ∷ 0xD9 ∷ 0x82
          ∷ 0xD8 ∷ 0xA7 ∷ 0xD8 ∷ 0xB9 ∷ 0xD8 ∷ 0xAF ∷ 0xD8 ∷ 0xA9 ∷ 0x5F ∷ 0xD9 ∷ 0xA8 ∷ [],
      51,
    )
    ∷ (
      0xD9 ∷ 0x85 ∷ 0xD8 ∷ 0xA4 ∷ 0xD8 ∷ 0xB4 ∷ 0xD8 ∷ 0xB1 ∷ 0x5F ∷ 0xD8 ∷ 0xA7 ∷ 0xD9 ∷ 0x84
          ∷ 0xD9 ∷ 0x85 ∷ 0xD9 ∷ 0x83 ∷ 0xD8 ∷ 0xAF ∷ 0xD8 ∷ 0xB3 ∷ 0x5F ∷ 0xD9 ∷ 0xA8 ∷ [],
      52,
    )
    ∷ (
      0xD9 ∷ 0x85 ∷ 0xD8 ∷ 0xA4 ∷ 0xD8 ∷ 0xB4 ∷ 0xD8 ∷ 0xB1 ∷ 0x5F ∷ 0xD8 ∷ 0xA7 ∷ 0xD9 ∷ 0x84
          ∷ 0xD9 ∷ 0x82 ∷ 0xD8 ∷ 0xA7 ∷ 0xD8 ∷ 0xB9 ∷ 0xD8 ∷ 0xAF ∷ 0xD8 ∷ 0xA9 ∷ 0x5F ∷ 0xD9 ∷ 0xA8
          ∷ [],
      53,
    )
    ∷ (
      0xD9 ∷ 0x81 ∷ 0xD9 ∷ 0x87 ∷ 0xD8 ∷ 0xB1 ∷ 0xD8 ∷ 0xB3 ∷ 0x5F ∷ 0xD8 ∷ 0xA7 ∷ 0xD9 ∷ 0x84
          ∷ 0xD9 ∷ 0x85 ∷ 0xD8 ∷ 0xB5 ∷ 0xD8 ∷ 0xAF ∷ 0xD8 ∷ 0xB1 ∷ 0x5F ∷ 0xD9 ∷ 0xA8 ∷ [],
      54,
    )
    ∷ (
      0xD9 ∷ 0x81 ∷ 0xD9 ∷ 0x87 ∷ 0xD8 ∷ 0xB1 ∷ 0xD8 ∷ 0xB3 ∷ 0x5F ∷ 0xD8 ∷ 0xA7 ∷ 0xD9 ∷ 0x84
          ∷ 0xD9 ∷ 0x88 ∷ 0xD8 ∷ 0xAC ∷ 0xD9 ∷ 0x87 ∷ 0xD8 ∷ 0xA9 ∷ 0x5F ∷ 0xD9 ∷ 0xA8 ∷ [],
      55,
    )
    ∷ (
      0xD8 ∷ 0xB3 ∷ 0xD8 ∷ 0xAC ∷ 0xD9 ∷ 0x84 ∷ 0x5F ∷ 0xD8 ∷ 0xB9 ∷ 0xD8 ∷ 0xA7 ∷ 0xD9 ∷ 0x85
          ∷ 0x5F ∷ 0xD9 ∷ 0xA8 ∷ 0x5F ∷ 0xD9 ∷ 0xA8 ∷ [],
      56,
    )
    ∷ (
      0xD8 ∷ 0xB3 ∷ 0xD8 ∷ 0xAC ∷ 0xD9 ∷ 0x84 ∷ 0x5F ∷ 0xD8 ∷ 0xB9 ∷ 0xD8 ∷ 0xA7 ∷ 0xD9 ∷ 0x85
          ∷ 0x5F ∷ 0xD9 ∷ 0xA9 ∷ 0x5F ∷ 0xD9 ∷ 0xA8 ∷ [],
      57,
    )
    ∷ (
      0xD8 ∷ 0xB3 ∷ 0xD8 ∷ 0xAC ∷ 0xD9 ∷ 0x84 ∷ 0x5F ∷ 0xD8 ∷ 0xB9 ∷ 0xD8 ∷ 0xA7 ∷ 0xD9 ∷ 0x85
          ∷ 0x5F ∷ 0xD9 ∷ 0xA1 ∷ 0xD9 ∷ 0xA0 ∷ 0x5F ∷ 0xD9 ∷ 0xA8 ∷ [],
      58,
    )
    ∷ (
      0xD8 ∷ 0xB3 ∷ 0xD8 ∷ 0xAC ∷ 0xD9 ∷ 0x84 ∷ 0x5F ∷ 0xD8 ∷ 0xB9 ∷ 0xD8 ∷ 0xA7 ∷ 0xD9 ∷ 0x85
          ∷ 0x5F ∷ 0xD9 ∷ 0xA1 ∷ 0xD9 ∷ 0xA1 ∷ 0x5F ∷ 0xD9 ∷ 0xA8 ∷ [],
      59,
    )
    ∷ (
      0xD8 ∷ 0xB3 ∷ 0xD8 ∷ 0xAC ∷ 0xD9 ∷ 0x84 ∷ 0x5F ∷ 0xD8 ∷ 0xB9 ∷ 0xD8 ∷ 0xA7 ∷ 0xD9 ∷ 0x85
          ∷ 0x5F ∷ 0xD9 ∷ 0xA1 ∷ 0xD9 ∷ 0xA2 ∷ 0x5F ∷ 0xD9 ∷ 0xA8 ∷ [],
      60,
    )
    ∷ (
      0xD8 ∷ 0xB3 ∷ 0xD8 ∷ 0xAC ∷ 0xD9 ∷ 0x84 ∷ 0x5F ∷ 0xD8 ∷ 0xB9 ∷ 0xD8 ∷ 0xA7 ∷ 0xD9 ∷ 0x85
          ∷ 0x5F ∷ 0xD9 ∷ 0xA1 ∷ 0xD9 ∷ 0xA3 ∷ 0x5F ∷ 0xD9 ∷ 0xA8 ∷ [],
      61,
    )
    ∷ (
      0xD8 ∷ 0xB3 ∷ 0xD8 ∷ 0xAC ∷ 0xD9 ∷ 0x84 ∷ 0x5F ∷ 0xD8 ∷ 0xB9 ∷ 0xD8 ∷ 0xA7 ∷ 0xD9 ∷ 0x85
          ∷ 0x5F ∷ 0xD9 ∷ 0xA1 ∷ 0xD9 ∷ 0xA4 ∷ 0x5F ∷ 0xD9 ∷ 0xA8 ∷ [],
      62,
    )
    ∷ (
      0xD8 ∷ 0xB3 ∷ 0xD8 ∷ 0xAC ∷ 0xD9 ∷ 0x84 ∷ 0x5F ∷ 0xD8 ∷ 0xB9 ∷ 0xD8 ∷ 0xA7 ∷ 0xD9 ∷ 0x85
          ∷ 0x5F ∷ 0xD9 ∷ 0xA1 ∷ 0xD9 ∷ 0xA5 ∷ 0x5F ∷ 0xD9 ∷ 0xA8 ∷ [],
      63,
    )
    ∷ (
      0xD8 ∷ 0xB3 ∷ 0xD8 ∷ 0xAC ∷ 0xD9 ∷ 0x84 ∷ 0x5F ∷ 0xD8 ∷ 0xB9 ∷ 0xD8 ∷ 0xB4 ∷ 0xD8 ∷ 0xB1
          ∷ 0xD9 ∷ 0x8A ∷ 0x5F ∷ 0xD9 ∷ 0xA0 ∷ [],
      64,
    )
    ∷ (
      0xD8 ∷ 0xB3 ∷ 0xD8 ∷ 0xAC ∷ 0xD9 ∷ 0x84 ∷ 0x5F ∷ 0xD8 ∷ 0xB9 ∷ 0xD8 ∷ 0xB4 ∷ 0xD8 ∷ 0xB1
          ∷ 0xD9 ∷ 0x8A ∷ 0x5F ∷ 0xD9 ∷ 0xA1 ∷ [],
      65,
    )
    ∷ (
      0xD8 ∷ 0xB3 ∷ 0xD8 ∷ 0xAC ∷ 0xD9 ∷ 0x84 ∷ 0x5F ∷ 0xD8 ∷ 0xB9 ∷ 0xD8 ∷ 0xB4 ∷ 0xD8 ∷ 0xB1
          ∷ 0xD9 ∷ 0x8A ∷ 0x5F ∷ 0xD9 ∷ 0xA2 ∷ [],
      66,
    )
    ∷ (
      0xD8 ∷ 0xB3 ∷ 0xD8 ∷ 0xAC ∷ 0xD9 ∷ 0x84 ∷ 0x5F ∷ 0xD8 ∷ 0xB9 ∷ 0xD8 ∷ 0xB4 ∷ 0xD8 ∷ 0xB1
          ∷ 0xD9 ∷ 0x8A ∷ 0x5F ∷ 0xD9 ∷ 0xA3 ∷ [],
      67,
    )
    ∷ (
      0xD8 ∷ 0xB3 ∷ 0xD8 ∷ 0xAC ∷ 0xD9 ∷ 0x84 ∷ 0x5F ∷ 0xD8 ∷ 0xB9 ∷ 0xD8 ∷ 0xB4 ∷ 0xD8 ∷ 0xB1
          ∷ 0xD9 ∷ 0x8A ∷ 0x5F ∷ 0xD9 ∷ 0xA4 ∷ [],
      68,
    )
    ∷ (
      0xD8 ∷ 0xB3 ∷ 0xD8 ∷ 0xAC ∷ 0xD9 ∷ 0x84 ∷ 0x5F ∷ 0xD8 ∷ 0xB9 ∷ 0xD8 ∷ 0xB4 ∷ 0xD8 ∷ 0xB1
          ∷ 0xD9 ∷ 0x8A ∷ 0x5F ∷ 0xD9 ∷ 0xA5 ∷ [],
      69,
    )
    ∷ (
      0xD8 ∷ 0xB3 ∷ 0xD8 ∷ 0xAC ∷ 0xD9 ∷ 0x84 ∷ 0x5F ∷ 0xD8 ∷ 0xB9 ∷ 0xD8 ∷ 0xB4 ∷ 0xD8 ∷ 0xB1
          ∷ 0xD9 ∷ 0x8A ∷ 0x5F ∷ 0xD9 ∷ 0xA6 ∷ [],
      70,
    )
    ∷ (
      0xD8 ∷ 0xB3 ∷ 0xD8 ∷ 0xAC ∷ 0xD9 ∷ 0x84 ∷ 0x5F ∷ 0xD8 ∷ 0xB9 ∷ 0xD8 ∷ 0xB4 ∷ 0xD8 ∷ 0xB1
          ∷ 0xD9 ∷ 0x8A ∷ 0x5F ∷ 0xD9 ∷ 0xA7 ∷ [],
      71,
    )
    ∷ (
      0xD8 ∷ 0xB3 ∷ 0xD8 ∷ 0xAC ∷ 0xD9 ∷ 0x84 ∷ 0x5F ∷ 0xD8 ∷ 0xB9 ∷ 0xD8 ∷ 0xB4 ∷ 0xD8 ∷ 0xB1
          ∷ 0xD9 ∷ 0x8A ∷ 0x5F ∷ 0xD9 ∷ 0xA8 ∷ [],
      72,
    )
    ∷ (
      0xD8 ∷ 0xB3 ∷ 0xD8 ∷ 0xAC ∷ 0xD9 ∷ 0x84 ∷ 0x5F ∷ 0xD8 ∷ 0xB9 ∷ 0xD8 ∷ 0xB4 ∷ 0xD8 ∷ 0xB1
          ∷ 0xD9 ∷ 0x8A ∷ 0x5F ∷ 0xD9 ∷ 0xA9 ∷ [],
      73,
    )
    ∷ (
      0xD8 ∷ 0xB3 ∷ 0xD8 ∷ 0xAC ∷ 0xD9 ∷ 0x84 ∷ 0x5F ∷ 0xD8 ∷ 0xB9 ∷ 0xD8 ∷ 0xB4 ∷ 0xD8 ∷ 0xB1
          ∷ 0xD9 ∷ 0x8A ∷ 0x5F ∷ 0xD9 ∷ 0xA1 ∷ 0xD9 ∷ 0xA0 ∷ [],
      74,
    )
    ∷ (
      0xD8 ∷ 0xB3 ∷ 0xD8 ∷ 0xAC ∷ 0xD9 ∷ 0x84 ∷ 0x5F ∷ 0xD8 ∷ 0xB9 ∷ 0xD8 ∷ 0xB4 ∷ 0xD8 ∷ 0xB1
          ∷ 0xD9 ∷ 0x8A ∷ 0x5F ∷ 0xD9 ∷ 0xA1 ∷ 0xD9 ∷ 0xA1 ∷ [],
      75,
    )
    ∷ (
      0xD8 ∷ 0xB3 ∷ 0xD8 ∷ 0xAC ∷ 0xD9 ∷ 0x84 ∷ 0x5F ∷ 0xD8 ∷ 0xB9 ∷ 0xD8 ∷ 0xB4 ∷ 0xD8 ∷ 0xB1
          ∷ 0xD9 ∷ 0x8A ∷ 0x5F ∷ 0xD9 ∷ 0xA1 ∷ 0xD9 ∷ 0xA2 ∷ [],
      76,
    )
    ∷ (
      0xD8 ∷ 0xB3 ∷ 0xD8 ∷ 0xAC ∷ 0xD9 ∷ 0x84 ∷ 0x5F ∷ 0xD8 ∷ 0xB9 ∷ 0xD8 ∷ 0xB4 ∷ 0xD8 ∷ 0xB1
          ∷ 0xD9 ∷ 0x8A ∷ 0x5F ∷ 0xD9 ∷ 0xA1 ∷ 0xD9 ∷ 0xA3 ∷ [],
      77,
    )
    ∷ (
      0xD8 ∷ 0xB3 ∷ 0xD8 ∷ 0xAC ∷ 0xD9 ∷ 0x84 ∷ 0x5F ∷ 0xD8 ∷ 0xB9 ∷ 0xD8 ∷ 0xB4 ∷ 0xD8 ∷ 0xB1
          ∷ 0xD9 ∷ 0x8A ∷ 0x5F ∷ 0xD9 ∷ 0xA1 ∷ 0xD9 ∷ 0xA4 ∷ [],
      78,
    )
    ∷ (
      0xD8 ∷ 0xB3 ∷ 0xD8 ∷ 0xAC ∷ 0xD9 ∷ 0x84 ∷ 0x5F ∷ 0xD8 ∷ 0xB9 ∷ 0xD8 ∷ 0xB4 ∷ 0xD8 ∷ 0xB1
          ∷ 0xD9 ∷ 0x8A ∷ 0x5F ∷ 0xD9 ∷ 0xA1 ∷ 0xD9 ∷ 0xA5 ∷ [],
      79,
    )
    ∷ []

-- `LEGACY_REGISTERS`, less the entry that ends it.
unfoldable pub legacy_registers : List (List ℕ × List ℕ)
legacy_registers =
    (
      0xD9 ∷ 0x85 ∷ 0xD8 ∷ 0xAC ∷ 0xD9 ∷ 0x85 ∷ 0xD8 ∷ 0xB9 ∷ [],
      0xD8 ∷ 0xB3 ∷ 0xD8 ∷ 0xAC ∷ 0xD9 ∷ 0x84 ∷ 0x5F ∷ 0xD8 ∷ 0xA7 ∷ 0xD9 ∷ 0x84 ∷ 0xD9 ∷ 0x85
          ∷ 0xD8 ∷ 0xB1 ∷ 0xD9 ∷ 0x83 ∷ 0xD9 ∷ 0x85 ∷ [],
    )
    ∷ (
      0xD8 ∷ 0xB9 ∷ 0xD8 ∷ 0xAF ∷ 0xD8 ∷ 0xA7 ∷ 0xD8 ∷ 0xAF ∷ [],
      0xD8 ∷ 0xB3 ∷ 0xD8 ∷ 0xAC ∷ 0xD9 ∷ 0x84 ∷ 0x5F ∷ 0xD8 ∷ 0xA7 ∷ 0xD9 ∷ 0x84 ∷ 0xD8 ∷ 0xB9
          ∷ 0xD8 ∷ 0xAF ∷ 0xD8 ∷ 0xA7 ∷ 0xD8 ∷ 0xAF ∷ [],
    )
    ∷ (
      0xD8 ∷ 0xA8 ∷ 0xD9 ∷ 0x8A ∷ 0xD8 ∷ 0xA7 ∷ 0xD9 ∷ 0x86 ∷ 0xD8 ∷ 0xA7 ∷ 0xD8 ∷ 0xAA ∷ [],
      0xD8 ∷ 0xB3 ∷ 0xD8 ∷ 0xAC ∷ 0xD9 ∷ 0x84 ∷ 0x5F ∷ 0xD8 ∷ 0xA7 ∷ 0xD9 ∷ 0x84 ∷ 0xD8 ∷ 0xA8
          ∷ 0xD9 ∷ 0x8A ∷ 0xD8 ∷ 0xA7 ∷ 0xD9 ∷ 0x86 ∷ 0xD8 ∷ 0xA7 ∷ 0xD8 ∷ 0xAA ∷ [],
    )
    ∷ (
      0xD9 ∷ 0x82 ∷ 0xD8 ∷ 0xA7 ∷ 0xD8 ∷ 0xB9 ∷ 0xD8 ∷ 0xAF ∷ 0xD8 ∷ 0xA9 ∷ 0x5F ∷ 0xD8 ∷ 0xA8 ∷ [],
      0xD8 ∷ 0xB3 ∷ 0xD8 ∷ 0xAC ∷ 0xD9 ∷ 0x84 ∷ 0x5F ∷ 0xD8 ∷ 0xA7 ∷ 0xD9 ∷ 0x84 ∷ 0xD9 ∷ 0x82
          ∷ 0xD8 ∷ 0xA7 ∷ 0xD8 ∷ 0xB9 ∷ 0xD8 ∷ 0xAF ∷ 0xD8 ∷ 0xA9 ∷ [],
    )
    ∷ (
      0xD9 ∷ 0x85 ∷ 0xD9 ∷ 0x83 ∷ 0xD8 ∷ 0xAF ∷ 0xD8 ∷ 0xB3 ∷ [],
      0xD9 ∷ 0x85 ∷ 0xD8 ∷ 0xA4 ∷ 0xD8 ∷ 0xB4 ∷ 0xD8 ∷ 0xB1 ∷ 0x5F ∷ 0xD8 ∷ 0xA7 ∷ 0xD9 ∷ 0x84
          ∷ 0xD9 ∷ 0x85 ∷ 0xD9 ∷ 0x83 ∷ 0xD8 ∷ 0xAF ∷ 0xD8 ∷ 0xB3 ∷ [],
    )
    ∷ (
      0xD9 ∷ 0x82 ∷ 0xD8 ∷ 0xA7 ∷ 0xD8 ∷ 0xB9 ∷ 0xD8 ∷ 0xAF ∷ 0xD8 ∷ 0xA9 ∷ [],
      0xD9 ∷ 0x85 ∷ 0xD8 ∷ 0xA4 ∷ 0xD8 ∷ 0xB4 ∷ 0xD8 ∷ 0xB1 ∷ 0x5F ∷ 0xD8 ∷ 0xA7 ∷ 0xD9 ∷ 0x84
          ∷ 0xD9 ∷ 0x82 ∷ 0xD8 ∷ 0xA7 ∷ 0xD8 ∷ 0xB9 ∷ 0xD8 ∷ 0xAF ∷ 0xD8 ∷ 0xA9 ∷ [],
    )
    ∷ (
      0xD9 ∷ 0x85 ∷ 0xD8 ∷ 0xB5 ∷ 0xD8 ∷ 0xAF ∷ 0xD8 ∷ 0xB1 ∷ [],
      0xD9 ∷ 0x81 ∷ 0xD9 ∷ 0x87 ∷ 0xD8 ∷ 0xB1 ∷ 0xD8 ∷ 0xB3 ∷ 0x5F ∷ 0xD8 ∷ 0xA7 ∷ 0xD9 ∷ 0x84
          ∷ 0xD9 ∷ 0x85 ∷ 0xD8 ∷ 0xB5 ∷ 0xD8 ∷ 0xAF ∷ 0xD8 ∷ 0xB1 ∷ [],
    )
    ∷ (
      0xD9 ∷ 0x88 ∷ 0xD8 ∷ 0xAC ∷ 0xD9 ∷ 0x87 ∷ 0xD8 ∷ 0xA9 ∷ [],
      0xD9 ∷ 0x81 ∷ 0xD9 ∷ 0x87 ∷ 0xD8 ∷ 0xB1 ∷ 0xD8 ∷ 0xB3 ∷ 0x5F ∷ 0xD8 ∷ 0xA7 ∷ 0xD9 ∷ 0x84
          ∷ 0xD9 ∷ 0x88 ∷ 0xD8 ∷ 0xAC ∷ 0xD9 ∷ 0x87 ∷ 0xD8 ∷ 0xA9 ∷ [],
    )
    ∷ (
      0xD8 ∷ 0xB1 ∷ 0x30 ∷ [],
      0xD8 ∷ 0xB3 ∷ 0xD8 ∷ 0xAC ∷ 0xD9 ∷ 0x84 ∷ 0x5F ∷ 0xD8 ∷ 0xA7 ∷ 0xD9 ∷ 0x84 ∷ 0xD9 ∷ 0x85
          ∷ 0xD8 ∷ 0xB1 ∷ 0xD9 ∷ 0x83 ∷ 0xD9 ∷ 0x85 ∷ [],
    )
    ∷ (
      0xD8 ∷ 0xB1 ∷ 0x31 ∷ [],
      0xD8 ∷ 0xB3 ∷ 0xD8 ∷ 0xAC ∷ 0xD9 ∷ 0x84 ∷ 0x5F ∷ 0xD8 ∷ 0xA7 ∷ 0xD9 ∷ 0x84 ∷ 0xD8 ∷ 0xB9
          ∷ 0xD8 ∷ 0xAF ∷ 0xD8 ∷ 0xA7 ∷ 0xD8 ∷ 0xAF ∷ [],
    )
    ∷ (
      0xD8 ∷ 0xB1 ∷ 0x32 ∷ [],
      0xD8 ∷ 0xB3 ∷ 0xD8 ∷ 0xAC ∷ 0xD9 ∷ 0x84 ∷ 0x5F ∷ 0xD8 ∷ 0xA7 ∷ 0xD9 ∷ 0x84 ∷ 0xD8 ∷ 0xA8
          ∷ 0xD9 ∷ 0x8A ∷ 0xD8 ∷ 0xA7 ∷ 0xD9 ∷ 0x86 ∷ 0xD8 ∷ 0xA7 ∷ 0xD8 ∷ 0xAA ∷ [],
    )
    ∷ (
      0xD8 ∷ 0xB1 ∷ 0x33 ∷ [],
      0xD8 ∷ 0xB3 ∷ 0xD8 ∷ 0xAC ∷ 0xD9 ∷ 0x84 ∷ 0x5F ∷ 0xD8 ∷ 0xA7 ∷ 0xD9 ∷ 0x84 ∷ 0xD9 ∷ 0x82
          ∷ 0xD8 ∷ 0xA7 ∷ 0xD8 ∷ 0xB9 ∷ 0xD8 ∷ 0xAF ∷ 0xD8 ∷ 0xA9 ∷ [],
    )
    ∷ (
      0xD8 ∷ 0xB1 ∷ 0x34 ∷ [],
      0xD9 ∷ 0x85 ∷ 0xD8 ∷ 0xA4 ∷ 0xD8 ∷ 0xB4 ∷ 0xD8 ∷ 0xB1 ∷ 0x5F ∷ 0xD8 ∷ 0xA7 ∷ 0xD9 ∷ 0x84
          ∷ 0xD9 ∷ 0x85 ∷ 0xD9 ∷ 0x83 ∷ 0xD8 ∷ 0xAF ∷ 0xD8 ∷ 0xB3 ∷ [],
    )
    ∷ (
      0xD8 ∷ 0xB1 ∷ 0x35 ∷ [],
      0xD9 ∷ 0x85 ∷ 0xD8 ∷ 0xA4 ∷ 0xD8 ∷ 0xB4 ∷ 0xD8 ∷ 0xB1 ∷ 0x5F ∷ 0xD8 ∷ 0xA7 ∷ 0xD9 ∷ 0x84
          ∷ 0xD9 ∷ 0x82 ∷ 0xD8 ∷ 0xA7 ∷ 0xD8 ∷ 0xB9 ∷ 0xD8 ∷ 0xAF ∷ 0xD8 ∷ 0xA9 ∷ [],
    )
    ∷ (
      0xD8 ∷ 0xB1 ∷ 0x36 ∷ [],
      0xD9 ∷ 0x81 ∷ 0xD9 ∷ 0x87 ∷ 0xD8 ∷ 0xB1 ∷ 0xD8 ∷ 0xB3 ∷ 0x5F ∷ 0xD8 ∷ 0xA7 ∷ 0xD9 ∷ 0x84
          ∷ 0xD9 ∷ 0x85 ∷ 0xD8 ∷ 0xB5 ∷ 0xD8 ∷ 0xAF ∷ 0xD8 ∷ 0xB1 ∷ [],
    )
    ∷ (
      0xD8 ∷ 0xB1 ∷ 0x37 ∷ [],
      0xD9 ∷ 0x81 ∷ 0xD9 ∷ 0x87 ∷ 0xD8 ∷ 0xB1 ∷ 0xD8 ∷ 0xB3 ∷ 0x5F ∷ 0xD8 ∷ 0xA7 ∷ 0xD9 ∷ 0x84
          ∷ 0xD9 ∷ 0x88 ∷ 0xD8 ∷ 0xAC ∷ 0xD9 ∷ 0x87 ∷ 0xD8 ∷ 0xA9 ∷ [],
    )
    ∷ (
      0xD8 ∷ 0xB1 ∷ 0x38 ∷ [],
      0xD8 ∷ 0xB3 ∷ 0xD8 ∷ 0xAC ∷ 0xD9 ∷ 0x84 ∷ 0x5F ∷ 0xD8 ∷ 0xB9 ∷ 0xD8 ∷ 0xA7 ∷ 0xD9 ∷ 0x85
          ∷ 0x5F ∷ 0xD9 ∷ 0xA8 ∷ [],
    )
    ∷ (
      0xD8 ∷ 0xB1 ∷ 0x39 ∷ [],
      0xD8 ∷ 0xB3 ∷ 0xD8 ∷ 0xAC ∷ 0xD9 ∷ 0x84 ∷ 0x5F ∷ 0xD8 ∷ 0xB9 ∷ 0xD8 ∷ 0xA7 ∷ 0xD9 ∷ 0x85
          ∷ 0x5F ∷ 0xD9 ∷ 0xA9 ∷ [],
    )
    ∷ (
      0xD8 ∷ 0xB1 ∷ 0x31 ∷ 0x30 ∷ [],
      0xD8 ∷ 0xB3 ∷ 0xD8 ∷ 0xAC ∷ 0xD9 ∷ 0x84 ∷ 0x5F ∷ 0xD8 ∷ 0xB9 ∷ 0xD8 ∷ 0xA7 ∷ 0xD9 ∷ 0x85
          ∷ 0x5F ∷ 0xD9 ∷ 0xA1 ∷ 0xD9 ∷ 0xA0 ∷ [],
    )
    ∷ (
      0xD8 ∷ 0xB1 ∷ 0x31 ∷ 0x31 ∷ [],
      0xD8 ∷ 0xB3 ∷ 0xD8 ∷ 0xAC ∷ 0xD9 ∷ 0x84 ∷ 0x5F ∷ 0xD8 ∷ 0xB9 ∷ 0xD8 ∷ 0xA7 ∷ 0xD9 ∷ 0x85
          ∷ 0x5F ∷ 0xD9 ∷ 0xA1 ∷ 0xD9 ∷ 0xA1 ∷ [],
    )
    ∷ (
      0xD8 ∷ 0xB1 ∷ 0x31 ∷ 0x32 ∷ [],
      0xD8 ∷ 0xB3 ∷ 0xD8 ∷ 0xAC ∷ 0xD9 ∷ 0x84 ∷ 0x5F ∷ 0xD8 ∷ 0xB9 ∷ 0xD8 ∷ 0xA7 ∷ 0xD9 ∷ 0x85
          ∷ 0x5F ∷ 0xD9 ∷ 0xA1 ∷ 0xD9 ∷ 0xA2 ∷ [],
    )
    ∷ (
      0xD8 ∷ 0xB1 ∷ 0x31 ∷ 0x33 ∷ [],
      0xD8 ∷ 0xB3 ∷ 0xD8 ∷ 0xAC ∷ 0xD9 ∷ 0x84 ∷ 0x5F ∷ 0xD8 ∷ 0xB9 ∷ 0xD8 ∷ 0xA7 ∷ 0xD9 ∷ 0x85
          ∷ 0x5F ∷ 0xD9 ∷ 0xA1 ∷ 0xD9 ∷ 0xA3 ∷ [],
    )
    ∷ (
      0xD8 ∷ 0xB1 ∷ 0x31 ∷ 0x34 ∷ [],
      0xD8 ∷ 0xB3 ∷ 0xD8 ∷ 0xAC ∷ 0xD9 ∷ 0x84 ∷ 0x5F ∷ 0xD8 ∷ 0xB9 ∷ 0xD8 ∷ 0xA7 ∷ 0xD9 ∷ 0x85
          ∷ 0x5F ∷ 0xD9 ∷ 0xA1 ∷ 0xD9 ∷ 0xA4 ∷ [],
    )
    ∷ (
      0xD8 ∷ 0xB1 ∷ 0x31 ∷ 0x35 ∷ [],
      0xD8 ∷ 0xB3 ∷ 0xD8 ∷ 0xAC ∷ 0xD9 ∷ 0x84 ∷ 0x5F ∷ 0xD8 ∷ 0xB9 ∷ 0xD8 ∷ 0xA7 ∷ 0xD9 ∷ 0x85
          ∷ 0x5F ∷ 0xD9 ∷ 0xA1 ∷ 0xD9 ∷ 0xA5 ∷ [],
    )
    ∷ (
      0xD8 ∷ 0xB3 ∷ 0xD8 ∷ 0xAC ∷ 0xD9 ∷ 0x84 ∷ 0x5F ∷ 0xD8 ∷ 0xB9 ∷ 0xD8 ∷ 0xA7 ∷ 0xD9 ∷ 0x85
          ∷ 0x5F ∷ 0x38 ∷ [],
      0xD8 ∷ 0xB3 ∷ 0xD8 ∷ 0xAC ∷ 0xD9 ∷ 0x84 ∷ 0x5F ∷ 0xD8 ∷ 0xB9 ∷ 0xD8 ∷ 0xA7 ∷ 0xD9 ∷ 0x85
          ∷ 0x5F ∷ 0xD9 ∷ 0xA8 ∷ [],
    )
    ∷ (
      0xD8 ∷ 0xB3 ∷ 0xD8 ∷ 0xAC ∷ 0xD9 ∷ 0x84 ∷ 0x5F ∷ 0xD8 ∷ 0xB9 ∷ 0xD8 ∷ 0xA7 ∷ 0xD9 ∷ 0x85
          ∷ 0x5F ∷ 0x39 ∷ [],
      0xD8 ∷ 0xB3 ∷ 0xD8 ∷ 0xAC ∷ 0xD9 ∷ 0x84 ∷ 0x5F ∷ 0xD8 ∷ 0xB9 ∷ 0xD8 ∷ 0xA7 ∷ 0xD9 ∷ 0x85
          ∷ 0x5F ∷ 0xD9 ∷ 0xA9 ∷ [],
    )
    ∷ (
      0xD8 ∷ 0xB3 ∷ 0xD8 ∷ 0xAC ∷ 0xD9 ∷ 0x84 ∷ 0x5F ∷ 0xD8 ∷ 0xB9 ∷ 0xD8 ∷ 0xA7 ∷ 0xD9 ∷ 0x85
          ∷ 0x5F ∷ 0x31 ∷ 0x30 ∷ [],
      0xD8 ∷ 0xB3 ∷ 0xD8 ∷ 0xAC ∷ 0xD9 ∷ 0x84 ∷ 0x5F ∷ 0xD8 ∷ 0xB9 ∷ 0xD8 ∷ 0xA7 ∷ 0xD9 ∷ 0x85
          ∷ 0x5F ∷ 0xD9 ∷ 0xA1 ∷ 0xD9 ∷ 0xA0 ∷ [],
    )
    ∷ (
      0xD8 ∷ 0xB3 ∷ 0xD8 ∷ 0xAC ∷ 0xD9 ∷ 0x84 ∷ 0x5F ∷ 0xD8 ∷ 0xB9 ∷ 0xD8 ∷ 0xA7 ∷ 0xD9 ∷ 0x85
          ∷ 0x5F ∷ 0x31 ∷ 0x31 ∷ [],
      0xD8 ∷ 0xB3 ∷ 0xD8 ∷ 0xAC ∷ 0xD9 ∷ 0x84 ∷ 0x5F ∷ 0xD8 ∷ 0xB9 ∷ 0xD8 ∷ 0xA7 ∷ 0xD9 ∷ 0x85
          ∷ 0x5F ∷ 0xD9 ∷ 0xA1 ∷ 0xD9 ∷ 0xA1 ∷ [],
    )
    ∷ (
      0xD8 ∷ 0xB3 ∷ 0xD8 ∷ 0xAC ∷ 0xD9 ∷ 0x84 ∷ 0x5F ∷ 0xD8 ∷ 0xB9 ∷ 0xD8 ∷ 0xA7 ∷ 0xD9 ∷ 0x85
          ∷ 0x5F ∷ 0x31 ∷ 0x32 ∷ [],
      0xD8 ∷ 0xB3 ∷ 0xD8 ∷ 0xAC ∷ 0xD9 ∷ 0x84 ∷ 0x5F ∷ 0xD8 ∷ 0xB9 ∷ 0xD8 ∷ 0xA7 ∷ 0xD9 ∷ 0x85
          ∷ 0x5F ∷ 0xD9 ∷ 0xA1 ∷ 0xD9 ∷ 0xA2 ∷ [],
    )
    ∷ (
      0xD8 ∷ 0xB3 ∷ 0xD8 ∷ 0xAC ∷ 0xD9 ∷ 0x84 ∷ 0x5F ∷ 0xD8 ∷ 0xB9 ∷ 0xD8 ∷ 0xA7 ∷ 0xD9 ∷ 0x85
          ∷ 0x5F ∷ 0x31 ∷ 0x33 ∷ [],
      0xD8 ∷ 0xB3 ∷ 0xD8 ∷ 0xAC ∷ 0xD9 ∷ 0x84 ∷ 0x5F ∷ 0xD8 ∷ 0xB9 ∷ 0xD8 ∷ 0xA7 ∷ 0xD9 ∷ 0x85
          ∷ 0x5F ∷ 0xD9 ∷ 0xA1 ∷ 0xD9 ∷ 0xA3 ∷ [],
    )
    ∷ (
      0xD8 ∷ 0xB3 ∷ 0xD8 ∷ 0xAC ∷ 0xD9 ∷ 0x84 ∷ 0x5F ∷ 0xD8 ∷ 0xB9 ∷ 0xD8 ∷ 0xA7 ∷ 0xD9 ∷ 0x85
          ∷ 0x5F ∷ 0x31 ∷ 0x34 ∷ [],
      0xD8 ∷ 0xB3 ∷ 0xD8 ∷ 0xAC ∷ 0xD9 ∷ 0x84 ∷ 0x5F ∷ 0xD8 ∷ 0xB9 ∷ 0xD8 ∷ 0xA7 ∷ 0xD9 ∷ 0x85
          ∷ 0x5F ∷ 0xD9 ∷ 0xA1 ∷ 0xD9 ∷ 0xA4 ∷ [],
    )
    ∷ (
      0xD8 ∷ 0xB3 ∷ 0xD8 ∷ 0xAC ∷ 0xD9 ∷ 0x84 ∷ 0x5F ∷ 0xD8 ∷ 0xB9 ∷ 0xD8 ∷ 0xA7 ∷ 0xD9 ∷ 0x85
          ∷ 0x5F ∷ 0x31 ∷ 0x35 ∷ [],
      0xD8 ∷ 0xB3 ∷ 0xD8 ∷ 0xAC ∷ 0xD9 ∷ 0x84 ∷ 0x5F ∷ 0xD8 ∷ 0xB9 ∷ 0xD8 ∷ 0xA7 ∷ 0xD9 ∷ 0x85
          ∷ 0x5F ∷ 0xD9 ∷ 0xA1 ∷ 0xD9 ∷ 0xA5 ∷ [],
    )
    ∷ []

-- `RESERVED_REGISTER_PREFIXES`.
unfoldable pub reserved_register_prefixes : List (List ℕ)
reserved_register_prefixes =
    (0xD8 ∷ 0xB3 ∷ 0xD8 ∷ 0xAC ∷ 0xD9 ∷ 0x84 ∷ 0x5F ∷ [])
    ∷ (0xD9 ∷ 0x85 ∷ 0xD8 ∷ 0xA4 ∷ 0xD8 ∷ 0xB4 ∷ 0xD8 ∷ 0xB1 ∷ 0x5F ∷ [])
    ∷ (0xD9 ∷ 0x81 ∷ 0xD9 ∷ 0x87 ∷ 0xD8 ∷ 0xB1 ∷ 0xD8 ∷ 0xB3 ∷ 0x5F ∷ [])
    ∷ []
