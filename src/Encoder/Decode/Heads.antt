-- ===== src/Encoder/Decode/Heads.antt =====
-- The prefixes, REX and the opcode read back.
use nazm.Prelude.{
  ℕ, ◌≡◌, refl, Bool, true, false, ◌&&◌, ◌||◌, ◌∙◌, ◌==◌, leb, ltb, Bool-cases, inl, inr, List, [],
  ◌∷◌, ◌++◌, some, if◌then◌else◌, arith,
}
use nazm.Encoder.Bytes.{rex_byte, rex_required}
use nazm.Encoder.Decode.{Head, read_rex, read_head}

-- A byte that is no prefix the reader knows.
abbrev pub is_prefix : ℕ → Bool
is_prefix x = x == 0x66 || leb 0x40 x && ltb x 0x50

-- The bits of REX are those given, if REX is there; without REX all must be clear.
abbrev pub head : Bool → Bool → Bool → Bool → Bool → ℕ → List ℕ → Head
head p has w r b opcode rest = record {
  operand_16 = p;
  has_rex = has;
  rex_w = w;
  rex_r = r;
  rex_b = b;
  opcode = opcode;
  rest = rest;
}

read_rex-rex :
    (p w r b : Bool) (opcode : ℕ) (rest : List ℕ)
    → read_rex p (rex_byte w r false b ∷ opcode ∷ rest) ≡ some (head p true w r b opcode rest)
unfolding read_rex rex_byte
read_rex-rex p true true true opcode rest = refl
read_rex-rex p true true false opcode rest = refl
read_rex-rex p true false true opcode rest = refl
read_rex-rex p true false false opcode rest = refl
read_rex-rex p false true true opcode rest = refl
read_rex-rex p false true false opcode rest = refl
read_rex-rex p false false true opcode rest = refl
read_rex-rex p false false false opcode rest = refl

read_rex-opcode :
    (p : Bool) (opcode : ℕ) (rest : List ℕ)
    → is_prefix opcode ≡ false
    → read_rex p (opcode ∷ rest) ≡ some (head p false false false false opcode rest)
unfolding read_rex
read_rex-opcode p opcode rest h = ground arith

read_head-prefix :
    (p : Bool) (x : ℕ) (rest : List ℕ)
    → (x == 0x66) ≡ false
    → read_head ((if p then 0x66 ∷ [] else []) ++ (x ∷ rest)) ≡ read_rex p (x ∷ rest)
unfolding read_head
read_head-prefix true x rest h = refl
read_head-prefix false x rest h = rw h

not_66 : (w r b : Bool) → (rex_byte w r false b == 0x66) ≡ false
unfolding rex_byte
not_66 true true true = refl
not_66 true true false = refl
not_66 true false true = refl
not_66 true false false = refl
not_66 false true true = refl
not_66 false true false = refl
not_66 false false true = refl
not_66 false false false = refl

-- REX left out: then no bit of it is set.
no_bits :
    (forced w r b : Bool)
    → (forced || rex_required w r false b) ≡ false
    → (w ≡ false) × (r ≡ false) × (b ≡ false)
unfolding rex_required
no_bits forced w r b h = ground arith

pub read_head-emitted :
    (p forced w r b : Bool) (opcode : ℕ) (rest : List ℕ)
    → is_prefix opcode ≡ false
    → read_head (
        (if p then 0x66 ∷ [] else [])
        ++ ((if forced || rex_required w r false b then rex_byte w r false b ∷ [] else [])
            ++ (opcode ∷ rest)))
      ≡ some (head p (forced || rex_required w r false b) w r b opcode rest)
read_head-emitted p forced w r b opcode rest h =
    elim (Bool-cases (forced || rex_required w r false b)) [
      | inl has ↦ rw has (read_head-prefix p _ _ (not_66 w r b) ∙ read_rex-rex p w r b opcode rest)
      | inr none ↦
          let (hw, hr, hb) = no_bits forced w r b none in
          rw (none, hw, hr, hb)
            (read_head-prefix p _ _ (ground arith) ∙ read_rex-opcode p opcode rest h)
    ]
