-- ===== src/Encoder/Bounds.antt =====
-- The length of an instruction, from the account of what its encoder appends.
use nazm.Prelude.{◌≤◌, ◌≡◌, refl, Bool, true, false, ◌&&◌, [], length, leb, if◌then◌else◌, arith}
use nazm.Encoder.Emit.{Emit, EncodedInstruction, make_error, encoded}
use nazm.Encoder.Emit.Adds.{Adds}

-- A successful encoding has between one and ten bytes, so the fifteen of the buffer are never reached.
pub record IsSized (e : EncodedInstruction) : Type 0 where
  pub at_least : e.error ≡ false → 1 ≤ e.len
  pub at_most : e.error ≡ false → e.len ≤ 10
  pub counted : e.len ≡ length e.bytes

pub error-IsSized : IsSized make_error
error-IsSized = record { at_least = λ h. cc; at_most = λ h. cc; counted = refl }

module _ (f : Emit) (p : Adds f) (fits : (leb 1 p.least && leb p.most 10) ≡ true) where
  pub added_bounds : (1 ≤ length (f [])) × (length (f []) ≤ 10)
  added_bounds =
      let (lo, hi) = bounds in
      rw (p.appends [] (omega arith)) (omega (arith, p.least_le), omega (arith, p.le_most))
    where
      bounds : (1 ≤ p.least) × (p.most ≤ 10)
      bounds = ground arith

  pub encoded-IsSized : IsSized (encoded f)
  unfolding encoded
  encoded-IsSized = record {
    at_least = λ _. added_bounds.0;
    at_most = λ _. added_bounds.1;
    counted = refl;
  }

module _ (c : Bool) {x y : EncodedInstruction} where
  pub if-IsSized : IsSized x → IsSized y → IsSized (if c then x else y)
  if-IsSized p q = choose c
    where
      choose : (b : Bool) → IsSized (if b then x else y)
      choose true = p
      choose false = q

-- An encoding behind a check that refuses its operands.
pub checked-IsSized :
    (c : Bool) {x : EncodedInstruction} → IsSized x → IsSized (if c then make_error else x)
checked-IsSized c = if-IsSized c error-IsSized
