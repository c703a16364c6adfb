-- ===== src/Encoder/Emit/Adds.antt =====
-- What an emitting action appends to the instruction buffer, found from its structure.
use Prim.Native.Nat.{min, max}
use nazm.Prelude.{
  ℕ, ◌+◌, ◌≤◌, ◌≡◌, sym, Bool, true, false, List, [], ◌∷◌, ◌++◌, append_assoc, append-nil, length,
  length-append, if◌then◌else◌, arith,
}
use nazm.Encoder.Emit.{Buf, Emit, ◌>>◌, skip, emit, max_instruction_bytes}

-- In a buffer with room for `most` more bytes, `f` appends exactly `added`, so no byte is dropped.
pub record Adds (f : Emit) : Type 0 where
  pub added : List ℕ
  pub least : ℕ
  pub most : ℕ
  pub least_le : least ≤ length added
  pub le_most : length added ≤ most
  pub appends : (b : Buf) → length b + most ≤ max_instruction_bytes → f b ≡ b ++ added

pub emit_room : (x : ℕ) (b : Buf) → length b + 1 ≤ max_instruction_bytes → emit x b ≡ b ++ (x ∷ [])
unfolding emit
emit_room x b h = ground arith

pub skip_appends : (b : Buf) → length b + 0 ≤ max_instruction_bytes → skip b ≡ b ++ []
unfolding skip
skip_appends b h = sym (append-nil b)

abbrev pub emit-Adds : (x : ℕ) → Adds (emit x)
emit-Adds x = record {
  added = x ∷ [];
  least = 1;
  most = 1;
  least_le = omega arith;
  le_most = omega arith;
  appends = emit_room x;
}

abbrev pub skip-Adds : Adds skip
skip-Adds = record {
  added = [];
  least = 0;
  most = 0;
  least_le = omega arith;
  le_most = omega arith;
  appends = skip_appends;
}

module _ {f g : Emit} (p : Adds f) (q : Adds g) where
  pub seq_least : p.least + q.least ≤ length (p.added ++ q.added)
  seq_least = rw length-append (omega (arith, p.least_le, q.least_le))

  pub seq_most : length (p.added ++ q.added) ≤ p.most + q.most
  seq_most = rw length-append (omega (arith, p.le_most, q.le_most))

  pub seq_appends :
      (b : Buf)
      → length b + (p.most + q.most) ≤ max_instruction_bytes
      → (f >> g) b ≡ b ++ (p.added ++ q.added)
  unfolding ◌>>◌
  seq_appends b h = rw (p.appends b (omega arith)) (
      rw (q.appends (b ++ p.added) (rw length-append (omega (arith, p.le_most))))
        (append_assoc b p.added q.added))

  pub if_least : (c : Bool) → min p.least q.least ≤ length (if c then p.added else q.added)
  if_least true = omega (arith, p.least_le)
  if_least false = omega (arith, q.least_le)

  pub if_most : (c : Bool) → length (if c then p.added else q.added) ≤ max p.most q.most
  if_most true = omega (arith, p.le_most)
  if_most false = omega (arith, q.le_most)

  pub if_appends :
      (c : Bool) (b : Buf)
      → length b + max p.most q.most ≤ max_instruction_bytes
      → (if c then f else g) b ≡ b ++ (if c then p.added else q.added)
  if_appends true b h = p.appends b (omega arith)
  if_appends false b h = q.appends b (omega arith)

abbrev pub seq-Adds : (f g : Emit) → Adds f → Adds g → Adds (f >> g)
seq-Adds f g p q = record {
  added = p.added ++ q.added;
  least = p.least + q.least;
  most = p.most + q.most;
  least_le = seq_least p q;
  le_most = seq_most p q;
  appends = seq_appends p q;
}

abbrev pub if-Adds : (c : Bool) (f g : Emit) → Adds f → Adds g → Adds (if c then f else g)
if-Adds c f g p q = record {
  added = if c then p.added else q.added;
  least = min p.least q.least;
  most = max p.most q.most;
  least_le = if_least p q c;
  le_most = if_most p q c;
  appends = if_appends p q c;
}

-- The account of an action that is defined as another one.
abbrev pub via : {f g : Emit} → f ≡ g → Adds g → Adds f
via {f} {g} e p = record {
  added = p.added;
  least = p.least;
  most = p.most;
  least_le = p.least_le;
  le_most = p.le_most;
  appends = λ b h. rw e (p.appends b h);
}
