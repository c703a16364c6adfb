-- ===== src/Passes/Middle.antt =====
-- A line in the middle of a program, in passes/pass1.c and passes/pass2.c: how the passes come to it and
-- go on behind it.
use nazm.Prelude.{
  ℕ, suc, ◌+◌, ◌*◌, ◌^◌, ◌<◌, ◌≡◌, refl, ap, inl, inr, List, [], ◌∷◌, ◌++◌, length, length-append,
  arith,
}
use nazm.Passes.Instruction.{Instruction, IsParsed, AllParsed}
use nazm.Passes.First.{Pass1State, pass1_step, pass1_loop, pass1_start, pass1_run}
use nazm.Passes.Output.{Pass2State, go, stop}
use nazm.Passes.Second.{pass2_step, pass2_loop}
use nazm.Passes.Lines.{state_of}
use nazm.Passes.Records.{Flow-cases}
use nazm.Passes.Layout.{HasRoom, Fits, Fits-trans}
use nazm.Passes.Layout.Quiet.{step-quiet, loop-quiet}
use nazm.Passes.Layout.Steps.{step-HasRoom, step-Fits, loop-Fits, loop-HasRoom}
use nazm.Passes.Agreement.{run-quiet, start-HasRoom}

pub pass1_loop-append :
    (before after : List Instruction) (st : Pass1State)
    → pass1_loop (before ++ after) st ≡ pass1_loop after (pass1_loop before st)
unfolding pass1_loop
pass1_loop-append [] after st = refl
pass1_loop-append (i ∷ is) after st = pass1_loop-append is after (pass1_step i st)

AllParsed-append :
    (before after : List Instruction)
    → AllParsed (before ++ after)
    → AllParsed before × AllParsed after
AllParsed-append [] after p = (tt, p)
AllParsed-append (i ∷ is) after (p, ps) = let (q, r) = AllParsed-append is after ps in ((p, q), r)

-- The state in which the first pass comes to the line behind `before`.
abbrev pub reached : List Instruction → Pass1State
reached before = pass1_loop before pass1_start

module _ (before : List Instruction) (i : Instruction) (after : List Instruction)
    (quiet : (pass1_run (before ++ (i ∷ after))).errors ≡ []) where
  pub middle-rest-quiet : (pass1_loop after (pass1_step i (reached before))).errors ≡ []
  unfolding pass1_loop
  middle-rest-quiet =
      rw (pass1_loop-append before (i ∷ after) pass1_start) at
        (run-quiet (before ++ (i ∷ after)) quiet)

  pub middle-step-quiet : (pass1_step i (reached before)).errors ≡ []
  middle-step-quiet = loop-quiet after (pass1_step i (reached before)) middle-rest-quiet

  pub middle-before-quiet : (reached before).errors ≡ []
  middle-before-quiet = step-quiet i (reached before) middle-step-quiet

  module _ (parsed : AllParsed (before ++ (i ∷ after)))
      (few : length (before ++ (i ∷ after)) < 2 ^ 32) where
    pub middle-IsParsed : IsParsed i
    middle-IsParsed = (AllParsed-append before (i ∷ after) parsed).1.0

    pub middle-before-AllParsed : AllParsed before
    middle-before-AllParsed = (AllParsed-append before (i ∷ after) parsed).0

    pub middle-HasRoom : HasRoom (suc (length after) * 2 ^ 31) (reached before).offsets
    middle-HasRoom =
        let counted = length-append before (i ∷ after) in
        loop-HasRoom before (suc (length after)) pass1_start middle-before-AllParsed
          (start-HasRoom (length before + suc (length after)) (omega arith)) middle-before-quiet

    pub middle-before-HasRoom : HasRoom (length before * 2 ^ 31) pass1_start.offsets
    middle-before-HasRoom =
        let counted = length-append before (i ∷ after) in
        start-HasRoom (length before) (omega arith)

    pub middle-Fits :
        Fits (pass1_step i (reached before)).offsets (pass1_run (before ++ (i ∷ after))).offsets
    unfolding pass1_run pass1_loop
    middle-Fits =
        let next = pass1_step i (reached before) in
        let room =
          step-HasRoom i middle-IsParsed (length after) (reached before) middle-HasRoom
            middle-step-quiet in
        rw (pass1_loop-append before (i ∷ after) pass1_start) (
          loop-Fits after next (AllParsed-append before (i ∷ after) parsed).1.1 room
            middle-rest-quiet)

    pub middle-before-Fits :
        Fits (reached before).offsets (pass1_run (before ++ (i ∷ after))).offsets
    middle-before-Fits =
        Fits-trans (reached before).offsets (pass1_step i (reached before)).offsets _
          (step-Fits i middle-IsParsed (length after) (reached before) middle-HasRoom
            middle-step-quiet)
          middle-Fits

pub pass2_loop-append :
    (pass1 : Pass1State) (before after : List Instruction) (st mid : Pass2State) (size : ℕ)
    → (pass2_loop pass1 before st).1 ≡ go size mid
    → (pass2_loop pass1 (before ++ after) st).1 ≡ (pass2_loop pass1 after mid).1
unfolding pass2_loop pass2_step
pass2_loop-append pass1 [] after st mid size h =
    ap (λ flow. (pass2_loop pass1 after (state_of flow)).1) h
pass2_loop-append pass1 (i ∷ is) after st mid size h = elim (Flow-cases (pass2_step pass1 i st)) [
  | inl (width, next, e) ↦
      rw (pass2_loop, e) (pass2_loop-append pass1 is after next mid size (rw (pass2_loop, e) at h))
  | inr (width, end, e) ↦
      let ends : stop width end ≡ go size mid = rw (pass2_loop, e) at h in absurd (ground arith)
]
