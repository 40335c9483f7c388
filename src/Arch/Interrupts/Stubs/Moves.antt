-- ===== src/Arch/Interrupts/Stubs/Moves.antt =====
-- Runs of pushes and of pops.
use griffin.Common.{
  ℕ, zero, suc, ◌+◌, ◌*◌, ◌^◌, ◌≤◌, ◌<◌, ◌≡◌, refl, ap, ◌∙◌, List, [], ◌∷◌, ◌++◌, arith, dec_lt,
}
use griffin.Arch.Interrupts.Stubs.{Frame, Instruction, up, down, execute, run}

-- `push` of the registers `k - 1`, ..., 0.
abbrev pub pushes : ℕ → List Instruction
pushes zero = []
pushes (suc k) = Instruction.push k ∷ pushes k

-- `pop` of `n` registers from `j` on.
abbrev pub pops : ℕ → ℕ → List Instruction
pops j zero = []
pops j (suc n) = Instruction.pop j ∷ pops (j + 1) n

pub run-++ : (is js : List Instruction) (s : Frame) → run (is ++ js) s ≡ run js (run is s)
unfolding run
run-++ [] js s = refl
run-++ (i ∷ is) js s = run-++ is js (execute i s)

-- Registers below `k` stand on the stack, the first lowest; what lay above is as it was.
pub record IsSaved (k : ℕ) (s s' : Frame) : Type 0 where
  pub regs : s'.regs ≡ s.regs
  pub moved : s'.rsp + 8 * k ≡ s.rsp
  pub saved : (i : ℕ) → i < k → s'.stack (s'.rsp + 8 * i) ≡ s.regs i
  pub above : (a : ℕ) → s.rsp ≤ a → s'.stack a ≡ s.stack a

pub run-pushes :
    (k : ℕ) (s : Frame) → 8 * k ≤ s.rsp → s.rsp < 2 ^ 64 → IsSaved k s (run (pushes k) s)
unfolding run execute
run-pushes zero s room small = record {
  regs = refl;
  moved = omega arith;
  saved = λ i h. absurd (omega arith);
  above = λ a h. refl;
}
run-pushes (suc k) s room small =
    let lower : down s.rsp + 8 ≡ s.rsp = omega arith in
    let rest = run-pushes k (execute (Instruction.push k) s) (omega arith) (omega arith) in
    record {
      regs = rest.regs;
      moved = omega (arith, rest.moved);
      saved = λ i h. elim (dec_lt i k) [
        | yes below ↦ rest.saved i below
        | no last ↦
            let same : i ≡ k = omega arith in
            let here : (run (pushes k) (execute (Instruction.push k) s)).rsp + 8 * i ≡ down s.rsp =
              omega (arith, rest.moved) in
            rw here (rest.above (down s.rsp) (omega arith) ∙ ground arith)
      ];
      above = λ a h. rest.above a (omega arith) ∙ ground arith;
    }

-- Registers `j`, ..., `j + n - 1` are read from the stack; lower ones and the stack are as they were.
pub record IsLoaded (n j : ℕ) (s s' : Frame) : Type 0 where
  pub stack : s'.stack ≡ s.stack
  pub moved : s'.rsp ≡ s.rsp + 8 * n
  pub loaded : (i : ℕ) → i < n → s'.regs (j + i) ≡ s.stack (s.rsp + 8 * i)
  pub below : (r : ℕ) → r < j → s'.regs r ≡ s.regs r

pub run-pops : (n j : ℕ) (s : Frame) → s.rsp + 8 * n < 2 ^ 64 → IsLoaded n j s (run (pops j n) s)
unfolding run execute
run-pops zero j s small = record {
  stack = refl;
  moved = omega arith;
  loaded = λ i h. absurd (omega arith);
  below = λ r h. refl;
}
run-pops (suc n) j s small =
    let upper : up 8 s.rsp ≡ s.rsp + 8 = omega arith in
    let rest = run-pops n (j + 1) (execute (Instruction.pop j) s) (omega arith) in
    record {
      stack = rest.stack;
      moved = omega (arith, rest.moved);
      loaded = loads upper rest;
      below = λ r h. rest.below r (omega arith) ∙ ground arith;
    }
  where
    loads :
        up 8 s.rsp ≡ s.rsp + 8
        → IsLoaded n
            (j + 1)
            (execute (Instruction.pop j) s)
            (run (pops (j + 1) n) (execute (Instruction.pop j) s))
        → (i : ℕ) → i < suc n
        → (run (pops (j + 1) n) (execute (Instruction.pop j) s)).regs (j + i)
          ≡ s.stack (s.rsp + 8 * i)
    loads upper rest zero h =
        let e : j + 0 ≡ j = omega arith in
        let d : s.rsp + 8 * 0 ≡ s.rsp = omega arith in
        rw (e, d) (rest.below j (omega arith) ∙ ground arith)
    loads upper rest (suc i) h =
        let e : j + suc i ≡ j + 1 + i = omega arith in
        let d : up 8 s.rsp + 8 * i ≡ s.rsp + 8 * suc i = omega arith in
        rw e (rest.loaded i (omega arith) ∙ ap s.stack d)
