-- ===== src/Picking/Numbers.antt =====
-- The numbers of picking instructions.
use wms_secret_backend.Prelude.{
  ℕ, ◌+◌, ◌<◌, max, ◌≡◌, refl, Bool, true, List, [], ◌∷◌, arith, ◌==◌, if◌then◌else◌, All,
}
use wms_secret_backend.Picking.{PickingInstruction}
use wms_secret_backend.Picking.Instruct.{seq_or_zero, max_seq, generate_instruction_no}

-- An instruction of the day has a smaller number than `n`.
abbrev pub Below : ℕ → ℕ → PickingInstruction → Type 0
Below day n i = (i.instruction_no.day == day) ≡ true → seq_or_zero i.instruction_no.seq < n

max_step : (d : Bool) (a m n : ℕ) → (if d then max a m else m) < n → (d ≡ true → a < n) × (m < n)
max_step d a m n h = ground arith

Below-of : (day n : ℕ) (is : List PickingInstruction) → max_seq day is < n → All (Below day n) is
unfolding max_seq
Below-of day n [] h = tt
Below-of day n (i ∷ is) h =
    let s =
      max_step (i.instruction_no.day == day) (seq_or_zero i.instruction_no.seq) (max_seq day is) n
        h in
    (s.0, Below-of day n is s.1)

-- A new number is of its day and greater than each number of that day that can be read, so it is not
-- in use, also where numbers of removed instructions are missing between the others.
generate_instruction_no-Below :
    (day : ℕ) (is : List PickingInstruction)
    → ((generate_instruction_no day is).day ≡ day)
      × All (Below day (seq_or_zero (generate_instruction_no day is).seq)) is
unfolding generate_instruction_no
generate_instruction_no-Below day is = (refl, Below-of day (max_seq day is + 1) is (omega arith))
