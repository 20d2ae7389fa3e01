-- ===== src/Examples/Buffers.antt =====
-- Cursors over concrete bytes.
use rpkt.Base.{ℕ, List, [], ◌∷◌, arith}
use rpkt.Cursors
use rpkt.Cursors.{raw_parts}
use rpkt.Cursors.Old
use rpkt.Cursors.Old.Agrees.{Op, advance, move_back, trim_off, run, run_old, Both, run_agrees}

abbrev six_bytes : List ℕ
six_bytes = 1 ∷ 2 ∷ 3 ∷ 4 ∷ 5 ∷ 6 ∷ []

abbrev script : List Op
script = advance 3 ∷ move_back 1 ∷ trim_off 2 ∷ move_back 2 ∷ []

run_agrees_example :
    Both
      (run script (Cursors.new six_bytes 1 5))
      (run_old script (Old.new (raw_parts six_bytes 1 5)))
run_agrees_example = run_agrees six_bytes 1 5 (omega arith) (omega arith) script
