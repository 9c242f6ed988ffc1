-- ===== src/TimeKv/Examples.antt =====
-- A TimeKv that keeps a key through a sweep and drops another.
use rtio.Prelude.{ℕ, ◌≡◌, none, List, [], ◌∷◌}
use rtio.SyncMap.{load, nat_eq}
use rtio.TimeKv.{new_time_kv}
use rtio.TimeKv.Cells.{Op, set_op, del_op, sweep_op, run, cell_run, run-cell_run}

abbrev ops : List (Op ℕ)
ops = set_op 0 1 10 ∷ set_op 100 2 20 ∷ del_op 3 ∷ sweep_op 121 ∷ []

run-cell_run_example : load 2 (run ops (new_time_kv 120)).stored ≡ cell_run 120 2 ops none
run-cell_run_example = run-cell_run ops 120 2
