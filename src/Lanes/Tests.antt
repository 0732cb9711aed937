-- ===== src/Lanes/Tests.antt =====
-- Concrete runs of the workers.
use zown.Prelude.{ℕ, ◌≡◌, refl, [], ◌∷◌, some}
use zown.Prelude.Int.{pos, ◌-ℤ◌}
use zown.Buf.{set_elem?}
use zown.Lanes.{grant_for, workers_for, Workers, take_job}
use zown.Lanes.Jobs.{Took, take_job-workers_for}

grant_for_test : grant_for (pos 8) (some (pos 99)) ≡ pos 7
unfolding ◌-ℤ◌
grant_for_test = refl

workers_for_test : workers_for (pos 8) (pos 2) ≡ 6
unfolding ◌-ℤ◌
workers_for_test = refl

-- two jobs at the first worker, and the turn of the second
abbrev busy : Workers ℕ
busy = record { jobs = (7 ∷ 8 ∷ []) ∷ []; steals = 0; rr = 1 }

steal_test :
    take_job 2 busy ≡ some (some 8, record { jobs = (7 ∷ []) ∷ [] ∷ []; steals = 1; rr = 2 })
unfolding take_job set_elem?
steal_test = refl

take_job-workers_for_example : Took busy.jobs (take_job (workers_for (pos 4) (pos 2)) busy)
take_job-workers_for_example = take_job-workers_for (pos 4) (pos 2) busy
