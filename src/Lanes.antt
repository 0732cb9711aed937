-- ===== src/Lanes.antt =====
-- zownc/crates/zown-vm/src/lanes.rs: the workers that lanes leave free, and their queues of jobs.
pub mod Jobs
mod Tests
use zown.Prelude.{
  ℕ, zero, suc, ◌+◌, ◌-◌, ◌%◌, ◌^◌, Bool, true, false, List, [], ◌∷◌, ◌++◌, Option, none, some,
  length, get_elem?, ltb, ◌==◌, if◌then◌else◌, ◌>>=◌,
}
use zown.Prelude.Int.{ℤ, pos, negsuc, ◌-ℤ◌}
use zown.Buf.{set_elem?}
use zown.Coll.Heap.{compare_i64, below, pop_last}

abbrev pub min : ℤ → ℤ → ℤ
min a b = if below (compare_i64 b a) then b else a

abbrev pub max : ℤ → ℤ → ℤ
max a b = if below (compare_i64 a b) then b else a

abbrev pub room_for : ℤ → ℤ
room_for cpus = max (cpus -ℤ pos 1) (pos 1)

abbrev pub grant_for : ℤ → Option ℤ → ℤ
grant_for cpus none = min (pos 2) (room_for cpus)
grant_for cpus (some (negsuc n)) = pos 0
grant_for cpus (some (pos n)) = min (pos n) (room_for cpus)

-- `as usize` of a number that is not negative
abbrev pub usize : ℤ → ℕ
usize (pos n) = n
usize (negsuc n) = 2 ^ 64 - suc n

abbrev pub workers_for : ℤ → ℤ → ℕ
workers_for cpus granted = usize (max (cpus -ℤ granted) (pos 1))

module _ {J : Type 0} where
  -- the first loop of `ensure_workers`, with the number of its rounds
  abbrev pub add_workers : ℕ → List (List J) → List (List J)
  add_workers zero jobs = jobs
  add_workers (suc k) jobs = add_workers k (jobs ++ [] ∷ [])

  -- a round of the second loop: the jobs of the last worker go to the one before; `none` is an
  -- `unwrap` that panics
  abbrev pub merge_last : List (List J) → Option (List (List J))
  merge_last [] = none
  merge_last (x ∷ []) = none
  merge_last (x ∷ extra ∷ []) = some ((x ++ extra) ∷ [])
  merge_last (x ∷ y ∷ z ∷ rest) = merge_last (y ∷ z ∷ rest) >>= λ jobs. some (x ∷ jobs)

  abbrev pub drop_workers : ℕ → List (List J) → Option (List (List J))
  drop_workers zero jobs = some jobs
  drop_workers (suc k) jobs = merge_last jobs >>= drop_workers k

  -- `ensure_workers`, for `n` workers
  abbrev pub ensure_workers : ℕ → List (List J) → Option (List (List J))
  ensure_workers n jobs =
      let grown = add_workers (n - length jobs) jobs in drop_workers (length grown - n) grown

  -- `VecDeque::pop_front` and `pop_back`: the job and what is left
  abbrev pub pop_front : List J → Option (J × List J)
  pop_front [] = none
  pop_front (x ∷ xs) = some (x, xs)

  abbrev pub pop_back : List J → Option (J × List J)
  pop_back [] = none
  pop_back (x ∷ xs) = let (rest, last) = pop_last x xs in some (last, rest)

  -- a job of `jobs[i]`, if it has one; the outer `none` is an index out of range
  abbrev pub put_back : List (List J) → ℕ → Option (J × List J) → Option (Option J × List (List J))
  put_back jobs i none = some (none, jobs)
  put_back jobs i (some (job, rest)) = set_elem? jobs i rest >>= λ jobs. some (some job, jobs)

  abbrev pub pop_at :
      (List J → Option (J × List J)) → List (List J) → ℕ → Option (Option J × List (List J))
  pop_at take jobs i = get_elem? jobs i >>= λ queue. put_back jobs i (take queue)

-- the part of `LaneState` that jobs are in
pub record Workers (J : Type 0) : Type 0 where
  pub jobs : List (List J)
  pub steals : ℕ
  pub rr : ℕ

module _ {J : Type 0} where
  abbrev pub stolen : Workers J → List (List J) → Workers J
  stolen s jobs = record s { jobs = jobs; steals = s.steals + 1 }

  abbrev pub or_steal :
      Workers J
      → Option (Option J × Workers J)
      → Option J × List (List J)
      → Option (Option J × Workers J)
  or_steal s next (some job, jobs) = some (some job, stolen s jobs)
  or_steal s next (none, jobs) = next

  -- the `for` loop of `take_job`, of `k` rounds from `step` on
  abbrev pub steal : Workers J → ℕ → ℕ → ℕ → ℕ → Option (Option J × Workers J)
  steal s n idx step zero = some (none, s)
  steal s n idx step (suc k) =
      let next = steal s n idx (suc step) k in
      modulo (idx + step) n >>= λ j. pop_at pop_back s.jobs j >>= or_steal s next
    where
      modulo : ℕ → ℕ → Option ℕ
      modulo a zero = none
      modulo a (suc n) = some (a % suc n)

  abbrev pub or_own :
      Workers J
      → Option (Option J × Workers J)
      → Option J × List (List J)
      → Option (Option J × Workers J)
  or_own s next (some job, jobs) = some (some job, record s { jobs = jobs })
  or_own s next (none, jobs) = next

  -- `take_job` once the workers are there
  abbrev pub take_from : Workers J → ℕ → Option (Option J × Workers J)
  take_from s zero = some (none, s)
  take_from s (suc m) =
      let idx = s.rr % suc m in
      let s' = record s { rr = (s.rr + 1) % 2 ^ 64 } in
      let next = steal s' (suc m) idx 1 m in pop_at pop_front s.jobs idx >>= or_own s' next

  -- `take_job`; `n` is what `workers_for` gives
  unfoldable pub take_job : ℕ → Workers J → Option (Option J × Workers J)
  take_job n s = do
    jobs ← ensure_workers n s.jobs
    take_from (record s { jobs = jobs }) (length jobs)

  -- `op_spawn`, of a block
  unfoldable pub spawn : ℕ → J → Workers J → Option (Workers J)
  spawn n body s = do
    jobs ← ensure_workers n s.jobs
    queue ← get_elem? jobs 0
    jobs ← set_elem? jobs 0 (queue ++ body ∷ [])
    some (record s { jobs = jobs })
