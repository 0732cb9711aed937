-- ===== src/Lanes/Jobs.antt =====
-- The jobs that wait at the workers.
use mathlib.Core.List.Perm
use mathlib.Core.List.{Perm, perm_middle}
use zown.Prelude.{
  ℕ, zero, suc, ◌+◌, ◌-◌, ◌%◌, ◌<◌, ◌≡◌, refl, ap, sym, ◌∙◌, List, [], ◌∷◌, ◌++◌, Option, none,
  some, length, length-append, append_assoc, get_elem?, arith, ◌>>=◌, Bool-cases, eq-or-ne, ◌^◌,
  ltb, inl, inr,
}
use native.Mathlib.Nat.{mod-eq_of_lt, add-mod_right, mod-lt}
use zown.Buf.{set_elem?}
use zown.Coll.Heap.{pop_last}
use zown.Prelude.Int.{ℤ, pos, negsuc, ◌-ℤ◌}
use zown.Lanes.{
  max, usize, workers_for, add_workers, merge_last, drop_workers, ensure_workers, pop_front,
  pop_back, put_back, pop_at, Workers, or_steal, steal, or_own, take_from, take_job,
}

-- the jobs that wait, of all workers
abbrev pub waiting : {J : Type 0} → List (List J) → List J
waiting [] = []
waiting (queue ∷ jobs) = queue ++ waiting jobs

module _ {J : Type 0} where
  add_workers_lem :
      (k : ℕ) (jobs : List (List J))
      → (waiting (add_workers k jobs) ≡ waiting jobs)
        × (length (add_workers k jobs) ≡ length jobs + k)
  add_workers_lem zero jobs = (refl, omega arith)
  add_workers_lem (suc k) jobs =
      let (same, size) = add_workers_lem k (jobs ++ [] ∷ []) in
      (same ∙ more jobs, omega (arith, size, length-append jobs ([] ∷ [])))
    where
      more : (jobs : List (List J)) → waiting (jobs ++ [] ∷ []) ≡ waiting jobs
      more [] = refl
      more (q ∷ jobs) = ap (λ t. q ++ t) (more jobs)

  merge_last_lem :
      (jobs : List (List J))
      → 1 < length jobs
      → (kept : List (List J)) × (merge_last jobs ≡ some kept)
        × (waiting kept ≡ waiting jobs)
        × (length kept + 1 ≡ length jobs)
  merge_last_lem [] h = absurd (omega arith)
  merge_last_lem (x ∷ []) h = absurd (omega arith)
  merge_last_lem (x ∷ y ∷ []) h = ((x ++ y) ∷ [], refl, append_assoc x y [], refl)
  merge_last_lem (x ∷ y ∷ z ∷ rest) h =
      let (kept, e, same, size) = merge_last_lem (y ∷ z ∷ rest) (omega arith) in
      (x ∷ kept, rw e refl, ap (λ t. x ++ t) same, omega (arith, size))

  drop_workers_lem :
      (k : ℕ) (jobs : List (List J))
      → k < length jobs
      → (kept : List (List J)) × (drop_workers k jobs ≡ some kept)
        × (waiting kept ≡ waiting jobs)
        × (length kept + k ≡ length jobs)
  drop_workers_lem zero jobs h = (jobs, refl, refl, omega arith)
  drop_workers_lem (suc k) jobs h =
      let (once, e, same, size) = merge_last_lem jobs (omega (arith, h)) in
      let (kept, e', same', size') = drop_workers_lem k once (omega (arith, h, size)) in
      (kept, rw e e', same' ∙ same, omega (arith, size, size'))

  pub ensure_workers_lem :
      (n : ℕ) (jobs : List (List J))
      → 0 < n
      → (kept : List (List J)) × (ensure_workers n jobs ≡ some kept)
        × (waiting kept ≡ waiting jobs)
        × (length kept ≡ n)
  ensure_workers_lem n jobs h =
      let (same, size) = add_workers_lem (n - length jobs) jobs in
      let (kept, e, same', size') =
        drop_workers_lem (length (add_workers (n - length jobs) jobs) - n)
          (add_workers (n - length jobs) jobs) (omega (arith, h, size)) in
      (kept, e, same' ∙ same, omega (arith, size, size'))

  -- what `pop_front` and `pop_back` do
  abbrev Pops : List J → Option (J × List J) → Type 0
  Pops queue none = queue ≡ []
  Pops queue (some (job, rest)) = Perm queue (job ∷ rest)

  pop_front-Pops : (queue : List J) → Pops queue (pop_front queue)
  pop_front-Pops [] = refl
  pop_front-Pops (x ∷ xs) = Perm.rfl

  pop_last_lem : (x : J) (xs : List J) → Perm (x ∷ xs) ((pop_last x xs).1 ∷ (pop_last x xs).0)
  pop_last_lem x [] = Perm.rfl
  pop_last_lem x (y ∷ ys) =
      Perm.trans (Perm.cons x (pop_last_lem y ys)) (Perm.swap (pop_last y ys).1 x (pop_last y ys).0)

  pop_back-Pops : (queue : List J) → Pops queue (pop_back queue)
  pop_back-Pops [] = refl
  pop_back-Pops (x ∷ xs) = pop_last_lem x xs

  -- a queue with a job less
  set_queue_lem :
      (jobs : List (List J)) (i : ℕ) (queue rest : List J) (job : J)
      → get_elem? jobs i ≡ some queue
      → Perm queue (job ∷ rest)
      → (left : List (List J)) × (set_elem? jobs i rest ≡ some left)
        × Perm (waiting jobs) (job ∷ waiting left)
  unfolding set_elem?
  set_queue_lem [] i queue rest job e p = absurd (cc)
  set_queue_lem (q ∷ jobs) zero queue rest job e p =
      let same : q ≡ queue = cc in
      let here : Perm q (job ∷ rest) = rw same p in
      (rest ∷ jobs, refl, Perm.append_right (waiting jobs) here)
  set_queue_lem (q ∷ jobs) (suc i) queue rest job e p =
      let (left, set, perm) = set_queue_lem jobs i queue rest job e p in
      (q ∷ left, rw set refl, Perm.trans (Perm.append_left q perm) (perm_middle q (waiting left)))

  -- a worker in range has no job, or gives one
  data Popped (jobs : List (List J)) (i : ℕ) : Option (Option J × List (List J)) → Type 0 where
    idle : get_elem? jobs i ≡ some [] → Popped jobs i (some (none, jobs))
    gave :
        {job : J} {left : List (List J)}
        → Perm (waiting jobs) (job ∷ waiting left)
        → Popped jobs i (some (some job, left))

  pop_at-Popped :
      (take : List J → Option (J × List J)) (jobs : List (List J)) (i : ℕ)
      → ((queue : List J) → Pops queue (take queue))
      → i < length jobs
      → Popped jobs i (pop_at take jobs i)
  pop_at-Popped take jobs i pops h =
      let (queue, e) = get jobs i h in rw e (found queue (take queue) e (pops queue))
    where
      get :
          (jobs : List (List J)) (i : ℕ)
          → i < length jobs
          → (queue : List J) × (get_elem? jobs i ≡ some queue)
      get [] i h = absurd (omega arith)
      get (q ∷ jobs) zero h = (q, refl)
      get (q ∷ jobs) (suc i) h = get jobs i (omega arith)

      found :
          (queue : List J) (o : Option (J × List J))
          → get_elem? jobs i ≡ some queue
          → Pops queue o
          → Popped jobs i (put_back jobs i o)
      found queue none e p = idle (e ∙ ap some p)
      found queue (some (job, rest)) e p =
          let (left, set, perm) = set_queue_lem jobs i queue rest job e p in rw set (gave perm)

  -- no worker in range has a job
  none_waiting :
      (jobs : List (List J))
      → ((i : ℕ) → i < length jobs → get_elem? jobs i ≡ some [])
      → waiting jobs ≡ []
  none_waiting [] h = refl
  none_waiting (q ∷ jobs) h =
      let none_here : q ≡ [] = some_inj (h 0 (omega arith)) in
      rw none_here (none_waiting jobs (λ i l. h (suc i) (omega arith)))
    where
      some_inj : {x y : List J} → some x ≡ some y → x ≡ y
      some_inj e = cc

-- A job that waited is taken; or no job waited.
pub data Took {J : Type 0} (before : List (List J)) : Option (Option J × Workers J) → Type 0 where
  job :
      {j : J} {s : Workers J}
      → Perm (waiting before) (j ∷ waiting s.jobs)
      → Took before (some (some j, s))
  nothing :
      {s : Workers J} → waiting before ≡ [] → waiting s.jobs ≡ [] → Took before (some (none, s))

mod-lt_suc : (a m : ℕ) → a % suc m < suc m
mod-lt_suc a m = mod-lt a (omega arith)

-- the workers are seen in turn
turn : (idx i n : ℕ) → idx < n → i < n → (d : ℕ) × (d < n) × ((idx + d) % n ≡ i)
turn idx i n h l = elim (Bool-cases (ltb i idx)) [
  | inr f ↦
      let sum : idx + (i - idx) ≡ i = ground arith in
      (i - idx, ground arith, rw sum (mod-eq_of_lt l))
  | inl t ↦
      let sum : idx + (i + n - idx) ≡ i + n = ground arith in
      (i + n - idx, ground arith, rw sum (add-mod_right i n ∙ mod-eq_of_lt l))
]

module _ {J : Type 0} where
  or_steal-Took :
      (s : Workers J) (next : Option (Option J × Workers J)) (i : ℕ)
      (o : Option (Option J × List (List J)))
      → Popped s.jobs i o
      → (get_elem? s.jobs i ≡ some [] → Took s.jobs next)
      → Took s.jobs (o >>= or_steal s next)
  or_steal-Took s next i _ (idle e) t = t e
  or_steal-Took s next i _ (gave perm) t = job perm

  or_own-Took :
      (s : Workers J) (next : Option (Option J × Workers J)) (i : ℕ)
      (o : Option (Option J × List (List J)))
      → Popped s.jobs i o
      → (get_elem? s.jobs i ≡ some [] → Took s.jobs next)
      → Took s.jobs (o >>= or_own s next)
  or_own-Took s next i _ (idle e) t = t e
  or_own-Took s next i _ (gave perm) t = job perm

  steal-Took :
      (s : Workers J) (m idx step k : ℕ)
      → length s.jobs ≡ suc m
      → step + k ≡ suc m
      → ((d : ℕ) → d < step → get_elem? s.jobs ((idx + d) % suc m) ≡ some [])
      → idx < suc m
      → Took s.jobs (steal s (suc m) idx step k)
  steal-Took s m idx step zero size e h l =
      let empty = none_waiting s.jobs (λ i inside.
        let (d, below, at) = turn idx i (suc m) l (omega (arith, size, inside)) in
        rw at at (h d (omega (arith, e, below)))) in
      nothing empty empty
  steal-Took s m idx step (suc k) size e h l =
      or_steal-Took s (steal s (suc m) idx (suc step) k) ((idx + step) % suc m)
        (pop_at pop_back s.jobs ((idx + step) % suc m))
        (pop_at-Popped pop_back s.jobs ((idx + step) % suc m) pop_back-Pops
          (omega (arith, size, mod-lt_suc (idx + step) m)))
        (λ idle_here.
          steal-Took s m idx (suc step) k size (omega (arith, e))
            (λ d below. elim (eq-or-ne d step) [
              | inl same ↦ rw same idle_here
              | inr n ↦ h d (ground (arith, n, below))
            ])
            l)

  take_from-Took :
      (s : Workers J) (m : ℕ) → length s.jobs ≡ suc m → Took s.jobs (take_from s (suc m))
  take_from-Took s m size =
      let idx = s.rr % suc m in
      let s' = record s { rr = (s.rr + 1) % 2 ^ 64 } in
      let l = mod-lt_suc s.rr m in
      or_own-Took s' (steal s' (suc m) idx 1 m) idx (pop_at pop_front s.jobs idx)
        (pop_at-Popped pop_front s.jobs idx pop_front-Pops (omega (arith, size, l)))
        (λ idle_here.
          steal-Took s' m idx 1 m size (omega arith)
            (λ d below.
              let first : d ≡ 0 = omega (arith, below) in
              let self : (idx + 0) % suc m ≡ idx =
                mod-eq_of_lt {n = idx + 0} {m = suc m} (omega (arith, l)) ∙ omega arith in
              rw (first, self) idle_here)
            l)

  Took-same :
      (before kept : List (List J)) (r : Option (Option J × Workers J))
      → waiting kept ≡ waiting before
      → Took kept r
      → Took before r
  Took-same before kept _ e (job {j} {s} perm) = job {j = j} {s = s} (rw (sym e) perm)
  Took-same before kept _ e (nothing none_before none_left) =
      nothing (sym e ∙ none_before) none_left

  take_job-Took : (n : ℕ) (s : Workers J) → 0 < n → Took s.jobs (take_job n s)
  unfolding take_job
  take_job-Took zero s h = absurd (omega arith)
  take_job-Took (suc m) s h =
      let (kept, e, same, size) = ensure_workers_lem (suc m) s.jobs h in
      rw (e, size) (Took-same s.jobs kept _ same (take_from-Took (record s { jobs = kept }) m size))

one_at_least : (x : ℤ) → 0 < usize (max x (pos 1))
one_at_least (pos zero) = omega arith
one_at_least (pos (suc k)) = ground arith
one_at_least (negsuc k) = ground arith

-- With the workers that the processors and the grant leave, `take_job` ends with no panic. It gives
-- a job that waited, and the others go on waiting, each once; it gives none only if no job waited.
pub take_job-workers_for :
    {J : Type 0} (cpus granted : ℤ) (s : Workers J)
    → Took s.jobs (take_job (workers_for cpus granted) s)
take_job-workers_for cpus granted s =
    take_job-Took (workers_for cpus granted) s (one_at_least (cpus -ℤ granted))
