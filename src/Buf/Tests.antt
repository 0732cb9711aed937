-- ===== src/Buf/Tests.antt =====
-- Concrete runs of the buffer words, and their theorems at concrete inputs.
use zown.Prelude.{
  ◌≤◌, ℕ, ◌≡◌, refl, List, [], ◌∷◌, some, none, true, false, arith, text, zero, suc, get_elem?,
}
use zown.Prelude.Int.{pos}
use zown.Prelude.Outcome.{ok, err}
use zown.Buf.{
  Value, int, buf, res, Alloc, Vm, bf, bg, bp, drop, dup, swap, over, run, bounds, was_freed,
  outside, type_mismatch, got_borrow, b_bf, b_bg, b_bp, pop_buf_int, pop, last_buffer, op_dup,
  op_over, op_swap,
}
use zown.Buf.Safe.{owners, live, IsVm, Safe}
use zown.Buf.Alias.{vm, holds, bp-then-bg, drop-then-freed}

-- a buffer of three bytes with its owner, and a freed one with a borrow
abbrev heap : List Alloc
heap = holds (7 ∷ 8 ∷ 9 ∷ []) 3 ∷ record { data_ = none; n = 2 } ∷ []

abbrev owner : List Value
owner = buf 0 true ∷ buf 1 false ∷ []

abbrev sample : Vm
sample = vm owner heap

-- the same under a result that holds a borrow
abbrev with_result : Vm
with_result = vm (res true (buf 0 false) ∷ owner) heap

with_result-IsVm : IsVm true with_result
with_result-IsVm = record {
  allocs = ((omega arith, (omega arith, (omega arith, (omega arith, tt)))), (tt, tt));
  refs = (omega arith, (omega arith, (omega arith, tt)));
  owners_ok = λ s. record { plain = (refl, (tt, (tt, tt))); owned = owned };
}
  where
    owned : (r : ℕ) → owners r (res true (buf 0 false) ∷ owner) ≤ live (get_elem? heap r)
    owned zero = omega arith
    owned (suc zero) = omega arith
    owned (suc (suc r)) = ground arith

sample-IsVm : IsVm false sample
sample-IsVm = record {
  allocs = with_result-IsVm.allocs;
  refs = with_result-IsVm.refs.1;
  owners_ok = λ s. cc;
}

run_bf :
    run bf (vm (int (pos 2) ∷ []) []) ≡ (vm (buf 0 true ∷ []) (holds (0 ∷ 0 ∷ []) 2 ∷ []), ok tt)
unfolding b_bf pop_buf_int pop
run_bf = refl

run_past_end :
    run bg (vm (int (pos 3) ∷ owner) heap)
    ≡ (vm owner heap, err (record { code = bounds; msg = outside (pos 3) 2; word = text "bg" }))
unfolding b_bg pop_buf_int pop last_buffer
run_past_end = refl

run_borrow : run bp (vm (int (pos 1) ∷ int (pos 0) ∷ buf 0 false ∷ []) heap) ≡ (
  vm (buf 0 false ∷ []) heap,
  err (record { code = type_mismatch; msg = got_borrow; word = text "bp" }),
)
unfolding b_bp pop_buf_int pop last_buffer
run_borrow = refl

run_dup : run dup sample ≡ (vm (buf 0 false ∷ owner) heap, ok tt)
unfolding op_dup
run_dup = refl

run_over : run over sample ≡ (vm (buf 1 false ∷ owner) heap, ok tt)
unfolding op_over
run_over = refl

run-swap : run swap sample ≡ (vm (buf 1 false ∷ buf 0 true ∷ []) heap, ok tt)
unfolding op_swap pop
run-swap = refl

-- a copy of a result that holds an owner is a second owner
dup_result_test : owners 0 (run dup (vm (res true (buf 0 true) ∷ []) heap)).0.stack ≡ 2
unfolding op_dup
dup_result_test = refl

bp-then-bg_example :
    let after = run bp (vm (int (pos 65) ∷ int (pos 1) ∷ owner) heap) in
    (after ≡ (vm owner after.0.heap, ok tt))
    × (run bg (vm (int (pos 1) ∷ buf 0 false ∷ []) after.0.heap)
        ≡ (vm (int (pos 65) ∷ buf 0 false ∷ []) after.0.heap, ok tt))
    × (get_elem? after.0.heap 1 ≡ some (record { data_ = none; n = 2 }))
bp-then-bg_example =
    bp-then-bg (buf 1 false ∷ []) [] heap 0 1 false (7 ∷ 8 ∷ 9 ∷ []) 3 1 1 65 8 (omega arith) refl
      refl (omega arith) (omega arith) (omega arith) refl (omega arith)

drop-then-freed_example :
    let after = run drop sample in
    (after ≡ (vm (buf 1 false ∷ []) after.0.heap, ok tt))
    × (run bg (vm (int (pos 1) ∷ buf 0 false ∷ []) after.0.heap) ≡ (
      vm (buf 0 false ∷ []) after.0.heap,
      err (record { code = bounds; msg = was_freed; word = text "bg" }),
    ))
    × (run bp (vm (int (pos 5) ∷ int (pos 1) ∷ buf 0 true ∷ []) after.0.heap) ≡ (
      vm (buf 0 true ∷ []) after.0.heap,
      err (record { code = bounds; msg = was_freed; word = text "bp" }),
    ))
    × (get_elem? after.0.heap 1 ≡ some (record { data_ = none; n = 2 }))
drop-then-freed_example =
    drop-then-freed (buf 1 false ∷ []) [] heap 0 1 false (pos 1) 5 sample-IsVm (omega arith)
      (omega arith)
