-- ===== src/Task/Results/Cutting.antt =====
-- limitResultSize of src/processMonitor.cpp.
use vpl_jail_system.Prelude.{
  le→leb, leb-false, Bytes, length, take, drop, length-append, length-take, length-drop, ℕ, refl,
  arith, ◌+◌, ◌-◌, ◌*◌, ◌/◌, ◌≤◌, ◌<◌, ◌≡◌, ◌++◌,
}
use vpl_jail_system.Task.Results.{cut_notice, limit_result_size}

length-cut :
    (men r : Bytes) (h : ℕ)
    → h ≤ length r
    → length (men ++ take h r ++ men ++ drop (length r - h) r) ≡ 2 * length men + 2 * h
length-cut men r h le = omega (
  arith,
  length-append ((men ++ take h r) ++ men) (drop (length r - h) r),
  length-append (men ++ take h r) men,
  length-append men (take h r),
  length-take h r,
  length-drop (length r - h) r,
)

-- A text of less than the maximal size is left as it is; any other becomes one of two notices and an
-- even number of its bytes, which is not more than the maximal size and at most one less.
pub length-limit_result_size :
    (max_size : ℕ) (r : Bytes)
    → (length r < max_size → limit_result_size max_size r ≡ r)
      × (max_size ≤ length r
          → length (limit_result_size max_size r)
            ≡ 2 * length (cut_notice max_size (length r)) + 2 * (max_size / 2))
unfolding limit_result_size
length-limit_result_size max_size r = (
  λ lt. rw (leb-false max_size (length r) lt) refl,
  λ le.
      rw (le→leb max_size (length r) le)
        (length-cut (cut_notice max_size (length r)) r (max_size / 2) (omega arith)),
)
