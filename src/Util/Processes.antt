-- ===== src/Util/Processes.antt =====
-- processExists and processExistsAndRunning of class Util in src/util.h.
use vpl_jail_system.Prelude.{
  ltb, ◌==◌, if◌then◌else◌, Bytes, length, get_or, ℕ, Bool, true, false, not, Option, none, some,
  [], arith, ◌+◌, ◌≡◌, ◌&&◌, ◌∷◌,
}

-- What the system says of processes: whether `kill(pid, 0)` succeeds, and the line of /proc/<pid>/stat.
pub record Processes : Type 0 where
  pub kill : ℕ → Bool
  pub stat : ℕ → Option Bytes

unfoldable pub process_exists : Processes → ℕ → Bool
process_exists p pid = ltb 0 pid && p.kill pid

-- `s.rfind(c)`, from the position of the first byte of `s`.
unfoldable pub rfind_from : ℕ → ℕ → Bytes → Option ℕ
rfind_from i c [] = none
rfind_from i c (x ∷ s) = elim (rfind_from (i + 1) c s) [
  | some j ↦ some j
  | none ↦ if x == c then some i else none
]

-- The letter of the state stands two bytes behind the last parenthesis; Z is a zombie.
unfoldable pub is_zombie : Bytes → Option Bool
is_zombie stat = elim (rfind_from 0 b')' stat) [
  | none ↦ none
  | some command_end ↦
      if ltb (command_end + 2) (length stat)
      then some (get_or stat (command_end + 2) 0 == b'Z')
      else none
]

unfoldable pub process_exists_and_running : Processes → ℕ → Bool
process_exists_and_running p pid = process_exists p pid && elim (p.stat pid) [
  | none ↦ false
  | some stat ↦ elim (is_zombie stat) [ none ↦ false | some z ↦ not z ]
]

-- A process that runs exists.
pub running→exists :
    (p : Processes) (pid : ℕ)
    → process_exists_and_running p pid ≡ true
    → process_exists p pid ≡ true
unfolding process_exists_and_running
running→exists p pid h = ground arith
