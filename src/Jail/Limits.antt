-- ===== src/Jail/Limits.antt =====
-- The limits of a task: getParseExecutionLimits of src/jail.cpp, with fixMemSize of src/util.h and the
-- reads of TreeNode in src/requestmessage.h.
use vpl_jail_system.Prelude.{
  ltb, leb, ◌==◌, if◌then◌else◌, ℕ, zero, suc, min, refl, inl, inr, Bool, true, false, Option, none,
  some, arith, ◌-◌, ◌%◌, ◌^◌, ◌≡◌, ◌⊎◌, ◌&&◌,
}

-- A number with a sign, within 64 bits.
pub data Signed : Type 0 where
  nonneg : ℕ → Signed
  minus : ℕ → Signed

-- `minus n` stands for -n, so that there are two zeros.
unfoldable pub le : Signed → Signed → Bool
le (nonneg a) (nonneg b) = leb a b
le (nonneg a) (minus b) = a == 0 && b == 0
le (minus a) (nonneg b) = true
le (minus a) (minus b) = leb b a

-- std::min, which takes the first of two equal ones.
unfoldable pub min_signed : Signed → Signed → Signed
min_signed a b = if le a b then a else b

abbrev pub int_max : ℕ
int_max = 2 ^ 31 - 1

abbrev pub long_max : ℕ
long_max = 2 ^ 63 - 1

-- The cast to int keeps 32 bits.
unfoldable pub to_int : ℕ → Signed
to_int n = let r = n % 2 ^ 32 in if ltb r (2 ^ 31) then nonneg r else minus (2 ^ 32 - r)

-- What a node holds: a number as atoll reads it, of an XML node of the type int or of a node of JSON; the
-- integer part of a double, which is no NaN; or another type.
pub data Number : Type 0 where
  integer real : Signed → Number
  no_number : Number

unfoldable pub int_of : Signed → Signed
int_of (nonneg n) = if ltb int_max n then nonneg int_max else nonneg n
int_of (minus n) = to_int (2 ^ 64 - n % 2 ^ 64)

-- A double above INT_MAX is INT_MAX for both; one below the type has no value of the type, and what is made
-- of it is an argument.
unfoldable pub of_real : ℕ → (ℕ → Signed) → Signed → Signed
of_real lowest outside (nonneg n) = nonneg (min n int_max)
of_real lowest outside (minus n) = if ltb lowest n then outside n else minus n

-- TreeNode::getInt and TreeNodeJSON::getInt; `none` is the exception.
unfoldable pub get_int : (ℕ → Signed) → Number → Option Signed
get_int outside (integer n) = some (int_of n)
get_int outside (real n) = some (of_real (2 ^ 31) outside n)
get_int outside no_number = none

unfoldable pub get_long : (ℕ → Signed) → Number → Option Signed
get_long outside (integer n) = some n
get_long outside (real n) = some (of_real (2 ^ 63) outside n)
get_long outside no_number = none

-- fixMemSize.
unfoldable pub fix_mem_size : Signed → Signed
fix_mem_size n = if le n (nonneg 0) then nonneg long_max else n

pub record Limits : Type 0 where
  pub maxtime : Signed
  pub maxfilesize : Signed
  pub maxmemory : Signed
  pub maxprocesses : Signed

-- What a request says of the four limits.
pub record Request : Type 0 where
  pub maxtime : Option Number
  pub maxfilesize : Option Number
  pub maxmemory : Option Number
  pub maxprocesses : Option Number

abbrev pub fixed : (ℕ → Signed) → Number → Option Signed
fixed outside n = elim (get_long outside n) [ none ↦ none | some k ↦ some (fix_mem_size k) ]

unfoldable pub limited : (Number → Option Signed) → Option Number → Signed → Option Signed
limited read none configured = some configured
limited read (some n) configured = elim (read n) [
  | none ↦ none
  | some k ↦ some (min_signed k configured)
]

-- getParseExecutionLimits.
unfoldable pub get_parse_execution_limits : (ℕ → Signed) → Request → Limits → Option Limits
unfolding limited
get_parse_execution_limits outside r configured =
    elim (limited (get_int outside) r.maxtime configured.maxtime) [
      | none ↦ none
      | some t ↦ elim (limited (fixed outside) r.maxfilesize configured.maxfilesize) [
        | none ↦ none
        | some f ↦ elim (limited (fixed outside) r.maxmemory configured.maxmemory) [
          | none ↦ none
          | some m ↦ elim (limited (get_int outside) r.maxprocesses configured.maxprocesses) [
            | none ↦ none
            | some p ↦
                some (record { maxtime = t; maxfilesize = f; maxmemory = m; maxprocesses = p })
          ]
        ]
      ]
    ]

le-min_signed : (a b : Signed) → le (min_signed a b) b ≡ true
unfolding min_signed le
le-min_signed (nonneg a) (nonneg b) = ground arith
le-min_signed (nonneg a) (minus b) = ground arith
le-min_signed (minus a) (nonneg b) = ground arith
le-min_signed (minus a) (minus b) = ground arith

le_refl : (a : Signed) → le a a ≡ true
unfolding le
le_refl (nonneg a) = ground arith
le_refl (minus a) = ground arith

-- Each limit is at most the other's.
pub record IsWithin (l configured : Limits) : Type 0 where
  pub maxtime : le l.maxtime configured.maxtime ≡ true
  pub maxfilesize : le l.maxfilesize configured.maxfilesize ≡ true
  pub maxmemory : le l.maxmemory configured.maxmemory ≡ true
  pub maxprocesses : le l.maxprocesses configured.maxprocesses ≡ true

unfoldable pub is_positive : Signed → Bool
is_positive (nonneg n) = ltb 0 n
is_positive (minus n) = false

is_positive-min_signed :
    (a b : Signed) → is_positive a ≡ true → is_positive (min_signed a b) ≡ is_positive b
unfolding is_positive min_signed le
is_positive-min_signed (nonneg a) (nonneg b) h = ground arith
is_positive-min_signed (nonneg a) (minus b) h = ground arith
is_positive-min_signed (minus a) b h = absurd cc

is_positive-fix_mem_size : (n : Signed) → is_positive (fix_mem_size n) ≡ true
unfolding fix_mem_size is_positive le
is_positive-fix_mem_size (nonneg zero) = refl
is_positive-fix_mem_size (nonneg (suc n)) = ground arith
is_positive-fix_mem_size (minus n) = refl

-- A limit that a request says, and a configured one.
Limited : Option Number → Signed → Option Signed → Type 0
Limited n c none = n ≡ some no_number
Limited n c (some l) = le l c ≡ true

Limited-get_int :
    (outside : ℕ → Signed) (n : Option Number) (c : Signed)
    → Limited n c (limited (get_int outside) n c)
unfolding limited get_int Limited
Limited-get_int outside none c = le_refl c
Limited-get_int outside (some (integer n)) c = le-min_signed (int_of n) c
Limited-get_int outside (some (real n)) c = le-min_signed (of_real (2 ^ 31) outside n) c
Limited-get_int outside (some no_number) c = refl

-- And whether it is positive.
LimitedSize : Option Number → Signed → Option Signed → Type 0
LimitedSize n c none = n ≡ some no_number
LimitedSize n c (some l) = (le l c ≡ true) × (is_positive l ≡ is_positive c)

LimitedSize-min_signed :
    (n : Option Number) (k c : Signed) → LimitedSize n c (some (min_signed (fix_mem_size k) c))
unfolding LimitedSize
LimitedSize-min_signed n k c = (
  le-min_signed (fix_mem_size k) c,
  is_positive-min_signed (fix_mem_size k) c (is_positive-fix_mem_size k),
)

LimitedSize-fixed :
    (outside : ℕ → Signed) (n : Option Number) (c : Signed)
    → LimitedSize n c (limited (fixed outside) n c)
unfolding limited get_long LimitedSize
LimitedSize-fixed outside none c = (le_refl c, refl)
LimitedSize-fixed outside (some (integer n)) c = LimitedSize-min_signed (some (integer n)) n c
LimitedSize-fixed outside (some (real n)) c =
    LimitedSize-min_signed (some (real n)) (of_real (2 ^ 63) outside n) c
LimitedSize-fixed outside (some no_number) c = refl

-- The limits that a task is given, or an exception, which is due to a member that is no number.
unfoldable pub AreLimits : Request → Limits → Option Limits → Type 0
AreLimits r c none =
    (r.maxtime ≡ some no_number)
    ⊎ (r.maxfilesize ≡ some no_number)
    ⊎ (r.maxmemory ≡ some no_number)
    ⊎ (r.maxprocesses ≡ some no_number)
AreLimits r c (some l) =
    IsWithin l c
    × (is_positive l.maxfilesize ≡ is_positive c.maxfilesize)
    × (is_positive l.maxmemory ≡ is_positive c.maxmemory)

-- Whatever a request says, getParseExecutionLimits gives limits of which none is above the configured one,
-- and sizes of files and memory that are positive exactly where the configured ones are; it throws only
-- where one of the four members is no number.
pub get_parse_execution_limits-AreLimits :
    (outside : ℕ → Signed) (r : Request) (configured : Limits)
    → AreLimits r configured (get_parse_execution_limits outside r configured)
unfolding AreLimits get_parse_execution_limits Limited LimitedSize
get_parse_execution_limits-AreLimits outside r c =
    by_results _ _ _ _ (Limited-get_int outside r.maxtime c.maxtime)
      (LimitedSize-fixed outside r.maxfilesize c.maxfilesize)
      (LimitedSize-fixed outside r.maxmemory c.maxmemory)
      (Limited-get_int outside r.maxprocesses c.maxprocesses)
  where
    all_of : Option Signed → Option Signed → Option Signed → Option Signed → Option Limits
    all_of ot of om op = elim ot [
      | none ↦ none
      | some t ↦ elim of [
        | none ↦ none
        | some f ↦ elim om [
          | none ↦ none
          | some m ↦ elim op [
            | none ↦ none
            | some p ↦
                some (record { maxtime = t; maxfilesize = f; maxmemory = m; maxprocesses = p })
          ]
        ]
      ]
    ]

    by_results :
        (ot of om op : Option Signed)
        → Limited r.maxtime c.maxtime ot
        → LimitedSize r.maxfilesize c.maxfilesize of
        → LimitedSize r.maxmemory c.maxmemory om
        → Limited r.maxprocesses c.maxprocesses op
        → AreLimits r c (all_of ot of om op)
    by_results none of om op t f m p = inl t
    by_results (some a) none om op t f m p = inr (inl f)
    by_results (some a) (some b) none op t f m p = inr (inr (inl m))
    by_results (some a) (some b) (some d) none t f m p = inr (inr (inr p))
    by_results (some a) (some b) (some d) (some e) t f m p =
        (record { maxtime = t; maxfilesize = f.0; maxmemory = m.0; maxprocesses = p }, f.1, m.1)
