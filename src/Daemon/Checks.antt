-- ===== src/Daemon/Checks.antt =====
-- checkJail and checkControlDir of class Daemon of src/vpl-jail-server.h.
use mathlib.Core.Option.{some-injective}
use vpl_jail_system.Prelude.Bits.{bit_and_step}
use vpl_jail_system.Prelude.{
  ◌==◌, if◌then◌else◌, Option-cases, Bytes, codes, All, str_eq, ℕ, bit_and, refl, sym, subst, inl,
  inr, Bool, not, Option, none, some, List, [], arith, ◌/◌, ◌%◌, ◌≡◌, ◌∙◌, ◌≢◌, ◌&&◌, ◌∷◌, ◌++◌,
}

-- The fields of struct stat that the checks read.
pub record Stat : Type 0 where
  pub st_uid : ℕ
  pub st_gid : ℕ
  pub st_mode : ℕ

-- `none` where lstat fails. The error is left out, the cases are told apart by what is thrown.
pub data Refusal : Type 0 where
  not_checkable not_owned_by_root insecure_permissions : Bytes → Refusal

abbrev pub owned_by_root : Stat → Bool
owned_by_root info = info.st_uid == 0 && info.st_gid == 0

-- lstat, the owner and the mode of one path, which is named by the refusal.
unfoldable pub check_path : (Bytes → Option Stat) → ℕ → Bytes → Option Refusal
check_path lstat mask path = elim (lstat path) [
  | none ↦ some (not_checkable path)
  | some info ↦
      if not (owned_by_root info)
      then some (not_owned_by_root path)
      else if not (bit_and info.st_mode mask == 0)
      then some (insecure_permissions path)
      else none
]

-- etc/shadow may be missing.
unfoldable pub check_if_there : (Bytes → Option Stat) → ℕ → Bytes → Option Refusal
check_if_there lstat mask path = elim (lstat path) [
  | none ↦ none
  | some info ↦ check_path lstat mask path
]

abbrev pub or_else : Option Refusal → Option Refusal → Option Refusal
or_else none r = r
or_else (some x) r = some x

-- `none` where nothing is thrown.
unfoldable pub check_jail : (Bytes → Option Stat) → Bytes → Option Refusal
check_jail lstat jail_path =
    if str_eq jail_path []
    then none
    else or_else (check_path lstat 0o022 (jail_path ++ codes "/etc")) (
        or_else (check_path lstat 0o033 (jail_path ++ codes "/etc/passwd")) (
          or_else (check_path lstat 0o033 (jail_path ++ codes "/etc/group"))
            (check_if_there lstat 0o077 (jail_path ++ codes "/etc/shadow"))))

unfoldable pub check_control_dir : (Bytes → Option Stat) → Bytes → Option Refusal
check_control_dir lstat control_path = check_path lstat 0o022 control_path

-- Neither the group nor others may write.
pub record IsSecure (info : Stat) : Type 0 where
  pub of_root : (info.st_uid ≡ 0) × (info.st_gid ≡ 0)
  pub group_write : info.st_mode / 16 % 2 ≡ 0
  pub others_write : info.st_mode / 2 % 2 ≡ 0

mask_022 : (m : ℕ) → bit_and m 0o022 ≡ 0 → (m / 16 % 2 ≡ 0) × (m / 2 % 2 ≡ 0)
mask_022 m h = omega (
  arith,
  bit_and_step m 18,
  bit_and_step (m / 2) 9,
  bit_and_step (m / 2 / 2) 4,
  bit_and_step (m / 2 / 2 / 2) 2,
  bit_and_step (m / 2 / 2 / 2 / 2) 1,
)

mask_033 : (m : ℕ) → bit_and m 0o033 ≡ 0 → (m / 16 % 2 ≡ 0) × (m / 2 % 2 ≡ 0)
mask_033 m h = omega (
  arith,
  bit_and_step m 27,
  bit_and_step (m / 2) 13,
  bit_and_step (m / 2 / 2) 6,
  bit_and_step (m / 2 / 2 / 2) 3,
  bit_and_step (m / 2 / 2 / 2 / 2) 1,
)

mask_077 : (m : ℕ) → bit_and m 0o077 ≡ 0 → (m / 16 % 2 ≡ 0) × (m / 2 % 2 ≡ 0)
mask_077 m h = omega (
  arith,
  bit_and_step m 63,
  bit_and_step (m / 2) 31,
  bit_and_step (m / 2 / 2) 15,
  bit_and_step (m / 2 / 2 / 2) 7,
  bit_and_step (m / 2 / 2 / 2 / 2) 3,
)

IsSecure-check_path :
    (lstat : Bytes → Option Stat) (mask : ℕ) (path : Bytes)
    → ((m : ℕ) → bit_and m mask ≡ 0 → (m / 16 % 2 ≡ 0) × (m / 2 % 2 ≡ 0))
    → check_path lstat mask path ≡ none
    → (info : Stat) × (lstat path ≡ some info) × IsSecure info
unfolding check_path
IsSecure-check_path lstat mask path bits h = elim (Option-cases (lstat path)) [
  | inl e ↦ absurd (ground arith)
  | inr (info, e) ↦
      let clear : bit_and info.st_mode mask ≡ 0 = ground arith in
      (
        info,
        e,
        record {
          of_root = ground arith;
          group_write = (bits info.st_mode clear).0;
          others_write = (bits info.st_mode clear).1;
        },
      )
]

or_else-none : (a b : Option Refusal) → or_else a b ≡ none → (a ≡ none) × (b ≡ none)
or_else-none a b h = ground arith

if_there :
    (lstat : Bytes → Option Stat) (mask : ℕ) (path : Bytes) (info : Stat)
    → lstat path ≡ some info
    → check_if_there lstat mask path ≡ none
    → check_path lstat mask path ≡ none
unfolding check_if_there
if_there lstat mask path info e h = ground arith

-- The paths that must be there.
pub needed : List Bytes
needed = codes "/etc" ∷ codes "/etc/passwd" ∷ codes "/etc/group" ∷ []

pub IsSecureFile : (Bytes → Option Stat) → Bytes → Type 0
IsSecureFile lstat path = (info : Stat) × (lstat path ≡ some info) × IsSecure info

-- When checkJail lets a jail pass that is not the root of a container, its /etc, passwd and group
-- files exist, and they and a shadow file that exists belong to root and neither their group nor
-- others may write them.
pub IsSecure-check_jail :
    (lstat : Bytes → Option Stat) (jail_path : Bytes)
    → jail_path ≢ []
    → check_jail lstat jail_path ≡ none
    → All (λ f. IsSecureFile lstat (jail_path ++ f)) needed
      × ((info : Stat) → lstat (jail_path ++ codes "/etc/shadow") ≡ some info → IsSecure info)
unfolding check_jail check_if_there needed IsSecureFile
IsSecure-check_jail lstat [] ne h = absurd (ne refl)
IsSecure-check_jail lstat (c ∷ s) ne h =
    let (etc, r) = or_else-none _ _ h in
    let (passwd, r2) = or_else-none _ _ r in
    let (group, shadow) = or_else-none _ _ r2 in
    (
      (
        IsSecure-check_path lstat 0o022 _ mask_022 etc,
        (
          IsSecure-check_path lstat 0o033 _ mask_033 passwd,
          (IsSecure-check_path lstat 0o033 _ mask_033 group, tt),
        ),
      ),
      λ info e.
          let (i, at, secure) =
            IsSecure-check_path lstat 0o077 _ mask_077 (if_there lstat 0o077 _ info e shadow) in
          subst IsSecure (some-injective _ _ (sym at ∙ e)) secure,
    )
