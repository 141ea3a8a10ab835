-- ===== src/Jail/Access/Admitted.antt =====
-- The addresses and the names of methods that src/jail.cpp takes: isValidIPforRequest and the names in process.
use vpl_jail_system.Prelude.{
  if◌then◌else◌, Bool-cases, Bytes, codes, length, take, drop, take-append-drop, str_eq, str_eq_iff,
  refl, sym, ap, inl, inr, true, Option, none, some, List, [], arith, ◌≡◌, ◌∙◌, ◌⊎◌, ◌∷◌, ◌++◌,
}
use vpl_jail_system.Jail.Access.{
  begins_with, any_prefix, is_valid_ip, Command, available_request, task_request,
  direct_run_request, get_result_request, running_request, stop_request, update_request,
  command_named,
}

-- The addresses that a list of texts lets in: all where it is empty, and otherwise those that start with one
-- of its texts.
unfoldable pub Admits : List Bytes → Bytes → Type 0
Admits entries ip =
    (entries ≡ [])
    ⊎ ((before : List Bytes) × (entry : Bytes) × (after : List Bytes) × (rest : Bytes) × (entries
          ≡ before ++ (entry ∷ after))
        × (ip ≡ entry ++ rest))

-- The methods of RPC by their names.
unfoldable pub method_of : Command → Bytes
method_of available_request = codes "available"
method_of task_request = codes "request"
method_of direct_run_request = codes "directrun"
method_of get_result_request = codes "getresult"
method_of running_request = codes "running"
method_of stop_request = codes "stop"
method_of update_request = codes "update"

begins_with-append : (p s : Bytes) → begins_with p s ≡ true → (rest : Bytes) × (s ≡ p ++ rest)
unfolding begins_with
begins_with-append p s h =
    let e = (str_eq_iff (take (length p) s) p).0 (ground arith) in
    (drop (length p) s, sym (take-append-drop (length p) s) ∙ ap (λ t. t ++ drop (length p) s) e)

any_prefix-Admits :
    (ps : List Bytes) (ip : Bytes)
    → any_prefix ps ip ≡ true
    → (before : List Bytes) × (entry : Bytes) × (after : List Bytes) × (rest : Bytes) × (ps
        ≡ before ++ (entry ∷ after))
      × (ip ≡ entry ++ rest)
unfolding any_prefix
any_prefix-Admits [] ip h = absurd cc
any_prefix-Admits (p ∷ ps) ip h = elim (Bool-cases (begins_with p ip)) [
  | inl b ↦ let (rest, e) = begins_with-append p ip b in ([], p, ps, rest, refl, e)
  | inr b ↦
      let (before, entry, after, rest, e, e') = any_prefix-Admits ps ip (ground arith) in
      (p ∷ before, entry, after, rest, ap (λ t. p ∷ t) e, e')
]

pub is_valid_ip-Admits : (ps : List Bytes) (ip : Bytes) → is_valid_ip ps ip ≡ true → Admits ps ip
unfolding is_valid_ip Admits
is_valid_ip-Admits [] ip h = inl refl
is_valid_ip-Admits (p ∷ ps) ip h = inr (any_prefix-Admits (p ∷ ps) ip h)

pub method_of-command_named :
    (name : Bytes) (c : Command) → command_named name ≡ some c → name ≡ method_of c
unfolding command_named method_of
method_of-command_named name c h =
    is_or name (codes "available") available_request _ c h refl (λ h1.
      is_or name (codes "request") task_request _ c h1 refl (λ h2.
        is_or name (codes "directrun") direct_run_request _ c h2 refl (λ h3.
          is_or name (codes "getresult") get_result_request _ c h3 refl (λ h4.
            is_or name (codes "running") running_request _ c h4 refl (λ h5.
              is_or name (codes "stop") stop_request _ c h5 refl (λ h6.
                is_or name (codes "update") update_request none c h6 refl (λ h7. absurd cc)))))))
  where
    is_or :
        (name text : Bytes) (d : Command) (other : Option Command) (c : Command)
        → (if str_eq name text then some d else other) ≡ some c
        → text ≡ method_of d
        → (other ≡ some c → name ≡ method_of c)
        → name ≡ method_of c
    is_or name text d other c h t more = elim (Bool-cases (str_eq name text)) [
      | inr e ↦ more (ground arith)
      | inl e ↦
          let same : d ≡ c = ground arith in (str_eq_iff name text).0 e ∙ t ∙ ap method_of same
    ]
