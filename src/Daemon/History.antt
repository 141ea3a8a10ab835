-- ===== src/Daemon/History.antt =====
-- What isBanned, countRequest and cleanOld of src/vpl-jail-server.h promise together: an address is
-- banned by its own requests since the logs were last cleared.
use vpl_jail_system.Prelude.{
  ltb, ◌==◌, if◌then◌else◌, Bool-cases, Bytes, length, str_eq, str_eq_iff, ℕ, refl, sym, ap, inl,
  inr, Bool, true, false, not, Option, none, some, List, [], arith, ◌+◌, ◌*◌, ◌/◌, ◌≡◌, ◌∙◌, ◌&&◌,
  ◌∷◌,
}
use vpl_jail_system.Prelude.Maps.{bytes_eq, nat_eq, lookup, insert, lookup_or, lookup-insert}
use vpl_jail_system.Daemon.{
  success, neutral, Log, new_log, Daemon, clean_old, exceeds, is_banned, logged, count_request,
}

-- A request that ended, with its status, or a clearing of old logs at a time.
pub data Event : Type 0 where
  request : Bytes → ℕ → Event
  clean : ℕ → Event

unfoldable pub happen : Event → Daemon → Daemon
happen (request ip es) d = count_request ip es d
happen (clean now) d = clean_old now d

unfoldable pub after : List Event → Daemon → Daemon
after [] d = d
after (e ∷ es) d = after es (happen e d)

-- The specification: the statuses of the requests of one address, and when they are next forgotten.
pub record Recent : Type 0 where
  pub statuses : List ℕ
  pub forget_at : ℕ

unfoldable pub forget : ℕ → Recent → Recent
forget now r = if ltb now r.forget_at then r else record { statuses = []; forget_at = now + 300 }

unfoldable pub remember : Bytes → Event → Recent → Recent
remember ip (request from es) r =
    if str_eq from ip && not (es == neutral)
    then record { statuses = es ∷ r.statuses; forget_at = r.forget_at }
    else r
remember ip (clean now) r = forget now r

unfoldable pub recent : Bytes → List Event → Recent → Recent
recent ip [] r = r
recent ip (e ∷ es) r = recent ip es (remember ip e r)

unfoldable pub failures : List ℕ → ℕ
failures [] = 0
failures (es ∷ s) = let n = failures s in if es == success then n else n + 1

-- More than 20 failures for each unit of fail2ban, and more than half of the requests.
unfoldable pub misbehaves : ℕ → List ℕ → Bool
misbehaves fail2ban s =
    not (fail2ban == 0) && (ltb (20 * fail2ban) (failures s) && ltb (length s / 2) (failures s))

and-false : (b : Bool) → (b && false) ≡ false
and-false b = ground arith

and-true : (b : Bool) → (b && true) ≡ b
and-true b = ground arith

log_of : List ℕ → Option Log
log_of [] = none
log_of (es ∷ s) = some (record { requests = length (es ∷ s); errors = failures (es ∷ s) })

record Shows (ip : Bytes) (fail2ban : ℕ) (d : Daemon) (r : Recent) : Type 0 where
  limit : d.fail2ban ≡ fail2ban
  log : lookup ip d.logs ≡ log_of r.statuses
  clear : d.next_clear ≡ r.forget_at

Shows-clean_old :
    (ip : Bytes) (k now : ℕ) (d : Daemon) (r : Recent)
    → Shows ip k d r
    → Shows ip k (clean_old now d) (forget now r)
unfolding clean_old forget lookup log_of
Shows-clean_old ip k now d r h =
    let same : ltb now d.next_clear ≡ ltb now r.forget_at = ap (ltb now) h.clear in
    elim (Bool-cases (ltb now d.next_clear)) [
      | inl e ↦ rw (e, sym same ∙ e) h
      | inr e ↦ rw (e, sym same ∙ e) (record { limit = h.limit; log = refl; clear = refl })
    ]

-- One more status of the address makes the log of the longer list.
logged-log_of :
    (es : ℕ) (s : List ℕ) (o : Option Log)
    → o ≡ log_of s
    → logged es (elim o [ none ↦ new_log | some l ↦ l ])
      ≡ record { requests = length (es ∷ s); errors = failures (es ∷ s) }
unfolding logged log_of failures
logged-log_of es [] o h = rw h refl
logged-log_of es (x ∷ s) o h = rw h (ground arith)

Shows-count_request :
    (ip from : Bytes) (k es : ℕ) (d : Daemon) (r : Recent)
    → Shows ip k d r
    → Shows ip k (count_request from es d) (remember ip (request from es) r)
unfolding count_request remember lookup_or log_of
Shows-count_request ip from k es d r h = elim (Bool-cases (es == neutral)) [
  | inl n ↦ rw (n, and-false (str_eq from ip)) h
  | inr n ↦ rw (n, and-true (str_eq from ip)) (counted (str_eq from ip) refl)
]
  where
    new : Log
    new = logged es (lookup_or new_log from d.logs)

    counted :
        (b : Bool)
        → str_eq from ip ≡ b
        → Shows ip k
            (record d {
              errors = if es == success then d.errors else d.errors + 1;
              logs = insert from new d.logs;
            })
            (if b then record { statuses = es ∷ r.statuses; forget_at = r.forget_at } else r)
    counted true e = record {
      limit = h.limit;
      log =
          lookup-insert from ip new d.logs
          ∙ (rw e (
              ap some (
                logged-log_of es r.statuses (lookup from d.logs)
                  (ap (λ t. lookup t d.logs) ((str_eq_iff from ip).0 e) ∙ h.log))));
      clear = h.clear;
    }
    counted false e = record {
      limit = h.limit;
      log = lookup-insert from ip new d.logs ∙ rw e h.log;
      clear = h.clear;
    }

Shows-after :
    (ip : Bytes) (k : ℕ) (es : List Event) (d : Daemon) (r : Recent)
    → Shows ip k d r
    → Shows ip k (after es d) (recent ip es r)
unfolding after recent happen remember
Shows-after ip k [] d r h = h
Shows-after ip k (request from st ∷ es) d r h =
    Shows-after ip k es _ _ (Shows-count_request ip from k st d r h)
Shows-after ip k (clean now ∷ es) d r h = Shows-after ip k es _ _ (Shows-clean_old ip k now d r h)

-- The decision on a log is the decision on the statuses that it counts.
exceeds-log_of :
    (k j : ℕ) (s : List ℕ) (o : Option Log)
    → o ≡ log_of s
    → j ≡ k
    → elim o [ none ↦ false | some log ↦ not (j == 0) && exceeds j log ] ≡ misbehaves k s
unfolding log_of exceeds misbehaves failures
exceeds-log_of k j [] o h e = rw h (ground arith)
exceeds-log_of k j (es ∷ s) o h e = rw (h, e) refl

is_banned-Shows :
    (ip : Bytes) (k now : ℕ) (d : Daemon) (r : Recent)
    → Shows ip k d r
    → (is_banned now ip d).1 ≡ misbehaves k (forget now r).statuses
unfolding is_banned
is_banned-Shows ip k now d r h =
    let h' = Shows-clean_old ip k now d r h in
    exceeds-log_of k _ (forget now r).statuses _ h'.log h'.limit

-- For a daemon without logs, and after any requests of any addresses and any clearings of old logs,
-- isBanned answers for an address what the specification says of the statuses of the requests of
-- that address since the last time that logs were cleared (at most once in 300 seconds): fail2ban is on,
-- more than 20 of them for each unit of fail2ban failed, and more than half of them. The
-- requests of the other addresses have no part in it.
pub is_banned-recent :
    (ip : Bytes) (now : ℕ) (es : List Event) (d : Daemon)
    → d.logs ≡ []
    → let r = recent ip es (record { statuses = []; forget_at = d.next_clear }) in
      (is_banned now ip (after es d)).1 ≡ misbehaves d.fail2ban (forget now r).statuses
unfolding lookup log_of
is_banned-recent ip now es d h =
    let start : Recent = record { statuses = []; forget_at = d.next_clear } in
    is_banned-Shows ip d.fail2ban now (after es d) (recent ip es start) (
      Shows-after ip d.fail2ban es d start (record { limit = refl; log = rw h refl; clear = refl }))
