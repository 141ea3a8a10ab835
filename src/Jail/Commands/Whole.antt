-- ===== src/Jail/Commands/Whole.antt =====
-- The whole of a batch task in src/jail.cpp: commandRequest's child, and then commandGetResult.
use vpl_jail_system.Prelude.{
  ◌==◌, Bytes, ℕ, refl, sym, ap, subst, Bool, true, false, Option, none, some, [], ◌≡◌, ◌∙◌,
}
use vpl_jail_system.Prelude.Maps.{bytes_eq, nat_eq, Map, lookup, lookup_or-insert}
use vpl_jail_system.Task.{
  monitor, ExecutionLimits, Info, Dir, Monitor, Settings, Outcome, returned, thrown, Store,
  set_info, dir_of, put_dir, write_info, chain, update, set_runner, set_compiler, set_extra_info,
  is_some, home_of, file_exists, set_home,
}
use vpl_jail_system.Task.Results.{
  limit_result_size, Result, result_of, get_result, set_compilation_output, set_execution_output,
}
use vpl_jail_system.Task.Results.OneResult.{
  IsOpen, open-read_info, put, set_compilation_output-saves, set_execution_output-saves, put-IsOpen,
  MayAsk, get_result-gives, both_there,
}
use vpl_jail_system.Jail.Commands.{vpl_execution, Job, is_compiled, run_compiled, run_job}

with_config : Dir → Info → Dir
with_config dir info = record dir { config = some info }

-- A change of the config of an open task.
update-puts :
    (f : Info → Info) (s : Store) (dir : Dir) (o : IsOpen s dir)
    → update f s ≡ (put s (with_config dir (f o.info)) (f o.info), returned tt)
unfolding update chain write_info put set_info with_config
update-puts f s dir o = rw (open-read_info s dir o) (rw (write_info, o.there) refl)

-- A new home does not touch the directory.
set_home-IsOpen :
    (files : Map Bytes Bytes) (s : Store) (dir : Dir) → IsOpen s dir → IsOpen (set_home files s) dir
unfolding set_home dir_of
set_home-IsOpen files s dir o = record {
  info = o.info;
  there = o.there;
  config = o.config;
  not_cleaning = o.not_cleaning;
}

file_exists-put :
    (name : Bytes) (files : Map Bytes Bytes) (s : Store) (dir : Dir) (info : Info)
    → file_exists name (put (set_home files s) dir info) ≡ is_some (lookup name files)
unfolding file_exists home_of set_home put set_info put_dir
file_exists-put name files s dir info =
    ap (λ (h : Map Bytes Bytes). is_some (lookup name h))
      (lookup_or-insert [] s.me.prisoner files s.disk.homes)

-- A task at work: its outputs, its home, and an object whose level is not a monitor's.
record Work (uid : ℕ) (comp : Option Bytes) (exec : Option Bytes) (files : Map Bytes Bytes)
    (s : Store) : Type 0 where
  dir : Dir
  is_open : IsOpen s dir
  compilation : dir.compilation ≡ comp
  execution : dir.execution ≡ exec
  home : home_of s ≡ files
  prisoner : s.me.prisoner ≡ uid
  level : (s.me.security == monitor) ≡ false

-- A step that returns, and leaves what is said.
Returns : (Store → Type 0) → Store × Outcome Unit → Type 0
Returns P r = (r.1 ≡ returned tt) × P r.0

Returns-chain :
    (P Q : Store → Type 0) (r : Store × Outcome Unit) (k : Store → Store × Outcome Unit)
    → Returns P r
    → ((t : Store) → P t → Returns Q (k t))
    → Returns Q (chain r k)
unfolding chain Returns
Returns-chain P Q (s, thrown e) k h hk = absurd cc
Returns-chain P Q (s, returned x) k h hk = hk s h.1

module _ (uid : ℕ) (comp : Option Bytes) (exec : Option Bytes) (files : Map Bytes Bytes) where
  Work-put :
      (s : Store) (w : Work uid comp exec files s) (dir : Dir) (info : Info)
      → dir.config ≡ some info
      → info.cleaning ≡ false
      → Work uid dir.compilation dir.execution files (put s dir info)
  unfolding put set_info home_of put_dir
  Work-put s w dir info e n = record {
    dir = dir;
    is_open = put-IsOpen s dir info e n;
    compilation = refl;
    execution = refl;
    home = w.home;
    prisoner = w.prisoner;
    level = w.level;
  }

  Work-set_home :
      (new : Map Bytes Bytes) (s : Store)
      → Work uid comp exec files s
      → Work uid comp exec new (set_home new s)
  unfolding set_home home_of
  Work-set_home new s w = record {
    dir = w.dir;
    is_open = set_home-IsOpen new s w.dir w.is_open;
    compilation = w.compilation;
    execution = w.execution;
    home = lookup_or-insert [] s.me.prisoner new s.disk.homes;
    prisoner = w.prisoner;
    level = w.level;
  }

  Work-update :
      (f : Info → Info) (s : Store)
      → ((i : Info) → (f i).cleaning ≡ i.cleaning)
      → Work uid comp exec files s
      → Returns (Work uid comp exec files) (update f s)
  unfolding Returns with_config
  Work-update f s same w =
      let o = w.is_open in
      let e = update-puts f s w.dir o in
      let t = put s (with_config w.dir (f o.info)) (f o.info) in
      let at =
        Work-put s w (with_config w.dir (f o.info)) (f o.info) refl
          (same o.info ∙ o.not_cleaning) in
      rw e (
        refl,
        subst (λ (c : Option Bytes). Work uid c exec files t) w.compilation
            (subst (λ (x : Option Bytes). Work uid w.dir.compilation x files t) w.execution at),
      )

  Work-set_extra_info :
      (el : ExecutionLimits) (ri : Bool) (lang : Bytes) (s : Store)
      → Work uid comp exec files s
      → Returns (Work uid comp exec files) (set_extra_info el ri lang s)
  unfolding set_extra_info
  Work-set_extra_info el ri lang s w = Work-update _ s (λ i. refl) w

  Work-set_compiler :
      (now pid : ℕ) (s : Store)
      → Work uid comp exec files s
      → Returns (Work uid comp exec files) (set_compiler now pid s)
  unfolding set_compiler
  Work-set_compiler now pid s w = rw w.level (Work-update _ s (λ i. refl) w)

  Work-set_runner :
      (now pid : ℕ) (s : Store)
      → Work uid comp exec files s
      → Returns (Work uid comp exec files) (set_runner now pid s)
  unfolding set_runner
  Work-set_runner now pid s w = rw w.level (Work-update _ s (λ i. refl) w)

Work-set_compilation_output :
    (uid : ℕ) (exec : Option Bytes) (files : Map Bytes Bytes) (text : Bytes) (s : Store)
    → Work uid none exec files s
    → Returns (Work uid (some text) exec files) (set_compilation_output text s)
unfolding Returns
Work-set_compilation_output uid exec files text s w =
    let dir = record w.dir { compilation = some text } in
    let o = w.is_open in
    rw (set_compilation_output-saves s w.dir o text w.compilation) (
      refl,
      subst (λ (x : Option Bytes). Work uid (some text) x files (put s dir o.info)) w.execution
          (Work-put uid none exec files s w dir o.info o.config o.not_cleaning),
    )

Work-set_execution_output :
    (uid : ℕ) (compiled : Bytes) (files : Map Bytes Bytes) (text : Bytes) (s : Store)
    → Work uid (some compiled) none files s
    → Returns (Work uid (some compiled) (some text) files) (set_execution_output text true s)
unfolding Returns
Work-set_execution_output uid compiled files text s w =
    let dir = record w.dir { execution = some text } in
    let o = w.is_open in
    rw (set_execution_output-saves s w.dir o text compiled w.compilation w.execution) (
      refl,
      subst (λ (c : Option Bytes). Work uid c (some text) files (put s dir o.info)) w.compilation
          (Work-put uid (some compiled) none files s w dir o.info o.config o.not_cleaning),
    )

-- A batch job whose script leaves a program, which the deletion of the marked files keeps.
pub record IsBatch (j : Job) : Type 0 where
  pub batch : j.interactive ≡ false
  pub made : is_some (lookup vpl_execution j.files) ≡ true
  pub left : is_some (lookup vpl_execution j.kept) ≡ true

runs-Work :
    (uid : ℕ) (comp : Option Bytes) (exec : Option Bytes) (files : Map Bytes Bytes) (s : Store)
    → Work uid comp exec files s
    → file_exists vpl_execution s ≡ is_some (lookup vpl_execution files)
unfolding file_exists
runs-Work uid comp exec files s w =
    ap (λ (h : Map Bytes Bytes). is_some (lookup vpl_execution h)) w.home

Work-run_compiled :
    (j : Job) (uid : ℕ) (files : Map Bytes Bytes) (s : Store)
    → IsBatch j
    → Work uid (some j.compilation) none files s
    → Returns (Work uid (some j.compilation) (some j.execution) j.kept) (run_compiled j s)
unfolding run_compiled
Work-run_compiled j uid files s b w =
    let cleared = Work-set_home uid (some j.compilation) none files j.kept s w in
    Returns-chain (Work uid (some j.compilation) none j.kept) _ _ _
      (Work-set_extra_info uid (some j.compilation) none j.kept j.asked j.interactive j.lang _
        cleared)
      (λ t wt.
        rw (b.batch, runs-Work uid (some j.compilation) none j.kept t wt ∙ b.left)
          (Returns-chain (Work uid (some j.compilation) none j.kept) _ _ _
            (Work-set_runner uid (some j.compilation) none j.kept j.run_at j.pid t wt)
            (λ u wu. Work-set_execution_output uid j.compilation j.kept j.execution u wu)))

Work-run_job :
    (j : Job) (uid : ℕ) (files : Map Bytes Bytes) (s : Store)
    → IsBatch j
    → Work uid none none files s
    → Returns (Work uid (some j.compilation) (some j.execution) j.kept) (run_job j s)
unfolding run_job is_compiled
Work-run_job j uid files s b w =
    Returns-chain (Work uid none none files) _ _ _
      (Work-set_extra_info uid none none files j.configured j.interactive j.lang s w)
      (λ a wa.
        Returns-chain (Work uid none none files) _ _ _
          (Work-set_compiler uid none none files j.compiled_at j.pid a wa)
          (λ c wc.
            Returns-chain (Work uid (some j.compilation) none j.files) _ _ _
              (Work-set_compilation_output uid none j.files j.compilation _
                (Work-set_home uid none none files j.files c wc))
              (λ d wd.
                rw (runs-Work uid (some j.compilation) none j.files d wd ∙ b.made)
                  (Work-run_compiled j uid j.files d b wd))))

get_result-Work :
    (c : Settings) (uid : ℕ) (compilation execution : Bytes) (files : Map Bytes Bytes) (s : Store)
    (m : Monitor)
    → Work uid (some compilation) (some execution) files s
    → MayAsk m
    → m.prisoner ≡ uid
    → (get_result c (record { disk = s.disk; me = m })).1
      ≡ returned (record {
        compilation = limit_result_size c.request_max_size compilation;
        execution = limit_result_size c.request_max_size execution;
        executed = true;
      })
get_result-Work c uid compilation execution files s m w ask same =
    let there = ap (λ (k : ℕ). dir_of k s.disk) (same ∙ sym w.prisoner) ∙ w.is_open.there in
    let e = get_result-gives c s.disk m w.dir ask there in
    let n = c.request_max_size in
    ap (λ (r : Store × Outcome Result). r.1) e
    ∙ ap (λ (r : Result). returned r)
        (ap (λ (x : Option Bytes). result_of n x w.dir.execution) w.compilation
          ∙ ap (λ (x : Option Bytes). result_of n (some compilation) x) w.execution
          ∙ both_there n compilation execution)

-- A batch job on an open task without outputs, by an object that is no monitor's: when the script
-- leaves a program that the deletion of the marked files keeps, the child of commandRequest comes to
-- its end without an exception, and the admin ticket of the task then gets what the script and the
-- program have printed, cut to the maximal size.
pub get_result-run_job :
    (c : Settings) (j : Job) (s : Store) (dir : Dir) (m : Monitor)
    → IsOpen s dir
    → dir.compilation ≡ none
    → dir.execution ≡ none
    → (s.me.security == monitor) ≡ false
    → IsBatch j
    → MayAsk m
    → m.prisoner ≡ s.me.prisoner
    → let end = run_job j s in
      (end.1 ≡ returned tt)
      × ((get_result c (record { disk = end.0.disk; me = m })).1
          ≡ returned (record {
            compilation = limit_result_size c.request_max_size j.compilation;
            execution = limit_result_size c.request_max_size j.execution;
            executed = true;
          }))
unfolding Returns
get_result-run_job c j s dir m o nc ne level b ask same =
    let start : Work s.me.prisoner none none (home_of s) s = record {
      dir = dir;
      is_open = o;
      compilation = nc;
      execution = ne;
      home = refl;
      prisoner = refl;
      level = level;
    } in
    let r = Work-run_job j s.me.prisoner (home_of s) s b start in
    (r.0, get_result-Work c s.me.prisoner j.compilation j.execution j.kept _ m r.1 ask same)
