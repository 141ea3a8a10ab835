-- ===== src/Task/Results/OneResult.antt =====
-- The result of one task: what setCompilationOutput and setExecutionOutput of src/processMonitor.cpp
-- save, getResult gives once.
use vpl_jail_system.Prelude.{
  ==_iff, Bytes, ℕ, refl, ap, true, false, none, some, [], arith, ◌≡◌, ◌∙◌,
}
use vpl_jail_system.Prelude.Maps.{bytes_eq, nat_eq}
use vpl_jail_system.Task.{
  admin, Info, Dir, Disk, Monitor, Settings, compilation_already_saved, Outcome, returned, thrown,
  Store, set_info, dir_of, put_dir, config_of, read_info, chain,
}
use vpl_jail_system.Task.Isolation.{dir_of-put_dir}
use vpl_jail_system.Task.Results.{
  limit_result_size, Result, no_result, result_of, get_result, save_compilation,
  set_compilation_output, save_execution, set_execution_output,
}

-- The directory of the object's task is there, and the task is not being cleaned.
pub record IsOpen (s : Store) (dir : Dir) : Type 0 where
  pub info : Info
  pub there : dir_of s.me.prisoner s.disk ≡ some dir
  pub config : dir.config ≡ some info
  pub not_cleaning : info.cleaning ≡ false

pub open-read_info :
    (s : Store) (dir : Dir) (o : IsOpen s dir) → read_info s ≡ (set_info o.info s, returned tt)
unfolding read_info config_of
open-read_info s dir o = rw (read_info, config_of, o.there) (rw o.config (rw o.not_cleaning refl))

-- The directory that the step leaves to the task.
unfoldable pub put : (s : Store) (dir : Dir) (info : Info) → Store
put s dir info = set_info info (record s { disk = put_dir s.me.prisoner dir s.disk })

-- A compilation is saved where there is none.
pub set_compilation_output-saves :
    (s : Store) (dir : Dir) (o : IsOpen s dir) (text : Bytes)
    → dir.compilation ≡ none
    → set_compilation_output text s
      ≡ (put s (record dir { compilation = some text }) o.info, returned tt)
unfolding set_compilation_output chain save_compilation put set_info
set_compilation_output-saves s dir o text e =
    rw (open-read_info s dir o) (rw (save_compilation, o.there, e) refl)

-- It is not overwritten.
set_compilation_output-keeps :
    (s : Store) (dir : Dir) (o : IsOpen s dir) (text old : Bytes)
    → dir.compilation ≡ some old
    → set_compilation_output text s ≡ (set_info o.info s, thrown compilation_already_saved)
unfolding set_compilation_output chain save_compilation set_info
set_compilation_output-keeps s dir o text old e =
    rw (open-read_info s dir o) (rw (save_compilation, o.there, e) refl)

pub set_execution_output-saves :
    (s : Store) (dir : Dir) (o : IsOpen s dir) (text compiled : Bytes)
    → dir.compilation ≡ some compiled
    → dir.execution ≡ none
    → set_execution_output text true s
      ≡ (put s (record dir { execution = some text }) o.info, returned tt)
unfolding set_execution_output chain save_execution put set_info
set_execution_output-saves s dir o text compiled e f =
    rw (open-read_info s dir o) (rw (save_execution, o.there) (rw (e, f) refl))

pub put-there :
    (s : Store) (dir : Dir) (info : Info) → dir_of s.me.prisoner (put s dir info).disk ≡ some dir
unfolding put set_info
put-there s dir info =
    dir_of-put_dir s.me.prisoner s.me.prisoner dir s.disk
    ∙ rw ((==_iff s.me.prisoner s.me.prisoner).1 refl) refl

pub put-IsOpen :
    (s : Store) (dir : Dir) (info : Info)
    → dir.config ≡ some info
    → info.cleaning ≡ false
    → IsOpen (put s dir info) dir
unfolding put set_info
put-IsOpen s dir info e n = record {
  info = info;
  there = put-there s dir info;
  config = e;
  not_cleaning = n;
}

-- The object may ask for the result.
pub record MayAsk (m : Monitor) : Type 0 where
  pub admin_ticket : m.security ≡ admin
  pub batch : m.info.interactive ≡ false

pub get_result-gives :
    (c : Settings) (d : Disk) (m : Monitor) (dir : Dir)
    → MayAsk m
    → dir_of m.prisoner d ≡ some dir
    → get_result c (record { disk = d; me = m }) ≡ (
      record {
        disk = put_dir m.prisoner (record dir { compilation = none; execution = none }) d;
        me = m;
      },
      returned (result_of c.request_max_size dir.compilation dir.execution),
    )
unfolding get_result
get_result-gives c d m dir ask there = ground (arith, ask.admin_ticket, ask.batch)

pub both_there :
    (n : ℕ) (compilation execution : Bytes)
    → result_of n (some compilation) (some execution) ≡ record {
      compilation = limit_result_size n compilation;
      execution = limit_result_size n execution;
      executed = true;
    }
unfolding result_of
both_there n compilation execution = ground arith

-- The result of a task that compiled and ran: once its compilation and its execution are saved, the
-- admin ticket of that task gets both, cut to the maximal size, and whoever asks next gets neither.
pub get_result-batch :
    (c : Settings) (s : Store) (dir : Dir) (compilation execution : Bytes) (m : Monitor)
    → IsOpen s dir
    → dir.compilation ≡ none
    → dir.execution ≡ none
    → MayAsk m
    → m.prisoner ≡ s.me.prisoner
    → let compiled = set_compilation_output compilation s in
      let executed = set_execution_output execution true compiled.0 in
      let first = get_result c (record { disk = executed.0.disk; me = m }) in
      (first.1
        ≡ returned (record {
          compilation = limit_result_size c.request_max_size compilation;
          execution = limit_result_size c.request_max_size execution;
          executed = true;
        }))
      × ((get_result c first.0).1
          ≡ returned (record { compilation = no_result; execution = []; executed = false }))
unfolding put set_info result_of
get_result-batch c s dir compilation execution m o nc ne ask same =
    let dir1 : Dir = record dir { compilation = some compilation } in
    let dir2 : Dir = record dir1 { execution = some execution } in
    let s1 = put s dir1 o.info in
    let o1 = put-IsOpen s dir1 o.info o.config o.not_cleaning in
    let s2 = put s1 dir2 o1.info in
    let saved = set_compilation_output-saves s dir o compilation nc in
    let run = set_execution_output-saves s1 dir1 o1 execution compilation refl ne in
    let there : dir_of m.prisoner s2.disk ≡ some dir2 = rw same (put-there s1 dir2 o1.info) in
    let first = get_result-gives c s2.disk m dir2 ask there in
    let dir3 : Dir = record dir2 { compilation = none; execution = none } in
    let d3 = put_dir m.prisoner dir3 s2.disk in
    let second = get_result-gives c d3 m dir3 ask (
      dir_of-put_dir m.prisoner m.prisoner dir3 s2.disk
      ∙ rw ((==_iff m.prisoner m.prisoner).1 refl) refl) in
    rw (saved) (
      rw (run) (
        ap (λ (r : Store × Outcome Result). r.1) first
            ∙ ap (λ (r : Result). returned r) (both_there c.request_max_size compilation execution),
        ap (λ (r : Store × Outcome Result). (get_result c r.0).1) first
            ∙ ap (λ (r : Store × Outcome Result). r.1) second,
      ))
