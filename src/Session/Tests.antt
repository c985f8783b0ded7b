-- ===== src/Session/Tests.antt =====
-- internal/session/session.go: runs on a small staging tree.
use bambu_timelapse.Prelude.{
  ℕ, ◌+◌, ℤ, pos, ◌≡◌, refl, Bool, true, false, some, [], ◌∷◌, ◌++◌, ◌⊎◌, ◌↔◌, ◌<◌, IsIn, length,
}
use bambu_timelapse.Go.Text.{Text, text, text_eq, text_ne, has_prefix}
use bambu_timelapse.Go.Utf8.{runes}
use bambu_timelapse.Go.Float.{whole}
use bambu_timelapse.Session.{Session, staged}
use bambu_timelapse.Session.Name.{sanitize}
use bambu_timelapse.Session.Temperature.{Temps, add_samples, add_sample, avg}
use bambu_timelapse.Session.Dirs.{Files, get, put}
use bambu_timelapse.Session.Store.{
  JobDir, Store, created, load, save, sweep_failed, list, list_entries, job_dir, create, mkdir,
  new_session,
}
use bambu_timelapse.Session.Store.Resume.{create_resumes}
use bambu_timelapse.Session.Store.Listing.{readable, NewestFirst, list_lem}
use bambu_timelapse.Session.Store.Parking.{sweep_failed_lem}
use bambu_timelapse.Go.Number.{digits}
use bambu_timelapse.Session.Atomic.{Writes, AllWhole, save_file, save_file-AllWhole}
use bambu_timelapse.Session.Paths.{five_digits, frame_path, preview_path}
use mathlib.Core.List.{Perm}

abbrev empty_store : Store ℤ
empty_store = record { jobs = []; failed = [] }

abbrev cold : Temps ℤ
cold = record { sum = pos 0; count = 0; peak = pos 0 }

-- The session of the task "7001", started at this time.
abbrev session_at : ℕ → Session ℤ
session_at now = record {
  task_id = text "7001";
  job_name = text "Benchy";
  started_at = now;
  frames = 3;
  last_layer = pos 3;
  total_layers = pos 240;
  layers = pos 1 ∷ pos 2 ∷ pos 3 ∷ [];
  nozzle = cold;
  bed = cold;
  filament = text "PLA";
  pauses = 0;
  partial = false;
  dir = staged (text "job-7001");
}

abbrev dir_of : Session ℤ → ℕ → JobDir ℤ
dir_of s mod_time = record {
  state = some s;
  stills = 3 ∷ 2 ∷ 1 ∷ [];
  preview = 0;
  mod_time = mod_time;
}

abbrev one_job : Store ℤ
one_job = record { jobs = (text "job-7001", dir_of (session_at 5) 100) ∷ []; failed = [] }

-- The same job failed before.
abbrev failed_before : Store ℤ
failed_before = record one_job {
  failed = (text "upload-failed-job-7001", dir_of (session_at 1) 50) ∷ [];
}

-- Two jobs and a directory that is none.
abbrev two_jobs : Store ℤ
two_jobs = record {
  jobs =
      (text "job-7001", dir_of (session_at 5) 100)
      ∷ (text "lost+found", dir_of (session_at 9) 0)
      ∷ (text "job-7002", dir_of (session_at 7) 100)
      ∷ [];
  failed = [];
}

create_resumes_example :
    create false false 9
      (text "7001")
      (text "other")
      (pos 8)
      (pos 2)
      (create true true 5 (text "7001") (text "Benchy") (pos 240) (pos 0) empty_store).0
    ≡ (
      (create true true 5 (text "7001") (text "Benchy") (pos 240) (pos 0) empty_store).0,
      created (new_session 5 (text "7001") (text "Benchy") (pos 240) (pos 0)) true,
    )
unfolding create load job_dir get put mkdir save sanitize runes new_session text_eq
create_resumes_example =
    create_resumes true true 5 (text "7001") (text "Benchy") (pos 240) (pos 0) empty_store refl
      false false 9 (text "other") (pos 8) (pos 2)

list_lem_example : Perm (list two_jobs) (readable two_jobs.jobs) × NewestFirst (list two_jobs)
list_lem_example = list_lem two_jobs

abbrev any_name : Text → Bool
any_name name = true

sweep_failed_lem_example :
    let old = dir_of (session_at 1) 50 in
    let r = sweep_failed 1000 100 any_name failed_before in
    (IsIn (text "upload-failed-job-7001", old) r.0.failed
      ↔ IsIn (text "upload-failed-job-7001", old) failed_before.failed
        × ((1000 < old.mod_time + 100) ⊎ (true ≡ false)))
    × (length r.0.failed + r.1 ≡ 1)
    × (r.0.jobs ≡ failed_before.jobs)
sweep_failed_lem_example =
    sweep_failed_lem 1000 100 any_name failed_before (text "upload-failed-job-7001")
      (dir_of (session_at 1) 50)

dots_go : sanitize (text "../a b") ≡ text "___a_b"
unfolding sanitize runes
dots_go = refl

nothing_left : sanitize [] ≡ text "unknown"
unfolding sanitize runes
nothing_left = refl

mean_of_samples : avg (add_samples cold (pos 200 ∷ pos 0 ∷ pos 220 ∷ [])) ≡ pos 210
unfolding avg add_samples add_sample whole
mean_of_samples = refl

newest_first :
    list two_jobs ≡ record (session_at 7) { dir = staged (text "job-7002") } ∷ session_at 5 ∷ []
unfolding list list_entries has_prefix
newest_first = refl

swept : (sweep_failed 1000 100 any_name failed_before).1 ≡ 1
unfolding sweep_failed
swept = refl

abbrev slashed : Text → Text → Text
slashed dir name = dir ++ (text "/" ++ name)

abbrev torn : Writes
torn = record { landed = 0 ∷ 1 ∷ []; wrote = true; renames = true }

abbrev staged_files : Files
staged_files = (text "job-7001/state.json", 7 ∷ []) ∷ []

-- A save in two writes.
save_file-AllWhole_example :
    AllWhole
      (text "job-7001/state.json")
      (some (7 ∷ []))
      (8 ∷ 9 ∷ [])
      (save_file slashed torn (text "job-7001") (8 ∷ 9 ∷ []) staged_files)
unfolding get text_eq
save_file-AllWhole_example =
    save_file-AllWhole slashed torn (text "job-7001") (8 ∷ 9 ∷ []) staged_files
      (text_ne (text "job-7001/state.json.tmp") (text "job-7001/state.json") refl)

twelfth : frame_path slashed (text "job-7001") 11 ≡ text "job-7001/frame-00012.jpg"
unfolding frame_path five_digits digits
twelfth = refl

empty_preview : preview_path slashed (text "job-7001") (some 0) ≡ []
unfolding preview_path
empty_preview = refl
