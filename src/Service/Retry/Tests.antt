-- ===== src/Service/Retry/Tests.antt =====
-- internal/service/service.go, `retryParked`: two parked jobs, one of which is posted.
use bambu_timelapse.Prelude.{
  ◌+◌, ◌≤◌, ◌↔◌, length, IsIn, ℤ, pos, ◌≡◌, refl, true, false, none, some, [], ◌∷◌,
}
use bambu_timelapse.Go.Text.{text, text_eq, has_prefix, has_suffix}
use bambu_timelapse.Session.Store.{Store, JobDir}
use bambu_timelapse.Service.Metrics.{Counters}
use bambu_timelapse.Service.Retry.{Answers, is_retried, find_video, retry_from, retry_parked}
use bambu_timelapse.Service.Retry.Kept.{IsPosted, retry_parked_lem}
use bambu_timelapse.Uploader.{posted}

abbrev dir : JobDir ℤ
dir = record { state = none; stills = []; preview = 0; mod_time = 0 }

abbrev parked_store : Store ℤ
parked_store = record {
  jobs = [];
  failed = (text "encode-failed-job-1", dir) ∷ (text "upload-failed-job-2", dir) ∷ [];
}

abbrev answers : Answers
answers = record {
  listed = true;
  files = λ name. some ((text "a.mp4", false) ∷ []);
  post = λ name. posted (pos 4 ∷ []);
  removable = λ name. true;
}

abbrev counters : Counters
counters = record {
  frames_captured = 0;
  capture_failures = 0;
  uploads_ok = 0;
  uploads_failed = 0;
  uploads_skipped = 0;
  uploads_local = 0;
}

retry_parked_lem_example :
    let r = retry_parked answers counters parked_store in
    (IsIn (text "encode-failed-job-1", dir) r.0.failed
      ↔ IsIn (text "encode-failed-job-1", dir) parked_store.failed
        × (¬ (IsPosted answers (text "encode-failed-job-1") × (true ≡ true))))
    × (2 + 0 ≤ length r.0.failed + r.1.uploads_ok)
    × (r.0.jobs ≡ [])
retry_parked_lem_example =
    retry_parked_lem answers counters parked_store (text "encode-failed-job-1") dir refl

one_goes :
    (retry_parked answers counters parked_store).0.failed ≡ (text "encode-failed-job-1", dir) ∷ []
unfolding retry_parked retry_from is_retried find_video has_prefix has_suffix text_eq
one_goes = refl
