-- ===== src/Uploader/Answers.antt =====
-- internal/uploader/uploader.go, `Post`: which failures are worth another attempt.
use bambu_timelapse.Prelude.{
  ℕ, ◌≤◌, ◌≡◌, ◌≢◌, ◌↔◌, ◌⊎◌, inl, inr, refl, ℤ, true, Option, none, some, List, arith, take,
  Bool-cases, leb→le, ◌==◌,
}
use bambu_timelapse.Go.Text.{Text}
use bambu_timelapse.Uploader.{
  PostResult, posted, failed, Exchange, post, error_body_limit, status_ok, decoded_or_failed,
  answered, with_video, with_boundary,
}

-- A response that is worth another attempt: none at all, or a server's error.
abbrev pub IsServerFault : Option (ℕ × Text) → Type 0
IsServerFault none = Unit
IsServerFault (some (status, body)) = 500 ≤ status

-- No boundary could be made; or the request went out, to no answer or to a server's error.
abbrev pub IsTransient : Exchange → Type 0
IsTransient x =
    (x.boundary ≡ none)
    ⊎ (x.boundary ≢ none) × (x.video ≢ none) × (x.well_formed ≡ true) × IsServerFault x.response

abbrev pub IsRetryable : PostResult → Type 0
IsRetryable (posted ids) = ⊥
IsRetryable (failed e) = e.retryable ≡ true

module _ (decode : Text → Option (List ℤ)) where
  not-IsRetryable : (o : Option (List ℤ)) → ¬ IsRetryable (decoded_or_failed o)
  not-IsRetryable none h = cc
  not-IsRetryable (some ids) h = h

  answered_fault : (o : Option (ℕ × Text)) → IsRetryable (answered decode o) → IsServerFault o
  answered_fault none h = tt
  answered_fault (some (status, body)) h = elim (Bool-cases (status == status_ok)) [
    | inl good ↦ absurd (not-IsRetryable (decode (take error_body_limit body)) (rw good at h))
    | inr bad ↦ leb→le 500 status (rw bad at h)
  ]

  fault_answered : (o : Option (ℕ × Text)) → IsServerFault o → IsRetryable (answered decode o)
  fault_answered none h = refl
  fault_answered (some (status, body)) h = elim (Bool-cases (status == status_ok)) [
    | inl good ↦ absurd (ground arith)
    | inr bad ↦ rw bad (ground arith)
  ]

  video_transient :
      (x : Exchange) (o : Option Text)
      → IsRetryable (with_video decode x o)
      → (o ≢ none) × (x.well_formed ≡ true) × IsServerFault x.response
  video_transient x none h = cc
  video_transient x (some v) h = elim (Bool-cases x.well_formed) [
    | inl good ↦ (λ e. cc, good, answered_fault x.response (rw good at h))
    | inr bad ↦ cc (rw bad at h)
  ]

  transient_video :
      (x : Exchange) (o : Option Text)
      → o ≢ none
      → x.well_formed ≡ true
      → IsServerFault x.response
      → IsRetryable (with_video decode x o)
  transient_video x none h good fault = absurd (h refl)
  transient_video x (some v) h good fault = rw good (fault_answered x.response fault)

  boundary_transient :
      (x : Exchange) (o : Option Text)
      → IsRetryable (with_boundary decode x o)
      → (o ≡ none)
        ⊎ (o ≢ none) × (x.video ≢ none) × (x.well_formed ≡ true) × IsServerFault x.response
  boundary_transient x none h = inl refl
  boundary_transient x (some b) h =
      let (video, good, fault) = video_transient x x.video h in inr (λ e. cc, video, good, fault)

  sent-IsRetryable :
      (x : Exchange) (o : Option Text)
      → o ≢ none
      → x.video ≢ none
      → x.well_formed ≡ true
      → IsServerFault x.response
      → IsRetryable (with_boundary decode x o)
  sent-IsRetryable x none h video good fault = absurd (h refl)
  sent-IsRetryable x (some b) h video good fault = transient_video x x.video video good fault

  -- A failed post is marked worth another attempt exactly when no boundary could be made, or when
  -- the request went out and met either no answer or a status of 500 and up.
  pub post-IsRetryable_iff : (x : Exchange) → IsRetryable (post decode x) ↔ IsTransient x
  unfolding post
  post-IsRetryable_iff x = (
    boundary_transient x x.boundary,
    λ t. elim t [
      | inl none' ↦ rw none' refl
      | inr sent ↦ sent-IsRetryable x x.boundary sent.0 sent.1 sent.2 sent.3
    ],
  )
