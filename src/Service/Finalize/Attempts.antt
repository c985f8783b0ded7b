-- ===== src/Service/Finalize/Attempts.antt =====
-- internal/service/service.go, the loop that posts a video.
use bambu_timelapse.Prelude.{
  ℕ, zero, suc, ◌+◌, ◌-◌, ◌*◌, ◌^◌, ◌≤◌, ◌<◌, ◌≡◌, refl, sym, ◌∙◌, ◌↔◌, ◌⊎◌, inl, inr, Bool, true,
  false, arith,
}
use mathlib.Core.Path.{subst}
use native.Mathlib.Decide.{ℕ_discrete}
use bambu_timelapse.Uploader.{PostResult, posted, failed}
use bambu_timelapse.Service.{second}
use bambu_timelapse.Service.Finalize.{Host, Upload, after_answer, wait_after, upload, upload_from}

-- The post was taken.
abbrev pub IsPosted : PostResult → Type 0
IsPosted (posted ids) = Unit
IsPosted (failed e) = ⊥

-- It was not, and another attempt may be.
abbrev pub IsTryAgain : PostResult → Type 0
IsTryAgain (posted ids) = ⊥
IsTryAgain (failed e) = e.retryable ≡ true

abbrev pub PostedAt : ℕ → ℕ → Host → ℕ → Type 0
PostedAt first last h k =
    (first ≤ k)
    × (k < last)
    × IsPosted (h.answer k)
    × ((j : ℕ) → first ≤ j → j < k → IsTryAgain (h.answer j))

IsPosted-not-IsTryAgain : (r : PostResult) → IsPosted r → ¬ IsTryAgain r
IsPosted-not-IsTryAgain (posted ids) p t = t
IsPosted-not-IsTryAgain (failed e) p t = p

-- One round, on what the attempt returned.
round_sent :
    (h : Host) (a : ℕ) (r : PostResult) (rest : Upload)
    → (after_answer h a r rest).sent ≡ true
    → IsPosted r ⊎ IsTryAgain r × (rest.sent ≡ true)
round_sent h a (posted ids) rest e = inl tt
round_sent h a (failed e') rest e = inr (ground arith)

round_stops :
    (h : Host) (a : ℕ) (r : PostResult) (rest : Upload)
    → IsPosted r
    → (after_answer h a r rest).sent ≡ true
round_stops h a (posted ids) rest p = refl
round_stops h a (failed e) rest p = absurd p

round_goes_on :
    (h : Host) (a : ℕ) (r : PostResult) (rest : Upload)
    → IsTryAgain r
    → (after_answer h a r rest).sent ≡ rest.sent
round_goes_on h a (posted ids) rest t = absurd t
round_goes_on h a (failed e) rest t = rw t refl

from_first :
    (a k : ℕ) (h : Host)
    → IsTryAgain (h.answer a)
    → ((j : ℕ) → a + 1 ≤ j → j < k → IsTryAgain (h.answer j))
    → (j : ℕ) → a ≤ j
    → j < k
    → IsTryAgain (h.answer j)
from_first a k h t rest j lo hi = elim (ℕ_discrete a j) [
  | yes e ↦ subst (λ (i : ℕ). IsTryAgain (h.answer i)) e t
  | no ne ↦ rest j (omega arith) hi
]

later_post :
    (left a : ℕ) (h : Host)
    → IsTryAgain (h.answer a)
    → (k : ℕ) × PostedAt (a + 1) (a + 1 + left) h k
    → (k : ℕ) × PostedAt a (a + suc left) h k
later_post left a h t (k, p) =
    (k, (omega (arith, p.0), omega (arith, p.1), p.2, λ j lo hi. from_first a k h t p.3 j lo hi))

sent_of_upload :
    (left a : ℕ) (h : Host)
    → (upload_from left a h).sent ≡ true
    → (k : ℕ) × PostedAt a (a + left) h k
unfolding upload_from
sent_of_upload zero a h e = cc
sent_of_upload (suc left) a h e =
    elim (round_sent h a (h.answer a) (upload_from left (a + 1) h) e) [
      | inl p ↦ (a, (omega arith, omega arith, p, λ j lo hi. absurd (omega arith)))
      | inr t ↦ later_post left a h t.0 (sent_of_upload left (a + 1) h t.1)
    ]

upload_of_sent :
    (left a k : ℕ) (h : Host) → PostedAt a (a + left) h k → (upload_from left a h).sent ≡ true
unfolding upload_from
upload_of_sent zero a k h p = absurd (omega arith)
upload_of_sent (suc left) a k h p = elim (ℕ_discrete a k) [
  | yes e ↦
      round_stops h a (h.answer a) (upload_from left (a + 1) h)
        (subst (λ (i : ℕ). IsPosted (h.answer i)) (sym e) p.2)
  | no ne ↦
      round_goes_on h a (h.answer a) (upload_from left (a + 1) h)
        (p.3 a (omega arith) (omega (arith, p.0)))
      ∙ upload_of_sent left (a + 1) k h
          (omega (arith, p.0), omega (arith, p.1), p.2, λ j lo hi. p.3 j (omega arith) hi)
]

-- The video counts as posted exactly if one of the attempts 1, 2 and 3 was taken and every attempt
-- before it failed in a way that another one may mend.
pub upload_sent_iff : (h : Host) → ((upload h).sent ≡ true) ↔ ((k : ℕ) × PostedAt 1 4 h k)
unfolding upload
upload_sent_iff h = (λ e. sent_of_upload 3 1 h e, λ p. upload_of_sent 3 1 p.0 h p.1)

round_attempts :
    (h : Host) (a hi : ℕ) (r : PostResult) (rest : Upload)
    → a ≤ hi
    → (a ≤ rest.attempts) × (rest.attempts ≤ hi)
    → (a ≤ (after_answer h a r rest).attempts) × ((after_answer h a r rest).attempts ≤ hi)
round_attempts h a hi (posted ids) rest le b = (omega arith, le)
round_attempts h a hi (failed e) rest le b = ground arith

attempts_bounded :
    (left a : ℕ) (h : Host)
    → (a ≤ (upload_from (suc left) a h).attempts)
      × ((upload_from (suc left) a h).attempts ≤ a + left)
unfolding upload_from
attempts_bounded zero a h =
    round_attempts h a (a + 0) (h.answer a)
      (record { sent = false; attempts = a + 1 - 1; waited = 0 }) (omega arith)
      (omega arith, omega arith)
attempts_bounded (suc left) a h =
    let b = attempts_bounded left (a + 1) h in
    round_attempts h a (a + suc left) (h.answer a) (upload_from (suc left) (a + 1) h) (omega arith)
      (omega (arith, b.0), omega (arith, b.1))

round_waited :
    (h : Host) (a : ℕ) (r : PostResult) (rest : Upload)
    → (after_answer h a r rest).waited ≤ wait_after h a + rest.waited
round_waited h a (posted ids) rest = omega arith
round_waited h a (failed e) rest = ground arith

wait_after_bounded : (h : Host) (a : ℕ) → wait_after h a ≤ 5 * 2 ^ a * second
wait_after_bounded h a = ground arith

-- At least one post is made and at most three are, with waits of no more than 70 seconds in all.
pub upload_bounds :
    (h : Host)
    → (1 ≤ (upload h).attempts) × ((upload h).attempts ≤ 3) × ((upload h).waited ≤ 70 * second)
unfolding upload
upload_bounds h =
    let b = attempts_bounded 2 1 h in
    (
      b.0,
      b.1,
      omega (
        arith,
        round_waited h 1 (h.answer 1) (upload_from 2 2 h),
        round_waited h 2 (h.answer 2) (upload_from 1 3 h),
        round_waited h 3 (h.answer 3) (upload_from 0 4 h),
        wait_after_bounded h 1,
        wait_after_bounded h 2,
        wait_after_bounded h 3,
      ),
    )

same_round :
    (h g : Host) (a : ℕ) (r : PostResult) (u v : Upload)
    → (u.sent ≡ v.sent) × (u.attempts ≡ v.attempts)
    → ((after_answer h a r u).sent ≡ (after_answer g a r v).sent)
      × ((after_answer h a r u).attempts ≡ (after_answer g a r v).attempts)
same_round h g a (posted ids) u v e = (refl, refl)
same_round h g a (failed x) u v e = ground arith

same_upload :
    (stopping : Bool) (left a : ℕ) (h : Host)
    → let g = record h { stopping = stopping } in
      ((upload_from left a g).sent ≡ (upload_from left a h).sent)
      × ((upload_from left a g).attempts ≡ (upload_from left a h).attempts)
unfolding upload_from
same_upload stopping zero a h = (refl, refl)
same_upload stopping (suc left) a h =
    let g = record h { stopping = stopping } in
    same_round g h a (h.answer a) (upload_from left (a + 1) g) (upload_from left (a + 1) h)
      (same_upload stopping left (a + 1) h)

-- A shutdown does not cut the retries short: as many posts are made, with the same end, as without
-- it. Only the waits between them fall away.
pub upload-stopping :
    (stopping : Bool) (h : Host)
    → let g = record h { stopping = stopping } in
      ((upload g).sent ≡ (upload h).sent) × ((upload g).attempts ≡ (upload h).attempts)
unfolding upload
upload-stopping stopping h = same_upload stopping 3 1 h
