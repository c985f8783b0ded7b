-- ===== src/Uploader/Tests.antt =====
-- internal/uploader/uploader.go: runs of `Post` and of its body.
use bambu_timelapse.Prelude.{◌↔◌, ℤ, pos, ◌≡◌, refl, true, false, Option, none, some, List, [], ◌∷◌}
use bambu_timelapse.Go.Text.{Text, text, text_le}
use bambu_timelapse.Uploader.{posted, failed, Exchange, post, sorted_fields}
use bambu_timelapse.Uploader.Answers.{IsRetryable, IsTransient, post-IsRetryable_iff}

-- An answer that is "[4]".
abbrev ids_of : Text → Option (List ℤ)
ids_of [] = none
ids_of (c ∷ s) = some (pos 4 ∷ [])

-- A server that is overloaded.
abbrev busy : Exchange
busy = record {
  boundary = some (text "b");
  video = some (text "mp4");
  well_formed = true;
  response = some (503, text "busy");
}

post-IsRetryable_iff_example : IsRetryable (post ids_of busy) ↔ IsTransient busy
post-IsRetryable_iff_example = post-IsRetryable_iff ids_of busy

busy_is_kept :
    post ids_of busy ≡ failed (record { status = 503; body = text "busy"; retryable = true })
unfolding post
busy_is_kept = refl

taken : post ids_of (record busy { response = some (200, text "[4]") }) ≡ posted (pos 4 ∷ [])
unfolding post
taken = refl

-- A 200 with no body that decodes is a failure that is not tried again.
undecoded :
    post ids_of (record busy { response = some (200, []) })
    ≡ failed (record { status = 0; body = []; retryable = false })
unfolding post
undecoded = refl

sorted :
    sorted_fields ((text "b", text "1") ∷ (text "a", text "2") ∷ [])
    ≡ (text "a", text "2") ∷ (text "b", text "1") ∷ []
unfolding sorted_fields text_le
sorted = refl
