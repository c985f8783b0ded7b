-- ===== src/Uploader.antt =====
-- internal/uploader/uploader.go: the multipart request of one timelapse, and what its answer means.
-- The file system and the network are an `Exchange`: what each call of `Post` meets. `%q` is the
-- parameter `quote`, and the JSON decoder of the answer the parameter `decode`.
pub mod Answers
mod Tests
use bambu_timelapse.Prelude.{
  ℕ, ◌^◌, ℤ, Bool, true, false, not, Option, none, some, List, [], ◌∷◌, ◌++◌, leb, ◌==◌,
  if◌then◌else◌, take,
}
use bambu_timelapse.Go.Text.{Text, text, text_le}
use bambu_timelapse.Go.Number.{itoa}

abbrev pub error_body_limit : ℕ
error_body_limit = 2 ^ 16

abbrev pub server_error_floor : ℕ
server_error_floor = 500

abbrev pub status_ok : ℕ
status_ok = 200

pub record Error : Type 0 where
  pub status : ℕ
  pub body : Text
  pub retryable : Bool

pub data PostResult : Type 0 where
  posted : List ℤ → PostResult
  failed : Error → PostResult

-- The files are read by the model where the request names them.
pub record Request : Type 0 where
  pub filename : Text
  pub caption : Text
  pub duration : ℤ
  pub width : ℤ
  pub height : ℤ
  -- The bytes of the cover, if the request names one and it can be read.
  pub cover : Option Text

pub record Exchange : Type 0 where
  -- The random boundary, if the system gives randomness.
  pub boundary : Option Text
  -- The bytes of the video, if it can be opened and measured.
  pub video : Option Text
  -- Whether the URL makes a request.
  pub well_formed : Bool
  -- The status and body of the response, if there is one.
  pub response : Option (ℕ × Text)

abbrev pub crlf : Text
crlf = 13 ∷ 10 ∷ []

-- sort.Strings on the keys of a map
abbrev insert_sorted : Text × Text → List (Text × Text) → List (Text × Text)
insert_sorted kv [] = kv ∷ []
insert_sorted kv (jw ∷ rest) =
    if text_le kv.0 jw.0 then kv ∷ jw ∷ rest else jw ∷ insert_sorted kv rest

unfoldable pub sorted_fields : List (Text × Text) → List (Text × Text)
sorted_fields [] = []
sorted_fields (kv ∷ rest) = insert_sorted kv (sorted_fields rest)

module _ (quote : Text → Text) (boundary : Text) where
  -- the closure `field` of `prologue`
  unfoldable pub form_field : Text → Text → Text
  form_field name value =
      text "--"
      ++ (boundary
          ++ (crlf
              ++ (text "Content-Disposition: form-data; name="
                  ++ (quote name ++ (crlf ++ (crlf ++ (value ++ crlf)))))))

  unfoldable pub form_fields : List (Text × Text) → Text
  unfolding form_field
  form_fields [] = []
  form_fields ((name, value) ∷ rest) = form_field name value ++ form_fields rest

  unfoldable pub service_fields : Request → List (Text × Text)
  service_fields req =
      (text "caption", req.caption)
      ∷ (text "filename", req.filename)
      ∷ (text "duration", itoa req.duration)
      ∷ (text "width", itoa req.width)
      ∷ (text "height", itoa req.height)
      ∷ (text "no_audio", text "true")
      ∷ []

  unfoldable pub cover_part : Option Text → Text
  cover_part none = []
  cover_part (some []) = []
  cover_part (some (b ∷ bs)) =
      text "--"
      ++ (boundary
          ++ (crlf
              ++ (text "Content-Disposition: form-data; name=\"thumbnail\"; "
                  ++ (text "filename=\"cover.jpg\""
                      ++ (crlf
                          ++ (text "Content-Type: image/jpeg"
                              ++ (crlf ++ (crlf ++ ((b ∷ bs) ++ crlf)))))))))

  unfoldable pub video_header : Text → Text
  video_header filename =
      text "--"
      ++ (boundary
          ++ (crlf
              ++ (text "Content-Disposition: form-data; name=\"video\"; "
                  ++ (text "filename="
                      ++ (quote filename
                          ++ (crlf ++ (text "Content-Type: video/mp4" ++ (crlf ++ crlf))))))))

  unfoldable pub prologue : List (Text × Text) → Request → Text
  unfolding sorted_fields form_fields service_fields cover_part video_header
  prologue fields req =
      form_fields (sorted_fields fields)
      ++ (form_fields (service_fields req) ++ (cover_part req.cover ++ video_header req.filename))

  unfoldable pub epilogue : Text
  epilogue = crlf ++ (text "--" ++ (boundary ++ (text "--" ++ crlf)))

abbrev error_of : Bool → Error
error_of retryable = record { status = 0; body = []; retryable = retryable }

abbrev decoded_or_failed : Option (List ℤ) → PostResult
decoded_or_failed none = failed (error_of false)
decoded_or_failed (some ids) = posted ids

abbrev answered : (Text → Option (List ℤ)) → Option (ℕ × Text) → PostResult
answered decode none = failed (error_of true)
answered decode (some (status, body)) =
    let payload = take error_body_limit body in
    if not (status == status_ok)
    then failed
        (record { status = status; body = payload; retryable = leb server_error_floor status })
    else decoded_or_failed (decode payload)

-- The calls of `Post` in their order, each with the error that it returns.
abbrev with_video : (Text → Option (List ℤ)) → Exchange → Option Text → PostResult
with_video decode x none = failed (error_of false)
with_video decode x (some video) =
    if x.well_formed then answered decode x.response else failed (error_of false)

abbrev with_boundary : (Text → Option (List ℤ)) → Exchange → Option Text → PostResult
with_boundary decode x none = failed (error_of true)
with_boundary decode x (some boundary) = with_video decode x x.video

-- `Post`
unfoldable pub post : (Text → Option (List ℤ)) → Exchange → PostResult
post decode x = with_boundary decode x x.boundary
