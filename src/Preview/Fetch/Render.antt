-- ===== src/Preview/Fetch/Render.antt =====
-- `Fetch` of internal/preview/preview.go: the image that it returns.
use bambu_timelapse.Prelude.{
  ℤ, ◌≤◌, Option, none, some, List, [], ◌∷◌, ◌++◌, map, take, length, length-take, ◌≡◌, refl, arith,
  Bool-cases, inl, inr, ◌⊎◌,
}
use bambu_timelapse.Go.Text.{Text, text, text_eq, text_eq_iff, is_empty}
use bambu_timelapse.Ftps.{Client, Outcome, ok, failed, Channel, dial, close, retrieve}
use bambu_timelapse.Ftps.Whole.{
  Yields, Anything, any-Yields, and_then-Yields, Received, transfer-Yields,
}
use bambu_timelapse.Preview.{pick_plate, plate_number}
use bambu_timelapse.Preview.Fetch.{
  Entry, read_entry, entry_body, entry_named, name_of, image_in, plate_image, locate, named_error,
  fetch_with, closing, fetch, preview_limit,
}

-- The bytes of the entry of that name, cut at the limit.
abbrev pub IsEntryOf : Text → Text → List Entry → Type 0
IsEntryOf wanted image [] = ⊥
IsEntryOf wanted image (e ∷ es) =
    ((e.name ≡ wanted) × (e.unopened ≡ none) × (e.cut ≡ none) × (image ≡ take preview_limit e.body))
    ⊎ IsEntryOf wanted image es

-- The image is the render of that plate in the archive, and no longer than the limit.
abbrev pub IsRender : (Text → Outcome (List Entry)) → ℤ → Text → Text → Type 0
IsRender unzip plate archive image =
    (es : List Entry) × (unzip archive ≡ ok es)
    × IsEntryOf (pick_plate (map name_of es) plate) image es
    × (length image ≤ preview_limit)

-- What an outcome has, if it is not an error.
abbrev pub Gives : (Text → Type 0) → Outcome Text → Type 0
Gives P (failed why) = Unit
Gives P (ok image) = P image

entry_body-Gives :
    (e : Entry) (o cut : Option Text)
    → Gives
        (λ image. (o ≡ none) × (cut ≡ none) × (image ≡ take preview_limit e.body))
        (entry_body e o cut)
entry_body-Gives e (some why) cut = tt
entry_body-Gives e none (some why) = tt
entry_body-Gives e none none = (refl, refl, refl)

Gives-map :
    (P Q : Text → Type 0) (o : Outcome Text) → ((i : Text) → P i → Q i) → Gives P o → Gives Q o
Gives-map P Q (failed why) k h = tt
Gives-map P Q (ok image) k h = k image h

entry_named-Gives :
    (wanted : Text) (es : List Entry)
    → Gives
        (λ image. IsEntryOf wanted image es × (length image ≤ preview_limit))
        (entry_named wanted es)
unfolding entry_named
entry_named-Gives wanted [] = tt
entry_named-Gives wanted (e ∷ es) = elim (Bool-cases (text_eq e.name wanted)) [
  | inl here ↦ rw here (
      unfold read_entry in
      Gives-map _ _ (entry_body e e.unopened e.cut)
        (λ image (h1, h2, h3).
          (inl ((text_eq_iff e.name wanted).0 here, h1, h2, h3), short image e.body h3))
        (entry_body-Gives e e.unopened e.cut))
  | inr away ↦ rw away (
      Gives-map _ _ (entry_named wanted es) (λ image (h, k). (inr h, k))
        (entry_named-Gives wanted es))
]
  where
    short : (image body : Text) → image ≡ take preview_limit body → length image ≤ preview_limit
    short image body h = rw h (omega (arith, length-take preview_limit body))

image_in-Gives :
    (unzip : Text → Outcome (List Entry)) (plate : ℤ) (archive : Text) (o : Outcome (List Entry))
    → unzip archive ≡ o
    → Gives (IsRender unzip plate archive) (image_in plate o)
image_in-Gives unzip plate archive (failed why) e = tt
image_in-Gives unzip plate archive (ok es) e =
    elim (Bool-cases (is_empty (pick_plate (map name_of es) plate))) [
      | inl nothing ↦ rw nothing tt
      | inr wanted ↦ rw wanted (
          Gives-map _ (IsRender unzip plate archive)
            (entry_named (pick_plate (map name_of es) plate) es) (λ image (h, k). (es, e, h, k))
            (entry_named-Gives (pick_plate (map name_of es) plate) es))
    ]

-- The image is a render of the plate in an archive that was received whole.
abbrev pub IsFetched : (Text → Outcome (List Entry)) → (Text → Channel) → Text → Text → Type 0
IsFetched unzip net gcode image =
    (archive : Text) × Received net archive × IsRender unzip (plate_number gcode) archive image

pictured-Yields :
    (unzip : Text → Outcome (List Entry)) (net : Text → Channel) (gcode archive : Text)
    (o : Outcome Text) (c : Client)
    → Received net archive
    → Gives (IsRender unzip (plate_number gcode) archive) o
    → Yields (IsFetched unzip net gcode) (c, o)
pictured-Yields unzip net gcode archive (failed why) c r h = tt
pictured-Yields unzip net gcode archive (ok image) c r h = (archive, r, h)

module _ (syntax : Text → Text) (join_path : Text → Text → Text) (lower : Text → Text) where
  named_error-Yields :
      (net : Text → Channel) (archive : Text) (r : Client × Outcome Text)
      → Yields (Received net) r
      → Yields (Received net) (named_error syntax join_path lower archive r)
  named_error-Yields net archive (d, failed why) h = tt
  named_error-Yields net archive (d, ok body) h = h

  fetch_with-Yields :
      (unzip : Text → Outcome (List Entry)) (net : Text → Channel) (job gcode : Text) (c : Client)
      → Yields (IsFetched unzip net gcode) (fetch_with syntax join_path lower unzip net job gcode c)
  unfolding fetch_with retrieve plate_image
  fetch_with-Yields unzip net job gcode c =
      and_then-Yields Anything (IsFetched unzip net gcode) (locate syntax join_path lower net job c)
        _ (any-Yields (locate syntax join_path lower net job c))
        (λ archive c1 _.
          and_then-Yields (Received net) (IsFetched unzip net gcode)
            (named_error syntax join_path lower archive (retrieve syntax net archive c1)) _
            (named_error-Yields net archive (retrieve syntax net archive c1)
              (transfer-Yields syntax net (text "RETR " ++ archive) c1))
            (λ body c2 whole.
              pictured-Yields unzip net gcode body (image_in (plate_number gcode) (unzip body)) c2
                whole (image_in-Gives unzip (plate_number gcode) body (unzip body) refl)))

  closing-Yields :
      (P : Text → Type 0) (run : Client → Client × Outcome Text) (r : Client × Outcome Unit)
      → ((d : Client) → Yields P (run d))
      → Yields P (closing syntax join_path lower run r)
  closing-Yields P run (c, failed why) k = tt
  closing-Yields P run (c, ok _) k = closed_after (run c) (k c)
    where
      closed_after : (r' : Client × Outcome Text) → Yields P r' → Yields P (close r'.0, r'.1)
      closed_after (d, failed why) h = tt
      closed_after (d, ok image) h = h

  -- An image that a fetch returns is, up to its limit of 8 MiB, the entry of an archive that was
  -- received whole: the one that `pickPlate` chooses for the plate that the printer reports.
  pub fetch-Yields :
      (unzip : Text → Outcome (List Entry)) (net : Text → Channel) (code job gcode : Text)
      (c : Client)
      → Yields (IsFetched unzip net gcode) (fetch syntax join_path lower unzip net code job gcode c)
  unfolding fetch
  fetch-Yields unzip net code job gcode c =
      closing-Yields (IsFetched unzip net gcode)
        (fetch_with syntax join_path lower unzip net job gcode) (dial code c)
        (fetch_with-Yields unzip net job gcode)
