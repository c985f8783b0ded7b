-- ===== src/Preview/Fetch/Closed.antt =====
-- `Fetch` of internal/preview/preview.go: the connections that it leaves.
use bambu_timelapse.Prelude.{suc, Option, none, some, List, [], ◌∷◌, ◌++◌, ◌≡◌, refl, ap, ◌∙◌}
use bambu_timelapse.Go.Text.{Text, text}
use bambu_timelapse.Ftps.{
  Client, Outcome, ok, failed, Channel, dial, close, listed, retrieve, transfer, command, expect,
  ready,
}
use bambu_timelapse.Ftps.Script.{
  Keeps, and_then-Keeps, expect-Keeps, Dialled, dial-Dialled, dial-plain,
}
use bambu_timelapse.Ftps.Whole.{transfer-Keeps}
use bambu_timelapse.Preview.{search_dirs, archives_in, choose}
use bambu_timelapse.Preview.Fetch.{
  Entry, search, found_or, locate, named_error, fetch_with, closing, fetch,
}

module _ (syntax : Text → Text) (join_path : Text → Text → Text) (lower : Text → Text) where
  search-Keeps :
      (net : Text → Channel) (dirs : List Text) (found : List Text) (c : Client)
      → Keeps c (search syntax join_path lower net dirs found c)
  unfolding search listed
  search-Keeps net [] found c = (refl, refl, refl)
  search-Keeps net (dir ∷ dirs) found c =
      and_then-Keeps c (listed syntax net dir c) _
        (and_then-Keeps c (transfer syntax net (text "LIST " ++ dir) c) _
          (transfer-Keeps syntax net (text "LIST " ++ dir) c) (λ body c'. (refl, refl, refl)))
        (λ lines c'. search-Keeps net dirs (found ++ archives_in join_path dir lines) c')

  found_or-Keeps : (o : Option Text) (c : Client) → Keeps c (found_or syntax join_path lower o c)
  found_or-Keeps none c = (refl, refl, refl)
  found_or-Keeps (some archive) c = (refl, refl, refl)

  locate-Keeps :
      (net : Text → Channel) (job : Text) (c : Client)
      → Keeps c (locate syntax join_path lower net job c)
  unfolding locate
  locate-Keeps net job c =
      and_then-Keeps c (search syntax join_path lower net search_dirs [] c) _
        (search-Keeps net search_dirs [] c) (λ found c'. found_or-Keeps (choose lower job found) c')

  named_error-Keeps :
      (archive : Text) (c : Client) (r : Client × Outcome Text)
      → Keeps c r
      → Keeps c (named_error syntax join_path lower archive r)
  named_error-Keeps archive c (d, failed why) h = h
  named_error-Keeps archive c (d, ok body) h = h

  fetch_with-Keeps :
      (unzip : Text → Outcome (List Entry)) (net : Text → Channel) (job gcode : Text) (c : Client)
      → Keeps c (fetch_with syntax join_path lower unzip net job gcode c)
  unfolding fetch_with retrieve
  fetch_with-Keeps unzip net job gcode c =
      and_then-Keeps c (locate syntax join_path lower net job c) _ (locate-Keeps net job c)
        (λ archive c1.
          and_then-Keeps c1
            (named_error syntax join_path lower archive (retrieve syntax net archive c1)) _
            (named_error-Keeps archive c1 (retrieve syntax net archive c1)
              (transfer-Keeps syntax net (text "RETR " ++ archive) c1))
            (λ body c2. (refl, refl, refl)))

  close-closed : (c : Client) → ((close c).closed ≡ suc c.closed) × ((close c).plain ≡ c.plain)
  unfolding close
  close-closed c = let (k1, k2, k3) = quit-Keeps c in (ap suc k1, k2)
    where
      quit-Keeps : (d : Client) → Keeps {A = Text} d (command (text "QUIT") d)
      quit-Keeps d = unfold expect in expect-Keeps (text "QUIT") ready d

  closing-closed :
      (run : Client → Client × Outcome Text) (code : Text) (c : Client) (r : Client × Outcome Unit)
      → ((d : Client) → Keeps d (run d))
      → Dialled code c r
      → r.0.plain ≡ c.plain
      → ((closing syntax join_path lower run r).0.closed ≡ suc c.closed)
        × ((closing syntax join_path lower run r).0.plain ≡ c.plain)
  closing-closed run code c (d, failed why) k h p = (h.1, p)
  closing-closed run code c (d, ok _) k h p =
      let (k1, k2, k3) = k d in
      let (c1, c2) = close-closed (run d).0 in (c1 ∙ ap suc (k1 ∙ h.1), c2 ∙ k2 ∙ p)

  -- However a fetch ends, it has closed its control connection once, and left no data connection
  -- open.
  pub fetch-closed :
      (unzip : Text → Outcome (List Entry)) (net : Text → Channel) (code job gcode : Text)
      (c : Client)
      → let r = fetch syntax join_path lower unzip net code job gcode c in
        (r.0.closed ≡ suc c.closed) × (r.0.plain ≡ c.plain)
  unfolding fetch
  fetch-closed unzip net code job gcode c =
      closing-closed (fetch_with syntax join_path lower unzip net job gcode) code c (dial code c)
        (fetch_with-Keeps unzip net job gcode) (dial-Dialled code c) (dial-plain code c)
