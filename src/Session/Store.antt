-- ===== src/Session/Store.antt =====
-- internal/session/session.go, `Store` and `Save`: the operations on the staging tree.
pub mod Resume
pub mod Listing
pub mod Parking
pub mod Content
pub mod Loaded
use bambu_timelapse.Prelude.{
  ℕ, suc, ◌+◌, ℤ, pos, negsuc, Bool, true, false, ◌&&◌, Option, none, some, List, [], ◌∷◌, ◌++◌,
  leb, ltb_ℤ, if◌then◌else◌,
}
use bambu_timelapse.Go.Text.{Text, text, has_prefix}
use bambu_timelapse.Go.Float.{Float}
use bambu_timelapse.Session.{Session, Place, staged, parked}
use bambu_timelapse.Session.Temperature.{no_temps}
use bambu_timelapse.Session.Name.{sanitize}
use bambu_timelapse.Session.Dirs.{get, put, remove}

-- What the program keeps in a job's directory: the state file, if there is one that parses, the
-- numbers of the frames, the size of the plate render (0 if there is none), and the modification
-- time of the directory.
pub record JobDir (A : Type 0) : Type 0 where
  pub state : Option (Session A)
  pub stills : List ℕ
  pub preview : ℕ
  pub mod_time : ℕ

-- The entries of the staging directory and of its `failed` directory.
pub record Store (A : Type 0) : Type 0 where
  pub jobs : List (Text × JobDir A)
  pub failed : List (Text × JobDir A)

-- What `Create` gives its caller: an error, or a session and whether it was there before.
pub data Created (A : Type 0) : Type 0 where
  cannot_create : Created A
  created : Session A → Bool → Created A

abbrev pub no_layer : ℤ
no_layer = negsuc 0

abbrev base : Place → Text
base (staged name) = name
base (parked name) = name

unfoldable pub job_dir : Text → Place
job_dir task = staged (text "job-" ++ sanitize task)

module _ {A : Type 0} where
  abbrev state_of : Option (JobDir A) → Option (Session A)
  state_of none = none
  state_of (some d) = d.state

  abbrev at_place : Place → Option (Session A) → Option (Session A)
  at_place dir none = none
  at_place dir (some s) = some (record s { dir = dir })

  abbrev pub dir_at : Place → Store A → Option (JobDir A)
  dir_at (staged name) st = get name st.jobs
  dir_at (parked name) st = get name st.failed

  abbrev pub put_dir : Place → JobDir A → Store A → Store A
  put_dir (staged name) d st = record st { jobs = put name d st.jobs }
  put_dir (parked name) d st = record st { failed = put name d st.failed }

  abbrev pub remove_dir : Place → Store A → Store A
  remove_dir (staged name) st = record st { jobs = remove name st.jobs }
  remove_dir (parked name) st = record st { failed = remove name st.failed }

  -- `load`
  unfoldable pub load : Place → Store A → Option (Session A)
  load dir st = at_place dir (state_of (dir_at dir st))

  abbrev save_into : Bool → Session A → Option (JobDir A) → Store A → Store A × Bool
  save_into written s none st = (st, false)
  save_into written s (some d) st =
      if written then (put_dir s.dir (record d { state = some s }) st, true) else (st, false)

  -- `Save`: the rename puts the new state file in place of the old one, or neither call does
  -- anything to it. With its directory gone it fails.
  unfoldable pub save : Bool → Session A → Store A → Store A × Bool
  save written s st = save_into written s (dir_at s.dir st) st

  abbrev empty_dir : ℕ → JobDir A
  empty_dir now = record { state = none; stills = []; preview = 0; mod_time = now }

  abbrev or_empty : ℕ → Option (JobDir A) → JobDir A
  or_empty now none = empty_dir now
  or_empty now (some d) = d

  -- `os.MkdirAll`
  unfoldable pub mkdir : ℕ → Place → Store A → Store A
  mkdir now dir st = put_dir dir (or_empty now (dir_at dir st)) st

  -- `Discard`
  unfoldable pub discard : Session A → Store A → Store A
  discard s st = remove_dir s.dir st

  abbrev park_dir :
      Text → Session A → Option (JobDir A) → Bool → Store A → Store A × (Session A × Bool)
  park_dir name s (some d) true st =
      (put_dir (parked name) d (remove_dir s.dir st), (record s { dir = parked name }, true))
  park_dir name s _ _ st = (remove_dir s.dir st, (s, false))

  abbrev is_free : Option (JobDir A) → Bool
  is_free none = true
  is_free (some d) = false

  -- `Park`. A rename onto a directory that is there, with its files, fails; so may any other.
  unfoldable pub park : Bool → Session A → Text → Store A → Store A × (Session A × Bool)
  park renamed s reason st =
      let name = reason ++ (text "-" ++ base s.dir) in
      park_dir name s (dir_at s.dir st) (renamed && is_free (get name st.failed)) st

  -- `SweepFailed` over the entries of `failed`: what is left, and how many went. A clock that reads
  -- less than the TTL has no cutoff before it, since times do not stop at 0.
  abbrev pub is_expired : ℕ → ℕ → JobDir A → Bool
  is_expired now ttl d = leb (d.mod_time + ttl) now

  sweep : ℕ → ℕ → (Text → Bool) → List (Text × JobDir A) → List (Text × JobDir A) × ℕ
  sweep now ttl removable [] = ([], 0)
  sweep now ttl removable ((name, d) ∷ rest) =
      let (left, n) = sweep now ttl removable rest in
      if is_expired now ttl d && removable name then (left, suc n) else ((name, d) ∷ left, n)

  unfoldable pub sweep_failed : ℕ → ℕ → (Text → Bool) → Store A → Store A × ℕ
  unfolding sweep
  sweep_failed now ttl removable st =
      let (left, n) = sweep now ttl removable st.failed in (record st { failed = left }, n)

  -- sort.Slice by `StartedAt.After`: one of the orders that it may leave.
  abbrev pub insert_newest : Session A → List (Session A) → List (Session A)
  insert_newest s [] = s ∷ []
  insert_newest s (t ∷ ts) =
      if leb t.started_at s.started_at then s ∷ t ∷ ts else t ∷ insert_newest s ts

  abbrev add_session : Option (Session A) → List (Session A) → List (Session A)
  add_session none out = out
  add_session (some s) out = insert_newest s out

  abbrev loaded : Text → JobDir A → Option (Session A)
  loaded name d = if has_prefix name (text "job-") then at_place (staged name) d.state else none

  unfoldable pub list_entries : List (Text × JobDir A) → List (Session A)
  list_entries [] = []
  list_entries ((name, d) ∷ rest) = add_session (loaded name d) (list_entries rest)

  -- `List`
  unfoldable pub list : Store A → List (Session A)
  unfolding list_entries
  list st = list_entries st.jobs

  abbrev create_saved : Session A → Store A × Bool → Store A × Created A
  create_saved s (st, true) = (st, created s false)
  create_saved s (st, false) = (st, cannot_create)

  abbrev create_new : Bool → Bool → Session A → ℕ → Store A → Store A × Created A
  create_new made written s now st =
      if made then create_saved s (save written s (mkdir now s.dir st)) else (st, cannot_create)

  abbrev create_or_open : Option (Session A) → Store A × Created A → Store A → Store A × Created A
  create_or_open (some existing) fresh st = (st, created existing true)
  create_or_open none fresh st = fresh

module _ {A : Type 0} ⦃f : Float A⦄ where
  unfoldable pub new_session : ℕ → Text → Text → ℤ → ℤ → Session A
  unfolding job_dir no_temps
  new_session now task job total layer = record {
    task_id = task;
    job_name = job;
    started_at = now;
    frames = 0;
    last_layer = no_layer;
    total_layers = total;
    layers = [];
    nozzle = no_temps;
    bed = no_temps;
    filament = [];
    pauses = 0;
    partial = ltb_ℤ (pos 1) layer;
    dir = job_dir task;
  }

  -- `Create`
  unfoldable pub create : Bool → Bool → ℕ → Text → Text → ℤ → ℤ → Store A → Store A × Created A
  create made written now task job total layer st =
      create_or_open (load (job_dir task) st)
        (create_new made written (new_session now task job total layer) now st) st
