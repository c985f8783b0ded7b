-- ===== src/Telemetry/Filament/Entries.antt =====
-- internal/telemetry/report.go, `Filament`: the summary against the list of all entries.
use bambu_timelapse.Prelude.{
  ◌≡◌, refl, false, ◌||◌, Option, none, some, List, [], ◌∷◌, ◌++◌, arith, if◌then◌else◌, Bool-cases,
  inl, inr, ap, sym, ◌∙◌,
}
use bambu_timelapse.Go.Text.{Text, text, text_eq_iff, text_mem, is_empty}
use bambu_timelapse.Telemetry.Json.{Items, nil, cons, Members, lookup}
use bambu_timelapse.Telemetry.{State}
use bambu_timelapse.Telemetry.Filament.{
  Summary, start, text_of, members_of, items_of, short_colour, with_colour, add_entry, add_tray,
  add_trays, add_unit, add_units, add_trays_of, units_of, filaments, summarise,
}

-- No text occurs twice.
abbrev pub Distinct : List Text → Type 0
Distinct [] = Unit
Distinct (x ∷ xs) = (text_mem x xs ≡ false) × Distinct xs

pub text_mem-append :
    (e : Text) (xs ys : List Text) → text_mem e (xs ++ ys) ≡ (text_mem e xs || text_mem e ys)
unfolding text_mem
text_mem-append e [] ys = refl
text_mem-append e (x ∷ xs) ys = ground (arith, text_mem-append e xs ys)

text_mem-snoc :
    (x e : Text) (xs : List Text)
    → text_mem e (x ∷ xs) ≡ false
    → text_mem x xs ≡ false
    → text_mem x (xs ++ e ∷ []) ≡ false
unfolding text_mem
text_mem-snoc x e xs new h =
    text_mem-append x xs (e ∷ []) ∙ ground (arith, text_eq_iff x e, text_eq_iff e x)

Distinct-snoc :
    (e : Text) (xs : List Text) → text_mem e xs ≡ false → Distinct xs → Distinct (xs ++ e ∷ [])
unfolding text_mem
Distinct-snoc e [] new d = (refl, tt)
Distinct-snoc e (x ∷ xs) new d =
    (text_mem-snoc x e xs new d.0, Distinct-snoc e xs (ground arith) d.1)

-- Between two trays: what was seen is what is kept, once.
record IsClean (a : Summary) : Type 0 where
  same : (e : Text) → text_mem e a.seen ≡ text_mem e a.out
  distinct : Distinct a.out

seen_same :
    (x e : Text) (a : Summary) → IsClean a → text_mem x (e ∷ a.seen) ≡ text_mem x (a.out ++ e ∷ [])
unfolding text_mem
seen_same x e a h = ground (arith, h.same x, text_mem-append x a.out (e ∷ []))

add_entry-IsClean : (e : Text) (a : Summary) → IsClean a → IsClean (add_entry e a)
unfolding add_entry
add_entry-IsClean e a h = elim (Bool-cases (text_mem e a.seen)) [
  | inl old ↦ rw old h
  | inr new ↦ rw new (record {
    same = λ x. seen_same x e a h;
    distinct = Distinct-snoc e a.out (sym (h.same e) ∙ new) h.distinct;
  })
]

add_all : List Text → Summary → Summary
add_all [] a = a
add_all (e ∷ es) a = add_all es (add_entry e a)

add_all-append :
    (xs ys : List Text) (a : Summary) → add_all (xs ++ ys) a ≡ add_all ys (add_all xs a)
unfolding add_all
add_all-append [] ys a = refl
add_all-append (x ∷ xs) ys a = add_all-append xs ys (add_entry x a)

add_all-IsClean : (es : List Text) (a : Summary) → IsClean a → IsClean (add_all es a)
unfolding add_all
add_all-IsClean [] a h = h
add_all-IsClean (e ∷ es) a h = add_all-IsClean es (add_entry e a) (add_entry-IsClean e a h)

add_entry-mem :
    (x e : Text) (a : Summary)
    → IsClean a
    → text_mem x (add_entry e a).out ≡ (text_mem x a.out || text_mem x (e ∷ []))
unfolding add_entry text_mem
add_entry-mem x e a h =
    ground (arith, h.same e, h.same x, text_eq_iff e x, text_mem-append x a.out (e ∷ []))

add_all-mem :
    (x : Text) (es : List Text) (a : Summary)
    → IsClean a
    → text_mem x (add_all es a).out ≡ (text_mem x a.out || text_mem x es)
unfolding add_all text_mem
add_all-mem x [] a h = ground arith
add_all-mem x (e ∷ es) a h =
    ground
      (arith, add_all-mem x es (add_entry e a) (add_entry-IsClean e a h), add_entry-mem x e a h)

start-IsClean : IsClean start
unfolding text_mem
start-IsClean = record { same = λ e. refl; distinct = tt }

module _ {A : Type 0} where
  -- The entries of the trays in the order of the report, with repetitions.
  abbrev pub entry_of_tray : Option (Members A) → List Text
  entry_of_tray none = []
  entry_of_tray (some tray) =
      let kind = text_of (lookup (text "tray_type") tray) in
      let colour = short_colour (text_of (lookup (text "tray_color") tray)) in
      if is_empty kind then [] else with_colour kind colour ∷ []

  abbrev pub entries_of_trays : Items A → List Text
  entries_of_trays nil = []
  entries_of_trays (cons t ts) = entry_of_tray (members_of (some t)) ++ entries_of_trays ts

  abbrev pub entries_of_list : Option (Items A) → List Text
  entries_of_list none = []
  entries_of_list (some trays) = entries_of_trays trays

  abbrev pub entries_of_unit : Option (Members A) → List Text
  entries_of_unit none = []
  entries_of_unit (some unit) = entries_of_list (items_of (lookup (text "tray") unit))

  abbrev pub entries_of_units : Items A → List Text
  entries_of_units nil = []
  entries_of_units (cons u us) = entries_of_unit (members_of (some u)) ++ entries_of_units us

  abbrev all_entries : Option (Items A) → List Text
  all_entries none = []
  all_entries (some units) = entries_of_units units

  abbrev pub entries : State A → List Text
  entries s = all_entries (units_of (members_of (lookup (text "ams") s.fields)))

  add_tray-eq : (t : Option (Members A)) (a : Summary) → add_tray t a ≡ add_all (entry_of_tray t) a
  unfolding add_tray add_all
  add_tray-eq none a = refl
  add_tray-eq (some tray) a =
      elim (Bool-cases (is_empty (text_of (lookup (text "tray_type") tray)))) [
        | inl blank ↦ rw blank refl
        | inr kind ↦ rw kind refl
      ]

  add_trays-eq : (ts : Items A) (a : Summary) → add_trays ts a ≡ add_all (entries_of_trays ts) a
  unfolding add_trays add_all
  add_trays-eq nil a = refl
  add_trays-eq (cons t ts) a =
      add_trays-eq ts (add_tray (members_of (some t)) a)
      ∙ (ap (add_all (entries_of_trays ts)) (add_tray-eq (members_of (some t)) a)
          ∙ sym (add_all-append (entry_of_tray (members_of (some t))) (entries_of_trays ts) a))

  add_list-eq :
      (o : Option (Items A)) (a : Summary) → add_trays_of o a ≡ add_all (entries_of_list o) a
  unfolding add_all
  add_list-eq none a = refl
  add_list-eq (some ts) a = add_trays-eq ts a

  add_unit-eq :
      (u : Option (Members A)) (a : Summary) → add_unit u a ≡ add_all (entries_of_unit u) a
  unfolding add_unit add_all
  add_unit-eq none a = refl
  add_unit-eq (some unit) a = add_list-eq (items_of (lookup (text "tray") unit)) a

  add_units-eq : (us : Items A) (a : Summary) → add_units us a ≡ add_all (entries_of_units us) a
  unfolding add_units add_all
  add_units-eq nil a = refl
  add_units-eq (cons u us) a =
      add_units-eq us (add_unit (members_of (some u)) a)
      ∙ (ap (add_all (entries_of_units us)) (add_unit-eq (members_of (some u)) a)
          ∙ sym (add_all-append (entries_of_unit (members_of (some u))) (entries_of_units us) a))

  summarise-eq : (o : Option (Items A)) → summarise o ≡ (add_all (all_entries o) start).out
  unfolding add_all
  summarise-eq none = refl
  summarise-eq (some units) = ap (λ (a : Summary). a.out) (add_units-eq units start)

  -- Before its cut to four, the summary names every entry of the loaded trays and nothing else,
  -- and none of them twice.
  pub filaments_lem :
      (s : State A)
      → Distinct (filaments s) × ((e : Text) → text_mem e (filaments s) ≡ text_mem e (entries s))
  unfolding filaments text_mem
  filaments_lem s =
      let o : Option (Items A) = units_of (members_of (lookup (text "ams") s.fields)) in
      rw (summarise-eq o) (
        (add_all-IsClean (all_entries o) start start-IsClean).distinct,
        λ e. add_all-mem e (all_entries o) start start-IsClean,
      )
