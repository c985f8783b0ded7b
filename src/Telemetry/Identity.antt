-- ===== src/Telemetry/Identity.antt =====
-- internal/telemetry/report.go, `TaskID` and `forgetPreviousJob`: which job a report belongs to,
-- and what the arrival of another one clears.
use bambu_timelapse.Prelude.{
  pos, ◌≡◌, ◌≢◌, refl, true, false, none, List, [], ◌∷◌, map, arith, Bool-cases, inl, inr, ap, ◌⊎◌,
  sym, ◌∙◌,
}
use bambu_timelapse.Go.Text.{Text, text, text_eq, text_eq_iff, text_mem, is_empty, is_empty_iff}
use bambu_timelapse.Go.Float.{Float}
use bambu_timelapse.Telemetry.Json.{Members, lookup}
use bambu_timelapse.Telemetry.{
  State, job_scoped, id_keys, is_id, string_field, as_int, as_string, first_id, task_id, layer,
  total_layers, job_name, announces_new_job, merge_section,
}
use bambu_timelapse.Telemetry.Merge.{lookup-merge_section}

module _ {A : Type 0} ⦃f : Float A⦄ where
  -- A field that the report leaves out, of another job's view.
  forgotten :
      (s : State A) (section : Members A) (k : Text)
      → announces_new_job s section ≡ true
      → text_mem k job_scoped ≡ true
      → lookup k section ≡ none
      → lookup k (merge_section s section).fields ≡ none
  forgotten s section k new scoped missing =
      lookup-merge_section s section k ∙ (rw (missing, new, scoped))

  -- After a report that announces another job and gives neither a layer, a layer count nor a
  -- title, the layer and the layer count read 0 and the title is empty.
  pub new_job_starts_blank :
      (s : State A) (section : Members A)
      → announces_new_job s section ≡ true
      → lookup (text "layer_num") section ≡ none
      → lookup (text "total_layer_num") section ≡ none
      → lookup (text "subtask_name") section ≡ none
      → let t = merge_section s section in
        (layer t ≡ pos 0) × (total_layers t ≡ pos 0) × (job_name t ≡ [])
  unfolding layer total_layers job_name text_mem text_eq
  new_job_starts_blank s section new l t n = (
    ap as_int (forgotten s section (text "layer_num") new refl l),
    ap as_int (forgotten s section (text "total_layer_num") new refl t),
    ap as_string (forgotten s section (text "subtask_name") new refl n),
  )

  -- A field of the printer that the report leaves out.
  kept :
      (s : State A) (section : Members A) (k : Text)
      → text_mem k job_scoped ≡ false
      → lookup k section ≡ none
      → lookup k (merge_section s section).fields ≡ lookup k s.fields
  kept s section k unscoped missing =
      lookup-merge_section s section k ∙ rw (missing, unscoped) (ground arith)

  -- A view that has a `task_id` keeps it under a report that leaves it out.
  kept_id :
      (s : State A) (section : Members A)
      → lookup (text "task_id") section ≡ none
      → string_field (merge_section s section) (text "task_id") ≡ string_field s (text "task_id")
  unfolding string_field text_mem text_eq
  kept_id s section missing = ap as_string (kept s section (text "task_id") refl missing)

  first_of_keys :
      (s : State A)
      → is_id (string_field s (text "task_id")) ≡ true
      → task_id s ≡ string_field s (text "task_id")
  unfolding task_id
  first_of_keys s h = rw h

  other_id_announces :
      (s : State A) (section : Members A)
      → is_id (string_field s (text "task_id")) ≡ true
      → is_empty (task_id (record { fields = section })) ≡ false
      → task_id (record { fields = section }) ≢ task_id s
      → announces_new_job s section ≡ true
  unfolding announces_new_job
  other_id_announces s section known other differs = ground (
    arith,
    first_of_keys s known,
    text_eq_iff (task_id (record { fields = section })) (task_id s),
  )

  -- If the view has a `task_id`, and a report without one and without a layer carries another id
  -- that differs from it, the report is taken for another job: the task id stays, and the layer
  -- reads 0.
  pub other_id_clears_layer :
      (s : State A) (section : Members A)
      → is_id (string_field s (text "task_id")) ≡ true
      → lookup (text "task_id") section ≡ none
      → lookup (text "layer_num") section ≡ none
      → is_empty (task_id (record { fields = section })) ≡ false
      → task_id (record { fields = section }) ≢ task_id s
      → (task_id (merge_section s section) ≡ task_id s) × (layer (merge_section s section) ≡ pos 0)
  unfolding layer text_mem text_eq
  other_id_clears_layer s section known missing no_layer other differs =
      let new = other_id_announces s section known other differs in
      (
        first_of_keys (merge_section s section) (rw (kept_id s section missing) known)
            ∙ (kept_id s section missing ∙ sym (first_of_keys s known)),
        ap as_int (forgotten s section (text "layer_num") new refl no_layer),
      )

-- `r` is the first of these texts that is neither empty nor "0", and empty if there is none.
abbrev pub FirstOf : List Text → Text → Type 0
FirstOf [] r = r ≡ []
FirstOf (v ∷ vs) r =
    ((v ≢ []) × (v ≢ text "0") × (r ≡ v)) ⊎ (((v ≡ []) ⊎ (v ≡ text "0")) × FirstOf vs r)

is_id-true : (v : Text) → is_id v ≡ true → (v ≢ []) × (v ≢ text "0")
is_id-true v h =
    (λ e. ground (arith, is_empty_iff v), λ e. ground (arith, text_eq_iff v (text "0")))

is_id-false : (v : Text) → is_id v ≡ false → (v ≡ []) ⊎ (v ≡ text "0")
is_id-false v h = ground (arith, is_empty_iff v, text_eq_iff v (text "0"))

module _ {A : Type 0} ⦃f : Float A⦄ where
  first_id-FirstOf :
      (ks : List Text) (s : State A) → FirstOf (map (string_field s) ks) (first_id ks s)
  unfolding first_id
  first_id-FirstOf [] s = refl
  first_id-FirstOf (k ∷ ks) s = elim (Bool-cases (is_id (string_field s k))) [
    | inl good ↦
        let (full, other) = is_id-true (string_field s k) good in inl (full, other, rw good refl)
    | inr bad ↦ inr (is_id-false (string_field s k) bad, rw bad (first_id-FirstOf ks s))
  ]

  -- The task id is the first of the fields `task_id`, `subtask_id`, `lan_task_id` and `job_id`, in
  -- this order, that is neither empty nor "0", and it is empty if each of the four is one of these.
  pub task_id_lem :
      (s : State A)
      → FirstOf
          (string_field s (text "task_id")
            ∷ string_field s (text "subtask_id")
            ∷ string_field s (text "lan_task_id")
            ∷ string_field s (text "job_id")
            ∷ [])
          (task_id s)
  unfolding task_id
  task_id_lem s = first_id-FirstOf id_keys s
