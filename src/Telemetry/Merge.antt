-- ===== src/Telemetry/Merge.antt =====
-- internal/telemetry/report.go, `Merge`: what one report does to every field of the view.
use bambu_timelapse.Prelude.{
  ◌≡◌, refl, false, ◌&&◌, none, arith, if◌then◌else◌, Bool-cases, inl, inr, ap,
}
use bambu_timelapse.Go.Text.{Text, text_mem}
use bambu_timelapse.Go.Float.{Float}
use bambu_timelapse.Telemetry.Json.{Members, lookup, or_else, lookup-insert_all, lookup-delete_all}
use bambu_timelapse.Telemetry.{
  State, Decoder, job_scoped, announces_new_job, forget_previous_job, merge_section, merge,
}

module _ {A : Type 0} ⦃f : Float A⦄ where
  lookup-forget_previous_job :
      (s : State A) (section : Members A) (k : Text)
      → lookup k (forget_previous_job s section).fields
        ≡ (if announces_new_job s section && text_mem k job_scoped then none else lookup k s.fields)
  unfolding forget_previous_job
  lookup-forget_previous_job s section k = elim (Bool-cases (announces_new_job s section)) [
    | inl new ↦ rw new (lookup-delete_all k job_scoped s.fields)
    | inr same ↦ rw same refl
  ]

  -- After a report, a field has the value that the report gives it. A field that the report leaves
  -- out keeps its value, unless the report announces another job and the field describes the job:
  -- then it is gone.
  pub lookup-merge_section :
      (s : State A) (section : Members A) (k : Text)
      → lookup k (merge_section s section).fields
        ≡ or_else (lookup k section) (
            if announces_new_job s section && text_mem k job_scoped
            then none
            else lookup k s.fields)
  unfolding merge_section
  lookup-merge_section s section k =
      rw (lookup-insert_all k section (forget_previous_job s section).fields)
        (ap (or_else (lookup k section)) (lookup-forget_previous_job s section k))

  -- What is no report leaves the view as it was.
  pub merge-false :
      (d : Decoder A) (s : State A) (payload : Text)
      → (merge d s payload).1 ≡ false
      → (merge d s payload).0 ≡ s
  unfolding merge
  merge-false d s payload h = ground arith
