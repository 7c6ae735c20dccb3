-- ===== src/Containers/Outcomes.antt =====
-- How create_container (src/container_runtime.py) ends: with an exception and no container, or with one
-- container, and what becomes of the egress policy.
use tacktcix.Prelude.{
  ◌≡◌, ◌⊎◌, refl, ap, ◌∙◌, inl, inr, String, Option, Option-cases, List, [], ◌∷◌, ◌++◌, Bool-cases,
  false,
}
use tacktcix.Prelude.Action.{after}
use tacktcix.Prelude.Outcome.{ok, raise, Error, sandbox_error, Outcome-cases}
use tacktcix.Egress.{NetworkEgressConfig}
use tacktcix.Egress.Rules.{apply_to_container}
use tacktcix.Workers.{Launch}
use tacktcix.Containers.{Docker, Settings, Runtime, RunOptions, run_options, needs_egress}
use tacktcix.Containers.Started.{ensure_image-KeepsStarted, prepare_workspace-KeepsStarted}
use tacktcix.Containers.Sandboxes.{
  ensure_image, prepare_workspace, run_container, enforce_egress, apply_egress_rules, exec_run,
  choose_image, create_container,
}

module _ (d : Docker) (settings : Settings) where
  enforce_egress_quiet :
      (l : Launch) (cid : String) (r : Runtime d) → enforce_egress d settings l cid r ≡ r
  unfolding enforce_egress apply_egress_rules apply_to_container exec_run
  enforce_egress_quiet l cid r =
      elim (Option-cases (needs_egress settings.egress l.network_access l.agent_capabilities)) [
        | inl q ↦ rw (q, enforce_egress) refl
        | inr (e, q) ↦ rw (q, enforce_egress) refl
      ]

  run_container_outcome :
      (o : RunOptions) (r : Runtime d)
      → ((x : Error) × ((run_container d o r).0 ≡ raise x)
          × ((run_container d o r).1.started ≡ r.started))
        ⊎ ((cid : String) × ((run_container d o r).0 ≡ ok cid)
            × ((d.run o r.world).0 ≡ ok cid)
            × ((run_container d o r).1.started ≡ r.started ++ o ∷ [])
            × ((run_container d o r).1.world ≡ (d.run o r.world).1))
  unfolding run_container
  run_container_outcome o r = elim (Bool-cases r.connected) [
    | inr q ↦ inl (sandbox_error, rw q refl, rw q refl)
    | inl q ↦ elim (Outcome-cases (d.run o r.world).0) [
      | inl (cid, k) ↦ inr (cid, rw (q, k) refl, k, rw (q, k) refl, rw (q, k) refl)
      | inr (x, k) ↦ inl (x, rw (q, k) refl, rw (q, k) refl)
    ]
  ]

  ensure_image_started :
      (image : String) (r : Runtime d) → (ensure_image d settings image r).1.started ≡ r.started
  ensure_image_started image r =
      (ensure_image-KeepsStarted d settings (λ s. s ≡ r.started) image).keep r refl

  prepare_workspace_started :
      (workspace : Option String) (r : Runtime d)
      → (prepare_workspace d workspace r).1.started ≡ r.started
  prepare_workspace_started workspace r =
      (prepare_workspace-KeepsStarted d settings (λ s. s ≡ r.started) workspace).keep r refl

  -- Creating a container ends in one of two ways. It raises, and no container was started; or it
  -- returns the identifier that the daemon gave to one container, started with the options of the job
  -- in some folder, and nothing is done after the start: no filter script runs in the container, also
  -- where the job has network access and filtering is configured, and applying any policy is logged as
  -- failed.
  pub create_container_outcome :
      (image : Option String) (l : Launch) (r : Runtime d)
      → let end = create_container d settings image l r in
        ((x : Error) × (end.0 ≡ raise x) × (end.1.started ≡ r.started))
        ⊎ ((cid dir : String) × (w : d.World) × (end.0 ≡ ok cid)
            × ((d.run (run_options settings (choose_image settings image) l dir) w).0 ≡ ok cid)
            × (end.1.started
                ≡ r.started ++ run_options settings (choose_image settings image) l dir ∷ [])
            × (end.1.world ≡ (d.run (run_options settings (choose_image settings image) l dir) w).1)
            × ((c : NetworkEgressConfig) (caps : List String)
                → apply_egress_rules c caps cid ≡ false))
  unfolding create_container apply_egress_rules apply_to_container exec_run
  create_container_outcome image l r =
      let chosen = choose_image settings image in
      let same = ensure_image_started chosen r in
      elim (Outcome-cases (ensure_image d settings chosen r).0) [
        | inr (x, q) ↦ inl (x, rw (q, after) refl, rw (q, after) same)
        | inl (_, q) ↦
            let r1 = (ensure_image d settings chosen r).1 in
            let same1 = prepare_workspace_started l.workspace r1 ∙ same in
            elim (Outcome-cases (prepare_workspace d l.workspace r1).0) [
              | inr (x, k) ↦
                  inl (x, rw (q, after) (rw (k, after) refl), rw (q, after) (rw (k, after) same1))
              | inl (dir, k) ↦
                  let r2 = (prepare_workspace d l.workspace r1).1 in
                  elim (run_container_outcome (run_options settings chosen l dir) r2) [
                    | inl (x, raised, kept) ↦ inl (
                      x,
                      rw (q, after) (rw (k, after) (rw (raised, after) refl)),
                      rw (q, after) (rw (k, after) (rw (raised, after) (kept ∙ same1))),
                    )
                    | inr (cid, returned, ran, more, world) ↦
                        let r3 = (run_container d (run_options settings chosen l dir) r2).1 in
                        inr (
                          cid,
                          dir,
                          r2.world,
                          rw (q, after) (rw (k, after) (rw (returned, after) refl)),
                          ran,
                          rw (q, after)
                              (rw (k, after)
                                (rw (returned, after)
                                  (ap (λ r. r.started) (enforce_egress_quiet l cid r3)
                                    ∙ more
                                    ∙ ap (λ s. s ++ run_options settings chosen l dir ∷ [])
                                        same1))),
                          rw (q, after)
                              (rw (k, after)
                                (rw (returned, after)
                                  (ap (λ r. r.world) (enforce_egress_quiet l cid r3) ∙ world))),
                          λ c caps. refl,
                        )
                  ]
            ]
      ]
