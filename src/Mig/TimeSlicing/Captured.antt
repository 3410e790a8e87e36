-- ===== src/Mig/TimeSlicing/Captured.antt =====
-- About the ConfigMap of the device plugin, and what a capture says of it and of the ClusterPolicy.
use nvidia_ci.Common.{
  suc, ◌≡◌, refl, sym, ap, ◌∙◌, subst, Bool-cases, inl, inr, Option, none, some, if◌then◌else◌, ok,
}
use nvidia_ci.Text.{Text}
use nvidia_ci.Text.Labels.{Labels}
use nvidia_ci.Text.Number.{ℤ}
use nvidia_ci.Mig.TimeSlicing.Store.{
  Spec, World, Faults, tick, Action, continue, ◌>>=◌, add_config_map, write_config_map,
  drop_config_map, read_config_map,
}
use nvidia_ci.Mig.TimeSlicing.Defs.{
  ts_dpcd, merged, lift, after_create, update_config_map, Snapshot, snapshot_config, snapshot_with,
  capture_snapshot, restored, rewritten, restore_config_map, pull_policy,
}
use nvidia_ci.Cluster.Crd.{CrdBuilder}
use nvidia_ci.Mig.TimeSlicing.Policy.{
  no_faults, failed-ne-done, world_of, value_of, pulled_builder, pull_policy-eq,
}

module _ (writes : Faults) where
  -- The ConfigMap is there behind its creation or update, and the policy is as before.
  abbrev pub IsMade : World → World → Type 0
  IsMade w w' = (w'.policy ≡ w.policy) × ((m : Labels) × (w'.config_map ≡ some m))

  after_write :
      (f : Option Text) (o : Option Labels) (d out : Labels) (w w' : World)
      → lift (write_config_map f o d w) ≡ (ok out, w')
      → IsMade w w'
  after_write (some e) o d out w w' h = absurd (failed-ne-done h)
  after_write none none d out w w' h = absurd (failed-ne-done h)
  after_write none (some old) d out w w' h = subst (IsMade w) (world_of h) (refl, (d, refl))

  after_add :
      (f : Option Text) (o : Option Labels) (d out : Labels) (w w' : World)
      → after_create no_faults writes d (add_config_map f o d (record w { config_map = o }))
        ≡ (ok out, w')
      → IsMade w w'
  after_add (some e) o d out w w' h = absurd (failed-ne-done h)
  after_add none none d out w w' h = subst (IsMade w) (world_of h) (refl, (d, refl))
  after_add none (some old) d out w w' h =
      let (same, made) =
        after_write (writes (suc w.calls)) (some old) (merged d old) out
          (tick (record w { config_map = some old })) w' h in
      (same, made)

  pub update_config_map-IsMade :
      (print : ℤ → Text) (product : Text) (replicas : ℤ) (out : Labels) (w w' : World)
      → update_config_map no_faults writes print product replicas w ≡ (ok out, w')
      → IsMade w w'
  unfolding update_config_map
  update_config_map-IsMade print product replicas out w w' h =
      after_add (writes w.calls) w.config_map (ts_dpcd print product replicas) out w w' h

  -- The restored data, by what the snapshot says there was.
  abbrev pub IsBack : Snapshot → World → World → Type 0
  IsBack snap w w' =
      (w'.policy ≡ w.policy)
      × (w'.config_map ≡ (if snap.config_map_existed then some snap.config_map_data else none))

  after_drop :
      (f : Option Text) (o : Option Labels) (w w' : World)
      → restored no_faults writes (drop_config_map f o (record w { config_map = o })) ≡ (ok tt, w')
      → (w'.policy ≡ w.policy) × (w'.config_map ≡ none)
  after_drop (some e) o w w' h = absurd (failed-ne-done h)
  after_drop none none w w' h =
      subst (λ v. (v.policy ≡ w.policy) × (v.config_map ≡ none)) (world_of h) (refl, refl)
  after_drop none (some old) w w' h =
      subst (λ v. (v.policy ≡ w.policy) × (v.config_map ≡ none)) (world_of h) (refl, refl)

  after_rewrite :
      (f : Option Text) (d m : Labels) (w w' : World)
      → rewritten no_faults writes
          (write_config_map f (some m) d (record w { config_map = some m }))
        ≡ (ok tt, w')
      → (w'.policy ≡ w.policy) × (w'.config_map ≡ some d)
  after_rewrite (some e) d m w w' h = absurd (failed-ne-done h)
  after_rewrite none d m w w' h =
      subst (λ v. (v.policy ≡ w.policy) × (v.config_map ≡ some d)) (world_of h) (refl, refl)

  pub restore_config_map-IsBack :
      (snap : Snapshot) (m : Labels) (w w' : World)
      → w.config_map ≡ some m
      → restore_config_map no_faults writes snap w ≡ (ok tt, w')
      → IsBack snap w w'
  unfolding restore_config_map
  restore_config_map-IsBack snap m w w' there h = elim (Bool-cases snap.config_map_existed) [
    | inl e ↦ rw e (after_rewrite (writes w.calls) snap.config_map_data m w w' (rw (e, there) at h))
    | inr e ↦ rw e (after_drop (writes w.calls) w.config_map w w' (rw e at h))
  ]

  -- What the snapshot says.
  abbrev pub HasTaken : Snapshot → Spec → World → Type 0
  HasTaken snap spec w =
      (snap.had_device_plugin_config ≡ (snapshot_config spec.device_plugin_config).0)
      × (snap.device_plugin_config ≡ (snapshot_config spec.device_plugin_config).1)
      × (snap.gfd_enabled ≡ spec.gfd_enabled)
      × ((if snap.config_map_existed then some snap.config_map_data else none) ≡ w.config_map)

  taken :
      (o : Option Labels) (spec : Spec) (snap : Snapshot) (w w' : World)
      → w.config_map ≡ o
      → snapshot_with no_faults writes spec (read_config_map none o) w ≡ (ok snap, w')
      → (w ≡ w') × HasTaken snap spec w
  taken none spec snap w w' at h =
      (world_of h, subst (λ s. HasTaken s spec w) (value_of h) (refl, refl, refl, sym at))
  taken (some d) spec snap w w' at h =
      (world_of h, subst (λ s. HasTaken s spec w) (value_of h) (refl, refl, refl, sym at))

  -- A pull, and what goes on with the builder.
  pub pulled :
      {A : Type 0} (f : CrdBuilder Spec → Action A) (w w' : World) (spec : Spec) {a : A}
      → w.policy ≡ some spec
      → (pull_policy no_faults writes >>= f) w ≡ (ok a, w')
      → f (pulled_builder spec) w ≡ (ok a, w')
  pulled f w w' spec there h = sym (ap (continue f) (pull_policy-eq writes w spec there)) ∙ h

  pub capture_snapshot-HasTaken :
      (spec : Spec) (snap : Snapshot) (w w' : World)
      → w.policy ≡ some spec
      → capture_snapshot no_faults writes w ≡ (ok snap, w')
      → (w ≡ w') × HasTaken snap spec w
  unfolding capture_snapshot
  capture_snapshot-HasTaken spec snap w w' there h =
      taken w.config_map spec snap w w' refl (pulled _ w w' spec there h)
