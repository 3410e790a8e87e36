-- ===== src/Ofed/DriverPods/Evidence.antt =====
-- About VerifyOFEDDriverPods: the containers behind the returned image IDs.
use nvidia_ci.Common.{
  Bool, not, ◌&&◌, true, false, ◌≡◌, refl, ◌∙◌, subst, inl, inr, List, [], ◌∷◌, arith, Has,
  Bool-cases, ok, err-ne-ok, ok_inj,
}
use nvidia_ci.Text.{Text, text_eq, is_empty}
use nvidia_ci.Text.Search.{text_eq_sound}
use nvidia_ci.Text.Trim.{trim_space}
use nvidia_ci.Text.Labels.{Labels, insert, label}
use nvidia_ci.Text.Labels.Laws.{label-insert}
use nvidia_ci.Ofed.DriverPods.Defs.{
  ContainerStatus, Pod, serves, note_containers, is_candidate, note_pods, note_workers, two_workers,
  verify_ofed_driver_pods,
}

-- A container of a candidate pod serves the image with this ID.
pub record Evidence (pods : List Pod) (requested worker id : Text) : Type 0 where
  pub pod : Pod
  pub has_pod : Has pod pods
  pub candidate : is_candidate worker pod ≡ true
  pub container : ContainerStatus
  pub has_container : Has container pod.container_statuses
  pub serving : serves requested container ≡ true
  pub id_of : id ≡ container.image_id

module _ (pods : List Pod) (requested : Text) where
  -- Each entry has its evidence.
  abbrev IsBacked : Labels → Type 0
  IsBacked ids =
      (w : Text) → is_empty (label w ids) ≡ false → Evidence pods requested w (label w ids)

  insert-IsBacked :
      (worker id : Text) (ids : Labels)
      → Evidence pods requested worker id
      → IsBacked ids
      → IsBacked (insert worker id ids)
  insert-IsBacked worker id ids ev h w ne = elim (Bool-cases (text_eq worker w)) [
    | inl e ↦
        let written : label w (insert worker id ids) ≡ id = label-insert worker w id ids ∙ rw e in
        rw written (subst (λ x. Evidence pods requested x id) (text_eq_sound worker w e) ev)
    | inr e ↦
        let kept : label w (insert worker id ids) ≡ label w ids =
          label-insert worker w id ids ∙ rw e in
        rw kept (h w (rw kept at ne))
  ]

  note_containers-IsBacked :
      (worker : Text) (pod : Pod)
      → Has pod pods
      → is_candidate worker pod ≡ true
      → (cs : List ContainerStatus)
      → ((c : ContainerStatus) → Has c cs → Has c pod.container_statuses)
      → (ids : Labels) → IsBacked ids
      → IsBacked (note_containers requested worker cs ids)
  unfolding note_containers
  note_containers-IsBacked worker pod hp cand [] sub ids h = h
  note_containers-IsBacked worker pod hp cand (c ∷ cs) sub ids h =
      elim (Bool-cases (serves requested c)) [
        | inl e ↦ rw e (
            note_containers-IsBacked worker pod hp cand cs (λ d k. sub d (inr k))
              (insert worker c.image_id ids)
              (insert-IsBacked worker c.image_id ids
                record {
                  pod = pod;
                  has_pod = hp;
                  candidate = cand;
                  container = c;
                  has_container = sub c (inl refl);
                  serving = e;
                  id_of = refl;
                }
                h))
        | inr e ↦ rw e (note_containers-IsBacked worker pod hp cand cs (λ d k. sub d (inr k)) ids h)
      ]

  note_pods-IsBacked :
      (worker : Text) (ps : List Pod)
      → ((p : Pod) → Has p ps → Has p pods)
      → (ids : Labels) → IsBacked ids
      → IsBacked (note_pods requested worker ps ids)
  unfolding note_pods
  note_pods-IsBacked worker [] sub ids h = h
  note_pods-IsBacked worker (p ∷ ps) sub ids h = elim (Bool-cases (is_candidate worker p)) [
    | inl e ↦ rw e (
        note_pods-IsBacked worker ps (λ q k. sub q (inr k)) _
          (note_containers-IsBacked worker p (sub p (inl refl)) e p.container_statuses (λ c k. k)
            ids h))
    | inr e ↦ rw e (note_pods-IsBacked worker ps (λ q k. sub q (inr k)) ids h)
  ]

  note_workers-IsBacked :
      (workers : List Text) (ids : Labels) {out : Labels}
      → IsBacked ids
      → note_workers requested pods workers ids ≡ ok out
      → IsBacked out
  unfolding note_workers
  note_workers-IsBacked [] ids h e = subst IsBacked (ok_inj e) h
  note_workers-IsBacked (w ∷ ws) ids h e =
      elim (Bool-cases (is_empty (label w (note_pods requested w pods ids)))) [
        | inl n ↦ absurd (err-ne-ok (rw n at e))
        | inr n ↦
            note_workers-IsBacked ws (note_pods requested w pods ids)
              (note_pods-IsBacked w pods (λ p k. k) ids h) (rw n at e)
      ]

-- Entries that are not "" stay so.
abbrev Keeps : Labels → Labels → Type 0
Keeps ids ids' = (w : Text) → is_empty (label w ids) ≡ false → is_empty (label w ids') ≡ false

serves-ne-empty :
    (requested : Text) (c : ContainerStatus)
    → serves requested c ≡ true
    → is_empty c.image_id ≡ false
unfolding serves
serves-ne-empty requested c h = of_id c.image_id (ground arith)
  where
    of_id : (id : Text) → is_empty (trim_space id) ≡ false → is_empty id ≡ false
    of_id [] e = unfold trim_space in e
    of_id (b ∷ id) e = refl

insert-Keeps :
    (worker id : Text) (ids : Labels) → is_empty id ≡ false → Keeps ids (insert worker id ids)
insert-Keeps worker id ids ne w h = elim (Bool-cases (text_eq worker w)) [
  | inl e ↦ rw label-insert (rw e ne)
  | inr e ↦ rw label-insert (rw e h)
]

note_containers-Keeps :
    (requested worker : Text) (cs : List ContainerStatus) (ids : Labels)
    → Keeps ids (note_containers requested worker cs ids)
unfolding note_containers
note_containers-Keeps requested worker [] ids w h = h
note_containers-Keeps requested worker (c ∷ cs) ids w h = elim (Bool-cases (serves requested c)) [
  | inl e ↦ rw e (
      note_containers-Keeps requested worker cs (insert worker c.image_id ids) w
        (insert-Keeps worker c.image_id ids (serves-ne-empty requested c e) w h))
  | inr e ↦ rw e (note_containers-Keeps requested worker cs ids w h)
]

note_pods-Keeps :
    (requested worker : Text) (ps : List Pod) (ids : Labels)
    → Keeps ids (note_pods requested worker ps ids)
unfolding note_pods
note_pods-Keeps requested worker [] ids w h = h
note_pods-Keeps requested worker (p ∷ ps) ids w h = elim (Bool-cases (is_candidate worker p)) [
  | inl e ↦ rw e (
      note_pods-Keeps requested worker ps
        (note_containers requested worker p.container_statuses ids) w
        (note_containers-Keeps requested worker p.container_statuses ids w h))
  | inr e ↦ rw e (note_pods-Keeps requested worker ps ids w h)
]

note_workers_complete :
    (pods : List Pod) (requested : Text) (workers : List Text) (ids : Labels) {out : Labels}
    → note_workers requested pods workers ids ≡ ok out
    → Keeps ids out × ((w : Text) → Has w workers → is_empty (label w out) ≡ false)
unfolding note_workers
note_workers_complete pods requested [] ids e =
    (λ w h. subst (λ m. is_empty (label w m) ≡ false) (ok_inj e) h, λ w i. absurd i)
note_workers_complete pods requested (v ∷ vs) ids e =
    elim (Bool-cases (is_empty (label v (note_pods requested v pods ids)))) [
      | inl n ↦ absurd (err-ne-ok (rw n at e))
      | inr n ↦
          let (keeps, rest) =
            note_workers_complete pods requested vs (note_pods requested v pods ids) (rw n at e) in
          (
            λ w h. keeps w (note_pods-Keeps requested v pods ids w h),
            λ w i. elim i [ inl s ↦ rw s (keeps v n) | inr has ↦ rest w has ],
          )
    ]

-- The same, with the tests of the pod and of its container spelled out.
pub record Uses (pods : List Pod) (requested worker id : Text) : Type 0 where
  pub pod : Pod
  pub has_pod : Has pod pods
  pub on_worker : pod.node_name ≡ worker
  pub phase : pod.phase_running ≡ true
  pub kept : pod.deleting ≡ false
  pub container : ContainerStatus
  pub has_container : Has container pod.container_statuses
  pub image : container.image ≡ requested
  pub ready : container.ready ≡ true
  pub running : container.is_running ≡ true
  pub id_of : id ≡ container.image_id

three : (a b c : Bool) → (a && b && c) ≡ true → (a ≡ true) × (b ≡ true) × (c ≡ true)
three a b c h = ground arith

four : (a b c d : Bool) → (a && b && c && d) ≡ true → (a ≡ true) × (b ≡ true) × (c ≡ true)
four a b c d h = ground arith

not-true : (b : Bool) → not b ≡ true → b ≡ false
not-true b h = ground arith

Evidence-Uses :
    (pods : List Pod) (requested worker id : Text)
    → Evidence pods requested worker id
    → Uses pods requested worker id
unfolding serves
Evidence-Uses pods requested worker id e =
    let (on, phase, kept) =
      three (text_eq e.pod.node_name worker) e.pod.phase_running (not e.pod.deleting) e.candidate in
    let (image, ready, running) =
      four (text_eq e.container.image requested) e.container.ready e.container.is_running
        (not (is_empty (trim_space e.container.image_id))) e.serving in
    record {
      pod = e.pod;
      has_pod = e.has_pod;
      on_worker = text_eq_sound e.pod.node_name worker on;
      phase = phase;
      kept = not-true e.pod.deleting kept;
      container = e.container;
      has_container = e.has_container;
      image = text_eq_sound e.container.image requested image;
      ready = ready;
      running = running;
      id_of = e.id_of;
    }

-- If the check succeeds, each of the two workers has, under its name, the image ID of a ready and
-- running container of exactly the requested image, in a running pod on that worker that is not
-- being deleted.
pub verify_ofed_driver_pods-Uses :
    (pods : List Pod) (requested : Text) (workers : List Text) (ids : Labels)
    → verify_ofed_driver_pods pods requested workers ≡ ok ids
    → (w : Text) → Has w workers
    → Uses pods requested w (label w ids)
unfolding verify_ofed_driver_pods
verify_ofed_driver_pods-Uses pods requested workers ids h w has =
    elim (Bool-cases (two_workers workers)) [
      | inl e ↦
          let run = rw e at h in
          Evidence-Uses pods requested w (label w ids) (
            note_workers-IsBacked pods requested workers [] (λ v ne. absurd (empty_label v ne)) run
              w ((note_workers_complete pods requested workers [] run).1 w has))
      | inr e ↦ absurd (err-ne-ok (rw e at h))
    ]
  where
    empty_label : (v : Text) → is_empty (label v []) ≡ false → ⊥
    empty_label v ne = unfold label in cc ne
