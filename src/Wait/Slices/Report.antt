-- ===== src/Wait/Slices/Report.antt =====
-- About gpuResourceSliceUUIDs: the UUIDs that it reports.
use nvidia_ci.Common.{
  ◌≡◌, refl, sym, ap, ◌∙◌, ◌↔◌, ◌⊎◌, inl, inr, Bool, true, false, Bool-cases, List, [], ◌∷◌, Option,
  none, some, some_inj, none-ne-some, false-ne-true, Has, if◌then◌else◌, subst, Result, ok, err,
  ok_inj, err-ne-ok, >>=-eq-ok, length,
}
use nvidia_ci.Text.{Text, text_eq}
use nvidia_ci.Text.Search.{text_eq_sound, text_eq_refl}
use nvidia_ci.Text.Labels.{lookup, insert}
use nvidia_ci.Text.Labels.Laws.{lookup-insert}
use nvidia_ci.Text.Labels.Distinct.{IsMap, insert-IsMap, Has→lookup, lookup→Has}
use nvidia_ci.Text.Number.{pos, lt_int, eq_int}
use nvidia_ci.Text.Number.Order.{lt_int_antisym, eq_int_sound}
use nvidia_ci.Wait.Slices.Defs.{
  Device, ResourceSlice, PoolSlices, Pools, fresh, joined, put_slice, current_pools, Uuids, uuid_of,
  add_devices, add_slices, add_pools, SliceError, no_uuid, gpu_resource_slice_uuids,
}
use nvidia_ci.Wait.Slices.Pools.{IsPools, pools_of_items}
use nvidia_ci.Wait.Slices.Counted.{slices_of, current_pools-slices_of}

-- An element of the list has the property.
abbrev pub Some : {A : Type 0} → (A → Type 0) → List A → Type 0
Some {A} P xs = (x : A) × Has x xs × P x

Some-cons :
    {A : Type 0} (P : A → Type 0) (x : A) (xs : List A) → Some P (x ∷ xs) ↔ (P x ⊎ Some P xs)
Some-cons P x xs = (there, back)
  where
    there : Some P (x ∷ xs) → P x ⊎ Some P xs
    there (y, inl e, p) = inl (subst P e p)
    there (y, inr has, p) = inr (y, has, p)

    back : P x ⊎ Some P xs → Some P (x ∷ xs)
    back (inl p) = (x, inl refl, p)
    back (inr (y, has, p)) = (y, inr has, p)

-- Two steps that add to a set, the first the one element's, the second the other elements'.
chained :
    {A : Type 0} {M B C : Type 0} (P : A → Type 0) (x : A) (xs : List A)
    → M ↔ (B ⊎ P x)
    → C ↔ (M ⊎ Some P xs)
    → C ↔ (B ⊎ Some P (x ∷ xs))
chained {M = M} {B = B} {C = C} P x xs first rest = (λ c. there (rest.0 c), λ b. rest.1 (back b))
  where
    there : M ⊎ Some P xs → B ⊎ Some P (x ∷ xs)
    there (inr s) = inr ((Some-cons P x xs).1 (inr s))
    there (inl m) = elim (first.0 m) [ inl b ↦ inl b | inr p ↦ inr ((Some-cons P x xs).1 (inl p)) ]

    back : B ⊎ Some P (x ∷ xs) → M ⊎ Some P xs
    back (inl b) = inl (first.1 (inl b))
    back (inr s) = elim ((Some-cons P x xs).0 s) [ inl p ↦ inl (first.1 (inr p)) | inr t ↦ inr t ]

-- Nothing is added.
unaltered :
    {A : Type 0} {m m' : Uuids} (P : A → Type 0) (u : Text)
    → ◌≡◌ {A = Result SliceError Uuids} (ok m) (ok m')
    → (lookup u m' ≡ some true) ↔ ((lookup u m ≡ some true) ⊎ Some P [])
unaltered P u e = (
  λ h. inl (ap (lookup u) (ok_inj e) ∙ h),
  elim [ inl h ↦ sym (ap (lookup u) (ok_inj e)) ∙ h | inr (x, has, p) ↦ absurd has ],
)

-- A device of the list, and of the slices of a list, that publishes the UUID.
abbrev pub Publishes : Text → Device → Type 0
Publishes u d = uuid_of d ≡ some u

abbrev pub SlicePublishes : Text → ResourceSlice → Type 0
SlicePublishes u s = Some (Publishes u) s.devices

abbrev pub PoolPublishes : Text → Text × PoolSlices → Type 0
PoolPublishes u e = Some (SlicePublishes u) e.1.slices

inserted_iff :
    (v u : Text) (m : Uuids)
    → (lookup u (insert v true m) ≡ some true) ↔ ((lookup u m ≡ some true) ⊎ (v ≡ u))
inserted_iff v u m = elim (Bool-cases (text_eq v u)) [
  | inl e ↦ (λ h. inr (text_eq_sound v u e), λ h. read true e)
  | inr e ↦ (
    λ h. inl (sym (read false e) ∙ h),
    elim [
      | inl h ↦ read false e ∙ h
      | inr same ↦ absurd (false-ne-true (sym e ∙ ap (text_eq v) (sym same) ∙ text_eq_refl v))
    ],
  )
]
  where
    read :
        (b : Bool)
        → text_eq v u ≡ b
        → lookup u (insert v true m) ≡ (if b then some true else lookup u m)
    read b e = lookup-insert v u true m ∙ ap (λ t. if t then some true else lookup u m) e

add_devices_iff :
    (acc m : Uuids) (ds : List Device) (u : Text)
    → add_devices acc ds ≡ ok m
    → (lookup u m ≡ some true) ↔ ((lookup u acc ≡ some true) ⊎ Some (Publishes u) ds)
unfolding add_devices
add_devices_iff acc m [] u h = unaltered (Publishes u) u h
add_devices_iff acc m (d ∷ ds) u h =
    go (uuid_of d) refl h (λ v h'. add_devices_iff (insert v true acc) m ds u h')
  where
    go :
        (o : Option Text)
        → uuid_of d ≡ o
        → elim o [ none ↦ err (no_uuid d.name) | some v ↦ add_devices (insert v true acc) ds ]
          ≡ ok m
        → ((v : Text)
            → add_devices (insert v true acc) ds ≡ ok m
            → (lookup u m ≡ some true)
              ↔ ((lookup u (insert v true acc) ≡ some true) ⊎ Some (Publishes u) ds))
        → (lookup u m ≡ some true) ↔ ((lookup u acc ≡ some true) ⊎ Some (Publishes u) (d ∷ ds))
    go none at h' further = absurd (err-ne-ok h')
    go (some v) at h' further =
        chained (Publishes u) d ds
          (let (a, b) = inserted_iff v u acc in
            (
              λ x. elim (a x) [ inl y ↦ inl y | inr e ↦ inr (at ∙ ap some e) ],
              elim [ inl y ↦ b (inl y) | inr e ↦ b (inr (some_inj (sym at ∙ e))) ],
            ))
          (further v h')

add_slices_iff :
    (acc m : Uuids) (ss : List ResourceSlice) (u : Text)
    → add_slices acc ss ≡ ok m
    → (lookup u m ≡ some true) ↔ ((lookup u acc ≡ some true) ⊎ Some (SlicePublishes u) ss)
unfolding add_slices
add_slices_iff acc m [] u h = unaltered (SlicePublishes u) u h
add_slices_iff acc m (s ∷ ss) u h =
    let (more, first, rest) = >>=-eq-ok (add_devices acc s.devices) (λ a. add_slices a ss) h in
    chained (SlicePublishes u) s ss (add_devices_iff acc more s.devices u first)
      (add_slices_iff more m ss u rest)

-- A pool is complete, and its slices are added.
pool_step :
    (acc m : Uuids) (e : Text × PoolSlices) (ps : Pools)
    → add_pools acc (e ∷ ps) ≡ ok m
    → (eq_int (pos (length e.1.slices)) e.1.count ≡ true)
      × ((more : Uuids) × (add_slices acc e.1.slices ≡ ok more) × (add_pools more ps ≡ ok m))
unfolding add_pools
pool_step acc m (name, pool) ps h =
    elim (Bool-cases (eq_int (pos (length pool.slices)) pool.count)) [
      | inl e ↦ (e, >>=-eq-ok (add_slices acc pool.slices) (λ more. add_pools more ps) (rw e at h))
      | inr e ↦ absurd (err-ne-ok (rw e at h))
    ]

add_pools_iff :
    (acc m : Uuids) (ps : Pools) (u : Text)
    → add_pools acc ps ≡ ok m
    → (lookup u m ≡ some true) ↔ ((lookup u acc ≡ some true) ⊎ Some (PoolPublishes u) ps)
add_pools_iff acc m [] u h = unaltered (PoolPublishes u) u (unfold add_pools in h)
add_pools_iff acc m (e ∷ ps) u h =
    let (full, (more, first, rest)) = pool_step acc m e ps h in
    chained (PoolPublishes u) e ps (add_slices_iff acc more e.1.slices u first)
      (add_pools_iff more m ps u rest)

add_pools_complete :
    (acc m : Uuids) (ps : Pools) (e : Text × PoolSlices)
    → add_pools acc ps ≡ ok m
    → Has e ps
    → e.1.count ≡ pos (length e.1.slices)
add_pools_complete acc m [] e h has = absurd has
add_pools_complete acc m (f ∷ ps) e h (inl same) =
    let (full, (more, first, rest)) = pool_step acc m f ps h in
    subst (λ (x : Text × PoolSlices). x.1.count ≡ pos (length x.1.slices)) (sym same)
      (sym (eq_int_sound (pos (length f.1.slices)) f.1.count full))
add_pools_complete acc m (f ∷ ps) e h (inr has) =
    let (full, (more, first, rest)) = pool_step acc m f ps h in
    add_pools_complete more m ps e rest has

current_pools-IsMap :
    (pools : Pools) (items : List ResourceSlice) → IsMap pools → IsMap (current_pools pools items)
unfolding current_pools
current_pools-IsMap pools [] h = h
current_pools-IsMap pools (s ∷ items) h =
    current_pools-IsMap (put_slice (lookup s.pool_name pools) pools s) items
      (put (lookup s.pool_name pools))
  where
    put : (o : Option PoolSlices) → IsMap (put_slice o pools s)
    put none = insert-IsMap s.pool_name (fresh s) pools h
    put (some pool) = elim (Bool-cases (lt_int pool.generation s.generation)) [
      | inl e ↦ rw e (insert-IsMap s.pool_name (fresh s) pools h)
      | inr e ↦ elim (Bool-cases (eq_int s.generation pool.generation)) [
        | inl f ↦ rw (e, f) (insert-IsMap s.pool_name (joined pool s) pools h)
        | inr f ↦ rw (e, f) h
      ]
    ]

empty_lookup : (u : Text) → ◌≡◌ {A = Option Bool} (lookup u []) (some true) → ⊥
unfolding lookup
empty_lookup u h = none-ne-some h

-- No listed slice of its pool has a later generation.
abbrev pub IsCurrent : List ResourceSlice → ResourceSlice → Type 0
IsCurrent items s =
    (t : ResourceSlice)
    → Has t items
    → t.pool_name ≡ s.pool_name
    → lt_int s.generation t.generation ≡ false

-- The report about the listed slices.
pub record IsReport (items : List ResourceSlice) (uuids : Uuids) : Type 0 where
  pub exactly :
      (u : Text)
      → (lookup u uuids ≡ some true)
        ↔ ((s : ResourceSlice) × Has s items × IsCurrent items s × SlicePublishes u s)
  pub complete :
      (s : ResourceSlice)
      → Has s items
      → (a : ResourceSlice) × Has a items
        × (a.pool_name ≡ s.pool_name)
        × IsCurrent items a
        × (a.resource_slice_count ≡ pos (length (slices_of a.pool_name a.generation items)))

module _ (items : List ResourceSlice) (m : Uuids)
    (h : add_pools [] (current_pools [] items) ≡ ok m) where
  inv : IsPools (λ t. Has t items) (current_pools [] items)
  inv = pools_of_items items

  -- A slice of a pool is a current one.
  pooled :
      (u : Text)
      → Some (PoolPublishes u) (current_pools [] items)
      → (s : ResourceSlice) × Has s items × IsCurrent items s × SlicePublishes u s
  pooled u ((name, pool), has, (s, inside, p)) =
      let at =
        Has→lookup name pool (current_pools [] items) (current_pools-IsMap [] items tt) has in
      let q = inv.sound name pool at in
      let (there, n, g) = (q.exact s).0 inside in
      (s, there, λ t has' n'. ap (λ x. lt_int x t.generation) g ∙ q.newest t has' (n' ∙ n), p)

  -- A current slice is in its pool.
  in_pool :
      (u : Text)
      → (s : ResourceSlice) × Has s items × IsCurrent items s × SlicePublishes u s
      → Some (PoolPublishes u) (current_pools [] items)
  in_pool u (s, there, current, p) =
      let (pool, at) = inv.present s there in
      let q = inv.sound s.pool_name pool at in
      let (a, inside, c) = q.attained in
      let (there', n, g) = (q.exact a).0 inside in
      let same =
        lt_int_antisym s.generation pool.generation
          (ap (lt_int s.generation) (sym g) ∙ current a there' n) (q.newest s there refl) in
      (
        (s.pool_name, pool),
        lookup→Has s.pool_name pool (current_pools [] items) at,
        (s, (q.exact s).1 (there, refl, same), p),
      )

  reported : IsReport items m
  reported = record {
    exactly = λ u.
        let (a, b) = add_pools_iff [] m (current_pools [] items) u h in
        (
          λ x. elim (a x) [ inl e ↦ absurd (empty_lookup u e) | inr y ↦ pooled u y ],
          λ y. b (inr (in_pool u y)),
        );
    complete = λ s there.
        let (pool, at) = inv.present s there in
        let q = inv.sound s.pool_name pool at in
        let (a, inside, c) = q.attained in
        let (listed, n, g) = (q.exact a).0 inside in
        let full =
          add_pools_complete [] m (current_pools [] items) (s.pool_name, pool) h
            (lookup→Has s.pool_name pool (current_pools [] items) at) in
        let same : pool.slices ≡ slices_of a.pool_name a.generation items =
          current_pools-slices_of items s.pool_name pool at
          ∙ ap (λ x. slices_of x pool.generation items) (sym n)
          ∙ ap (λ x. slices_of a.pool_name x items) (sym g) in
        (
          a,
          listed,
          n,
          λ t has' n'. ap (λ x. lt_int x t.generation) g ∙ q.newest t has' (n' ∙ n),
          c ∙ full ∙ ap (λ xs. pos (length xs)) same,
        );
  }

-- If UUIDs are reported for the listed slices, they are exactly those that a device of a current slice
-- publishes, a slice being current if no listed slice of its pool has a later generation; and each
-- listed slice's pool has a current slice that says as many slices as there are in the list of its
-- pool's name and its generation.
pub gpu_resource_slice_uuids-IsReport :
    (items : List ResourceSlice) (uuids : Uuids)
    → gpu_resource_slice_uuids (ok items) ≡ ok uuids
    → IsReport items uuids
unfolding gpu_resource_slice_uuids
gpu_resource_slice_uuids-IsReport [] uuids h = absurd (err-ne-ok h)
gpu_resource_slice_uuids-IsReport (s ∷ items) uuids h = reported (s ∷ items) uuids h
