-- ===== src/Wait/Slices/Pools.antt =====
-- About the first loop of gpuResourceSliceUUIDs: the slices of the newest generation of each pool.
use nvidia_ci.Common.{
  ◌≡◌, refl, sym, ap, ◌∙◌, ◌↔◌, ◌⊎◌, inl, inr, false, Bool-cases, List, [], ◌∷◌, ◌++◌, Option, none,
  some, some_inj, none-ne-some, false-ne-true, Has, if◌then◌else◌, subst, regroup, degroup,
}
use nvidia_ci.Text.{Text, text_eq}
use nvidia_ci.Text.Search.{text_eq_sound, text_eq_refl}
use nvidia_ci.Text.Labels.{lookup, insert}
use nvidia_ci.Text.Labels.Laws.{lookup-insert}
use nvidia_ci.Text.Number.{lt_int, eq_int}
use nvidia_ci.Text.Number.Order.{lt_int_irrefl, not_behind, eq_int_sound, eq_int_refl}
use nvidia_ci.Wait.Slices.Defs.{
  ResourceSlice, PoolSlices, Pools, fresh, joined, put_slice, current_pools,
}

-- A pool of the slices seen: those of the newest generation under its name, with the count of one.
pub record IsPool (Seen : ResourceSlice → Type 0) (name : Text) (pool : PoolSlices) : Type 0 where
  pub newest :
      (s : ResourceSlice)
      → Seen s
      → s.pool_name ≡ name
      → lt_int pool.generation s.generation ≡ false
  pub exact :
      (s : ResourceSlice)
      → Has s pool.slices ↔ (Seen s × (s.pool_name ≡ name) × (s.generation ≡ pool.generation))
  pub attained : (s : ResourceSlice) × Has s pool.slices × (s.resource_slice_count ≡ pool.count)

pub record IsPools (Seen : ResourceSlice → Type 0) (pools : Pools) : Type 0 where
  pub present :
      (s : ResourceSlice) → Seen s → (pool : PoolSlices) × (lookup s.pool_name pools ≡ some pool)
  pub sound :
      (name : Text) (pool : PoolSlices) → lookup name pools ≡ some pool → IsPool Seen name pool

abbrev pub AndAlso : (ResourceSlice → Type 0) → ResourceSlice → ResourceSlice → Type 0
AndAlso Seen s t = Seen t ⊎ (t ≡ s)

pub Has-append :
    (s t : ResourceSlice) (xs : List ResourceSlice) → Has t (xs ++ s ∷ []) ↔ (Has t xs ⊎ (t ≡ s))
Has-append s t xs = (there xs, back xs)
  where
    there : (ys : List ResourceSlice) → Has t (ys ++ s ∷ []) → Has t ys ⊎ (t ≡ s)
    there [] (inl e) = inr e
    there [] (inr e) = absurd e
    there (y ∷ ys) (inl e) = inl (inl e)
    there (y ∷ ys) (inr has) = elim (there ys has) [ inl h ↦ inl (inr h) | inr e ↦ inr e ]

    back : (ys : List ResourceSlice) → Has t ys ⊎ (t ≡ s) → Has t (ys ++ s ∷ [])
    back [] (inl e) = absurd e
    back [] (inr e) = inl e
    back (y ∷ ys) (inl (inl e)) = inl e
    back (y ∷ ys) (inl (inr h)) = inr (back ys (inl h))
    back (y ∷ ys) (inr e) = inr (back ys (inr e))

module _ (Seen : ResourceSlice → Type 0) (s : ResourceSlice) where
  -- The pools under other names are still what they were, and so is this one if the slice is older.
  kept :
      (name : Text) (pool : PoolSlices)
      → (s.pool_name ≡ name
          → (lt_int pool.generation s.generation ≡ false) × (s.generation ≡ pool.generation → ⊥))
      → IsPool Seen name pool
      → IsPool (AndAlso Seen s) name pool
  kept name pool older p = record {
    newest = newest';
    exact = λ t. (λ h. let (a, b, c) = (p.exact t).0 h in (inl a, b, c), λ (a, b, c). back t a b c);
    attained = p.attained;
  }
    where
      newest' :
          (t : ResourceSlice)
          → AndAlso Seen s t
          → t.pool_name ≡ name
          → lt_int pool.generation t.generation ≡ false
      newest' t (inl seen) n = p.newest t seen n
      newest' t (inr e) n =
          ap (λ x. lt_int pool.generation x.generation) e
          ∙ (older (sym (ap (λ x. x.pool_name) e) ∙ n)).0

      back :
          (t : ResourceSlice)
          → AndAlso Seen s t
          → t.pool_name ≡ name
          → t.generation ≡ pool.generation
          → Has t pool.slices
      back t (inl seen) n g = (p.exact t).1 (seen, n, g)
      back t (inr e) n g =
          absurd
            ((older (sym (ap (λ x. x.pool_name) e) ∙ n)).1 (sym (ap (λ x. x.generation) e) ∙ g))

  -- A slice that nothing seen under its name comes up to starts a pool.
  started :
      ((t : ResourceSlice)
        → Seen t
        → t.pool_name ≡ s.pool_name
        → (lt_int s.generation t.generation ≡ false) × (t.generation ≡ s.generation → ⊥))
      → IsPool (AndAlso Seen s) s.pool_name (fresh s)
  started ahead = record {
    newest = newest';
    exact = λ t. (there t, λ (a, b, c). back t a b c);
    attained = (s, inl refl, refl);
  }
    where
      newest' :
          (t : ResourceSlice)
          → AndAlso Seen s t
          → t.pool_name ≡ s.pool_name
          → lt_int s.generation t.generation ≡ false
      newest' t (inl seen) n = (ahead t seen n).0
      newest' t (inr e) n =
          ap (λ x. lt_int s.generation x.generation) e ∙ lt_int_irrefl s.generation

      there :
          (t : ResourceSlice)
          → Has t (s ∷ [])
          → AndAlso Seen s t × (t.pool_name ≡ s.pool_name) × (t.generation ≡ s.generation)
      there t (inl e) = (inr e, ap (λ x. x.pool_name) e, ap (λ x. x.generation) e)
      there t (inr e) = absurd e

      back :
          (t : ResourceSlice)
          → AndAlso Seen s t
          → t.pool_name ≡ s.pool_name
          → t.generation ≡ s.generation
          → Has t (s ∷ [])
      back t (inl seen) n g = absurd ((ahead t seen n).1 g)
      back t (inr e) n g = inl e

  -- A slice of the pool's generation joins it.
  grown :
      (pool : PoolSlices)
      → s.generation ≡ pool.generation
      → IsPool Seen s.pool_name pool
      → IsPool (AndAlso Seen s) s.pool_name (joined pool s)
  grown pool same p = record {
    newest = newest';
    exact = λ t. (
      λ h. there t ((Has-append s t pool.slices).0 h),
      λ (a, b, c). (Has-append s t pool.slices).1 (back t a b c),
    );
    attained = let (t, has, c) = p.attained in (t, (Has-append s t pool.slices).1 (inl has), c);
  }
    where
      newest' :
          (t : ResourceSlice)
          → AndAlso Seen s t
          → t.pool_name ≡ s.pool_name
          → lt_int pool.generation t.generation ≡ false
      newest' t (inl seen) n = p.newest t seen n
      newest' t (inr e) n =
          ap (λ x. lt_int pool.generation x) (ap (λ x. x.generation) e ∙ same)
          ∙ lt_int_irrefl pool.generation

      there :
          (t : ResourceSlice)
          → Has t pool.slices ⊎ (t ≡ s)
          → AndAlso Seen s t × (t.pool_name ≡ s.pool_name) × (t.generation ≡ pool.generation)
      there t (inl has) = let (a, b, c) = (p.exact t).0 has in (inl a, b, c)
      there t (inr e) = (inr e, ap (λ x. x.pool_name) e, ap (λ x. x.generation) e ∙ same)

      back :
          (t : ResourceSlice)
          → AndAlso Seen s t
          → t.pool_name ≡ s.pool_name
          → t.generation ≡ pool.generation
          → Has t pool.slices ⊎ (t ≡ s)
      back t (inl seen) n g = inl ((p.exact t).1 (seen, n, g))
      back t (inr e) n g = inr e

module _ (Seen : ResourceSlice → Type 0) (s : ResourceSlice) (pools : Pools)
    (inv : IsPools Seen pools) where
  pub read_own :
      (pool : PoolSlices) → lookup s.pool_name (insert s.pool_name pool pools) ≡ some pool
  read_own pool =
      lookup-insert s.pool_name s.pool_name pool pools
      ∙ ap (λ t. if t then some pool else lookup s.pool_name pools) (text_eq_refl s.pool_name)

  pub read_other :
      (name : Text) (pool : PoolSlices)
      → text_eq s.pool_name name ≡ false
      → lookup name (insert s.pool_name pool pools) ≡ lookup name pools
  read_other name pool e =
      lookup-insert s.pool_name name pool pools
      ∙ ap (λ t. if t then some pool else lookup name pools) e

  inserted :
      (pool : PoolSlices)
      → IsPool (AndAlso Seen s) s.pool_name pool
      → IsPools (AndAlso Seen s) (insert s.pool_name pool pools)
  inserted pool p = record { present = present'; sound = sound' }
    where
      present' :
          (t : ResourceSlice)
          → AndAlso Seen s t
          → (q : PoolSlices) × (lookup t.pool_name (insert s.pool_name pool pools) ≡ some q)
      present' t (inr e) =
          (pool, ap (λ x. lookup x.pool_name (insert s.pool_name pool pools)) e ∙ read_own pool)
      present' t (inl seen) = elim (Bool-cases (text_eq s.pool_name t.pool_name)) [
        | inl e ↦ (
          pool,
          ap (λ n. lookup n (insert s.pool_name pool pools))
                (sym (text_eq_sound s.pool_name t.pool_name e))
              ∙ read_own pool,
        )
        | inr e ↦ let (q, at) = inv.present t seen in (q, read_other t.pool_name pool e ∙ at)
      ]

      sound' :
          (name : Text) (q : PoolSlices)
          → lookup name (insert s.pool_name pool pools) ≡ some q
          → IsPool (AndAlso Seen s) name q
      sound' name q at = elim (Bool-cases (text_eq s.pool_name name)) [
        | inl e ↦
            let n = text_eq_sound s.pool_name name e in
            subst (λ m. IsPool (AndAlso Seen s) m q) n
              (subst (IsPool (AndAlso Seen s) s.pool_name)
                (some_inj
                  (sym (read_own pool) ∙ ap (λ m. lookup m (insert s.pool_name pool pools)) n ∙ at))
                p)
        | inr e ↦
            kept Seen s name q
              (λ n. absurd (
                false-ne-true
                  (sym e ∙ ap (text_eq s.pool_name) (sym n) ∙ text_eq_refl s.pool_name)))
              (inv.sound name q (sym (read_other name pool e) ∙ at))
      ]

  -- An older slice changes nothing.
  unchanged :
      (pool : PoolSlices)
      → lookup s.pool_name pools ≡ some pool
      → lt_int pool.generation s.generation ≡ false
      → (s.generation ≡ pool.generation → ⊥)
      → IsPools (AndAlso Seen s) pools
  unchanged pool at old other = record { present = present'; sound = sound' }
    where
      present' :
          (t : ResourceSlice)
          → AndAlso Seen s t
          → (q : PoolSlices) × (lookup t.pool_name pools ≡ some q)
      present' t (inl seen) = inv.present t seen
      present' t (inr e) = (pool, ap (λ x. lookup x.pool_name pools) e ∙ at)

      sound' :
          (name : Text) (q : PoolSlices)
          → lookup name pools ≡ some q
          → IsPool (AndAlso Seen s) name q
      sound' name q there =
          kept Seen s name q
            (λ n.
              let same : pool ≡ q = some_inj (sym at ∙ ap (λ m. lookup m pools) n ∙ there) in
              (
                ap (λ x. lt_int x.generation s.generation) (sym same) ∙ old,
                λ g. other (g ∙ ap (λ x. x.generation) (sym same)),
              ))
            (inv.sound name q there)

  pub put :
      (o : Option PoolSlices)
      → lookup s.pool_name pools ≡ o
      → IsPools (AndAlso Seen s) (put_slice o pools s)
  put none at = inserted (fresh s) (
      started Seen s (λ t seen n.
        absurd (none-ne-some (sym at ∙ ap (λ m. lookup m pools) (sym n) ∙ (inv.present t seen).1))))
  put (some pool) at = elim (Bool-cases (lt_int pool.generation s.generation)) [
    | inl newer ↦ rw newer (
        inserted (fresh s) (
          started Seen s (λ t seen n.
            let old = (inv.sound s.pool_name pool at).newest t seen n in
            (
              not_behind pool.generation t.generation s.generation old newer,
              λ g. absurd (false-ne-true (sym old ∙ ap (lt_int pool.generation) g ∙ newer)),
            ))))
    | inr e ↦ elim (Bool-cases (eq_int s.generation pool.generation)) [
      | inl same ↦
          rw (e, same)
            (inserted (joined pool s) (
              grown Seen s pool (eq_int_sound s.generation pool.generation same)
                (inv.sound s.pool_name pool at)))
      | inr other ↦
          rw (e, other)
            (unchanged pool at e (λ g.
              false-ne-true
                (sym other ∙ ap (λ x. eq_int x pool.generation) g ∙ eq_int_refl pool.generation)))
    ]
  ]

-- The pools are about what is seen, however it is said.
pub restated :
    (Seen Seen' : ResourceSlice → Type 0) (pools : Pools)
    → ((t : ResourceSlice) → Seen t ↔ Seen' t)
    → IsPools Seen pools
    → IsPools Seen' pools
restated Seen Seen' pools same inv = record {
  present = λ t seen. inv.present t ((same t).1 seen);
  sound = λ name q at.
      let p = inv.sound name q at in
      record {
        newest = λ t seen n. p.newest t ((same t).1 seen) n;
        exact = λ t. (
          λ h. let (a, b, c) = (p.exact t).0 h in ((same t).0 a, b, c),
          λ (a, b, c). (p.exact t).1 ((same t).1 a, b, c),
        );
        attained = p.attained;
      };
}

current_pools-IsPools :
    (Seen : ResourceSlice → Type 0) (pools : Pools) (items : List ResourceSlice)
    → IsPools Seen pools
    → IsPools (λ t. Seen t ⊎ Has t items) (current_pools pools items)
unfolding current_pools
current_pools-IsPools Seen pools [] inv =
    restated Seen (λ t. Seen t ⊎ ⊥) pools (λ t. (inl, elim [ inl h ↦ h | inr h ↦ absurd h ])) inv
current_pools-IsPools Seen pools (s ∷ items) inv =
    let next = put_slice (lookup s.pool_name pools) pools s in
    restated (λ t. AndAlso Seen s t ⊎ Has t items) (λ t. Seen t ⊎ Has t (s ∷ items))
      (current_pools next items) (λ t. (regroup, degroup))
      (current_pools-IsPools (AndAlso Seen s) next items
        (put Seen s pools inv (lookup s.pool_name pools) refl))

-- Behind the loop, the pools are those of the listed slices.
pub pools_of_items :
    (items : List ResourceSlice) → IsPools (λ t. Has t items) (current_pools [] items)
unfolding lookup
pools_of_items items =
    restated (λ t. ⊥ ⊎ Has t items) (λ t. Has t items) (current_pools [] items)
      (λ t. (elim [ inl h ↦ absurd h | inr h ↦ h ], inr))
      (current_pools-IsPools (λ t. ⊥) [] items
        (record { present = λ t seen. absurd seen; sound = λ name q at. absurd (none-ne-some at) }))
