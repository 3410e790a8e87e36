-- ===== src/Wait/Slices/Counted.antt =====
-- About the first loop of gpuResourceSliceUUIDs: a pool has each slice as often as it is listed.
use nvidia_ci.Common.{
  ◌≡◌, refl, sym, ap, ◌∙◌, inl, inr, Bool, true, false, ◌&&◌, Bool-cases, List, [], ◌∷◌, ◌++◌,
  append_assoc, append-nil, Option, none, some, some_inj, none-ne-some, false-ne-true, Has,
  if◌then◌else◌, subst,
}
use nvidia_ci.Text.{Text, text_eq}
use nvidia_ci.Text.Search.{text_eq_sound, text_eq_refl}
use nvidia_ci.Text.Labels.{lookup, insert}
use nvidia_ci.Text.Number.{ℤ, lt_int, eq_int}
use nvidia_ci.Text.Number.Order.{eq_int_sound, eq_int_refl}
use nvidia_ci.Wait.Slices.Defs.{
  ResourceSlice, PoolSlices, Pools, fresh, joined, put_slice, current_pools,
}
use nvidia_ci.Wait.Slices.Pools.{IsPools, AndAlso, Has-append, restated, put, read_own, read_other}

-- The slice is of the pool's name and generation.
abbrev pub is_of : Text → ℤ → ResourceSlice → Bool
is_of name generation s = text_eq s.pool_name name && eq_int s.generation generation

-- The slices of the name and the generation, in their order.
unfoldable pub slices_of : Text → ℤ → List ResourceSlice → List ResourceSlice
slices_of name generation [] = []
slices_of name generation (s ∷ items) =
    let rest = slices_of name generation items in if is_of name generation s then s ∷ rest else rest

slices_of-last :
    (name : Text) (g : ℤ) (items : List ResourceSlice) (s : ResourceSlice)
    → slices_of name g (items ++ s ∷ [])
      ≡ slices_of name g items ++ (if is_of name g s then s ∷ [] else [])
unfolding slices_of
slices_of-last name g [] s = refl
slices_of-last name g (t ∷ items) s = elim (Bool-cases (is_of name g t)) [
  | inl e ↦ rw e (ap (λ xs. t ∷ xs) (slices_of-last name g items s))
  | inr e ↦ rw e (slices_of-last name g items s)
]

slices_of-added :
    (name : Text) (g : ℤ) (items : List ResourceSlice) (s : ResourceSlice)
    → is_of name g s ≡ true
    → slices_of name g (items ++ s ∷ []) ≡ slices_of name g items ++ s ∷ []
slices_of-added name g items s e =
    slices_of-last name g items s ∙ ap (λ t. slices_of name g items ++ (if t then s ∷ [] else [])) e

slices_of-other :
    (name : Text) (g : ℤ) (items : List ResourceSlice) (s : ResourceSlice)
    → is_of name g s ≡ false
    → slices_of name g (items ++ s ∷ []) ≡ slices_of name g items
slices_of-other name g items s e =
    slices_of-last name g items s
    ∙ ap (λ t. slices_of name g items ++ (if t then s ∷ [] else [])) e
    ∙ append-nil (slices_of name g items)

slices_of-none :
    (name : Text) (g : ℤ) (items : List ResourceSlice)
    → ((t : ResourceSlice) → Has t items → is_of name g t ≡ false)
    → slices_of name g items ≡ []
unfolding slices_of
slices_of-none name g [] h = refl
slices_of-none name g (t ∷ items) h =
    rw (h t (inl refl)) (slices_of-none name g items (λ u has. h u (inr has)))

is_of-false :
    (name : Text) (g : ℤ) (s : ResourceSlice)
    → (s.pool_name ≡ name → s.generation ≡ g → ⊥)
    → is_of name g s ≡ false
is_of-false name g s other = elim (Bool-cases (text_eq s.pool_name name)) [
  | inr e ↦ rw e refl
  | inl e ↦ elim (Bool-cases (eq_int s.generation g)) [
    | inr f ↦ rw (e, f) refl
    | inl f ↦ absurd (other (text_eq_sound s.pool_name name e) (eq_int_sound s.generation g f))
  ]
]

is_of-true : (s : ResourceSlice) (g : ℤ) → s.generation ≡ g → is_of s.pool_name g s ≡ true
is_of-true s g e =
    ap (λ t. t && eq_int s.generation g) (text_eq_refl s.pool_name)
    ∙ ap (eq_int s.generation) (sym e)
    ∙ eq_int_refl s.generation

-- Each pool has just the slices of its name and generation among those seen.
abbrev Counted : List ResourceSlice → Pools → Type 0
Counted seen pools =
    (name : Text) (pool : PoolSlices)
    → lookup name pools ≡ some pool
    → pool.slices ≡ slices_of name pool.generation seen

module _ (seen : List ResourceSlice) (s : ResourceSlice) (pools : Pools)
    (inv : IsPools (λ t. Has t seen) pools) (counted : Counted seen pools) where
  -- The slice's own pool is replaced, and the others are not concerned.
  replaced :
      (own : PoolSlices)
      → own.slices ≡ slices_of s.pool_name own.generation (seen ++ s ∷ [])
      → Counted (seen ++ s ∷ []) (insert s.pool_name own pools)
  replaced own right name q at = elim (Bool-cases (text_eq s.pool_name name)) [
    | inl e ↦
        let n = text_eq_sound s.pool_name name e in
        let same : own ≡ q = some_inj (
          sym (read_own (λ t. Has t seen) s pools inv own)
          ∙ ap (λ m. lookup m (insert s.pool_name own pools)) n
          ∙ at) in
        subst (λ m. q.slices ≡ slices_of m q.generation (seen ++ s ∷ [])) n
          (subst (λ x. x.slices ≡ slices_of s.pool_name x.generation (seen ++ s ∷ [])) same right)
    | inr e ↦
        counted name q (sym (read_other (λ t. Has t seen) s pools inv name own e) ∙ at)
        ∙ sym (
            slices_of-other name q.generation seen s (
              is_of-false name q.generation s (λ n g.
                false-ne-true
                  (sym e ∙ ap (text_eq s.pool_name) (sym n) ∙ text_eq_refl s.pool_name))))
  ]

  -- Nothing seen is of the slice's name and generation.
  alone :
      ((t : ResourceSlice)
        → Has t seen
        → t.pool_name ≡ s.pool_name
        → t.generation ≡ s.generation
        → ⊥)
      → (fresh s).slices ≡ slices_of s.pool_name s.generation (seen ++ s ∷ [])
  alone other = sym (
      slices_of-added s.pool_name s.generation seen s (is_of-true s s.generation refl)
      ∙ ap (λ xs. xs ++ s ∷ [])
          (slices_of-none s.pool_name s.generation seen
            (λ t has. is_of-false s.pool_name s.generation t (other t has))))

  put-Counted :
      (o : Option PoolSlices)
      → lookup s.pool_name pools ≡ o
      → Counted (seen ++ s ∷ []) (put_slice o pools s)
  put-Counted none at = replaced (fresh s) (
      alone (λ t has n g.
        none-ne-some (sym at ∙ ap (λ m. lookup m pools) (sym n) ∙ (inv.present t has).1)))
  put-Counted (some pool) at = elim (Bool-cases (lt_int pool.generation s.generation)) [
    | inl newer ↦ rw newer (
        replaced (fresh s) (
          alone (λ t has n g. false-ne-true (
            sym ((inv.sound s.pool_name pool at).newest t has n)
            ∙ ap (lt_int pool.generation) g
            ∙ newer))))
    | inr e ↦ elim (Bool-cases (eq_int s.generation pool.generation)) [
      | inl same ↦
          rw (e, same)
            (replaced (joined pool s) (
              ap (λ xs. xs ++ s ∷ []) (counted s.pool_name pool at)
              ∙ sym (
                  slices_of-added s.pool_name pool.generation seen s (
                    is_of-true s pool.generation
                      (eq_int_sound s.generation pool.generation same)))))
      | inr other ↦
          rw (e, other)
            (λ name q there.
              counted name q there
              ∙ sym (
                  slices_of-other name q.generation seen s (
                    is_of-false name q.generation s (λ n g.
                      let own : pool ≡ q = some_inj (sym at ∙ ap (λ m. lookup m pools) n ∙ there) in
                      false-ne-true (
                        sym other
                        ∙ ap (eq_int s.generation) (ap (λ x. x.generation) own ∙ sym g)
                        ∙ eq_int_refl s.generation)))))
    ]
  ]

current_pools-Counted :
    (seen : List ResourceSlice) (pools : Pools) (items : List ResourceSlice)
    → IsPools (λ t. Has t seen) pools
    → Counted seen pools
    → Counted (seen ++ items) (current_pools pools items)
unfolding current_pools
current_pools-Counted seen pools [] inv counted =
    subst (λ xs. Counted xs pools) (sym (append-nil seen)) counted
current_pools-Counted seen pools (s ∷ items) inv counted =
    let next = put_slice (lookup s.pool_name pools) pools s in
    subst (λ xs. Counted xs (current_pools next items)) (append_assoc seen (s ∷ []) items)
      (current_pools-Counted (seen ++ s ∷ []) next items
        (restated (AndAlso (λ t. Has t seen) s) (λ t. Has t (seen ++ s ∷ [])) next
          (λ t. ((Has-append s t seen).1, (Has-append s t seen).0))
          (put (λ t. Has t seen) s pools inv (lookup s.pool_name pools) refl))
        (put-Counted seen s pools inv counted (lookup s.pool_name pools) refl))

-- Behind the loop, a pool has just the listed slices of its name and generation, in their order.
pub current_pools-slices_of :
    (items : List ResourceSlice) (name : Text) (pool : PoolSlices)
    → lookup name (current_pools [] items) ≡ some pool
    → pool.slices ≡ slices_of name pool.generation items
unfolding lookup
current_pools-slices_of items =
    current_pools-Counted [] [] items
      (record { present = λ t seen. absurd seen; sound = λ name q at. absurd (none-ne-some at) })
      (λ name q at. absurd (none-ne-some at))
