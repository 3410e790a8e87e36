-- ===== src/Driver/Dedup/Laws.antt =====
-- About deduplicateByMajorVersion: the entries of its map, and its result.
use nvidia_ci.Common.{
  ◌≤◌, true, false, ◌≡◌, ◌≢◌, refl, sym, ◌∙◌, subst, ◌⊎◌, inl, inr, List, [], ◌∷◌, Option, none,
  some, some_inj, none-ne-some, false-ne-true, arith, Has, All, regroup, degroup, length,
  Bool-cases,
}
use nvidia_ci.Text.{Text, text_eq}
use nvidia_ci.Text.Search.{text_eq_sound, text_eq_refl}
use nvidia_ci.Text.Labels.{Labels, lookup, insert}
use nvidia_ci.Text.Labels.Laws.{lookup-insert, text_eq_iff}
use nvidia_ci.Driver.Sort.{
  IsSorted, Pairs, sort_strings-IsSorted, sort_strings_iff, sort_strings-Pairs,
}
use nvidia_ci.Driver.Dedup.Defs.{
  major_of, is_better, keep_best, best_of, values, deduplicate_by_major_version,
}

-- No key stands twice.
abbrev Distinct : Labels → Type 0
Distinct [] = Unit
Distinct ((k, v) ∷ m) = (lookup k m ≡ none) × Distinct m

abbrev Entries : (Text → Text → Type 0) → Labels → Type 0
Entries P [] = Unit
Entries P ((k, v) ∷ m) = P k v × Entries P m

text_eq-sym : (s t : Text) → text_eq s t ≡ false → text_eq t s ≡ false
text_eq-sym s t h = ground (arith, text_eq_iff s t, text_eq_iff t s)

insert-Distinct : (k v : Text) (m : Labels) → Distinct m → Distinct (insert k v m)
unfolding insert
insert-Distinct k v [] d = unfold lookup in (refl, tt)
insert-Distinct k v ((j, w) ∷ m) (fresh, d) = elim (Bool-cases (text_eq j k)) [
  | inl e ↦ rw e (fresh, d)
  | inr e ↦ rw e (lookup-insert k j v m ∙ rw (text_eq-sym j k e) fresh, insert-Distinct k v m d)
]

insert-Entries :
    (P : Text → Text → Type 0) (k v : Text) (m : Labels)
    → P k v
    → Entries P m
    → Entries P (insert k v m)
unfolding insert
insert-Entries P k v [] p h = (p, tt)
insert-Entries P k v ((j, w) ∷ m) p (q, h) = elim (Bool-cases (text_eq j k)) [
  | inl e ↦ rw e (subst (λ x. P x v) (sym (text_eq_sound j k e)) p, h)
  | inr e ↦ rw e (q, insert-Entries P k v m p h)
]

lookup-values : (k w : Text) (m : Labels) → lookup k m ≡ some w → Has w (values m)
unfolding lookup
lookup-values k w [] h = none-ne-some h
lookup-values k w ((j, v) ∷ m) h = elim (Bool-cases (text_eq j k)) [
  | inl e ↦ inl (sym (some_inj (rw e at h)))
  | inr e ↦ inr (lookup-values k w m (rw e at h))
]

Entries-lookup :
    (P : Text → Text → Type 0) (k w : Text) (m : Labels) → Entries P m → lookup k m ≡ some w → P k w
unfolding lookup
Entries-lookup P k w [] p h = absurd (none-ne-some h)
Entries-lookup P k w ((j, v) ∷ m) (p, ps) h = elim (Bool-cases (text_eq j k)) [
  | inl e ↦ subst (λ x. P k x) (some_inj (rw e at h)) (subst (λ x. P x v) (text_eq_sound j k e) p)
  | inr e ↦ Entries-lookup P k w m ps (rw e at h)
]

-- The map after the versions that `In` admits.
record IsBest (In : Text → Type 0) (m : Labels) : Type 0 where
  distinct : Distinct m
  entries : Entries (λ k v. (major_of v ≡ k) × In v) m
  covers : (v : Text) → In v → (w : Text) × (lookup (major_of v) m ≡ some w) × (length v ≤ length w)

Entries-map :
    {P Q : Text → Text → Type 0}
    → ((k v : Text) → P k v → Q k v)
    → (m : Labels) → Entries P m
    → Entries Q m
Entries-map f [] h = tt
Entries-map f ((k, v) ∷ m) (p, h) = (f k v p, Entries-map f m h)

-- A better version is at least as long as the one it replaces.
is_better-le :
    (v w : Text) (o : Option Text) → is_better v o ≡ true → o ≡ some w → length w ≤ length v
is_better-le v w none b e = absurd (none-ne-some e)
is_better-le v w (some x) b e = subst (λ y. length y ≤ length v) (some_inj e) (ground arith)

not_better-ge :
    (v : Text) (o : Option Text)
    → is_better v o ≡ false
    → (w : Text) × (o ≡ some w) × (length v ≤ length w)
not_better-ge v none b = cc
not_better-ge v (some x) b = (x, refl, ground arith)

module _ (In : Text → Type 0) (v : Text) (m : Labels) where
  Also : Text → Type 0
  Also u = In u ⊎ (u ≡ v)

  replaced :
      is_better v (lookup (major_of v) m) ≡ true
      → IsBest In m
      → IsBest Also (insert (major_of v) v m)
  unfolding Also
  replaced b h = record {
    distinct = insert-Distinct (major_of v) v m h.distinct;
    entries =
        insert-Entries _ (major_of v) v m (refl, inr refl)
          (Entries-map (λ k w p. (p.0, inl p.1)) m h.entries);
    covers = covers;
  }
    where
      found :
          (u w : Text)
          → text_eq (major_of v) (major_of u) ≡ true
          → length u ≤ length v
          → (x : Text) × (lookup (major_of u) (insert (major_of v) v m) ≡ some x)
            × (length u ≤ length x)
      found u w e le = (v, lookup-insert (major_of v) (major_of u) v m ∙ rw e, le)

      covers :
          (u : Text)
          → In u ⊎ (u ≡ v)
          → (x : Text) × (lookup (major_of u) (insert (major_of v) v m) ≡ some x)
            × (length u ≤ length x)
      covers u (inr e) = found u v (rw e (text_eq_refl (major_of v))) (rw e (omega arith))
      covers u (inl old) =
          let (w, at, le) = h.covers u old in
          elim (Bool-cases (text_eq (major_of v) (major_of u))) [
            | inl e ↦
                let at' : lookup (major_of v) m ≡ some w =
                  rw (text_eq_sound (major_of v) (major_of u) e) at in
                found u w e (omega (arith, is_better-le v w (lookup (major_of v) m) b at'))
            | inr e ↦ (w, lookup-insert (major_of v) (major_of u) v m ∙ rw e at, le)
          ]

  kept : is_better v (lookup (major_of v) m) ≡ false → IsBest In m → IsBest Also m
  unfolding Also
  kept b h = record {
    distinct = h.distinct;
    entries = Entries-map (λ k w p. (p.0, inl p.1)) m h.entries;
    covers = λ u i. elim i [
      | inl old ↦ h.covers u old
      | inr e ↦ rw e (not_better-ge v (lookup (major_of v) m) b)
    ];
  }

  keep_best-IsBest : IsBest In m → IsBest Also (keep_best v m)
  unfolding keep_best
  keep_best-IsBest h = elim (Bool-cases (is_better v (lookup (major_of v) m))) [
    | inl b ↦ rw b (replaced b h)
    | inr b ↦ rw b (kept b h)
  ]

IsBest-map :
    (P Q : Text → Type 0) (m : Labels)
    → ((v : Text) → P v → Q v)
    → ((v : Text) → Q v → P v)
    → IsBest P m
    → IsBest Q m
IsBest-map P Q m there back h = record {
  distinct = h.distinct;
  entries = Entries-map (λ k v p. (p.0, there v p.1)) m h.entries;
  covers = λ v q. h.covers v (back v q);
}

best_of-IsBest :
    (In : Text → Type 0) (vs : List Text) (m : Labels)
    → IsBest In m
    → IsBest (λ v. In v ⊎ Has v vs) (best_of vs m)
unfolding best_of
best_of-IsBest In [] m h =
    IsBest-map In _ m (λ v i. inl i) (λ v i. elim i [ inl old ↦ old | inr n ↦ absurd n ]) h
best_of-IsBest In (v ∷ vs) m h =
    IsBest-map (λ u. Also In v m u ⊎ Has u vs) _ (best_of vs (keep_best v m))
      (λ u i. unfold Also in regroup i) (λ u i. unfold Also in degroup i)
      (best_of-IsBest (Also In v m) vs (keep_best v m) (keep_best-IsBest In v m h))

best_of_all-IsBest : (vs : List Text) → IsBest (λ v. Has v vs) (best_of vs [])
best_of_all-IsBest vs =
    IsBest-map (λ v. ⊥ ⊎ Has v vs) _ (best_of vs [])
      (λ v i. elim i [ inl n ↦ absurd n | inr has ↦ has ]) (λ v i. inr i)
      (best_of-IsBest (λ v. ⊥) vs []
        record { distinct = tt; entries = tt; covers = λ v i. absurd i })

abbrev pub OtherMajor : Text → Text → Type 0
OtherMajor a b = major_of a ≢ major_of b

values-members :
    (P : Text → Type 0) (m : Labels)
    → Entries (λ k v. (major_of v ≡ k) × P v) m
    → (w : Text) → Has w (values m)
    → P w
values-members P [] e w h = absurd h
values-members P ((k, v) ∷ m) (p, e) w (inl s) = rw s p.1
values-members P ((k, v) ∷ m) (p, e) w (inr h) = values-members P m e w h

fresh-All :
    (k v : Text) (m : Labels) (P : Text → Type 0)
    → major_of v ≡ k
    → lookup k m ≡ none
    → Entries (λ j w. (major_of w ≡ j) × P w) m
    → All (OtherMajor v) (values m)
unfolding lookup
fresh-All k v [] P e f h = tt
fresh-All k v ((j, w) ∷ m) P e f (p, h) = elim (Bool-cases (text_eq j k)) [
  | inl s ↦ absurd (none-ne-some (sym (rw s at f)))
  | inr s ↦ (
    λ same. false-ne-true (sym s ∙ rw (← p.0, ← same, e) (text_eq_refl k)),
    fresh-All k v m P e (rw s at f) h,
  )
]

values-Pairs :
    (P : Text → Type 0) (m : Labels)
    → Distinct m
    → Entries (λ k v. (major_of v ≡ k) × P v) m
    → Pairs OtherMajor (values m)
values-Pairs P [] d e = tt
values-Pairs P ((k, v) ∷ m) (f, d) (p, e) = (fresh-All k v m P p.0 f e, values-Pairs P m d e)

-- What the result is for the input.
pub record IsDedup (versions out : List Text) : Type 0 where
  pub sorted : IsSorted out
  pub members : (v : Text) → Has v out → Has v versions
  pub apart : Pairs OtherMajor out
  pub covers :
      (v : Text)
      → Has v versions
      → (w : Text) × Has w out × (major_of w ≡ major_of v) × (length v ≤ length w)

-- The result is sorted and takes its versions from the input; no two of them have the same major
-- version, and for each version of the input it has one with that major that is at least as long.
pub deduplicate_by_major_version-IsDedup :
    (versions : List Text) → IsDedup versions (deduplicate_by_major_version versions)
unfolding deduplicate_by_major_version
deduplicate_by_major_version-IsDedup versions =
    let m = best_of versions [] in
    let h = best_of_all-IsBest versions in
    record {
      sorted = sort_strings-IsSorted (values m);
      members = λ v i.
          values-members (λ w. Has w versions) m h.entries v ((sort_strings_iff v (values m)).0 i);
      apart =
          sort_strings-Pairs OtherMajor (λ a b ne e. ne (sym e)) (values m)
            (values-Pairs (λ w. Has w versions) m h.distinct h.entries);
      covers = λ v i.
          let (w, at, le) = h.covers v i in
          (
            w,
            (sort_strings_iff w (values m)).1 (lookup-values (major_of v) w m at),
            (Entries-lookup _ (major_of v) w m h.entries at).0,
            le,
          );
    }
