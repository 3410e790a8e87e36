-- ===== src/Driver/Sort.antt =====
-- sort.Strings: the bytewise order of texts, and a sort by insertion.
use nvidia_ci.Common.{
  Bool, true, false, ◌≡◌, refl, ◌⊎◌, inl, inr, ◌↔◌, List, [], ◌∷◌, arith, ltb, ◌==◌, if◌then◌else◌,
  Has, All, Bool-cases,
}
use nvidia_ci.Text.{Text}

-- s <= t
unfoldable pub text_leb : Text → Text → Bool
text_leb [] t = true
text_leb (c ∷ s) [] = false
text_leb (c ∷ s) (d ∷ t) = if ltb c d then true else if c == d then text_leb s t else false

unfoldable pub insert_sorted : Text → List Text → List Text
unfolding text_leb
insert_sorted v [] = v ∷ []
insert_sorted v (w ∷ ws) = if text_leb v w then v ∷ w ∷ ws else w ∷ insert_sorted v ws

unfoldable pub sort_strings : List Text → List Text
unfolding insert_sorted
sort_strings [] = []
sort_strings (v ∷ vs) = insert_sorted v (sort_strings vs)

-- Each text is at most all that follow it.
abbrev pub IsSorted : List Text → Type 0
IsSorted [] = Unit
IsSorted (v ∷ vs) = All (λ w. text_leb v w ≡ true) vs × IsSorted vs

text_leb-total : (s t : Text) → text_leb s t ≡ false → text_leb t s ≡ true
unfolding text_leb
text_leb-total [] t h = cc
text_leb-total (c ∷ s) [] h = refl
text_leb-total (c ∷ s) (d ∷ t) h = ground (arith, text_leb-total s t)

text_leb_trans : (s t u : Text) → text_leb s t ≡ true → text_leb t u ≡ true → text_leb s u ≡ true
unfolding text_leb
text_leb_trans [] t u h k = refl
text_leb_trans (c ∷ s) [] u h k = cc
text_leb_trans (c ∷ s) (d ∷ t) [] h k = cc
text_leb_trans (c ∷ s) (d ∷ t) (e ∷ u) h k = ground (arith, text_leb_trans s t u)

insert_sorted-All :
    (P : Text → Type 0) (v : Text) (ws : List Text) → P v → All P ws → All P (insert_sorted v ws)
unfolding insert_sorted
insert_sorted-All P v [] p h = (p, tt)
insert_sorted-All P v (w ∷ ws) p (q, h) = elim (Bool-cases (text_leb v w)) [
  | inl e ↦ rw e (p, (q, h))
  | inr e ↦ rw e (q, insert_sorted-All P v ws p h)
]

All-leb :
    (v w : Text) (ws : List Text)
    → text_leb v w ≡ true
    → All (λ u. text_leb w u ≡ true) ws
    → All (λ u. text_leb v u ≡ true) ws
All-leb v w [] h k = tt
All-leb v w (u ∷ ws) h (p, k) = (text_leb_trans v w u h p, All-leb v w ws h k)

insert_sorted-IsSorted : (v : Text) (ws : List Text) → IsSorted ws → IsSorted (insert_sorted v ws)
unfolding insert_sorted
insert_sorted-IsSorted v [] h = (tt, tt)
insert_sorted-IsSorted v (w ∷ ws) (p, h) = elim (Bool-cases (text_leb v w)) [
  | inl e ↦ rw e ((e, All-leb v w ws e p), (p, h))
  | inr e ↦ rw e (
    insert_sorted-All (λ u. text_leb w u ≡ true) v ws (text_leb-total v w e) p,
    insert_sorted-IsSorted v ws h,
  )
]

pub sort_strings-IsSorted : (vs : List Text) → IsSorted (sort_strings vs)
unfolding sort_strings
sort_strings-IsSorted [] = tt
sort_strings-IsSorted (v ∷ vs) =
    insert_sorted-IsSorted v (sort_strings vs) (sort_strings-IsSorted vs)

-- Any one of three alternatives may come first.
swap_first : {P Q R : Type 0} → P ⊎ (Q ⊎ R) → Q ⊎ (P ⊎ R)
swap_first (inl p) = inr (inl p)
swap_first (inr (inl q)) = inl q
swap_first (inr (inr r)) = inr (inr r)

insert_sorted_iff : (a v : Text) (ws : List Text) → Has a (insert_sorted v ws) ↔ Has a (v ∷ ws)
unfolding insert_sorted
insert_sorted_iff a v [] = (λ h. h, λ h. h)
insert_sorted_iff a v (w ∷ ws) = elim (Bool-cases (text_leb v w)) [
  | inl e ↦ rw e (λ h. h, λ h. h)
  | inr e ↦ rw e (
    λ h. swap_first (inr_map (insert_sorted_iff a v ws).0 h),
    λ h. inr_map (insert_sorted_iff a v ws).1 (swap_first h),
  )
]
  where
    inr_map : {P Q R : Type 0} → (Q → R) → P ⊎ Q → P ⊎ R
    inr_map f (inl p) = inl p
    inr_map f (inr q) = inr (f q)

-- Sorting keeps exactly the elements.
pub sort_strings_iff : (a : Text) (vs : List Text) → Has a (sort_strings vs) ↔ Has a vs
unfolding sort_strings
sort_strings_iff a [] = (λ h. h, λ h. h)
sort_strings_iff a (v ∷ vs) = (
  λ h. elim ((insert_sorted_iff a v (sort_strings vs)).0 h) [
    | inl p ↦ inl p
    | inr q ↦ inr ((sort_strings_iff a vs).0 q)
  ],
  λ h.
      (insert_sorted_iff a v (sort_strings vs)).1
        (elim h [ inl p ↦ inl p | inr q ↦ inr ((sort_strings_iff a vs).1 q) ]),
)

-- A relation that is symmetric and holds between any two elements still does after sorting.
abbrev pub Pairs : (Text → Text → Type 0) → List Text → Type 0
Pairs R [] = Unit
Pairs R (v ∷ vs) = All (R v) vs × Pairs R vs

insert_sorted-Pairs :
    (R : Text → Text → Type 0)
    → ((a b : Text) → R a b → R b a)
    → (v : Text) (ws : List Text) → All (R v) ws
    → Pairs R ws
    → Pairs R (insert_sorted v ws)
unfolding insert_sorted
insert_sorted-Pairs R symm v [] h k = (tt, tt)
insert_sorted-Pairs R symm v (w ∷ ws) (r, h) (p, k) = elim (Bool-cases (text_leb v w)) [
  | inl e ↦ rw e ((r, h), (p, k))
  | inr e ↦ rw e (insert_sorted-All (R w) v ws (symm v w r) p, insert_sorted-Pairs R symm v ws h k)
]

sort_strings-All : (P : Text → Type 0) (vs : List Text) → All P vs → All P (sort_strings vs)
unfolding sort_strings
sort_strings-All P [] h = tt
sort_strings-All P (v ∷ vs) (p, h) =
    insert_sorted-All P v (sort_strings vs) p (sort_strings-All P vs h)

pub sort_strings-Pairs :
    (R : Text → Text → Type 0)
    → ((a b : Text) → R a b → R b a)
    → (vs : List Text) → Pairs R vs
    → Pairs R (sort_strings vs)
unfolding sort_strings
sort_strings-Pairs R symm [] h = tt
sort_strings-Pairs R symm (v ∷ vs) (p, h) =
    insert_sorted-Pairs R symm v (sort_strings vs) (sort_strings-All (R v) vs p)
      (sort_strings-Pairs R symm vs h)
