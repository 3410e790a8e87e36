-- ===== src/Mig/Pids/Unique.antt =====
-- About uniqueInts and GetPidsWithRegex: membership in their results.
use nvidia_ci.Common.{
  true, ◌≡◌, sym, ◌∙◌, ◌⊎◌, inl, inr, ◌↔◌, List, [], ◌∷◌, ◌++◌, arith, if◌then◌else◌, any, any_iff,
  Has, Bool-cases, false-ne-true,
}
use nvidia_ci.Text.Number.{ℤ, pos, negsuc}
use nvidia_ci.Mig.Pids.Defs.{int_eq, unique_from, unique_ints}

int_eq_sound : (a b : ℤ) → int_eq a b ≡ true → a ≡ b
int_eq_sound (pos a) (pos b) h = ground arith
int_eq_sound (pos a) (negsuc b) h = cc
int_eq_sound (negsuc a) (pos b) h = cc
int_eq_sound (negsuc a) (negsuc b) h = ground arith

int_eq_refl : (a : ℤ) → int_eq a a ≡ true
int_eq_refl (pos a) = ground arith
int_eq_refl (negsuc a) = ground arith

-- No number of the list stands in it twice.
abbrev pub Unique : List ℤ → Type 0
Unique [] = Unit
Unique (v ∷ vs) = ¬ Has v vs × Unique vs

pub Has-last : (v w : ℤ) (vs : List ℤ) → Has v (vs ++ w ∷ []) ↔ (Has v vs ⊎ (v ≡ w))
Has-last v w [] = (
  λ h. elim h [ inl e ↦ inr e | inr n ↦ absurd n ],
  λ h. elim h [ inl n ↦ absurd n | inr e ↦ inl e ],
)
Has-last v w (u ∷ vs) =
    let ih = Has-last v w vs in
    (
      λ h. elim h [
        | inl e ↦ inl (inl e)
        | inr later ↦ elim (ih.0 later) [ inl i ↦ inl (inr i) | inr e ↦ inr e ]
      ],
      λ h. elim h [
        | inl i ↦ elim i [ inl e ↦ inl e | inr later ↦ inr (ih.1 (inl later)) ]
        | inr e ↦ inr (ih.1 (inr e))
      ],
    )

Unique-last : (w : ℤ) (vs : List ℤ) → Unique vs → ¬ Has w vs → Unique (vs ++ w ∷ [])
Unique-last w [] u n = ((λ h. h), tt)
Unique-last w (v ∷ vs) (fresh, u) n = (
  λ h. elim ((Has-last v w vs).0 h) [ inl i ↦ fresh i | inr e ↦ n (inl (sym e)) ],
  Unique-last w vs u (λ h. n (inr h)),
)

noted_iff :
    (v w : ℤ) (out : List ℤ)
    → Has v (if any (int_eq w) out then out else out ++ w ∷ []) ↔ (Has v out ⊎ (v ≡ w))
noted_iff v w out = elim (Bool-cases (any (int_eq w) out)) [
  | inl e ↦ rw e (λ h. inl h, λ h. elim h [ inl i ↦ i | inr s ↦ rw s (known e) ])
  | inr e ↦ rw e (Has-last v w out)
]
  where
    known : any (int_eq w) out ≡ true → Has w out
    known e = let (u, has, same) = (any_iff (int_eq w) out).0 e in rw (int_eq_sound w u same) has

noted-Unique :
    (w : ℤ) (out : List ℤ) → Unique out → Unique (if any (int_eq w) out then out else out ++ w ∷ [])
noted-Unique w out u = elim (Bool-cases (any (int_eq w) out)) [
  | inl e ↦ rw e u
  | inr e ↦ rw e (
      Unique-last w out u
        (λ h. false-ne-true (sym e ∙ (any_iff (int_eq w) out).1 (w, h, int_eq_refl w))))
]

unique_from_lem :
    (s out : List ℤ)
    → Unique out
    → Unique (unique_from s out) × ((v : ℤ) → Has v (unique_from s out) ↔ (Has v out ⊎ Has v s))
unfolding unique_from
unique_from_lem [] out u = (u, λ v. (λ h. inl h, λ h. elim h [ inl i ↦ i | inr n ↦ absurd n ]))
unique_from_lem (w ∷ s) out u =
    let noted = if any (int_eq w) out then out else out ++ w ∷ [] in
    let (unique, members) = unique_from_lem s noted (noted-Unique w out u) in
    (
      unique,
      λ v. (
        λ h. elim ((members v).0 h) [
          | inl i ↦ elim ((noted_iff v w out).0 i) [ inl j ↦ inl j | inr e ↦ inr (inl e) ]
          | inr later ↦ inr (inr later)
        ],
        λ h. (members v).1 (elim h [
          | inl j ↦ inl ((noted_iff v w out).1 (inl j))
          | inr i ↦ elim i [ inl e ↦ inl ((noted_iff v w out).1 (inr e)) | inr later ↦ inr later ]
        ]),
      ),
    )

-- The result has no number twice, and the same numbers as the input.
pub unique_ints_lem :
    (s : List ℤ) → Unique (unique_ints s) × ((v : ℤ) → Has v (unique_ints s) ↔ Has v s)
unfolding unique_ints
unique_ints_lem s =
    let (unique, members) = unique_from_lem s [] tt in
    (
      unique,
      λ v. (
        λ h. elim ((members v).0 h) [ inl n ↦ absurd n | inr i ↦ i ],
        λ h. (members v).1 (inr h),
      ),
    )
