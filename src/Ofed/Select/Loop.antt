-- ===== src/Ofed/Select/Loop.antt =====
-- About the selection loop: what it has at hand after some of the images.
use nvidia_ci.Common.{
  Bool, true, false, ◌≡◌, refl, ◌⊎◌, inl, inr, List, [], ◌∷◌, Option, none, some, Has, regroup,
  degroup, Bool-cases,
}
use nvidia_ci.Text.{Text, is_empty}
use nvidia_ci.Text.Labels.{label}
use nvidia_ci.Ofed.Version.{
  NotLater, NotLater-refl, NotLater-trans, positive-NotLater, not_positive-NotLater,
}
use nvidia_ci.Ofed.Image.{CatalogImage, ofed_version_label}
use nvidia_ci.Ofed.Select.Defs.{Best, Target, candidate_tag, improves, consider, consider_all}

-- The OFED version that an image's label states.
abbrev pub ofed_of : CatalogImage → Text
ofed_of img = label ofed_version_label img.labels

-- The image has the target's kernel label and a tag for the target.
abbrev pub Fits : Target → CatalogImage → Type 0
Fits t img = is_empty (candidate_tag t img) ≡ false

-- `b` is one of the images that `In` admits, it fits, and no other that fits is later.
pub record IsBest (In : CatalogImage → Type 0) (t : Target) (b : Best) : Type 0 where
  pub member : In b.image
  pub tag_of : b.tag ≡ candidate_tag t b.image
  pub fits : Fits t b.image
  pub ofed : b.ofed ≡ ofed_of b.image
  pub latest : (img : CatalogImage) → In img → Fits t img → NotLater (ofed_of img) b.ofed

-- What the loop has at hand after the images that `In` admits.
abbrev pub Chosen : (CatalogImage → Type 0) → Target → Option Best → Type 0
Chosen In t none = (img : CatalogImage) → In img → is_empty (candidate_tag t img) ≡ true
Chosen In t (some b) = IsBest In t b

abbrev Also : (CatalogImage → Type 0) → CatalogImage → CatalogImage → Type 0
Also In img other = In other ⊎ (other ≡ img)

Chosen-map :
    (In In' : CatalogImage → Type 0) (t : Target) (best : Option Best)
    → ((img : CatalogImage) → In img → In' img)
    → ((img : CatalogImage) → In' img → In img)
    → Chosen In t best
    → Chosen In' t best
Chosen-map In In' t none there back h = λ img i. h img (back img i)
Chosen-map In In' t (some b) there back h = record {
  member = there b.image h.member;
  tag_of = h.tag_of;
  fits = h.fits;
  ofed = h.ofed;
  latest = λ img i. h.latest img (back img i);
}

module _ (In : CatalogImage → Type 0) (t : Target) (img : CatalogImage) where
  skip :
      (best : Option Best)
      → is_empty (candidate_tag t img) ≡ true
      → Chosen In t best
      → Chosen (Also In img) t best
  skip none e h = λ other i. elim i [ inl old ↦ h other old | inr new ↦ rw new e ]
  skip (some b) e h = record {
    member = inl h.member;
    tag_of = h.tag_of;
    fits = h.fits;
    ofed = h.ofed;
    latest = λ other i f. elim i [
      | inl old ↦ h.latest other old f
      | inr new ↦ absurd (absurd_fit other new f)
    ];
  }
    where
      absurd_fit : (other : CatalogImage) → other ≡ img → Fits t other → ⊥
      absurd_fit other new f = cc (rw new at f)

  abbrev newest : Best
  newest = record { image = img; ofed = ofed_of img; tag = candidate_tag t img }

  replace :
      (best : Option Best)
      → Fits t img
      → improves (ofed_of img) best ≡ true
      → Chosen In t best
      → Chosen (Also In img) t (some newest)
  unfolding improves
  replace none f e h = record {
    member = inr refl;
    tag_of = refl;
    fits = f;
    ofed = refl;
    latest = λ other i g. elim i [
      | inl old ↦ absurd (unfit (h other old) g)
      | inr new ↦ rw new (NotLater-refl (ofed_of img))
    ];
  }
    where
      unfit : {b : Bool} → b ≡ true → b ≡ false → ⊥
      unfit p q = cc
  replace (some b) f e h = record {
    member = inr refl;
    tag_of = refl;
    fits = f;
    ofed = refl;
    latest = λ other i g. elim i [
      | inl old ↦
          NotLater-trans (ofed_of other) b.ofed (ofed_of img) (h.latest other old g)
            (positive-NotLater (ofed_of img) b.ofed e)
      | inr new ↦ rw new (NotLater-refl (ofed_of img))
    ];
  }

  keep :
      (b : Best)
      → improves (ofed_of img) (some b) ≡ false
      → IsBest In t b
      → IsBest (Also In img) t b
  unfolding improves
  keep b e h = record {
    member = inl h.member;
    tag_of = h.tag_of;
    fits = h.fits;
    ofed = h.ofed;
    latest = λ other i f. elim i [
      | inl old ↦ h.latest other old f
      | inr new ↦ rw new (not_positive-NotLater (ofed_of img) b.ofed e)
    ];
  }

  kept :
      (best : Option Best)
      → Fits t img
      → improves (ofed_of img) best ≡ false
      → Chosen In t best
      → Chosen (Also In img) t best
  kept none f e h = unfold improves in absurd (cc e)
  kept (some b) f e h = keep b e h

  consider-Chosen :
      (best : Option Best) → Chosen In t best → Chosen (Also In img) t (consider t img best)
  unfolding consider
  consider-Chosen best h = elim (Bool-cases (is_empty (candidate_tag t img))) [
    | inl e ↦ rw e (skip best e h)
    | inr f ↦ rw f (elim (Bool-cases (improves (ofed_of img) best)) [
      | inl e ↦ rw e (replace best f e h)
      | inr e ↦ rw e (kept best f e h)
    ])
  ]

consider_all-Chosen :
    (In : CatalogImage → Type 0) (t : Target) (images : List CatalogImage) (best : Option Best)
    → Chosen In t best
    → Chosen (λ img. In img ⊎ Has img images) t (consider_all t images best)
unfolding consider_all
consider_all-Chosen In t [] best h =
    Chosen-map In _ t best (λ img i. inl i)
      (λ img i. elim i [ inl old ↦ old | inr none_left ↦ absurd none_left ]) h
consider_all-Chosen In t (img ∷ images) best h =
    Chosen-map (λ other. Also In img other ⊎ Has other images) _ t
      (consider_all t images (consider t img best)) (λ other i. regroup i) (λ other i. degroup i)
      (consider_all-Chosen (Also In img) t images (consider t img best)
        (consider-Chosen In t img best h))

-- After all the images: nothing, and then no image of the list fits, or an image of the list that
-- fits, with its tag and its version, and no image of the list that fits has a later version.
pub select_loop-Chosen :
    (t : Target) (images : List CatalogImage)
    → Chosen (λ img. Has img images) t (consider_all t images none)
select_loop-Chosen t images =
    Chosen-map (λ img. ⊥ ⊎ Has img images) _ t (consider_all t images none)
      (λ img i. elim i [ inl no_image ↦ absurd no_image | inr has ↦ has ]) (λ img i. inr i)
      (consider_all-Chosen (λ img. ⊥) t images none (λ img i. absurd i))
