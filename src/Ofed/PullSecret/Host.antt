-- ===== src/Ofed/PullSecret/Host.antt =====
-- About isStagingRegistryHost: which keys of a docker configuration name the staging registry.
use nvidia_ci.Common.{
  ℕ, ◌≡◌, refl, sym, ap, ◌∙◌, inl, inr, ◌⊎◌, ◌↔◌, Bool, true, false, ◌==◌, ◌||◌, Bool-cases,
  Option-cases, List, [], ◌∷◌, ◌++◌, none, false-ne-true, any, Has, map, arith,
}
use nvidia_ci.Text.{Text, codes, text_eq, strip_prefix, trim_prefix}
use nvidia_ci.Text.Search.{text_eq_sound, strip_prefix_sound, strip_prefix-append}
use nvidia_ci.Text.Split.{split, extend}
use nvidia_ci.Text.Trim.{to_lower, equal_fold}
use nvidia_ci.Ofed.Image.{precompiled_ofed_registry}
use nvidia_ci.Ofed.PullSecret.Defs.{first_part, is_staging_registry_host}

-- What may stand before the host.
abbrev pub schemes : List Text
schemes = [] ∷ codes "https://" ∷ codes "http://" ∷ codes "https://http://" ∷ []

-- Nothing is behind the host, or a path.
abbrev pub IsPath : Text → Type 0
IsPath rest = (rest ≡ []) ⊎ ((path : Text) × (rest ≡ b'/' ∷ path))

-- The key is a scheme, if any, the registry's host in letters of any case, and a path, if any.
pub record NamesStaging (key : Text) : Type 0 where
  pub scheme : Text
  pub host : Text
  pub rest : Text
  pub is_scheme : Has scheme schemes
  pub spelled : key ≡ scheme ++ (host ++ rest)
  pub is_path : IsPath rest
  pub is_registry : map to_lower host ≡ precompiled_ofed_registry

trimmed : (p s : Text) → (trim_prefix p s ≡ s) ⊎ (s ≡ p ++ trim_prefix p s)
unfolding trim_prefix
trimmed p s = elim (Option-cases (strip_prefix p s)) [
  | inl e ↦ inl (rw (e, trim_prefix) refl)
  | inr (t, e) ↦ inr (rw (e, trim_prefix) (strip_prefix_sound p s t e))
]

trim_prefix-behind : (p t : Text) → trim_prefix p (p ++ t) ≡ t
unfolding trim_prefix
trim_prefix-behind p t = rw (strip_prefix-append p t, trim_prefix) refl

first-extend : (c : ℕ) (ps : List Text) → first_part (extend c ps) ≡ c ∷ first_part ps
first-extend c [] = refl
first-extend c (p ∷ ps) = refl

-- The first part and what is behind it.
first-split : (s : Text) → (rest : Text) × IsPath rest × (s ≡ first_part (split b'/' s) ++ rest)
unfolding split
first-split [] = ([], inl refl, refl)
first-split (c ∷ s) = elim (Bool-cases (c == b'/')) [
  | inl e ↦ let same : c ≡ b'/' = ground arith in rw e (c ∷ s, inr (s, ap (λ x. x ∷ s) same), refl)
  | inr e ↦
      let (rest, path, at) = first-split s in
      rw e
        (rest, path, ap (λ t. c ∷ t) at ∙ ap (λ t. t ++ rest) (sym (first-extend c (split b'/' s))))
]

head : Text → ℕ
head [] = 0
head (c ∷ s) = c

tail : Text → Text
tail [] = []
tail (c ∷ s) = s

or_false : (a b : Bool) → a || b ≡ false → b ≡ false
or_false true b h = absurd (false-ne-true (sym h))
or_false false b h = h

-- A host that is a text without a slash in other letters is the first part.
split-host :
    (host rest ref : Text)
    → map to_lower host ≡ ref
    → any (λ c. c == b'/') ref ≡ false
    → IsPath rest
    → first_part (split b'/' (host ++ rest)) ≡ host
unfolding split to_lower head tail
split-host [] rest ref e plain (inl n) = rw n refl
split-host [] rest ref e plain (inr (path, n)) = rw n refl
split-host (c ∷ host) rest [] e plain path = cc
split-host (c ∷ host) rest (r ∷ ref) e plain path = elim (Bool-cases (c == b'/')) [
  | inl slash ↦
      let same : c ≡ b'/' = ground arith in
      let in_ref : r ≡ b'/' = sym (ap head e) ∙ ap to_lower same in
      absurd (false-ne-true (sym plain ∙ ap (λ x. x == b'/' || any (λ t. t == b'/') ref) in_ref))
  | inr other ↦ rw other (
      first-extend c (split b'/' (host ++ rest))
      ∙ ap (λ t. c ∷ t)
          (split-host host rest ref (ap tail e)
            (or_false (r == b'/') (any (λ t. t == b'/') ref) plain) path))
]

names_staging :
    (key scheme t : Text)
    → Has scheme schemes
    → key ≡ scheme ++ t
    → equal_fold (first_part (split b'/' t)) precompiled_ofed_registry ≡ true
    → NamesStaging key
unfolding equal_fold
names_staging key scheme t has at h =
    let (rest, path, parts) = first-split t in
    record {
      scheme = scheme;
      host = first_part (split b'/' t);
      rest = rest;
      is_scheme = has;
      spelled = at ∙ ap (λ x. scheme ++ x) parts;
      is_path = path;
      is_registry =
          text_eq_sound (map to_lower (first_part (split b'/' t)))
            (map to_lower precompiled_ofed_registry) h
          ∙ registry_lower;
    }
  where
    registry_lower : map to_lower precompiled_ofed_registry ≡ precompiled_ofed_registry
    registry_lower = unfold to_lower in refl

host_sound : (key : Text) → is_staging_registry_host key ≡ true → NamesStaging key
unfolding is_staging_registry_host
host_sound key h = of_trims (trimmed https key) (trimmed http first)
  where
    https : Text
    https = codes "https://"

    http : Text
    http = codes "http://"

    first : Text
    first = trim_prefix https key

    of_trims :
        (first ≡ key) ⊎ (key ≡ https ++ first)
        → (trim_prefix http first ≡ first) ⊎ (first ≡ http ++ trim_prefix http first)
        → NamesStaging key
    of_trims (inl a) (inl b) =
        names_staging key [] (trim_prefix http first) (inl refl) (sym a ∙ sym b) h
    of_trims (inr a) (inl b) =
        names_staging key https (trim_prefix http first) (inr (inl refl))
          (a ∙ ap (λ t. https ++ t) (sym b)) h
    of_trims (inl a) (inr b) =
        names_staging key http (trim_prefix http first) (inr (inr (inl refl))) (sym a ∙ b) h
    of_trims (inr a) (inr b) =
        names_staging key (codes "https://http://") (trim_prefix http first)
          (inr (inr (inr (inl refl)))) (a ∙ ap (λ t. https ++ t) b) h

other_first : (b c : ℕ) (p s : Text) → b == c ≡ false → trim_prefix (b ∷ p) (c ∷ s) ≡ c ∷ s
unfolding strip_prefix trim_prefix
other_first b c p s e = rw (not_there, trim_prefix) refl
  where
    not_there : strip_prefix (b ∷ p) (c ∷ s) ≡ none
    not_there = rw (e, strip_prefix) refl

-- Nothing is trimmed from the host, which does not begin with an h.
untrimmed :
    (host rest : Text)
    → map to_lower host ≡ precompiled_ofed_registry
    → (trim_prefix (codes "https://") (host ++ rest) ≡ host ++ rest)
      × (trim_prefix (codes "http://") (host ++ rest) ≡ host ++ rest)
unfolding to_lower head
untrimmed [] rest e = cc
untrimmed (c ∷ host) rest e = elim (Bool-cases (b'h' == c)) [
  | inr other ↦
      (other_first b'h' c _ (host ++ rest) other, other_first b'h' c _ (host ++ rest) other)
  | inl same ↦
      let is_h : c ≡ b'h' = ground arith in absurd (not_r (sym (ap to_lower is_h) ∙ ap head e))
]
  where
    not_r : ◌≡◌ {A = ℕ} b'h' b'r' → ⊥
    not_r h = omega arith

host_read :
    (t host rest key : Text)
    → t ≡ host ++ rest
    → IsPath rest
    → map to_lower host ≡ precompiled_ofed_registry
    → trim_prefix (codes "http://") (trim_prefix (codes "https://") key) ≡ t
    → is_staging_registry_host key ≡ true
unfolding is_staging_registry_host equal_fold
host_read t host rest key at path e trims =
    ap (λ x. equal_fold (first_part (split b'/' x)) precompiled_ofed_registry) (trims ∙ at)
    ∙ ap (λ x. equal_fold x precompiled_ofed_registry)
        (split-host host rest precompiled_ofed_registry e refl path)
    ∙ ap (λ x. text_eq x (map to_lower precompiled_ofed_registry)) e
    ∙ (unfold to_lower text_eq in refl)

host_complete : (key : Text) → NamesStaging key → is_staging_registry_host key ≡ true
host_complete key n = of_scheme n.is_scheme
  where
    t : Text
    t = n.host ++ n.rest

    read :
        trim_prefix (codes "http://") (trim_prefix (codes "https://") key) ≡ n.host ++ n.rest
        → is_staging_registry_host key ≡ true
    read trims = host_read (n.host ++ n.rest) n.host n.rest key refl n.is_path n.is_registry trims

    plain :
        (trim_prefix (codes "https://") (n.host ++ n.rest) ≡ n.host ++ n.rest)
        × (trim_prefix (codes "http://") (n.host ++ n.rest) ≡ n.host ++ n.rest)
    plain = untrimmed n.host n.rest n.is_registry

    spelled_with : (scheme : Text) → n.scheme ≡ scheme → key ≡ scheme ++ (n.host ++ n.rest)
    spelled_with scheme e = n.spelled ∙ ap (λ x. x ++ (n.host ++ n.rest)) e

    both : Text → Text
    both x = trim_prefix (codes "http://") (trim_prefix (codes "https://") x)

    not_https :
        (x : Text) → trim_prefix (codes "https://") (codes "http://" ++ x) ≡ codes "http://" ++ x
    not_https x = unfold trim_prefix strip_prefix in refl

    of_scheme : Has n.scheme schemes → is_staging_registry_host key ≡ true
    of_scheme (inl e) =
        read (ap both (spelled_with [] e) ∙ ap (trim_prefix (codes "http://")) plain.0 ∙ plain.1)
    of_scheme (inr (inl e)) = read (
        ap both (spelled_with (codes "https://") e)
        ∙ ap (trim_prefix (codes "http://"))
            (trim_prefix-behind (codes "https://") (n.host ++ n.rest))
        ∙ plain.1)
    of_scheme (inr (inr (inl e))) = read (
        ap both (spelled_with (codes "http://") e)
        ∙ ap (trim_prefix (codes "http://")) (not_https (n.host ++ n.rest))
        ∙ trim_prefix-behind (codes "http://") (n.host ++ n.rest))
    of_scheme (inr (inr (inr (inl e)))) = read (
        ap both (spelled_with (codes "https://http://") e)
        ∙ ap (trim_prefix (codes "http://"))
            (trim_prefix-behind (codes "https://") (codes "http://" ++ (n.host ++ n.rest)))
        ∙ trim_prefix-behind (codes "http://") (n.host ++ n.rest))
    of_scheme (inr (inr (inr (inr n')))) = absurd n'

pub is_staging_registry_host_iff :
    (key : Text) → (is_staging_registry_host key ≡ true) ↔ NamesStaging key
is_staging_registry_host_iff key = (host_sound key, host_complete key)
