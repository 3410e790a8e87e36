-- ===== src/Mig/Pids/Listed.antt =====
-- About GetPidsWithRegex: which lines give which PIDs.
use nvidia_ci.Common.{
  ℕ, zero, suc, ◌<◌, ◌≡◌, refl, sym, ap, ◌∙◌, ◌⊎◌, inl, inr, ◌↔◌, Bool, true, false, not, ◌&&◌,
  List, [], ◌∷◌, ◌++◌, Option, none, some, some_inj, none-ne-some, false-ne-true, arith, is_nil,
  Has, Bool-cases, length, get_or, ltb, leb, subst, get_elem?,
}
use nvidia_ci.Text.{Text, codes, text_eq, is_empty, has_prefix}
use nvidia_ci.Text.Search.{text_eq_sound, text_eq_refl, has_prefix_sound, has_prefix-append}
use nvidia_ci.Text.Split.{split}
use nvidia_ci.Text.Trim.{trim_space}
use nvidia_ci.Text.Number.{ℤ, Parsed, value, bad_syntax, out_of_range, atoi}
use nvidia_ci.Mig.Pids.Defs.{
  PidParseConfig, skips, add_pid, add_row, add_line, add_lines, get_pids_with_regex,
}
use nvidia_ci.Mig.Pids.Unique.{Unique, unique_ints_lem, Has-last}

-- The row has the text in the column.
abbrev pub IsAt : List Text → ℕ → Text → Type 0
IsAt row column t = get_elem? row column ≡ some t

-- The row has a dash in the column to skip by.
abbrev pub HasDash : Option ℕ → List Text → Type 0
HasDash none row = ⊥
HasDash (some column) row = IsAt row column (codes "-")

-- The matched row has no dash in the column to skip by, and its PID column is the text of the number.
pub record RowLists (cfg : PidParseConfig) (pid : ℤ) (o : Option (List Text)) : Type 0 where
  pub row : List Text
  pub matched : o ≡ some row
  pub no_dash : HasDash cfg.skip_column row → ⊥
  pub field : Text
  pub in_column : IsAt row cfg.pid_column field
  pub parsed : atoi field ≡ value pid

-- The line is neither blank nor a comment, and the expression's match in it lists the number.
pub record Lists (cfg : PidParseConfig) (pid : ℤ) (raw : Text) : Type 0 where
  pub not_blank : trim_space raw ≡ [] → ⊥
  pub no_comment : (rest : Text) → trim_space raw ≡ codes "#" ++ rest → ⊥
  pub listed : RowLists cfg pid (cfg.re (trim_space raw))

at_sound :
    (row : List Text) (i : ℕ) (t : Text) → IsAt row i t → (i < length row) × (get_or row i [] ≡ t)
at_sound [] i t h = absurd (none-ne-some h)
at_sound (x ∷ row) zero t h = (omega arith, some_inj h)
at_sound (x ∷ row) (suc i) t h = let (less, e) = at_sound row i t h in (omega arith, e)

IsAt-read : (row : List Text) (i : ℕ) → i < length row → IsAt row i (get_or row i [])
IsAt-read [] i h = absurd (omega arith)
IsAt-read (x ∷ row) zero h = refl
IsAt-read (x ∷ row) (suc i) h = IsAt-read row i (omega arith)

both : (a b : Bool) → a && b ≡ true → (a ≡ true) × (b ≡ true)
both true b h = (refl, h)
both false b h = absurd (false-ne-true h)

skips_iff : (column : Option ℕ) (row : List Text) → (skips column row ≡ true) ↔ HasDash column row
skips_iff none row = (λ h. absurd (false-ne-true h), λ h. absurd h)
skips_iff (some i) row = (
  λ h.
      let (less, dash) = both (ltb i (length row)) (text_eq (get_or row i []) (codes "-")) h in
      subst (IsAt row i) (text_eq_sound (get_or row i []) (codes "-") dash)
        (IsAt-read row i (ground arith)),
  λ h. let (less, e) = at_sound row i (codes "-") h in with_dash less e,
)
  where
    with_dash : i < length row → get_or row i [] ≡ codes "-" → skips (some i) row ≡ true
    with_dash less e =
        let lt : ltb i (length row) ≡ true = ground arith in rw (lt, e) (text_eq_refl (codes "-"))

parsed_iff :
    (p : Parsed) (v : ℤ) (pids : List ℤ) → Has v (add_pid p pids) ↔ (Has v pids ⊎ (p ≡ value v))
parsed_iff (value w) v pids = (
  λ h. elim ((Has-last v w pids).0 h) [ inl i ↦ inl i | inr e ↦ inr (ap value (sym e)) ],
  λ h. (Has-last v w pids).1 (elim h [ inl i ↦ inl i | inr e ↦ inr (value_inj e) ]),
)
  where
    value_inj : value w ≡ value v → v ≡ w
    value_inj e = cc
parsed_iff bad_syntax v pids = (λ h. inl h, λ h. elim h [ inl i ↦ i | inr e ↦ absurd (cc e) ])
parsed_iff (out_of_range w) v pids = (λ h. inl h, λ h. elim h [ inl i ↦ i | inr e ↦ absurd (cc e) ])

-- Nothing is listed, and nothing is added.
nothing : {A : Type 0} (v : ℤ) (pids : List ℤ) → (A → ⊥) → Has v pids ↔ (Has v pids ⊎ A)
nothing v pids none_listed =
    (λ h. inl h, λ h. elim h [ inl i ↦ i | inr r ↦ absurd (none_listed r) ])

row_iff :
    (cfg : PidParseConfig) (o : Option (List Text)) (v : ℤ) (pids : List ℤ)
    → Has v (add_row cfg o pids) ↔ (Has v pids ⊎ RowLists cfg v o)
unfolding add_row
row_iff cfg none v pids = nothing v pids (λ r. none-ne-some r.matched)
row_iff cfg (some row) v pids = elim (Bool-cases (skips cfg.skip_column row)) [
  | inl dash ↦ rw dash (
      nothing v pids (λ r. r.no_dash (
        subst (HasDash cfg.skip_column) (some_inj r.matched)
          ((skips_iff cfg.skip_column row).0 dash))))
  | inr no_dash ↦ elim (Bool-cases (leb (length row) cfg.pid_column)) [
    | inl short ↦
        rw (no_dash, short)
          (nothing v pids (λ r.
            let at : IsAt row cfg.pid_column r.field =
              subst (λ t. IsAt t cfg.pid_column r.field) (sym (some_inj r.matched)) r.in_column in
            let (less, e) = at_sound row cfg.pid_column r.field at in absurd (ground arith)))
    | inr long ↦
        let less : cfg.pid_column < length row = ground arith in
        rw (no_dash, long)
          (
            λ h. elim ((parsed_iff (atoi (get_or row cfg.pid_column [])) v pids).0 h) [
              | inl i ↦ inl i
              | inr e ↦ inr (record {
                row = row;
                matched = refl;
                no_dash = λ d. false-ne-true (sym no_dash ∙ (skips_iff cfg.skip_column row).1 d);
                field = get_or row cfg.pid_column [];
                in_column = IsAt-read row cfg.pid_column less;
                parsed = e;
              })
            ],
            λ h.
                (parsed_iff (atoi (get_or row cfg.pid_column [])) v pids).1
                  (elim h [ inl i ↦ inl i | inr r ↦ inr (of_row r) ]),
          )
  ]
]
  where
    of_row : RowLists cfg v (some row) → atoi (get_or row cfg.pid_column []) ≡ value v
    of_row r =
        let at : IsAt row cfg.pid_column r.field =
          subst (λ t. IsAt t cfg.pid_column r.field) (sym (some_inj r.matched)) r.in_column in
        ap atoi (at_sound row cfg.pid_column r.field at).1 ∙ r.parsed

line_iff :
    (cfg : PidParseConfig) (raw : Text) (v : ℤ) (pids : List ℤ)
    → Has v (add_line cfg raw pids) ↔ (Has v pids ⊎ Lists cfg v raw)
unfolding add_line
line_iff cfg raw v pids = elim (Bool-cases (is_empty (trim_space raw))) [
  | inl blank ↦ rw blank (nothing v pids (λ l. l.not_blank (emptied (trim_space raw) blank)))
  | inr full ↦ elim (Bool-cases (has_prefix (codes "#") (trim_space raw))) [
    | inl comment ↦
        rw (full, comment)
          (nothing v pids (λ l.
            let (rest, e) = has_prefix_sound (codes "#") (trim_space raw) comment in
            l.no_comment rest e))
    | inr code ↦
        let (there, back) = row_iff cfg (cfg.re (trim_space raw)) v pids in
        rw (full, code)
          (
            λ h. elim (there h) [
              | inl i ↦ inl i
              | inr r ↦ inr (record {
                not_blank = λ e. false-ne-true (sym full ∙ ap is_empty e);
                no_comment = λ rest e.
                    false-ne-true (
                      sym code
                      ∙ ap (has_prefix (codes "#")) e
                      ∙ has_prefix-append (codes "#") rest);
                listed = r;
              })
            ],
            λ h. back (elim h [ inl i ↦ inl i | inr l ↦ inr l.listed ]),
          )
  ]
]
  where
    emptied : (t : Text) → is_empty t ≡ true → t ≡ []
    emptied [] h = refl
    emptied (x ∷ t) h = absurd (false-ne-true h)

-- A line of the list gives the PID.
abbrev pub IsListed : PidParseConfig → ℤ → List Text → Type 0
IsListed cfg v lines = (raw : Text) × Has raw lines × Lists cfg v raw

lines_iff :
    (cfg : PidParseConfig) (lines : List Text) (v : ℤ) (pids : List ℤ)
    → Has v (add_lines cfg lines pids) ↔ (Has v pids ⊎ IsListed cfg v lines)
unfolding add_lines
lines_iff cfg [] v pids = nothing v pids (λ l. l.1)
lines_iff cfg (raw ∷ lines) v pids =
    let (a, b) = line_iff cfg raw v pids in
    let (there, back) = lines_iff cfg lines v (add_line cfg raw pids) in
    (
      λ h. elim (there h) [
        | inl i ↦ elim (a i) [ inl j ↦ inl j | inr l ↦ inr (raw, inl refl, l) ]
        | inr (r, has, l) ↦ inr (r, inr has, l)
      ],
      λ h. back (elim h [ inl i ↦ inl (b (inl i)) | inr (r, has, l) ↦ at_or_behind r has l ]),
    )
  where
    at_or_behind :
        (r : Text)
        → Has r (raw ∷ lines)
        → Lists cfg v r
        → Has v (add_line cfg raw pids) ⊎ IsListed cfg v lines
    at_or_behind r (inl e) l = inl ((line_iff cfg raw v pids).1 (inr (subst (Lists cfg v) e l)))
    at_or_behind r (inr has) l = inr (r, has, l)

-- The flag says whether a PID was found, the PIDs are distinct, and a number is among them exactly if a
-- line of the output lists it: the line without its spaces is neither blank nor a comment, the
-- expression matches it, the match has no dash in the column to skip by, and its PID column is the
-- number's text.
pub get_pids_with_regex-IsListed :
    (output : Text) (cfg : PidParseConfig)
    → ((get_pids_with_regex output cfg).0 ≡ not (is_nil (get_pids_with_regex output cfg).1))
      × Unique (get_pids_with_regex output cfg).1
      × ((v : ℤ) → Has v (get_pids_with_regex output cfg).1 ↔ IsListed cfg v (split 10 output))
unfolding get_pids_with_regex
get_pids_with_regex-IsListed output cfg =
    let (unique, members) = unique_ints_lem (add_lines cfg (split 10 output) []) in
    (
      refl,
      unique,
      λ v.
          let (there, back) = lines_iff cfg (split 10 output) v [] in
          (
            λ h. elim (there ((members v).0 h)) [ inl n ↦ absurd n | inr l ↦ l ],
            λ l. (members v).1 (back (inr l)),
          ),
    )
