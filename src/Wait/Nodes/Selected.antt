-- ===== src/Wait/Nodes/Selected.antt =====
-- About NodeLabelExists: the selector that it sends, and the polls at which it ends well.
use nvidia_ci.Common.{
  ◌≡◌, refl, sym, ap, ◌∙◌, ◌↔◌, ◌⊎◌, inl, inr, false, Bool-cases, List, [], ◌∷◌, ◌++◌, Option, none,
  some, some_inj, none-ne-some, false-ne-true, Has, All, All-map, Result, ok, err, if◌then◌else◌,
}
use nvidia_ci.Text.{Text, text_eq}
use nvidia_ci.Text.Search.{text_eq_sound, text_eq_refl}
use nvidia_ci.Text.Labels.{Labels, lookup, insert}
use nvidia_ci.Text.Labels.Laws.{lookup-insert}
use nvidia_ci.Wait.Poll.{Step, go_on, done, stop, Ended, reached, poll, poll_iff}
use nvidia_ci.Wait.Nodes.{
  Node, conflict, waited, some_node, wait_for_some, unless_conflict, node_label_exists,
}

-- A label selector of equations.
abbrev pub IsMatch : Labels → Labels → Type 0
IsMatch selector labels = (k v : Text) → lookup k selector ≡ some v → lookup k labels ≡ some v

-- What the wait relies on: a listing that succeeds has the nodes of the world that match.
pub record IsListing {World : Type 0} (nodes : World → List Node)
    (list : Labels → World → Result Text (List Node)) : Type 0 where
  pub lists :
      (selector : Labels) (w : World) (found : List Node)
      → list selector w ≡ ok found
      → (n : Node) → Has n found ↔ (Has n (nodes w) × IsMatch selector n.labels)

-- A selector that does not ask for another value of the label.
abbrev pub IsCompatible : Text → Text → Labels → Type 0
IsCompatible key value selector = (v : Text) → lookup key selector ≡ some v → v ≡ value

pub insert-IsMatch :
    (key value : Text) (selector labels : Labels)
    → IsCompatible key value selector
    → IsMatch (insert key value selector) labels
      ↔ (IsMatch selector labels × (lookup key labels ≡ some value))
insert-IsMatch key value selector labels compatible = (
  λ m. (
    λ k v at. elim (Bool-cases (text_eq key k)) [
      | inl e ↦ m k v (
          lookup-insert key k value selector
          ∙ ap (λ t. if t then some value else lookup k selector) e
          ∙ ap some (sym (compatible v (ap (λ t. lookup t selector) (text_eq_sound key k e) ∙ at))))
      | inr e ↦ m k v (
          lookup-insert key k value selector
          ∙ ap (λ t. if t then some value else lookup k selector) e
          ∙ at)
    ],
    m key value (
        lookup-insert key key value selector
        ∙ ap (λ t. if t then some value else lookup key selector) (text_eq_refl key)),
  ),
  λ (m, own) k v at. elim (Bool-cases (text_eq key k)) [
    | inl e ↦
        ap (λ t. lookup t labels) (sym (text_eq_sound key k e))
        ∙ own
        ∙ sym (ap (λ t. if t then some value else lookup k selector) e)
        ∙ sym (lookup-insert key k value selector)
        ∙ at
    | inr e ↦ m k v (
        sym (ap (λ t. if t then some value else lookup k selector) e)
        ∙ sym (lookup-insert key k value selector)
        ∙ at)
  ],
)

waited_inj : {s t : Ended Text} → waited s ≡ waited t → s ≡ t
waited_inj h = cc

conflict-ne-waited : {s : Ended Text} → conflict ≡ waited s → ⊥
conflict-ne-waited h = cc

go_on-ne-done : ◌≡◌ {A = Step Text} go_on done → ⊥
go_on-ne-done h = cc

stop-ne-done : {e : Text} → stop e ≡ done → ⊥
stop-ne-done h = cc

stop-ne-go_on : {e : Text} → stop e ≡ go_on → ⊥
stop-ne-go_on h = cc

module _ {World : Type 0} (nodes : World → List Node)
    (list : Labels → World → Result Text (List Node)) (law : IsListing nodes list)
    (key value : Text) (selector : Labels) where
  -- A node that matches the selector and has the label.
  abbrev pub IsLabelled : World → Type 0
  IsLabelled w =
      (n : Node) × Has n (nodes w) × IsMatch selector n.labels × (lookup key n.labels ≡ some value)

  -- The client lists the nodes.
  abbrev pub IsListed : World → Type 0
  IsListed w = (found : List Node) × (list (insert key value selector) w ≡ ok found)

  -- At one poll a node has the label, at each one before it none has it; the client lists the nodes
  -- at all of them.
  pub record IsSeen (polls : List World) : Type 0 where
    pub waiting : List World
    pub last : World
    pub later : List World
    pub in_order : polls ≡ waiting ++ last ∷ later
    pub none_before : All (λ w. IsListed w × (IsLabelled w → ⊥)) waiting
    pub listed : IsListed last
    pub labelled : IsLabelled last

  abbrev step : World → Step Text
  step w = some_node list (list (insert key value selector) w)

  module _ (compatible : IsCompatible key value selector) where
    -- The nodes that the client lists are those.
    listed_iff :
        (w : World) (found : List Node) (n : Node)
        → list (insert key value selector) w ≡ ok found
        → Has n found
          ↔ (Has n (nodes w) × IsMatch selector n.labels × (lookup key n.labels ≡ some value))
    listed_iff w found n at =
        let i = law.lists (insert key value selector) w found at n in
        let j = insert-IsMatch key value selector n.labels compatible in
        (
          λ h. let (there, m) = i.0 h in let (m', own) = j.0 m in (there, m', own),
          λ (there, m', own). i.1 (there, j.1 (m', own)),
        )

    done_iff : (w : World) → (step w ≡ done) ↔ (IsListed w × IsLabelled w)
    done_iff w =
        (λ h. there (list (insert key value selector) w) refl h, λ (l, has). back l.0 l.1 has)
      where
        there :
            (r : Result Text (List Node))
            → list (insert key value selector) w ≡ r
            → some_node list r ≡ done
            → IsListed w × IsLabelled w
        there (err e) at h = absurd (stop-ne-done h)
        there (ok []) at h = absurd (go_on-ne-done h)
        there (ok (n ∷ ns)) at h =
            let (a, b, d) = (listed_iff w (n ∷ ns) n at).0 (inl refl) in
            (((n ∷ ns), at), (n, a, b, d))

        back :
            (found : List Node)
            → list (insert key value selector) w ≡ ok found
            → IsLabelled w
            → step w ≡ done
        back [] at (n, a, b, d) = absurd ((listed_iff w [] n at).1 (a, b, d))
        back (m ∷ ns) at (n, a, b, d) = ap (some_node list) at

    go_on_iff : (w : World) → (step w ≡ go_on) ↔ (IsListed w × (IsLabelled w → ⊥))
    go_on_iff w =
        (λ h. there (list (insert key value selector) w) refl h, λ (l, no_one). back l.0 l.1 no_one)
      where
        there :
            (r : Result Text (List Node))
            → list (insert key value selector) w ≡ r
            → some_node list r ≡ go_on
            → IsListed w × (IsLabelled w → ⊥)
        there (err e) at h = absurd (stop-ne-go_on h)
        there (ok []) at h = (([], at), λ (n, a, b, d). (listed_iff w [] n at).1 (a, b, d))
        there (ok (n ∷ ns)) at h = absurd (go_on-ne-done (sym h))

        back :
            (found : List Node)
            → list (insert key value selector) w ≡ ok found
            → (IsLabelled w → ⊥)
            → step w ≡ go_on
        back [] at no_one = ap (some_node list) at
        back (m ∷ ns) at no_one =
            let (a, b, d) = (listed_iff w (m ∷ ns) m at).0 (inl refl) in
            absurd (no_one (m, a, b, d))

    poll-IsSeen_iff : (polls : List World) → (poll step polls ≡ reached) ↔ IsSeen polls
    poll-IsSeen_iff polls = (
      λ h.
          let r = (poll_iff step polls).0 h in
          let (l, has) = (done_iff r.last).0 r.answer in
          record {
            waiting = r.waiting;
            last = r.last;
            later = r.later;
            in_order = r.in_order;
            none_before = All-map r.waiting (λ w e. (go_on_iff w).0 e) r.no_answer;
            listed = l;
            labelled = has;
          },
      λ s. (poll_iff step polls).1 record {
        waiting = s.waiting;
        last = s.last;
        later = s.later;
        in_order = s.in_order;
        no_answer = All-map s.waiting (λ w e. (go_on_iff w).1 e) s.none_before;
        answer = (done_iff s.last).1 (s.listed, s.labelled);
      },
    )

  -- The selector is refused, or the polls are made.
  selector_cases :
      (polls : List World)
      → (IsCompatible key value selector
          × (node_label_exists list key value selector polls ≡ waited (poll step polls)))
        ⊎ ((v : Text) × (lookup key selector ≡ some v)
            × (text_eq v value ≡ false)
            × (node_label_exists list key value selector polls ≡ conflict))
  unfolding node_label_exists
  selector_cases polls = go (lookup key selector) refl
    where
      go :
          (o : Option Text)
          → lookup key selector ≡ o
          → (IsCompatible key value selector
              × (node_label_exists list key value selector polls ≡ waited (poll step polls)))
            ⊎ ((v : Text) × (lookup key selector ≡ some v)
                × (text_eq v value ≡ false)
                × (node_label_exists list key value selector polls ≡ conflict))
      go none e = inl (
        λ v at. absurd (none-ne-some (sym e ∙ at)),
        ap (λ o. unless_conflict list value o (insert key value selector) polls) e,
      )
      go (some v) e = elim (Bool-cases (text_eq v value)) [
        | inl same ↦ inl (
          λ v' at. some_inj (sym at ∙ e) ∙ text_eq_sound v value same,
          ap (λ o. unless_conflict list value o (insert key value selector) polls) e
              ∙ ap
                  (λ t.
                    if t then wait_for_some list (insert key value selector) polls else conflict)
                  same,
        )
        | inr other ↦ inr (
          v,
          e,
          other,
          ap (λ o. unless_conflict list value o (insert key value selector) polls) e
              ∙ ap
                  (λ t.
                    if t then wait_for_some list (insert key value selector) polls else conflict)
                  other,
        )
      ]

  -- For a client that lists the nodes matching a selector: NodeLabelExists reports no error exactly
  -- when the selector asks for no other value of the label and, at a poll up to the timeout, some node
  -- both matches the selector and has the label with the value, at each poll before it none does, and
  -- the client lists the nodes at all of these.
  pub node_label_exists_iff :
      (polls : List World)
      → (node_label_exists list key value selector polls ≡ waited reached)
        ↔ (IsCompatible key value selector × IsSeen polls)
  node_label_exists_iff polls = elim (selector_cases polls) [
    | inl (compatible, run) ↦ (
      λ h. (compatible, (poll-IsSeen_iff compatible polls).0 (waited_inj (sym run ∙ h))),
      λ (c, s). run ∙ ap waited ((poll-IsSeen_iff compatible polls).1 s),
    )
    | inr (v, at, other, run) ↦ (
      λ h. absurd (conflict-ne-waited (sym run ∙ h)),
      λ (c, s).
          absurd
            (false-ne-true (sym other ∙ ap (λ t. text_eq t value) (c v at) ∙ text_eq_refl value)),
    )
  ]
