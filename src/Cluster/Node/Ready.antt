-- ===== src/Cluster/Node/Ready.antt =====
-- About the waits for a node that is ready and for one that is not.
use nvidia_ci.Common.{
  ◌≡◌, refl, sym, ap, ◌∙◌, ◌↔◌, ◌⊎◌, inl, inr, Bool, true, false, Bool-cases, List, [], ◌∷◌, ◌++◌,
  Option, none, some, some_inj, none-ne-some, false-ne-true, All, All-map, ok, ok_inj,
  if◌then◌else◌,
}
use nvidia_ci.Text.{Text, codes, text_eq}
use nvidia_ci.Text.Search.{text_eq_sound, text_eq_refl}
use nvidia_ci.Cluster.Api.{
  Object, Reply, found, not_found, failed, reply_object, seems_there, Client, BuilderError, message,
  does_not_exist,
}
use nvidia_ci.Wait.Poll.{Step, go_on, done, stop, reached, poll_iff}
use nvidia_ci.Cluster.Crd.{checked}
use nvidia_ci.Cluster.Olm.{olm_exists}
use nvidia_ci.Cluster.Node.Defs.{
  NodeFields, NodeBuilder, checked_node, node_exists, status_of, status_step, is_true,
  is_not_unknown, node_ready, wait_for_status, wait_until_ready, wait_until_not_ready,
}

abbrev pub node_builder : Object NodeFields → Option (Object NodeFields) → NodeBuilder
node_builder d x = record { definition = some d; object = x; error_msg = []; has_client = true }

-- The first condition of the type has the status.
pub record FirstStatus (condition_type status : Text) (conditions : List (Text × Text))
    : Type 0 where
  pub before : List (Text × Text)
  pub after : List (Text × Text)
  pub in_order : conditions ≡ before ++ (condition_type, status) ∷ after
  pub others : All (λ (t : Text × Text). t.0 ≡ condition_type → ⊥) before

status_of-first :
    (ty s : Text) (cs : List (Text × Text)) → status_of ty cs ≡ some s → FirstStatus ty s cs
unfolding status_of
status_of-first ty s [] h = absurd (none-ne-some h)
status_of-first ty s ((t, u) ∷ cs) h = elim (Bool-cases (text_eq t ty)) [
  | inl e ↦ record {
    before = [];
    after = cs;
    in_order =
        ap (λ x. (x, u) ∷ cs) (text_eq_sound t ty e)
        ∙ ap (λ x. (ty, x) ∷ cs) (some_inj (rw e at h));
    others = tt;
  }
  | inr e ↦
      let r = status_of-first ty s cs (rw e at h) in
      record {
        before = (t, u) ∷ r.before;
        after = r.after;
        in_order = ap (λ xs. (t, u) ∷ xs) r.in_order;
        others =
            (λ same. false-ne-true (sym e ∙ ap (text_eq t) (sym same) ∙ text_eq_refl t), r.others);
      }
]

behind_others :
    (ty s : Text) (before after : List (Text × Text))
    → All (λ (t : Text × Text). t.0 ≡ ty → ⊥) before
    → status_of ty (before ++ (ty, s) ∷ after) ≡ some s
unfolding status_of
behind_others ty s [] after h = rw (text_eq_refl ty) refl
behind_others ty s ((t, u) ∷ before) after (other, h) = elim (Bool-cases (text_eq t ty)) [
  | inl e ↦ absurd (other (text_eq_sound t ty e))
  | inr e ↦ rw e (behind_others ty s before after h)
]

first_iff :
    (ty s : Text) (cs : List (Text × Text)) → (status_of ty cs ≡ some s) ↔ FirstStatus ty s cs
first_iff ty s cs = (
  status_of-first ty s cs,
  λ r. ap (status_of ty) r.in_order ∙ behind_others ty s r.before r.after r.others,
)

-- Get returns the object, without an error or beside another one than NotFound.
abbrev pub IsRead : Reply NodeFields → Object NodeFields → Type 0
IsRead r o = (r ≡ found o) ⊎ ((e : Text) × (r ≡ failed (some o) e))

-- It returns an object of which the first Ready condition has a status such as is wanted.
abbrev pub Shows : (Text → Type 0) → Reply NodeFields → Type 0
Shows Wanted r =
    (o : Object NodeFields) × IsRead r o
    × ((s : Text) × FirstStatus node_ready s o.payload.conditions × Wanted s)

abbrev after : Bool → Step BuilderError
after b = if b then done else go_on

-- A wait's condition on the status that was read.
abbrev on_status : (Text → Bool) → Option Text → Step BuilderError
on_status is_end none = stop (message (codes "the condition could not be found"))
on_status is_end (some s) = after (is_end s)

go_on-ne-done : ◌≡◌ {A = Step BuilderError} go_on done → ⊥
go_on-ne-done h = cc

stop-ne-after : {e : BuilderError} (b : Bool) → stop e ≡ after b → ⊥
stop-ne-after true h = cc
stop-ne-after false h = cc

after_inj : (a b : Bool) → after a ≡ after b → a ≡ b
after_inj true true h = refl
after_inj false false h = refl
after_inj true false h = absurd (go_on-ne-done (sym h))
after_inj false true h = absurd (go_on-ne-done h)

module _ (c : Client NodeFields) (d : Object NodeFields) (x : Option (Object NodeFields))
    (is_end : Text → Bool) where
  -- The condition of the wait, and what it says to an answer of Get.
  abbrev condition : c.World → Step BuilderError
  condition w = status_step is_end node_ready (node_exists c (checked_node (node_builder d x)) w)

  abbrev on_reply : Reply NodeFields → Step BuilderError
  on_reply (found o) = on_status is_end (status_of node_ready o.payload.conditions)
  on_reply (not_found o) = stop does_not_exist
  on_reply (failed none e) = on_status is_end none
  on_reply (failed (some o) e) = on_status is_end (status_of node_ready o.payload.conditions)

  condition_lem : (w : c.World) → condition w ≡ on_reply (c.get d.namespace d.name w)
  unfolding olm_exists checked
  condition_lem w = by_reply (c.get d.namespace d.name w)
    where
      of_status :
          (st : Option Text)
          → elim st [
            | none ↦ stop (message (codes "the condition could not be found"))
            | some s ↦ if is_end s then done else go_on
          ]
            ≡ on_status is_end st
      of_status none = refl
      of_status (some s) = refl

      by_reply :
          (r : Reply NodeFields)
          → status_step is_end node_ready
              (seems_there r, record (node_builder d x) { object = reply_object r })
            ≡ on_reply r
      by_reply (found o) = of_status (status_of node_ready o.payload.conditions)
      by_reply (not_found o) = refl
      by_reply (failed none e) = of_status (status_of node_ready []) ∙ (unfold status_of in refl)
      by_reply (failed (some o) e) = of_status (status_of node_ready o.payload.conditions)

  -- The condition says yes, or goes on, exactly when a status is read that makes it do so.
  module _ (b : Bool) (Wanted : Text → Type 0) (law : (s : Text) → (is_end s ≡ b) ↔ Wanted s) where
    status_sound :
        (cs : List (Text × Text)) (st : Option Text)
        → status_of node_ready cs ≡ st
        → on_status is_end st ≡ after b
        → (s : Text) × FirstStatus node_ready s cs × Wanted s
    status_sound cs none read h = absurd (stop-ne-after b h)
    status_sound cs (some s) read h =
        (s, (first_iff node_ready s cs).0 read, (law s).0 (after_inj (is_end s) b h))

    reply_sound : (r : Reply NodeFields) → on_reply r ≡ after b → Shows Wanted r
    reply_sound (found o) h = (
      o,
      inl refl,
      status_sound o.payload.conditions (status_of node_ready o.payload.conditions) refl h,
    )
    reply_sound (not_found o) h = absurd (stop-ne-after b h)
    reply_sound (failed none e) h = absurd (stop-ne-after b h)
    reply_sound (failed (some o) e) h = (
      o,
      inr (e, refl),
      status_sound o.payload.conditions (status_of node_ready o.payload.conditions) refl h,
    )

    reply_back : (r : Reply NodeFields) → Shows Wanted r → on_reply r ≡ after b
    reply_back r (o, read, (s, first, wanted)) =
        of_read read
        ∙ ap (on_status is_end) ((first_iff node_ready s o.payload.conditions).1 first)
        ∙ ap after ((law s).1 wanted)
      where
        of_read :
            IsRead r o → on_reply r ≡ on_status is_end (status_of node_ready o.payload.conditions)
        of_read (inl e) = ap on_reply e
        of_read (inr (t, e)) = ap on_reply e

    condition_iff :
        (w : c.World) → (condition w ≡ after b) ↔ Shows Wanted (c.get d.namespace d.name w)
    condition_iff w = (
      λ h. reply_sound (c.get d.namespace d.name w) (sym (condition_lem w) ∙ h),
      λ s. condition_lem w ∙ reply_back (c.get d.namespace d.name w) s,
    )

-- At one poll the status is such as ends the wait, and at each poll before it such as does not.
pub record IsAwaited (c : Client NodeFields) (d : Object NodeFields) (Waits Ends : Text → Type 0)
    (polls : List c.World) : Type 0 where
  pub waiting : List c.World
  pub last : c.World
  pub later : List c.World
  pub in_order : polls ≡ waiting ++ last ∷ later
  pub before : All (λ w. Shows Waits (c.get d.namespace d.name w)) waiting
  pub at_last : Shows Ends (c.get d.namespace d.name last)

awaits_iff :
    (c : Client NodeFields) (d : Object NodeFields) (x : Option (Object NodeFields))
    (is_end : Text → Bool) (Waits Ends : Text → Type 0)
    → ((s : Text) → (is_end s ≡ false) ↔ Waits s)
    → ((s : Text) → (is_end s ≡ true) ↔ Ends s)
    → (polls : List c.World)
    → (wait_for_status c is_end node_ready (node_builder d x) polls ≡ ok reached)
      ↔ IsAwaited c d Waits Ends polls
unfolding wait_for_status checked
awaits_iff c d x is_end Waits Ends goes_on ends polls = (
  λ h.
      let r = (poll_iff (condition c d x is_end) polls).0 (ok_inj h) in
      record {
        waiting = r.waiting;
        last = r.last;
        later = r.later;
        in_order = r.in_order;
        before =
            All-map r.waiting (λ w e. (condition_iff c d x is_end false Waits goes_on w).0 e)
              r.no_answer;
        at_last = (condition_iff c d x is_end true Ends ends r.last).0 r.answer;
      },
  λ a. ap ok (
      (poll_iff (condition c d x is_end) polls).1 record {
        waiting = a.waiting;
        last = a.last;
        later = a.later;
        in_order = a.in_order;
        no_answer =
            All-map a.waiting (λ w s. (condition_iff c d x is_end false Waits goes_on w).1 s)
              a.before;
        answer = (condition_iff c d x is_end true Ends ends a.last).1 a.at_last;
      }),
)

eq_iff : (s t : Text) → (text_eq s t ≡ true) ↔ (s ≡ t)
eq_iff s t = (text_eq_sound s t, λ e. ap (text_eq s) (sym e) ∙ text_eq_refl s)

ne_iff : (s t : Text) → (text_eq s t ≡ false) ↔ (s ≡ t → ⊥)
ne_iff s t = (
  λ h e. false-ne-true (sym h ∙ (eq_iff s t).1 e),
  λ n. elim (Bool-cases (text_eq s t)) [ inl e ↦ absurd (n (text_eq_sound s t e)) | inr e ↦ e ],
)

negated : (b : Bool) → ((if b then false else true) ≡ true) ↔ (b ≡ false)
negated true = (λ h. sym h, λ h. sym h)
negated false = (λ h. refl, λ h. refl)

negated_no : (b : Bool) → ((if b then false else true) ≡ false) ↔ (b ≡ true)
negated_no true = (λ h. refl, λ h. refl)
negated_no false = (λ h. sym h, λ h. sym h)

-- For a builder with a definition, a client and no message, where a poll reads the status of the first
-- Ready condition of the object that Get returns, without an error or beside another one than NotFound:
-- WaitUntilReady ends well exactly when at a poll up to the timeout the status is True, and at each poll
-- before it is another; WaitUntilNotReady ends well exactly when at a poll up to the timeout the status
-- is another than Unknown, such as True, and at each poll before it is Unknown.
pub node_waits_iff :
    (c : Client NodeFields) (d : Object NodeFields) (x : Option (Object NodeFields))
    (polls : List c.World)
    → ((wait_until_ready c (node_builder d x) polls ≡ ok reached)
        ↔ IsAwaited c d (λ s. s ≡ codes "True" → ⊥) (λ s. s ≡ codes "True") polls)
      × ((wait_until_not_ready c (node_builder d x) polls ≡ ok reached)
          ↔ IsAwaited c d (λ s. s ≡ codes "Unknown") (λ s. s ≡ codes "Unknown" → ⊥) polls)
node_waits_iff c d x polls = (
  awaits_iff c d x is_true (λ s. s ≡ codes "True" → ⊥) (λ s. s ≡ codes "True")
      (λ s. ne_iff s (codes "True")) (λ s. eq_iff s (codes "True")) polls,
  awaits_iff c d x is_not_unknown (λ s. s ≡ codes "Unknown") (λ s. s ≡ codes "Unknown" → ⊥)
      (λ s. chain (negated_no (text_eq s (codes "Unknown"))) (eq_iff s (codes "Unknown")))
      (λ s. chain (negated (text_eq s (codes "Unknown"))) (ne_iff s (codes "Unknown"))) polls,
)
  where
    chain : {A B C : Type 0} → A ↔ B → B ↔ C → A ↔ C
    chain f g = (λ a. g.0 (f.0 a), λ c. f.1 (g.1 c))
