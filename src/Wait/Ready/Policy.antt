-- ===== src/Wait/Ready/Policy.antt =====
-- About the waits for a state of a ClusterPolicy: the polls at which they end well.
use nvidia_ci.Common.{
  ◌≡◌, refl, sym, ap, ◌∙◌, ◌↔◌, ◌⊎◌, inl, inr, true, false, Bool-cases, List, [], ◌∷◌, ◌++◌, Option,
  All, All-map, none, some,
}
use nvidia_ci.Text.{Text, is_empty, text_eq}
use nvidia_ci.Cluster.Api.{
  Object, Reply, found, not_found, failed, seems_there, Client, does_not_exist,
}
use nvidia_ci.Cluster.ClusterPolicy.{cluster_policy_kind, pull_cluster_policy}
use nvidia_ci.Cluster.Crd.{CrdBuilder, crd_exists, checked, got, pulled}
use nvidia_ci.Wait.Poll.{Step, go_on, done, stop, reached, poll, poll_iff}
use nvidia_ci.Wait.Ready.{
  Failure, pull_error, done_if, object_in_state, in_state, state_ready, state_not_ready,
  cluster_policy_ready, cluster_policy_not_ready,
}

go_on-ne-done : {E : Type 0} → ◌≡◌ {A = Step E} go_on done → ⊥
go_on-ne-done h = cc

done-ne-stop : {E : Type 0} {e : E} → done ≡ stop e → ⊥
done-ne-stop h = cc

go_on-ne-stop : {E : Type 0} {e : E} → go_on ≡ stop e → ⊥
go_on-ne-stop h = cc

module _ {P : Type 0} (state : P → Text) (c : Client P) (no_spec : P) (name : Text) where
  -- Get finds the policy in the state.
  abbrev pub IsIn : Text → c.World → Type 0
  IsIn wanted w =
      (o : Object P) × (c.get [] name w ≡ found o) × (text_eq (state o.payload) wanted ≡ true)

  -- Get finds the policy in another state.
  abbrev pub IsElsewhere : Text → c.World → Type 0
  IsElsewhere wanted w =
      (o : Object P) × (c.get [] name w ≡ found o) × (text_eq (state o.payload) wanted ≡ false)

  -- Get fails, and not because the policy is missing.
  abbrev pub IsFailing : c.World → Type 0
  IsFailing w = (o : Option (Object P)) × (e : Text) × (c.get [] name w ≡ failed o e)

  -- The policy is in the state at one poll; at each one before it, it is in another state, or Get
  -- fails, though not because the policy is missing.
  pub record IsAwaited (wanted : Text) (polls : List c.World) : Type 0 where
    pub waiting : List c.World
    pub last : c.World
    pub later : List c.World
    pub in_order : polls ≡ waiting ++ last ∷ later
    pub tolerated : All (λ w. IsElsewhere wanted w ⊎ IsFailing w) waiting
    pub settled : IsIn wanted last

  -- The condition, on the answer to Get.
  abbrev on_reply : Text → Reply P → Step Failure
  on_reply wanted (found o) = object_in_state state wanted o
  on_reply wanted (not_found o) = stop (pull_error does_not_exist)
  on_reply wanted (failed o e) = go_on

  abbrev condition : Text → c.World → Step Failure
  condition wanted w = in_state state wanted (pull_cluster_policy c no_spec name w)

  by_reply :
      (wanted : Text) (b : CrdBuilder P) (r : Reply P)
      → in_state state wanted (
          pulled cluster_policy_kind c
            (seems_there r, record b { object = got cluster_policy_kind r }))
        ≡ on_reply wanted r
  by_reply wanted b (found o) = refl
  by_reply wanted b (not_found o) = refl
  by_reply wanted b (failed o e) = refl

  condition_lem :
      (wanted : Text) (w : c.World)
      → is_empty name ≡ false
      → condition wanted w ≡ on_reply wanted (c.get [] name w)
  unfolding pull_cluster_policy crd_exists checked
  condition_lem wanted w named = rw named (
      by_reply wanted
        record {
          definition = some (record { name = name; namespace = []; payload = no_spec });
          object = none;
          error_msg = [];
          has_client = true;
        }
        (c.get [] name w))

  module _ (wanted : Text) (w : c.World) where
    done_lem : (r : Reply P) → c.get [] name w ≡ r → on_reply wanted r ≡ done → IsIn wanted w
    done_lem (found o) at h = elim (Bool-cases (text_eq (state o.payload) wanted)) [
      | inl e ↦ (o, at, e)
      | inr e ↦ absurd (go_on-ne-done (sym (ap done_if e) ∙ h))
    ]
    done_lem (not_found o) at h = absurd (done-ne-stop (sym h))
    done_lem (failed o e) at h = absurd (go_on-ne-done h)

    go_on_lem :
        (r : Reply P)
        → c.get [] name w ≡ r
        → on_reply wanted r ≡ go_on
        → IsElsewhere wanted w ⊎ IsFailing w
    go_on_lem (found o) at h = elim (Bool-cases (text_eq (state o.payload) wanted)) [
      | inl e ↦ absurd (go_on-ne-done (sym h ∙ ap done_if e))
      | inr e ↦ inl (o, at, e)
    ]
    go_on_lem (not_found o) at h = absurd (go_on-ne-stop (sym h))
    go_on_lem (failed o e) at h = inr (o, e, at)

    done_back : is_empty name ≡ false → IsIn wanted w → condition wanted w ≡ done
    done_back named (o, at, e) =
        condition_lem wanted w named ∙ ap (on_reply wanted) at ∙ ap done_if e

    go_on_back :
        is_empty name ≡ false → IsElsewhere wanted w ⊎ IsFailing w → condition wanted w ≡ go_on
    go_on_back named (inl (o, at, e)) =
        condition_lem wanted w named ∙ ap (on_reply wanted) at ∙ ap done_if e
    go_on_back named (inr (o, e, at)) = condition_lem wanted w named ∙ ap (on_reply wanted) at

  awaits_iff :
      (wanted : Text) (polls : List c.World)
      → is_empty name ≡ false
      → (poll (condition wanted) polls ≡ reached) ↔ IsAwaited wanted polls
  awaits_iff wanted polls named = (
    λ h.
        let r = (poll_iff (condition wanted) polls).0 h in
        record {
          waiting = r.waiting;
          last = r.last;
          later = r.later;
          in_order = r.in_order;
          tolerated =
              All-map r.waiting
                (λ w e.
                  go_on_lem wanted w (c.get [] name w) refl
                    (sym (condition_lem wanted w named) ∙ e))
                r.no_answer;
          settled =
              done_lem wanted r.last (c.get [] name r.last) refl
                (sym (condition_lem wanted r.last named) ∙ r.answer);
        },
    λ a. (poll_iff (condition wanted) polls).1 record {
      waiting = a.waiting;
      last = a.last;
      later = a.later;
      in_order = a.in_order;
      no_answer = All-map a.waiting (λ w t. go_on_back wanted w named t) a.tolerated;
      answer = done_back wanted a.last named a.settled;
    },
  )

  -- Waiting for a policy with a name to be ready, and to be not ready, ends well exactly when at one
  -- poll up to the timeout the policy is in that state, and at each poll before it Get has found the
  -- policy in another state or has failed for another reason than a missing policy.
  pub cluster_policy_ready_iff :
      (polls : List c.World)
      → is_empty name ≡ false
      → ((cluster_policy_ready state c no_spec name polls ≡ reached) ↔ IsAwaited state_ready polls)
        × ((cluster_policy_not_ready state c no_spec name polls ≡ reached)
            ↔ IsAwaited state_not_ready polls)
  unfolding cluster_policy_ready cluster_policy_not_ready
  cluster_policy_ready_iff polls named =
      (awaits_iff state_ready polls named, awaits_iff state_not_ready polls named)
