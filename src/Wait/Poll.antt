-- ===== src/Wait/Poll.antt =====
-- Waiting with PollUntilContextTimeout: the condition is asked at once and again at every interval, until
-- it says yes or fails, or the time is over. The polls are the answers of the cluster that the
-- condition reads, one for each time that it is asked before the timeout.
use nvidia_ci.Common.{◌≡◌, refl, sym, ap, ◌∙◌, ◌↔◌, ◌⊎◌, inl, inr, List, [], ◌∷◌, ◌++◌, All}

-- The condition's (bool, error).
pub data Step (E : Type 0) : Type 0 where
  go_on done : Step E
  stop : E → Step E

pub data Ended (E : Type 0) : Type 0 where
  reached timed_out : Ended E
  stopped : E → Ended E

Step-cases : {E : Type 0} (s : Step E) → (s ≡ go_on) ⊎ ((s ≡ done) ⊎ ((e : E) × (s ≡ stop e)))
Step-cases go_on = inl refl
Step-cases done = inr (inl refl)
Step-cases (stop e) = inr (inr (e, refl))

reached-ne-stopped : {E : Type 0} {e : E} → reached ≡ stopped e → ⊥
reached-ne-stopped h = cc

abbrev answered : {E : Type 0} → Step E → Ended E → Ended E
answered go_on rest = rest
answered done rest = reached
answered (stop e) rest = stopped e

module _ {A E : Type 0} (step : A → Step E) where
  abbrev pub poll : List A → Ended E
  poll [] = timed_out
  poll (a ∷ polls) = answered (step a) (poll polls)

  -- The condition says yes at one poll, and at each one before it says neither yes nor fails.
  pub record IsReached (polls : List A) : Type 0 where
    pub waiting : List A
    pub last : A
    pub later : List A
    pub in_order : polls ≡ waiting ++ last ∷ later
    pub no_answer : All (λ a. step a ≡ go_on) waiting
    pub answer : step last ≡ done

  poll-IsReached : (polls : List A) → poll polls ≡ reached → IsReached polls
  poll-IsReached [] h = absurd (cc h)
  poll-IsReached (a ∷ polls) h = elim (Step-cases (step a)) [
    | inl e ↦
        let r = poll-IsReached polls (sym (ap (λ s. answered s (poll polls)) e) ∙ h) in
        record {
          waiting = a ∷ r.waiting;
          last = r.last;
          later = r.later;
          in_order = ap (λ t. a ∷ t) r.in_order;
          no_answer = (e, r.no_answer);
          answer = r.answer;
        }
    | inr (inl e) ↦ record {
      waiting = [];
      last = a;
      later = polls;
      in_order = refl;
      no_answer = tt;
      answer = e;
    }
    | inr (inr (f, e)) ↦ absurd (reached-ne-stopped (sym h ∙ ap (λ s. answered s (poll polls)) e))
  ]

  reached_behind :
      (waiting : List A) (last : A) (later : List A)
      → All (λ a. step a ≡ go_on) waiting
      → step last ≡ done
      → poll (waiting ++ last ∷ later) ≡ reached
  reached_behind [] last later no_answer answer = rw answer
  reached_behind (a ∷ waiting) last later (e, no_answer) answer =
      rw e (reached_behind waiting last later no_answer answer)

  -- The wait ends well exactly when the condition says yes at a poll before which it always went on.
  pub poll_iff : (polls : List A) → (poll polls ≡ reached) ↔ IsReached polls
  poll_iff polls = (
    poll-IsReached polls,
    λ r. ap poll r.in_order ∙ reached_behind r.waiting r.last r.later r.no_answer r.answer,
  )
