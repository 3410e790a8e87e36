-- ===== src/Cluster/Crd/Settled.antt =====
-- About Create and Update of the builders of cluster-scoped custom resources: what a call that
-- reports no error leaves in the cluster.
use nvidia_ci.Common.{
  Bool, true, false, ◌≡◌, refl, sym, ap, ◌∙◌, subst, [], Option, none, some, none-ne-some, Result,
  ok, err,
}
use nvidia_ci.Text.{Text, is_empty}
use nvidia_ci.Cluster.Api.{Object, found, seems_there, Client, IsClient}
use nvidia_ci.Cluster.Crd.Ready.{IsReady, checked_ready}
use nvidia_ci.Cluster.Crd.Defs.{
  Kind, CrdBuilder, checked, got, crd_exists, crd_create, crd_delete, crd_update, Outcome, created,
  create_unless, call_create, create_if, delete_if, delete_when, call_delete, update_if,
  call_update, deleted, recreate, updated,
}

module _ (k : Kind) {P : Type 0} (c : Client P) (law : IsClient c) where
  -- Get does not say that the object is missing.
  abbrev pub IsPresent : Object P → c.World → Type 0
  IsPresent d w = seems_there (c.get [] d.name w) ≡ true

  exists_ready :
      (b : CrdBuilder P) (d : Object P) (w : c.World)
      → IsReady b d
      → crd_exists k c b w
        ≡ (seems_there (c.get [] d.name w), record b { object = got k (c.get [] d.name w) })
  unfolding crd_exists checked
  exists_ready b d w r = rw (r.has_client, r.defined, r.no_error)

  wrote :
      (d o : Object P) (w' : c.World)
      → d.namespace ≡ []
      → c.get d.namespace d.name w' ≡ found o
      → IsPresent d w'
  wrote d o w' scoped at = rw (← scoped, at)

  created-IsPresent :
      (b b' : CrdBuilder P) (d : Object P) (w w' : c.World) (r : Result Text (Object P) × c.World)
      → d.namespace ≡ []
      → c.create d w ≡ r
      → created k c b r ≡ (b', none, w')
      → IsPresent d w'
  created-IsPresent b b' d w w' (ok o, v) scoped call done =
      subst (IsPresent d) (ap (λ (t : Outcome k c). t.2) done)
        (wrote d o v scoped (law.create_found d o w v call))
  created-IsPresent b b' d w w' (err e, v) scoped call done =
      absurd (none-ne-some (sym (ap (λ (t : Outcome k c). t.1) done)))

  -- The object is there already, or the call of Create decides.
  create_unless-IsPresent :
      (there : Bool) (b b' : CrdBuilder P) (d : Object P) (w w' : c.World)
      → b.definition ≡ some d
      → d.namespace ≡ []
      → seems_there (c.get [] d.name w) ≡ there
      → create_unless k c (there, b) w ≡ (b', none, w')
      → IsPresent d w'
  create_unless-IsPresent true b b' d w w' defined scoped at done =
      subst (IsPresent d) (ap (λ (t : Outcome k c). t.2) done) at
  create_unless-IsPresent false b b' d w w' defined scoped at done =
      created-IsPresent b b' d w w' (c.create d w) scoped refl
        (subst (λ o. created k c b (call_create k c o w) ≡ (b', none, w')) defined done)

  create_ready :
      (b : CrdBuilder P) (d : Object P) (w : c.World)
      → IsReady b d
      → crd_create k c b w ≡ create_unless k c (crd_exists k c b w) w
  unfolding crd_create
  create_ready b d w r =
      ap (λ x. create_if k c (is_empty x.error_msg) x w) (checked_ready k b d r)
      ∙ ap (λ e. create_if k c (is_empty e) b w) r.no_error

  -- For a builder that is ready, and a client under which a created object is found: if Create
  -- reports no error, Get does not say behind it that the object is missing.
  pub crd_create-IsPresent :
      (b b' : CrdBuilder P) (d : Object P) (w w' : c.World)
      → IsReady b d
      → crd_create k c b w ≡ (b', none, w')
      → IsPresent d w'
  crd_create-IsPresent b b' d w w' r done =
      create_unless-IsPresent (seems_there (c.get [] d.name w))
        (record b { object = got k (c.get [] d.name w) }) b' d w w' r.defined r.cluster_scoped refl
        (ap (λ t. create_unless k c t w) (sym (exists_ready b d w r))
          ∙ sym (create_ready b d w r)
          ∙ done)

  delete_ready :
      (b : CrdBuilder P) (d : Object P) (w : c.World)
      → IsReady b d
      → crd_delete k c b w ≡ delete_when k c (crd_exists k c b w) w
  unfolding crd_delete
  delete_ready b d w r =
      ap (λ x. delete_if k c (is_empty x.error_msg) x w) (checked_ready k b d r)
      ∙ ap (λ e. delete_if k c (is_empty e) b w) r.no_error

  update_ready :
      (force : Bool) (b : CrdBuilder P) (d : Object P) (w : c.World)
      → IsReady b d
      → crd_update k c force b w ≡ updated k c force b (c.update d w)
  unfolding crd_update
  update_ready force b d w r =
      ap (λ x. update_if k c force (is_empty x.error_msg) x w) (checked_ready k b d r)
      ∙ ap (λ e. update_if k c force (is_empty e) b w) r.no_error
      ∙ ap (λ o. updated k c force b (call_update k c o w)) r.defined

  -- A builder behind its Exists, or with its object dropped, is as ready as before.
  IsReady-with :
      (b : CrdBuilder P) (d : Object P) (o : Option (Object P))
      → IsReady b d
      → IsReady (record b { object = o }) d
  IsReady-with b d o r = record {
    defined = r.defined;
    has_client = r.has_client;
    no_error = r.no_error;
    cluster_scoped = r.cluster_scoped;
  }

  recreated-IsPresent :
      (b b' : CrdBuilder P) (d : Object P) (w' : c.World) (call : Option Text × c.World)
      → IsReady b d
      → recreate k c (deleted k c b call) ≡ (b', none, w')
      → IsPresent d w'
  recreated-IsPresent b b' d w' (some e, v) r done =
      absurd (none-ne-some (sym (ap (λ (t : Outcome k c). t.1) done)))
  recreated-IsPresent b b' d w' (none, v) r done =
      crd_create-IsPresent (record b { object = none }) b' d v w' (IsReady-with b d none r) done

  -- Delete and Create behind a failed Update.
  replaced-IsPresent :
      (there : Bool) (b b' : CrdBuilder P) (d : Object P) (w w' : c.World)
      → IsReady b d
      → recreate k c (delete_when k c (there, b) w) ≡ (b', none, w')
      → IsPresent d w'
  replaced-IsPresent false b b' d w w' r done =
      absurd (none-ne-some (sym (ap (λ (t : Outcome k c). t.1) done)))
  replaced-IsPresent true b b' d w w' r done =
      recreated-IsPresent b b' d w' (call_delete k c b.definition w) r done

  updated-IsPresent :
      (force : Bool) (b b' : CrdBuilder P) (d : Object P) (w w' : c.World)
      (call : Result Text (Object P) × c.World)
      → IsReady b d
      → c.update d w ≡ call
      → updated k c force b call ≡ (b', none, w')
      → IsPresent d w'
  updated-IsPresent force b b' d w w' (ok o, v) r at done =
      subst (IsPresent d) (ap (λ (t : Outcome k c). t.2) done)
        (wrote d o v r.cluster_scoped (law.update_found d o w v at))
  updated-IsPresent false b b' d w w' (err e, v) r at done =
      absurd (none-ne-some (sym (ap (λ (t : Outcome k c). t.1) done)))
  updated-IsPresent true b b' d w w' (err e, v) r at done =
      replaced-IsPresent (seems_there (c.get [] d.name v))
        (record b { object = got k (c.get [] d.name v) }) b' d v w'
        (IsReady-with b d (got k (c.get [] d.name v)) r)
        (ap (λ t. recreate k c (delete_when k c t v)) (sym (exists_ready b d v r))
          ∙ ap (recreate k c) (sym (delete_ready b d v r))
          ∙ done)

  -- For a builder that is ready, and a client under which an object that was created or updated is
  -- found: if Update reports no error, by force or not, Get does not say behind it that the object is
  -- missing.
  pub crd_update-IsPresent :
      (force : Bool) (b b' : CrdBuilder P) (d : Object P) (w w' : c.World)
      → IsReady b d
      → crd_update k c force b w ≡ (b', none, w')
      → IsPresent d w'
  crd_update-IsPresent force b b' d w w' r done =
      updated-IsPresent force b b' d w w' (c.update d w) r refl
        (sym (update_ready force b d w r) ∙ done)
