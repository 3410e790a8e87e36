-- ===== src/Wait/Ready/Network.antt =====
-- About the waits of networkwait.go under an API server that answers with another error than a
-- missing object.
use nvidia_ci.Common.{◌≡◌, List, [], ◌∷◌, ◌++◌, Option, false, All}
use nvidia_ci.Text.{Text, is_empty, text_eq}
use nvidia_ci.Cluster.Api.{Object, found, failed, Client}
use nvidia_ci.Cluster.Crd.{Kind, crd_pull, crd_exists, checked}
use nvidia_ci.Wait.Poll.{Step, stopped, poll}
use nvidia_ci.Wait.Ready.{
  Failure, nil_pointer, network_in_state, state_ready, nic_cluster_policy_ready,
  macvlan_network_ready, ipoib_network_ready,
}

module _ {P : Type 0} (state : P → Text) (c : Client P) (no_spec : P) (name : Text) where
  -- Get finds the object in another state than ready.
  abbrev pub IsUnready : c.World → Type 0
  IsUnready w =
      (o : Object P) × (c.get [] name w ≡ found o) × (text_eq (state o.payload) state_ready ≡ false)

  -- Any of the three conditions.
  abbrev condition : Kind → c.World → Step Failure
  condition k w = network_in_state state state_ready (crd_pull k c no_spec name w)

  crashes :
      (k : Kind) (before : List c.World) (w : c.World) (later : List c.World)
      (o : Option (Object P)) (e : Text)
      → is_empty name ≡ false
      → All IsUnready before
      → c.get [] name w ≡ failed o e
      → poll (condition k) (before ++ w ∷ later) ≡ stopped nil_pointer
  unfolding crd_pull crd_exists checked
  crashes k [] w later o e named unready fails = rw (named, fails)
  crashes k (v ∷ before) w later o e named ((p, at, not_yet), unready) fails =
      rw (named, at, not_yet) (crashes k before w later o e named unready fails)

  -- For an object with a name: if each poll finds it in another state than ready, up to one at which
  -- Get fails for another reason than a missing object, each of the three waits reads through a nil
  -- pointer.
  pub network_waits_crash :
      (before : List c.World) (w : c.World) (later : List c.World) (o : Option (Object P))
      (e : Text)
      → is_empty name ≡ false
      → All IsUnready before
      → c.get [] name w ≡ failed o e
      → (nic_cluster_policy_ready state c no_spec name (before ++ w ∷ later) ≡ stopped nil_pointer)
        × (macvlan_network_ready state c no_spec name (before ++ w ∷ later) ≡ stopped nil_pointer)
        × (ipoib_network_ready state c no_spec name (before ++ w ∷ later) ≡ stopped nil_pointer)
  unfolding nic_cluster_policy_ready macvlan_network_ready ipoib_network_ready
  network_waits_crash before w later o e named unready fails = (
    crashes _ before w later o e named unready fails,
    crashes _ before w later o e named unready fails,
    crashes _ before w later o e named unready fails,
  )
