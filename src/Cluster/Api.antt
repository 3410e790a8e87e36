-- ===== src/Cluster/Api.antt =====
-- The client of the cluster's API, a parameter of the builders: its calls over a world, and what
-- the builders rely on. A builder is the record that each package declares for its kind of object.
use nvidia_ci.Common.{Bool, true, false, Option, some, ◌≡◌, Result, ok}
use nvidia_ci.Text.{Text}

-- An object's metadata that the builders read, and the rest of it.
pub record Object (P : Type 0) : Type 0 where
  pub name : Text
  pub namespace : Text
  pub payload : P

-- The answer to Get: the object, IsNotFound, or another error. What the call returns beside an error
-- differs between the clients, and `none` is nil.
pub data Reply (P : Type 0) : Type 0 where
  found : Object P → Reply P
  not_found : Option (Object P) → Reply P
  failed : Option (Object P) → Text → Reply P

abbrev pub reply_object : {P : Type 0} → Reply P → Option (Object P)
reply_object (found o) = some o
reply_object (not_found o) = o
reply_object (failed o e) = o

-- err == nil || !k8serrors.IsNotFound(err)
abbrev pub seems_there : {P : Type 0} → Reply P → Bool
seems_there (found o) = true
seems_there (not_found o) = false
seems_there (failed o e) = true

-- Each writing call returns its error, if it has one, and the world behind it.
pub record Client (P : Type 0) : Type 1 where
  pub World : Type 0
  pub get : Text → Text → World → Reply P
  pub create : Object P → World → Result Text (Object P) × World
  pub update : Object P → World → Result Text (Object P) × World
  pub delete : Text → Text → World → Option Text × World

-- An object that was created or updated is found under its namespace and name.
pub record IsClient {P : Type 0} (c : Client P) : Type 0 where
  pub create_found :
      (o o' : Object P) (w w' : c.World)
      → c.create o w ≡ (ok o', w')
      → c.get o.namespace o.name w' ≡ found o'
  pub update_found :
      (o o' : Object P) (w w' : c.World)
      → c.update o w ≡ (ok o', w')
      → c.get o.namespace o.name w' ≡ found o'

-- Definition and Object may be nil; errorMsg is "" if there is none; apiClient may be nil.
pub record Builder (P : Type 0) : Type 0 where
  pub definition : Option (Object P)
  pub object : Option (Object P)
  pub error_msg : Text
  pub has_client : Bool

-- The errors of the builders: those of validate, those of the arguments, and the client's.
pub data BuilderError : Type 0 where
  undefined no_client : BuilderError
  message : Text → BuilderError
  empty_name empty_namespace does_not_exist cannot_delete : BuilderError
  api_error : Text → BuilderError
