-- ===== src/Wait/Slices/Defs.antt =====
-- gpuResourceSliceUUIDs and GPUResourceSliceUUIDsMatch. A Go map is an association list with one entry for
-- a key; the source goes through the pools in any order, which can only change which of several
-- errors it returns.
use nvidia_ci.Common.{
  Bool, true, false, ◌&&◌, List, [], ◌∷◌, ◌++◌, Option, none, some, if◌then◌else◌, ◌==◌, length,
  is_nil, Result, ok, err, ◌>>=◌,
}
use nvidia_ci.Text.{Text, codes}
use nvidia_ci.Text.Labels.{lookup, insert}
use nvidia_ci.Text.Number.{ℤ, pos, lt_int, eq_int}
use nvidia_ci.Wait.Poll.{Step, go_on, done, Ended, poll}

-- An attribute's value is nil if it is no string.
pub record Device : Type 0 where
  pub name : Text
  pub attributes : List (Text × Option Text)

pub record ResourceSlice : Type 0 where
  pub name : Text
  pub pool_name : Text
  pub generation : ℤ
  pub resource_slice_count : ℤ
  pub devices : List Device

pub record PoolSlices : Type 0 where
  pub generation : ℤ
  pub count : ℤ
  pub slices : List ResourceSlice

abbrev pub Pools : Type 0
Pools = List (Text × PoolSlices)

pub data SliceError : Type 0 where
  list_failed : Text → SliceError
  no_slice : SliceError
  incomplete_pool no_uuid : Text → SliceError

abbrev pub fresh : ResourceSlice → PoolSlices
fresh slice = record {
  generation = slice.generation;
  count = slice.resource_slice_count;
  slices = slice ∷ [];
}

abbrev pub joined : PoolSlices → ResourceSlice → PoolSlices
joined pool slice = record pool { slices = pool.slices ++ slice ∷ [] }

-- The pool that the slice is put into, if it has one already.
abbrev pub put_slice : Option PoolSlices → Pools → ResourceSlice → Pools
put_slice none pools slice = insert slice.pool_name (fresh slice) pools
put_slice (some pool) pools slice =
    if lt_int pool.generation slice.generation
    then insert slice.pool_name (fresh slice) pools
    else if eq_int slice.generation pool.generation
    then insert slice.pool_name (joined pool slice) pools
    else pools

-- The first loop.
unfoldable pub current_pools : Pools → List ResourceSlice → Pools
unfolding lookup insert
current_pools pools [] = pools
current_pools pools (slice ∷ items) =
    current_pools (put_slice (lookup slice.pool_name pools) pools slice) items

-- map[string]bool
abbrev pub Uuids : Type 0
Uuids = List (Text × Bool)

-- *attr.StringValue
abbrev pub string_value : Option (Option Text) → Option Text
string_value none = none
string_value (some v) = v

abbrev pub uuid_of : Device → Option Text
uuid_of device = string_value (lookup (codes "uuid") device.attributes)

unfoldable pub add_devices : Uuids → List Device → Result SliceError Uuids
unfolding insert
add_devices uuids [] = ok uuids
add_devices uuids (device ∷ devices) = elim (uuid_of device) [
  | none ↦ err (no_uuid device.name)
  | some u ↦ add_devices (insert u true uuids) devices
]

unfoldable pub add_slices : Uuids → List ResourceSlice → Result SliceError Uuids
unfolding add_devices
add_slices uuids [] = ok uuids
add_slices uuids (slice ∷ slices) = do
  more ← add_devices uuids slice.devices
  add_slices more slices

-- The second loop.
unfoldable pub add_pools : Uuids → Pools → Result SliceError Uuids
unfolding add_slices
add_pools uuids [] = ok uuids
add_pools uuids ((name, pool) ∷ pools) =
    if eq_int (pos (length pool.slices)) pool.count
    then add_slices uuids pool.slices >>= (λ more. add_pools more pools)
    else err (incomplete_pool name)

-- gpuResourceSliceUUIDs, from the client's answer for the node and the driver.
unfoldable pub gpu_resource_slice_uuids : Result Text (List ResourceSlice) → Result SliceError Uuids
unfolding current_pools add_pools
gpu_resource_slice_uuids (err e) = err (list_failed e)
gpu_resource_slice_uuids (ok items) =
    if is_nil items then err no_slice else add_pools [] (current_pools [] items)

abbrev pub bool_eq : Bool → Bool → Bool
bool_eq true b = b
bool_eq false true = false
bool_eq false false = true

unfoldable pub all_in : Uuids → Uuids → Bool
unfolding lookup
all_in [] expected = true
all_in ((u, b) ∷ uuids) expected =
    let rest = all_in uuids expected in
    elim (lookup u expected) [ none ↦ false | some b' ↦ bool_eq b b' && rest ]

-- maps.Equal
abbrev pub maps_equal : Uuids → Uuids → Bool
maps_equal reported expected = length reported == length expected && all_in reported expected

abbrev pub match_step : Uuids → Result SliceError Uuids → Step Text
match_step expected (err e) = go_on
match_step expected (ok reported) = if maps_equal reported expected then done else go_on

-- GPUResourceSliceUUIDsMatch; the polls are the client's answers.
unfoldable pub gpu_resource_slice_uuids_match :
    Uuids → List (Result Text (List ResourceSlice)) → Ended Text
unfolding gpu_resource_slice_uuids all_in
gpu_resource_slice_uuids_match expected polls =
    poll (λ answer. match_step expected (gpu_resource_slice_uuids answer)) polls
