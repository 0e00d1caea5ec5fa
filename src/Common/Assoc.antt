-- ===== src/Common/Assoc.antt =====
-- Association lists with text keys: Go's maps, and an instance of `MapOps`.
use dozzle_gaia_fork.Common.{
  String, true, Option, none, some, List, [], ◌∷◌, ◌≡◌, arith, if◌then◌else◌,
}
use dozzle_gaia_fork.Common.Text.{str_eq, eq_iff, elem}

abbrev pub load {ℓ} : {V : Type ℓ} → List (String × V) → String → Option V
load [] k = none
load ((j, v) ∷ m) k = if str_eq j k then some v else load m k

abbrev pub delete {ℓ} : {V : Type ℓ} → List (String × V) → String → List (String × V)
delete [] k = []
delete ((j, v) ∷ m) k = if str_eq j k then delete m k else (j, v) ∷ delete m k

abbrev pub store {ℓ} : {V : Type ℓ} → List (String × V) → String → V → List (String × V)
store m k v = (k, v) ∷ delete m k

abbrev pub keys {ℓ} : {V : Type ℓ} → List (String × V) → List String
keys [] = []
keys ((j, v) ∷ m) = j ∷ keys m

pub load-delete {ℓ} :
    {V : Type ℓ} (m : List (String × V)) (k j : String)
    → load (delete m k) j ≡ (if str_eq k j then none else load m j)
load-delete [] k j = ground arith
load-delete ((i, v) ∷ m) k j = ground (arith, eq_iff i k, eq_iff i j, eq_iff k j, load-delete m k j)

pub load-store {ℓ} :
    {V : Type ℓ} (m : List (String × V)) (k j : String) (v : V)
    → load (store m k v) j ≡ (if str_eq k j then some v else load m j)
load-store m k j v = ground (arith, load-delete m k j)

pub mem-keys {ℓ} :
    {V : Type ℓ} (m : List (String × V)) (k : String) (v : V)
    → load m k ≡ some v
    → elem k (keys m) ≡ true
mem-keys ((i, w) ∷ m) k v h = ground (arith, mem-keys m k v)
mem-keys [] k v h = ground arith
