-- ===== src/Common/MapOps.antt =====
-- `xsync.Map[string, V]`, a library that the program calls: its operations with their documented
-- behaviour, and an association list that shows that the laws can be met.
use dozzle_gaia_fork.Common.{
  String, true, Option, none, some, List, [], ◌≡◌, refl, ap, ◌∙◌, if◌then◌else◌,
}
use dozzle_gaia_fork.Common.Assoc
use dozzle_gaia_fork.Common.Text.{str_eq, elem, eq_refl}

pub record MapOps : Type 1 where
  pub Map : Type 0 → Type 0
  pub empty : (V : Type 0) → Map V
  pub load : {V : Type 0} → Map V → String → Option V
  pub store : {V : Type 0} → Map V → String → V → Map V
  pub delete : {V : Type 0} → Map V → String → Map V
  -- the keys that `Range` visits
  pub keys : {V : Type 0} → Map V → List String
  pub load-empty : (V : Type 0) (k : String) → load (empty V) k ≡ none
  pub load-store :
      {V : Type 0} (m : Map V) (k j : String) (v : V)
      → load (store m k v) j ≡ (if str_eq k j then some v else load m j)
  pub load-delete :
      {V : Type 0} (m : Map V) (k j : String)
      → load (delete m k) j ≡ (if str_eq k j then none else load m j)
  pub mem-keys :
      {V : Type 0} (m : Map V) (k : String) (v : V) → load m k ≡ some v → elem k (keys m) ≡ true

abbrev pub assoc_map : MapOps
assoc_map = record {
  Map = λ V. List (String × V);
  empty = λ V. [];
  load = Assoc.load;
  store = Assoc.store;
  delete = Assoc.delete;
  keys = Assoc.keys;
  load-empty = λ V k. refl;
  load-store = Assoc.load-store;
  load-delete = Assoc.load-delete;
  mem-keys = Assoc.mem-keys;
}

pub load-store_self :
    (X : MapOps) {A : Type 0} (m : X.Map A) (k : String) (v : A) → X.load (X.store m k v) k ≡ some v
load-store_self X m k v =
    X.load-store m k k v ∙ ap (λ b. if b then some v else X.load m k) (eq_refl k)
