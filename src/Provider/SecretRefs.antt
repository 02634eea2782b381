-- ===== src/Provider/SecretRefs.antt =====
-- `ResolveSecretRefs`: selected secret references against the target's declarations and the store.
-- The map `declarations` is only asked for its keys, so it is the list of the declared IDs.
pub mod Laws
use bootup.Common.{
  Bool, List, Option, Result, String, [], contains, false, if◌then◌else◌, keys, lookup, none, not,
  ok, refuse_if, some, ◌&&◌, ◌>>=◌, ◌>>◌, ◌∷◌,
}
use bootup.Text.{is_blank, is_empty, trim_space}
use bootup.Provider.{
  SecretInput, SecretProblem, SecretRef, SecretStore, input_id_invalid, input_missing,
  ref_duplicate, ref_id_empty, ref_undeclared, required_missing,
}
use bootup.Provider.Options.{valid_option_id}

-- A map from declared IDs to references.
abbrev pub Refs : Type 0
Refs = List (String × SecretRef)

abbrev declared_ids : List SecretInput → List String
declared_ids [] = []
declared_ids (secret ∷ secrets) = secret.id ∷ declared_ids secrets

abbrev store_refs : List String → List SecretRef
store_refs [] = []
store_refs (id ∷ ids) = record { id = id; input_id = id } ∷ store_refs ids

-- `if len(selected) == 0 && store != nil`
unfoldable pub default_refs : List SecretRef → Option SecretStore → List SecretRef
default_refs [] none = []
default_refs [] (some store) = store_refs store.ids
default_refs (ref ∷ refs) store = ref ∷ refs

-- `store != nil && store.Has(id)`
abbrev pub store_has : Option SecretStore → String → Bool
store_has none id = false
store_has (some store) id = store.has id

-- the input of a reference: that of its own ID where none is written
unfoldable pub ref_input : SecretRef → String
ref_input ref =
    let trimmed = trim_space ref.input_id in if is_empty trimmed then ref.id else trimmed

-- the first loop
unfoldable pub select_refs :
    List String → Option SecretStore → Refs → List SecretRef → Result SecretProblem Refs
unfolding ref_input
select_refs declared store m [] = ok m
select_refs declared store m (ref ∷ refs) = do
  refuse_if (is_blank ref.id) ref_id_empty
  refuse_if (contains ref.id (keys m)) ref_duplicate
  refuse_if (not (contains ref.id declared)) ref_undeclared
  refuse_if (not (valid_option_id (ref_input ref))) input_id_invalid
  refuse_if (not (store_has store (ref_input ref))) input_missing
  select_refs declared store ((ref.id, record { id = ref.id; input_id = ref_input ref }) ∷ m) refs

-- the second loop
unfoldable pub check_required : Refs → List SecretInput → Result SecretProblem (Unit {0})
check_required m [] = ok tt
check_required m (secret ∷ secrets) = do
  refuse_if (secret.required && not (contains secret.id (keys m))) required_missing
  check_required m secrets

-- the third loop
unfoldable pub resolved_refs : Refs → List SecretInput → List SecretRef
resolved_refs m [] = []
resolved_refs m (secret ∷ secrets) =
    let rest = resolved_refs m secrets in
    elim (lookup secret.id m) [ none ↦ rest | some ref ↦ ref ∷ rest ]

unfoldable pub resolve_secret_refs :
    List SecretInput → List SecretRef → Option SecretStore → Result SecretProblem (List SecretRef)
unfolding default_refs select_refs check_required resolved_refs
resolve_secret_refs secrets selected store = do
  by_id ← select_refs (declared_ids secrets) store [] (default_refs selected store)
  check_required by_id secrets
  ok (resolved_refs by_id secrets)
