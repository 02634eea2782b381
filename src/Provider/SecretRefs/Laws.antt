-- ===== src/Provider/SecretRefs/Laws.antt =====
-- What resolved secret references promise.

use bootup.Provider.{SecretInput, SecretRef, SecretStore}
use bootup.Provider.Options.{valid_option_id}
use bootup.Provider.SecretRefs.{
  Refs, check_required, declared_ids, default_refs, ref_input, resolve_secret_refs, resolved_refs,
  select_refs, store_has,
}
use bootup.Common.{
  >>-eq-ok, >>=-eq-ok, All, AllEntries, Bool-cases, List, Option, Option-cases, String, [], ap,
  arith, contains, eq_iff, inl, inr, keys, lookup, lookup-AllEntries, lookup-some, none, ok, refl,
  some, true, ◌==◌, ◌∙◌, ◌∷◌, ◌≡◌,
}

abbrev pub ref_ids : List SecretRef → List String
ref_ids [] = []
ref_ids (ref ∷ refs) = ref.id ∷ ref_ids refs

module _ (secrets : List SecretInput) (store : Option SecretStore) where
  -- A reference that a provider can use: the target declares its ID, its input has an ID of the
  -- grammar, and the store has it.
  pub record IsAvailable (id : String) (ref : SecretRef) : Type 0 where
    pub same : ref.id ≡ id
    pub is_declared : contains id (declared_ids secrets) ≡ true
    pub input_id : valid_option_id ref.input_id ≡ true
    pub stored : store_has store ref.input_id ≡ true

  own_id : (id : String) (ref : SecretRef) → IsAvailable id ref → IsAvailable ref.id ref
  own_id id ref available = record {
    same = refl;
    is_declared =
        ap (λ i. contains i (declared_ids secrets)) (available.same) ∙ available.is_declared;
    input_id = available.input_id;
    stored = available.stored;
  }

  select_checks :
      (m : Refs) (ref : SecretRef) (refs : List SecretRef) (result : Refs)
      → select_refs (declared_ids secrets) store m (ref ∷ refs) ≡ ok result
      → IsAvailable ref.id (record { id = ref.id; input_id = ref_input ref })
        × (select_refs
              (declared_ids secrets)
              store
              ((ref.id, record { id = ref.id; input_id = ref_input ref }) ∷ m)
              refs
            ≡ ok result)
  unfolding select_refs
  select_checks m ref refs result h = (
    record {
      same = refl;
      is_declared = ground arith;
      input_id = ground arith;
      stored = ground arith;
    },
    ground arith,
  )

  select_refs-IsAvailable :
      (m : Refs) (selected : List SecretRef) (result : Refs)
      → AllEntries IsAvailable m
      → select_refs (declared_ids secrets) store m selected ≡ ok result
      → AllEntries IsAvailable result
  select_refs-IsAvailable m [] result good h =
      unfold select_refs in (let same : m ≡ result = ground arith in rw (← same) good)
  select_refs-IsAvailable m (ref ∷ refs) result good h =
      let (available, rest) = select_checks m ref refs result h in
      select_refs-IsAvailable ((ref.id, record { id = ref.id; input_id = ref_input ref }) ∷ m) refs
        result (available, good) rest

  resolved_refs-some :
      (m : Refs) (input : SecretInput) (inputs : List SecretInput) (ref : SecretRef)
      → lookup input.id m ≡ some ref
      → resolved_refs m (input ∷ inputs) ≡ ref ∷ resolved_refs m inputs
  unfolding resolved_refs
  resolved_refs-some m input inputs ref found = ground (arith, found)

  resolved_refs-none :
      (m : Refs) (input : SecretInput) (inputs : List SecretInput)
      → lookup input.id m ≡ none
      → resolved_refs m (input ∷ inputs) ≡ resolved_refs m inputs
  unfolding resolved_refs
  resolved_refs-none m input inputs missing = ground (arith, missing)

  resolved_refs-IsAvailable :
      (m : Refs) (inputs : List SecretInput)
      → AllEntries IsAvailable m
      → All (λ ref. IsAvailable ref.id ref) (resolved_refs m inputs)
  resolved_refs-IsAvailable m [] good = unfold resolved_refs in tt
  resolved_refs-IsAvailable m (input ∷ inputs) good = elim (Option-cases (lookup input.id m)) [
    | inl missing ↦
        rw (resolved_refs-none m input inputs missing) (resolved_refs-IsAvailable m inputs good)
    | inr (ref, found) ↦
        let available = lookup-AllEntries IsAvailable input.id m ref good found in
        rw (resolved_refs-some m input inputs ref found)
          (own_id input.id ref available, resolved_refs-IsAvailable m inputs good)
  ]

  -- what the second loop has checked
  abbrev AllRequired : Refs → List SecretInput → Type 0
  AllRequired m = All (λ input. input.required ≡ true → contains input.id (keys m) ≡ true)

  check_required-AllRequired :
      (m : Refs) (inputs : List SecretInput)
      → check_required m inputs ≡ ok tt
      → AllRequired m inputs
  unfolding check_required
  check_required-AllRequired m [] h = tt
  check_required-AllRequired m (input ∷ inputs) h =
      (λ needed. ground arith, check_required-AllRequired m inputs (ground arith))

  module _ (m : Refs) (good : AllEntries IsAvailable m) where
    contains-resolved_refs :
        (id : String) (inputs : List SecretInput)
        → contains id (declared_ids inputs) ≡ true
        → contains id (keys m) ≡ true
        → contains id (ref_ids (resolved_refs m inputs)) ≡ true
    contains-resolved_refs id [] h k = cc
    contains-resolved_refs id (input ∷ inputs) h k = elim (Bool-cases (input.id == id)) [
      | inl here ↦
          let same : input.id ≡ id = (eq_iff input.id id).0 here in
          let (ref, found) = lookup-some id m k in
          let available = lookup-AllEntries IsAvailable id m ref good found in
          let hit : (ref.id == id) ≡ true = (eq_iff ref.id id).1 (available.same) in
          rw (resolved_refs-some m input inputs ref (ap (λ i. lookup i m) same ∙ found)) (rw hit)
      | inr later ↦
          let rest = contains-resolved_refs id inputs (ground (arith, later)) k in
          elim (Option-cases (lookup input.id m)) [
            | inl missing ↦ rw (resolved_refs-none m input inputs missing) rest
            | inr (ref, found) ↦
                rw (resolved_refs-some m input inputs ref found) (ground (arith, rest))
          ]
    ]

  all_required :
      (m : Refs) (good : AllEntries IsAvailable m) (before inputs : List SecretInput)
      → ((id : String)
          → contains id (declared_ids inputs) ≡ true
          → contains id (declared_ids before) ≡ true)
      → AllRequired m inputs
      → All
          (λ input.
            input.required ≡ true → contains input.id (ref_ids (resolved_refs m before)) ≡ true)
          inputs
  all_required m good before [] sub h = tt
  all_required m good before (input ∷ inputs) sub h = (
    λ needed.
        contains-resolved_refs m good input.id before
          (sub input.id (ground (arith, eq_iff input.id input.id))) (h.0 needed),
    all_required m good before inputs (λ id k. sub id (ground arith)) h.1,
  )

  -- References that a provider may use for a target: each is available, and every required secret
  -- input is among them.
  pub record AreResolved (refs : List SecretRef) : Type 0 where
    pub available : All (λ ref. IsAvailable ref.id ref) refs
    pub required :
        All (λ input. input.required ≡ true → contains input.id (ref_ids refs) ≡ true) secrets

  -- Every resolved reference is declared by the target, with an input of a valid ID that the store
  -- has; every required secret input of the target is among them.
  pub resolve_secret_refs-AreResolved :
      (selected refs : List SecretRef)
      → resolve_secret_refs secrets selected store ≡ ok refs
      → AreResolved refs
  unfolding resolve_secret_refs
  resolve_secret_refs-AreResolved selected refs h =
      let (m, chosen, rest) =
        >>=-eq-ok (select_refs (declared_ids secrets) store [] (default_refs selected store)) _ h in
      let (_, checked, same) = >>-eq-ok (check_required m secrets) _ rest in
      let good = select_refs-IsAvailable [] (default_refs selected store) m tt chosen in
      let is_result : resolved_refs m secrets ≡ refs = ground arith in
      rw (← is_result) (record {
        available = resolved_refs-IsAvailable m secrets good;
        required =
            all_required m good secrets secrets (λ id k. k)
              (check_required-AllRequired m secrets checked);
      })
