-- ===== src/Provider/Registry/Laws.antt =====
-- What the registry promises: how it grows, and what its operations let through to the caller and
-- to the providers.

use bootup.Text.Order.Laws.{contains-sort_texts}
use bootup.Provider.{Target, at, id_empty, invalid_target, provider_id_empty, provider_id_mismatch}
use bootup.Provider.Source.{UrlParser}
use bootup.Provider.Validation.{validate_target}
use bootup.Provider.Registry.{
  Provider, Registry, provider_targets, register, sorted_ids, targets, targets_of, validate_all,
}
use bootup.Common.{
  >>-eq-ok, >>=-eq-ok, All, All-append, Bool-cases, Distinct, List, Option, String, [], ap,
  append_assoc, arith, contains, contains-keys, eq_iff, false, inl, inr, keys, lookup, lookup-none,
  none, not, ok, refl, refuse_if, refuse_if-eq-ok, some, sym, true, wrap, wrap-eq-ok, ◌++◌, ◌==◌,
  ◌∙◌, ◌∷◌, ◌≡◌,
}
use bootup.Text.{is_blank, sort_texts}

-- What a registration leaves: the provider is found under its ID, every other lookup is as before,
-- and IDs stay distinct.
pub record IsRegistered (before : Registry) (provider : Provider) (after : Registry) : Type 0 where
  pub found : lookup provider.id after.providers ≡ some provider
  pub others :
      (id : String)
      → (provider.id == id) ≡ false
      → lookup id after.providers ≡ lookup id before.providers
  pub new : lookup provider.id before.providers ≡ none
  pub distinct : Distinct (keys after.providers)

-- A provider that is registered in a registry of distinct IDs is new, and is found under its ID
-- in one of distinct IDs; every other lookup is as before.
pub register-IsRegistered :
    (r : Registry) (provider : Provider) (r' : Registry)
    → Distinct (keys r.providers)
    → register r provider ≡ ok r'
    → IsRegistered r provider r'
unfolding register
register-IsRegistered r provider r' distinct h =
    let fresh : contains provider.id (keys r.providers) ≡ false = ground arith in
    let same : record { providers = (provider.id, provider) ∷ r.providers } ≡ r' = ground arith in
    rw (← same) (record {
      found = rw ((eq_iff provider.id provider.id).1 refl);
      others = λ id other. rw other;
      new = lookup-none provider.id r.providers fresh;
      distinct = (fresh, distinct);
    })

module _ (parse_url : UrlParser) where
  pub validate_all-All :
      (id : String) (ts : List Target)
      → validate_all parse_url id ts ≡ ok tt
      → All (λ t. validate_target parse_url id t ≡ ok tt) ts
  unfolding validate_all
  validate_all-All id [] h = tt
  validate_all-All id (t ∷ ts) h =
      let (_, valid, rest) = >>-eq-ok (wrap invalid_target (validate_target parse_url id t)) _ h in
      (
        wrap-eq-ok invalid_target (validate_target parse_url id t) valid,
        validate_all-All id ts rest,
      )

  validate_target-provider_id :
      (id : String) (t : Target) → validate_target parse_url id t ≡ ok tt → t.provider_id ≡ id
  unfolding validate_target
  validate_target-provider_id id t h =
      let (_, _, h1) = >>-eq-ok (refuse_if (is_blank t.id) id_empty) _ h in
      let (_, _, h2) = >>-eq-ok (refuse_if (is_blank t.provider_id) provider_id_empty) _ h1 in
      let (_, match, _) =
        >>-eq-ok (refuse_if (not (t.provider_id == id)) provider_id_mismatch) _ h2 in
      (eq_iff t.provider_id id).0 (ground (arith, refuse_if-eq-ok _ _ match))

  -- A target that a registered provider stands behind.
  pub record IsOffered (r : Registry) (t : Target) : Type 0 where
    pub provider : Provider
    pub registered : lookup t.provider_id r.providers ≡ some provider
    pub valid : validate_target parse_url t.provider_id t ≡ ok tt

  module _ (r : Registry) where
    offered :
        (id : String) (provider : Provider) (ts : List Target)
        → lookup id r.providers ≡ some provider
        → All (λ t. validate_target parse_url id t ≡ ok tt) ts
        → All (IsOffered r) ts
    offered id provider [] found h = tt
    offered id provider (t ∷ ts) found h =
        let same = validate_target-provider_id id t h.0 in
        (
          record {
            provider = provider;
            registered = ap (λ i. lookup i r.providers) same ∙ found;
            valid = ap (λ i. validate_target parse_url i t) same ∙ h.0;
          },
          offered id provider ts found h.1,
        )

    provider_targets-some :
        (id : String) (provider : Provider) (own : List Target)
        → provider_targets parse_url id (some provider) ≡ ok own
        → (provider.targets ≡ ok own) × All (λ t. validate_target parse_url id t ≡ ok tt) own
    unfolding provider_targets
    provider_targets-some id provider own h =
        let (listed, made, rest) = >>=-eq-ok provider.targets _ (wrap-eq-ok (at id) _ h) in
        let (_, checked, same) = >>-eq-ok (validate_all parse_url id listed) _ rest in
        let is_own : listed ≡ own = cc same in
        rw (← is_own) (made, validate_all-All id listed checked)

    provider_targets-IsOffered :
        (id : String) (found : Option Provider) (own : List Target)
        → lookup id r.providers ≡ found
        → provider_targets parse_url id found ≡ ok own
        → All (IsOffered r) own
    provider_targets-IsOffered id none own here h =
        let bare : own ≡ [] = unfold provider_targets in ground arith in rw bare tt
    provider_targets-IsOffered id (some provider) own here h =
        offered id provider own here (provider_targets-some id provider own h).1

    targets_of-IsOffered :
        (ids : List String) (ts : List Target)
        → targets_of parse_url r ids ≡ ok ts
        → All (IsOffered r) ts
    unfolding targets_of
    targets_of-IsOffered [] ts h = let bare : ts ≡ [] = ground arith in rw bare tt
    targets_of-IsOffered (id ∷ ids) ts h =
        let (own, made, rest) =
          >>=-eq-ok (provider_targets parse_url id (lookup id r.providers)) _ h in
        let (more, made_more, same) = >>=-eq-ok (targets_of parse_url r ids) _ rest in
        let whole : own ++ more ≡ ts = cc same in
        rw (← whole) (
          All-append (IsOffered r) own more
            (provider_targets-IsOffered id (lookup id r.providers) own refl made)
            (targets_of-IsOffered ids more made_more))

    -- The targets of a provider stand together in the list, all of them and in its order.
    pub record IsListed (provider : Provider) (ts : List Target) : Type 0 where
      pub before : List Target
      pub own : List Target
      pub after : List Target
      pub made : provider.targets ≡ ok own
      pub whole : ts ≡ before ++ (own ++ after)

    targets_of-IsListed :
        (ids : List String) (ts : List Target) (id : String) (provider : Provider)
        → targets_of parse_url r ids ≡ ok ts
        → contains id ids ≡ true
        → lookup id r.providers ≡ some provider
        → IsListed provider ts
    unfolding targets_of
    targets_of-IsListed [] ts id provider h k found = cc
    targets_of-IsListed (i ∷ ids) ts id provider h k found =
        let (own, made, rest) =
          >>=-eq-ok (provider_targets parse_url i (lookup i r.providers)) _ h in
        let (more, made_more, same) = >>=-eq-ok (targets_of parse_url r ids) _ rest in
        let whole : own ++ more ≡ ts = cc same in
        elim (Bool-cases (i == id)) [
          | inl here ↦
              let there = ap (λ j. lookup j r.providers) ((eq_iff i id).0 here) ∙ found in
              record {
                before = [];
                own = own;
                after = more;
                made =
                    (provider_targets-some i provider own
                      (sym (ap (λ p. provider_targets parse_url i p) there) ∙ made)).0;
                whole = sym whole;
              }
          | inr later ↦
              let deep =
                targets_of-IsListed ids more id provider made_more (ground (arith, later)) found in
              record {
                before = own ++ deep.before;
                own = deep.own;
                after = deep.after;
                made = deep.made;
                whole =
                    sym whole
                    ∙ ap (λ e. own ++ e) deep.whole
                    ∙ sym (append_assoc own deep.before (deep.own ++ deep.after));
              }
        ]

    -- Where the registry lists its targets, each is valid for the registered provider that its
    -- provider ID names, and the targets of every registered provider stand in the list, all of
    -- them together and in its order.
    pub targets_sound :
        (ts : List Target)
        → targets parse_url r ≡ ok ts
        → All (IsOffered r) ts
          × ((id : String) (provider : Provider)
              → lookup id r.providers ≡ some provider
              → IsListed provider ts)
    unfolding targets sorted_ids
    targets_sound ts h = (
      targets_of-IsOffered (sort_texts (keys r.providers)) ts h,
      λ id provider found.
          targets_of-IsListed (sort_texts (keys r.providers)) ts id provider h
            (contains-sort_texts id (keys r.providers) ∙ contains-keys id r.providers found) found,
    )
