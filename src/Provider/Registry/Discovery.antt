-- ===== src/Provider/Registry/Discovery.antt =====
-- `DiscoverTargets`: what a discovery returns.
use bootup.Provider.{Target, at, invalid_discovery_family}
use bootup.Provider.Source.{UrlParser}
use bootup.Provider.Validation.{validate_target}
use bootup.Provider.Registry.{
  Discoverer, Registry, discover_from, discover_targets, lookup_discoverer, sorted_ids,
  validate_all, validate_discovery_family,
}
use bootup.Common.{
  >>-eq-ok, >>=-eq-ok, All, Bool-cases, List, Option-cases, String, [], arith, eq_iff, inl, inr, ok,
  some, wrap, wrap-eq-ok, ◌==◌, ◌>>=◌, ◌>>◌, ◌∷◌, ◌≡◌,
}
use bootup.Provider.Registry.Laws.{validate_all-All}

-- A registered provider with a valid family of that ID has discovered these targets, and each is
-- valid for it.
pub record IsDiscovered (parse_url : UrlParser) (r : Registry) (family_id : String)
    (ts : List Target) : Type 0 where
  pub id : String
  pub discoverer : Discoverer
  pub registered : lookup_discoverer id r.providers ≡ some discoverer
  pub family : discoverer.discovery_family.id ≡ family_id
  pub family_valid : validate_discovery_family id discoverer.discovery_family ≡ ok tt
  pub discovered : discoverer.discover_targets ≡ ok ts
  pub valid : All (λ t. validate_target parse_url id t ≡ ok tt) ts

module _ (parse_url : UrlParser) (r : Registry) (family_id : String) (ts : List Target) where
  found_targets :
      (id : String) (d : Discoverer)
      → wrap
          (at family_id)
          (d.discover_targets >>= λ found. (validate_all parse_url id found >> ok found))
        ≡ ok ts
      → (d.discover_targets ≡ ok ts) × All (λ t. validate_target parse_url id t ≡ ok tt) ts
  found_targets id d h =
      let (found, made, rest) = >>=-eq-ok d.discover_targets _ (wrap-eq-ok (at family_id) _ h) in
      let (_, checked, same) = >>-eq-ok (validate_all parse_url id found) _ rest in
      let whole : found ≡ ts = cc same in
      rw (← whole) (made, validate_all-All parse_url id found checked)

  discover_from-IsDiscovered :
      (ids : List String)
      → discover_from parse_url r family_id ids ≡ ok ts
      → IsDiscovered parse_url r family_id ts
  unfolding discover_from
  discover_from-IsDiscovered [] h = cc
  discover_from-IsDiscovered (id ∷ ids) h = elim (Option-cases (lookup_discoverer id r.providers)) [
    | inl missing ↦ discover_from-IsDiscovered ids (ground (arith, missing))
    | inr (d, found) ↦
        let check = validate_discovery_family id d.discovery_family in
        let (_, accepted, rest) =
          >>-eq-ok (wrap (λ e. at id (invalid_discovery_family e)) check) _
            (rw (discover_from, found) at h) in
        elim (Bool-cases (d.discovery_family.id == family_id)) [
          | inr other ↦ discover_from-IsDiscovered ids (rw other at rest)
          | inl here ↦
              let (discovered, valid) = found_targets id d (rw here at rest) in
              record {
                id = id;
                discoverer = d;
                registered = found;
                family = (eq_iff d.discovery_family.id family_id).0 here;
                family_valid = wrap-eq-ok (λ e. at id (invalid_discovery_family e)) check accepted;
                discovered = discovered;
                valid = valid;
              }
        ]
  ]

  -- Discovered targets are those of a registered provider whose valid family has the ID that was
  -- asked for, and each is valid for that provider.
  pub discover_targets-IsDiscovered :
      discover_targets parse_url r family_id ≡ ok ts → IsDiscovered parse_url r family_id ts
  unfolding discover_targets
  discover_targets-IsDiscovered h = discover_from-IsDiscovered (sorted_ids r) h
