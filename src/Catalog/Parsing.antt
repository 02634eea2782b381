-- ===== src/Catalog/Parsing.antt =====
-- `Parse` against its specification, and what `Generate` makes against `Parse`.
use bootup.Common.{
  >>-eq-ok, >>=-eq-ok, All, All-append, Bool, Distinct, Distinct-Fresh, Fresh, Fresh-Distinct, List,
  Result, String, [], ap, contains, err, false, not, ok, pos, refl, refuse_if, refuse_if-eq-ok, sym,
  true, wrap, ◌↔◌, ◌∷◌, ◌≡◌,
}
use bootup.Provider.{Target, TargetProblem}
use bootup.Provider.Source.{UrlParser}
use bootup.Provider.Validation.{validate_target}
use bootup.Catalog.{
  CatalogError, Document, SourceDocument, SourceProvider, SourceTarget, bad_target, check_document,
  check_entries, document_of, duplicate_target, generate_document, generate_entries,
  generate_targets, generated_target, is_schema_version, unknown_provider, unsupported_version,
}
use bootup.Catalog.Composition.{is_schema_version_iff, ok_inj, target_ids}

accepted : (b : Bool) (e : CatalogError) {u : Unit {0}} → refuse_if (not b) e ≡ ok u → b ≡ true
accepted true e h = refl
accepted false e h = cc

generated_inj :
    {a b : List Target} → ◌≡◌ {A = Result CatalogError (List Target)} (ok a) (ok b) → a ≡ b
generated_inj h = cc

wrap_inv :
    (r : Result TargetProblem (Unit {0})) {u : Unit {0}} → wrap bad_target r ≡ ok u → r ≡ ok tt
wrap_inv (ok tt) h = refl
wrap_inv (err e) h = cc

module _ (parse_url : UrlParser) where
  -- The provider of a target is known, and the target is valid for it.
  pub record IsUsable (known : List String) (target : Target) : Type 0 where
    pub provider : contains target.provider_id known ≡ true
    pub valid : validate_target parse_url target.provider_id target ≡ ok tt

  check_sound :
      (known seen : List String) (ts : List Target)
      → check_entries parse_url known seen ts ≡ ok tt
      → All (IsUsable known) ts × Fresh seen (target_ids ts)
  unfolding check_entries
  check_sound known seen [] h = (tt, tt)
  check_sound known seen (t ∷ ts) h =
      let (_, is_known, h1) =
        >>-eq-ok (refuse_if (not (contains t.provider_id known)) unknown_provider) _ h in
      let (_, is_new, h2) = >>-eq-ok (refuse_if (contains t.id seen) duplicate_target) _ h1 in
      let valid = validate_target parse_url t.provider_id t in
      let (_, is_valid, h3) = >>-eq-ok (wrap bad_target valid) _ h2 in
      let (usable, fresh) = check_sound known (t.id ∷ seen) ts h3 in
      (
        (record { provider = accepted _ _ is_known; valid = wrap_inv valid is_valid }, usable),
        (refuse_if-eq-ok _ _ is_new, fresh),
      )

  check_complete :
      (known seen : List String) (ts : List Target)
      → All (IsUsable known) ts
      → Fresh seen (target_ids ts)
      → check_entries parse_url known seen ts ≡ ok tt
  unfolding check_entries
  check_complete known seen [] u f = refl
  check_complete known seen (t ∷ ts) u f =
      rw ((u.0).provider, f.0, (u.0).valid) (check_complete known (t.id ∷ seen) ts u.1 f.1)

  -- A decoded document is accepted exactly if its version is the current one, its target IDs are
  -- distinct, and each target is valid and of a known provider; it is returned as it is.
  pub check_document_iff :
      (doc result : Document) (known : List String)
      → (check_document parse_url doc known ≡ ok result) ↔ (
          (result ≡ doc)
          × (doc.schema_version ≡ pos 1)
          × Distinct (target_ids doc.entries)
          × All (IsUsable known) doc.entries)
  unfolding check_document
  check_document_iff doc result known = (
    λ h.
        let (_, current, rest) =
          >>-eq-ok (refuse_if (not (is_schema_version doc.schema_version)) unsupported_version) _
            h in
        let (_, checked, same) = >>-eq-ok (check_entries parse_url known [] doc.entries) _ rest in
        let (usable, fresh) = check_sound known [] doc.entries checked in
        (
          sym (ok_inj same),
          (is_schema_version_iff doc.schema_version).0 (accepted _ _ current),
          Fresh-Distinct [] _ fresh,
          usable,
        ),
    λ (same, current, distinct, usable).
        rw
          (
            (is_schema_version_iff doc.schema_version).1 current,
            check_complete known [] doc.entries usable (Distinct-Fresh _ distinct),
          )
          (ap ok (sym same)),
  )

  -- every generated target is valid, and of the provider that it stands under
  targets_sound :
      (provider_id : String) (sources : List SourceTarget) (ts : List Target)
      → generate_targets parse_url provider_id sources ≡ ok ts
      → All (λ t. validate_target parse_url t.provider_id t ≡ ok tt) ts
  unfolding generate_targets
  targets_sound provider_id [] ts h = rw (← generated_inj h) tt
  targets_sound provider_id (s ∷ sources) ts h =
      let target = generated_target provider_id s in
      let valid = validate_target parse_url provider_id target in
      let (_, is_valid, rest) = >>-eq-ok (wrap bad_target valid) _ h in
      let (more, made, same) = >>=-eq-ok (generate_targets parse_url provider_id sources) _ rest in
      rw (← generated_inj same) (
        unfold generated_target in wrap_inv valid is_valid,
        targets_sound provider_id sources more made,
      )

  entries_valid :
      (providers : List SourceProvider) (ts : List Target)
      → generate_entries parse_url providers ≡ ok ts
      → All (λ t. validate_target parse_url t.provider_id t ≡ ok tt) ts
  unfolding generate_entries
  entries_valid [] ts h = rw (← generated_inj h) tt
  entries_valid (p ∷ providers) ts h =
      let (some_ts, made, rest) = >>=-eq-ok (generate_targets parse_url p.id p.targets) _ h in
      let (more, made_more, same) = >>=-eq-ok (generate_entries parse_url providers) _ rest in
      rw (← generated_inj same) (
        All-append _ some_ts more (targets_sound p.id p.targets some_ts made)
          (entries_valid providers more made_more))

  IsUsable-of_valid :
      (known : List String) (ts : List Target)
      → All (λ t. contains t.provider_id known ≡ true) ts
      → All (λ t. validate_target parse_url t.provider_id t ≡ ok tt) ts
      → All (IsUsable known) ts
  IsUsable-of_valid known [] k v = tt
  IsUsable-of_valid known (t ∷ ts) k v =
      (record { provider = k.0; valid = v.0 }, IsUsable-of_valid known ts k.1 v.1)

  -- A generated document whose providers are known is accepted by `Parse` exactly if its target IDs
  -- are distinct, which `Generate` does not check.
  pub check_document-generate_document :
      (source : SourceDocument) (doc : Document) (known : List String)
      → generate_document parse_url source ≡ ok doc
      → All (λ t. contains t.provider_id known ≡ true) doc.entries
      → (check_document parse_url doc known ≡ ok doc) ↔ Distinct (target_ids doc.entries)
  unfolding generate_document
  check_document-generate_document source doc known h k =
      let (_, current, rest) =
        >>-eq-ok (refuse_if (not (is_schema_version source.schema_version)) unsupported_version) _
          h in
      let (entries, made, same) = >>=-eq-ok (generate_entries parse_url source.providers) _ rest in
      let is_doc : document_of entries ≡ doc = ok_inj same in
      let usable =
        IsUsable-of_valid known doc.entries k
          (rw (← is_doc) (entries_valid source.providers entries made)) in
      let (to, from) = check_document_iff doc doc known in
      (λ accepted. (to accepted).2, λ distinct. from (refl, rw (← is_doc) refl, distinct, usable))
