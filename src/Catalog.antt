-- ===== src/Catalog.antt =====
-- internal/catalog/catalog.go: documents of targets. The JSON codec is an argument.
mod Examples
pub mod Composition
pub mod Parsing
use bootup.Common.{
  Bool, List, Option, Result, String, [], contains, eqb, err, false, if◌then◌else◌, negsuc, none,
  not, ok, pos, refuse_if, some, wrap, ℕ, ℤ, ◌++◌, ◌==◌, ◌>>=◌, ◌>>◌, ◌∷◌,
}
use bootup.Text.{is_empty}
use bootup.Provider.{
  BootAction, LifecycleEntry, SecretInput, SourceEntry, Target, TargetOption, TargetProblem,
}
use bootup.Provider.Source.{UrlParser}
use bootup.Provider.Validation.{validate_target}
use bootup.Verify.{Bytes}

pub data CatalogError : Type 0 where
  decode_failed multiple_values unsupported_version unknown_provider duplicate_target : CatalogError
  read_failed encode_failed : CatalogError
  bad_target : TargetProblem → CatalogError

pub record Document : Type 0 where
  pub schema_version : ℤ
  pub published_at : Option ℕ
  pub expires_at : Option ℕ
  pub entries : List Target

pub record SourceTarget : Type 0 where
  pub id : String
  pub name : String
  pub action : BootAction
  pub distribution : String
  pub release : String
  pub architecture : String
  pub kind : String
  pub source : SourceEntry
  pub lifecycle : LifecycleEntry
  pub options : List TargetOption
  pub secrets : List SecretInput

pub record SourceProvider : Type 0 where
  pub id : String
  pub targets : List SourceTarget

pub record SourceDocument : Type 0 where
  pub schema_version : ℤ
  pub providers : List SourceProvider

-- encoding/json at the two document types: a decoder returns the document and whether the input
-- ends behind it.
pub record CatalogCodec : Type 0 where
  pub decode_document : Bytes → Option (Document × Bool)
  pub decode_source : Bytes → Option (SourceDocument × Bool)
  pub encode_document : Document → Option Bytes

unfoldable pub is_schema_version : ℤ → Bool
is_schema_version (pos n) = eqb n 1
is_schema_version (negsuc n) = false

-- a new document of these targets
abbrev pub document_of : List Target → Document
document_of entries = record {
  schema_version = pos 1;
  published_at = none;
  expires_at = none;
  entries = entries;
}

-- the inner loop of `Compose`: the IDs seen, and the entries so far
unfoldable pub compose_entries :
    List String → List Target → List Target → Result CatalogError (List String × List Target)
compose_entries seen entries [] = ok (seen, entries)
compose_entries seen entries (target ∷ targets) = do
  refuse_if (contains target.id seen) duplicate_target
  compose_entries (target.id ∷ seen) (entries ++ target ∷ []) targets

unfoldable pub compose_from :
    List String → List Target → List Document → Result CatalogError (List Target)
unfolding compose_entries is_schema_version
compose_from seen entries [] = ok entries
compose_from seen entries (doc ∷ docs) = do
  refuse_if (not (is_schema_version doc.schema_version)) unsupported_version
  (seen', entries') ← compose_entries seen entries doc.entries
  compose_from seen' entries' docs

-- `Compose`
unfoldable pub compose : List Document → Result CatalogError Document
unfolding compose_from
compose docs = do entries ← compose_from [] [] docs; ok (document_of entries)

-- `distribution`
unfoldable pub distribution_of : SourceTarget → String → String
distribution_of t fallback = if is_empty t.distribution then fallback else t.distribution

-- the target that `Generate` makes of a source target
unfoldable pub generated_target : String → SourceTarget → Target
unfolding distribution_of
generated_target provider_id t = record {
  id = t.id;
  provider_id = provider_id;
  name = t.name;
  action = t.action;
  catalog = record {
    distribution = distribution_of t provider_id;
    release = t.release;
    architecture = t.architecture;
    kind = t.kind;
  };
  source = t.source;
  lifecycle = t.lifecycle;
  options = t.options;
  secrets = t.secrets;
}

module _ (parse_url : UrlParser) where
  unfoldable pub generate_targets : String → List SourceTarget → Result CatalogError (List Target)
  unfolding generated_target
  generate_targets provider_id [] = ok []
  generate_targets provider_id (t ∷ ts) = do
    let target = generated_target provider_id t
    wrap bad_target (validate_target parse_url provider_id target)
    more ← generate_targets provider_id ts
    ok (target ∷ more)

  unfoldable pub generate_entries : List SourceProvider → Result CatalogError (List Target)
  unfolding generate_targets
  generate_entries [] = ok []
  generate_entries (p ∷ ps) = do
    targets ← generate_targets p.id p.targets
    more ← generate_entries ps
    ok (targets ++ more)

  -- the document of `Generate`, before it is encoded
  unfoldable pub generate_document : SourceDocument → Result CatalogError Document
  unfolding generate_entries is_schema_version
  generate_document source = do
    refuse_if (not (is_schema_version source.schema_version)) unsupported_version
    entries ← generate_entries source.providers
    ok (document_of entries)

  -- the loop of `Parse`
  unfoldable pub check_entries :
      List String → List String → List Target → Result CatalogError (Unit {0})
  check_entries known seen [] = ok tt
  check_entries known seen (target ∷ targets) = do
    refuse_if (not (contains target.provider_id known)) unknown_provider
    refuse_if (contains target.id seen) duplicate_target
    wrap bad_target (validate_target parse_url target.provider_id target)
    check_entries known (target.id ∷ seen) targets

  -- `Parse` on a decoded document
  unfoldable pub check_document : Document → List String → Result CatalogError Document
  unfolding check_entries is_schema_version
  check_document doc provider_ids = do
    refuse_if (not (is_schema_version doc.schema_version)) unsupported_version
    check_entries provider_ids [] doc.entries
    ok doc

  module _ (codec : CatalogCodec) where
    -- `Parse`
    unfoldable pub parse : Bytes → List String → Result CatalogError Document
    unfolding check_document
    parse content provider_ids = elim (codec.decode_document content) [
      | none ↦ err decode_failed
      | some (doc, ends) ↦ do refuse_if (not ends) multiple_values; check_document doc provider_ids
    ]

    -- `Generate`; the encoding ends with a newline
    unfoldable pub generate : Bytes → Result CatalogError Bytes
    unfolding generate_document
    generate content = elim (codec.decode_source content) [
      | none ↦ err decode_failed
      | some (source, ends) ↦ do
        refuse_if (not ends) multiple_values
        doc ← generate_document source
        elim (codec.encode_document doc) [
          | none ↦ err encode_failed
          | some text ↦ ok (text ++ 10 ∷ [])
        ]
    ]

    -- `LoadFile`; the argument is what os.ReadFile returns
    unfoldable pub load_file : Option Bytes → List String → Result CatalogError Document
    unfolding parse
    load_file none provider_ids = err read_failed
    load_file (some content) provider_ids = parse content provider_ids

-- `(Document).Targets`
unfoldable pub targets_of : String → List Target → List Target
targets_of provider_id [] = []
targets_of provider_id (target ∷ targets) =
    let more = targets_of provider_id targets in
    if target.provider_id == provider_id then target ∷ more else more
