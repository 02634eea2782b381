-- ===== src/Providers/Ubuntu/Discovery.antt =====
-- internal/providers/ubuntu/provider.go: the discovery of targets in the index of releases.
-- `(*URL).ResolveReference` is the argument `resolve`, which answers for a base and a reference
-- that both parse.
use Prim.Native.String
use bootup.Verify.{Bytes, Checksums, parse_sha256_sums}
use bootup.Provider.{Target}
use bootup.Provider.Registry.{DiscoveryFamily, targets}
use bootup.Http.{
  bad_status, ensure_trailing_slash, fetch_status, is_context_error, path_base, probe,
  status_not_found, status_ok,
}
use bootup.Providers.{ProviderError, base_source, of_http, of_verify, url_malformed}
use bootup.Providers.Staging.{World}
use bootup.Providers.Discovery.{lifecycle_entry}
use bootup.Providers.Ubuntu.{UbuntuProvider, provider_id}
use bootup.Common.{
  Bool, List, Option, Result, String, [], delete, eqb, err, false, if◌then◌else◌, is_none, keys,
  leb, length, lookup, none, not, ok, refuse_if, some, true, wrap, ◌&&◌, ◌>>=◌, ◌>>◌, ◌||◌, ◌∷◌,
}
use bootup.Text.{
  concat, contains_func, has_prefix, has_suffix, is_empty, replace_all, sort_texts, split,
  trim_prefix, trim_right_rune, trim_suffix,
}

-- A resolved URL: its path and its text.
pub record Resolved : Type 0 where
  pub path : String
  pub text : String

-- A map from source URLs to metadata URLs.
abbrev pub Candidates : Type 0
Candidates = List (String × String)

abbrev is_number : String → Bool
is_number s = not (is_empty s) && not (contains_func (λ r. not (leb b'0' r && leb r b'9')) s)

abbrev are_numbers : List String → Bool
are_numbers [] = true
are_numbers (part ∷ parts) = is_number part && are_numbers parts

-- `releaseDirPattern`: two numbers with a dot
unfoldable pub is_release_dir : String → Bool
unfolding split
is_release_dir s = let parts = split b'.' s in eqb (length parts) 2 && are_numbers parts

-- `liveServerISOPattern`: the release, of two or three numbers, in the name of an ISO image
unfoldable pub iso_release : String → Option String
unfolding has_prefix has_suffix trim_prefix trim_suffix split
iso_release name =
    let release = trim_suffix (trim_prefix name "ubuntu-") "-live-server-amd64.iso" in
    let parts = split b'.' release in
    if has_prefix name "ubuntu-"
      && has_suffix name "-live-server-amd64.iso"
      && (eqb (length parts) 2 || eqb (length parts) 3)
      && are_numbers parts
    then some release
    else none

-- the loop of `parseLiveServerISO` over a map, in the order in which Go ranges over it
unfoldable pub find_iso : Checksums → Option (String × String)
unfolding iso_release
find_iso [] = none
find_iso ((name, digest) ∷ checksums) = elim (iso_release name) [
  | some release ↦ some (name, release)
  | none ↦ find_iso checksums
]

-- `discoveredTarget`
unfoldable pub discovered_target : UbuntuProvider → String → String → String → Target
unfolding lifecycle_entry replace_all
discovered_target p release_url release iso_name = record {
  id = concat ("ubuntu-" ∷ replace_all release "." "" ∷ "-amd64-netboot" ∷ []);
  provider_id = provider_id;
  name = concat ("Ubuntu " ∷ release ∷ " amd64 netboot" ∷ []);
  action = "";
  catalog = record {
    distribution = provider_id;
    release = release;
    architecture = "amd64";
    kind = "installer";
  };
  source = record (base_source release_url) { iso_name = iso_name };
  lifecycle = lifecycle_entry "ubuntu" p.lifecycle release;
  options = [];
  secrets = [];
}

-- `DiscoveryFamily`
abbrev pub discovery_family : DiscoveryFamily
discovery_family = record {
  id = provider_id;
  provider_id = provider_id;
  name = "Ubuntu";
  description = "Discover Ubuntu amd64 netboot installers from the configured releases index.";
}

module _ {Keyring : Type 0} (world : World Keyring) (resolve : String → String → Resolved) where
  -- `parseLiveServerISO`
  unfoldable pub parse_live_server_iso : Bytes → Result ProviderError (Option (String × String))
  unfolding parse_sha256_sums find_iso
  parse_live_server_iso sums = do
    checksums ← wrap of_verify (parse_sha256_sums world.crypto (some (some sums)))
    ok (find_iso checksums)

  -- the loop of `discoverReleaseURLs` over the links of the index
  unfoldable pub collect_candidates : String → String → Candidates → List String → Candidates
  unfolding is_release_dir path_base trim_right_rune
  collect_candidates metadata_base source_base seen [] = seen
  collect_candidates metadata_base source_base seen (href ∷ hrefs) =
      let metadata = resolve metadata_base href in
      let source_url = trim_right_rune b'/' (resolve source_base href).text in
      let skip = collect_candidates metadata_base source_base seen hrefs in
      let take =
        collect_candidates metadata_base source_base
          ((source_url, trim_right_rune b'/' metadata.text) ∷ delete source_url seen) hrefs in
      if is_none (world.http.parse_url href) || not (is_release_dir (path_base metadata.path))
      then skip
      else take

  -- the candidates in the order of their source URLs
  abbrev pick : Candidates → List String → Candidates
  pick candidates [] = []
  pick candidates (key ∷ keys) = elim (lookup key candidates) [
    | none ↦ pick candidates keys
    | some metadata_url ↦ (key, metadata_url) ∷ pick candidates keys
  ]

  unfoldable pub sorted_candidates : Candidates → Candidates
  unfolding sort_texts
  sorted_candidates candidates = pick candidates (sort_texts (keys candidates))

  -- `discoverReleaseURLs`
  unfoldable pub discover_release_urls : String → String → Result ProviderError Candidates
  unfolding ensure_trailing_slash fetch_status collect_candidates sorted_candidates
  discover_release_urls metadata_url source_url = do
    let index_url = ensure_trailing_slash metadata_url
    let source_base = ensure_trailing_slash source_url
    answer ← wrap of_http (fetch_status world.http index_url)
    refuse_if (not (eqb answer.1 status_ok)) (of_http (bad_status answer.1))
    refuse_if (is_none (world.http.parse_url index_url)) url_malformed
    refuse_if (is_none (world.http.parse_url source_base)) url_malformed
    ok (sorted_candidates (collect_candidates index_url source_base [] (world.hrefs answer.0)))

  -- the probes of `discoverReleaseTarget`, behind the name of the image
  unfoldable pub probe_release :
      UbuntuProvider → String → String → String × String → Result ProviderError (Option Target)
  unfolding probe discovered_target
  probe_release p source_url metadata_url (iso_name, release) = do
    kernel ← wrap of_http (probe world.http (String.◌++◌ metadata_url "/netboot/amd64/linux"))
    if not kernel then ok none else do
      initrd ← wrap of_http (probe world.http (String.◌++◌ metadata_url "/netboot/amd64/initrd"))
      ok (if initrd then some (discovered_target p source_url release iso_name) else none)

  -- `discoverReleaseTarget`
  unfoldable pub discover_release_target :
      UbuntuProvider → String × String → Result ProviderError (Option Target)
  unfolding fetch_status parse_live_server_iso probe_release
  discover_release_target p (source_url, metadata_url) = do
    answer ← wrap of_http (fetch_status world.http (String.◌++◌ metadata_url "/SHA256SUMS"))
    if eqb answer.1 status_not_found then ok none else do
      refuse_if (not (eqb answer.1 status_ok)) (of_http (bad_status answer.1))
      image ← parse_live_server_iso answer.0
      elim image [ none ↦ ok none | some named ↦ probe_release p source_url metadata_url named ]

  -- `isContextError` on an error of this provider
  abbrev ends_context : ProviderError → Bool
  ends_context (of_http e) = is_context_error e
  ends_context _ = false

  -- the loop of `DiscoverTargets`
  unfoldable pub discover_candidates :
      UbuntuProvider → Candidates → Result ProviderError (List Target)
  unfolding discover_release_target is_context_error
  discover_candidates p [] = ok []
  discover_candidates p (candidate ∷ candidates) =
      let rest = discover_candidates p candidates in
      elim (discover_release_target p candidate) [
        | err e ↦ if ends_context e then err e else rest
        | ok none ↦ rest
        | ok (some target) ↦ do targets ← rest; ok (target ∷ targets)
      ]

  -- `discoveryMetadataURL`
  unfoldable pub discovery_metadata_url : UbuntuProvider → String
  discovery_metadata_url p =
      if is_empty p.discovery_file then p.discovery_url else world.http.file_url p.discovery_file

  -- `DiscoverTargets`
  unfoldable pub discover_targets : UbuntuProvider → Result ProviderError (List Target)
  unfolding discovery_metadata_url discover_release_urls discover_candidates
  discover_targets p = do
    candidates ← discover_release_urls (discovery_metadata_url p) p.discovery_url
    discover_candidates p candidates
