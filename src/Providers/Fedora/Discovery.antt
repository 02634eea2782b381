-- ===== src/Providers/Fedora/Discovery.antt =====
-- internal/providers/fedora/provider.go: the discovery of targets in the index of releases.
use bootup.Verify.{Bytes}
use bootup.Provider.{Target}
use bootup.Provider.Registry.{DiscoveryFamily}
use bootup.Http.{HttpError, bad_status, ensure_trailing_slash, fetch_status, probe, status_ok}
use bootup.Providers.{ProviderError, base_source, of_http}
use bootup.Providers.Staging.{World}
use bootup.Providers.Discovery.{collect_releases, discover_each, lifecycle_entry}
use bootup.Providers.Fedora.{FedoraProvider, provider_id}
use Prim.Native.String
use bootup.Common.{
  Bool, List, Result, String, [], eqb, false, if◌then◌else◌, leb, not, ok, refuse_if, wrap, ◌&&◌,
  ◌>>=◌, ◌>>◌, ◌∷◌,
}
use bootup.Text.{concat, contains_func, is_empty, sort_texts}

-- `releaseDirPattern`: digits only, and at least one
abbrev is_digits : String → Bool
is_digits s = not (contains_func (λ r. not (leb b'0' r && leb r b'9')) s)

unfoldable pub is_release_dir : String → Bool
is_release_dir s = not (is_empty s) && is_digits s

-- `discoveredTarget`
unfoldable pub discovered_target : FedoraProvider → String → String → Target
unfolding lifecycle_entry
discovered_target p source_url release = record {
  id = concat ("fedora-" ∷ release ∷ "-amd64-server-netboot" ∷ []);
  provider_id = provider_id;
  name = concat ("Fedora Server " ∷ release ∷ " amd64 netboot" ∷ []);
  action = "";
  catalog = record {
    distribution = provider_id;
    release = release;
    architecture = "amd64";
    kind = "installer";
  };
  source = base_source (concat (source_url ∷ release ∷ "/Server/x86_64/os" ∷ []));
  lifecycle = lifecycle_entry provider_id p.lifecycle release;
  options = [];
  secrets = [];
}

-- `DiscoveryFamily`
abbrev pub discovery_family : DiscoveryFamily
discovery_family = record {
  id = provider_id;
  provider_id = provider_id;
  name = "Fedora";
  description =
      "Discover Fedora Server amd64 netboot installers from the configured releases index.";
}

module _ {Keyring : Type 0} (world : World Keyring) where
  -- `parseReleasesIndex`
  unfoldable pub parse_releases_index : Bytes → List String
  unfolding sort_texts collect_releases is_release_dir
  parse_releases_index message =
      sort_texts (collect_releases is_release_dir [] (world.hrefs message))

  -- `discoveryMetadataURL`
  unfoldable pub discovery_metadata_url : FedoraProvider → String
  discovery_metadata_url p =
      if is_empty p.discovery_file then p.discovery_url else world.http.file_url p.discovery_file

  -- the two probes of the loop of `DiscoverTargets`
  unfoldable pub has_netboot : String → String → Result HttpError Bool
  unfolding probe
  has_netboot index_url release = do
    let base_url = concat (index_url ∷ release ∷ "/Server/x86_64/os" ∷ [])
    kernel ← probe world.http (String.◌++◌ base_url "/images/pxeboot/vmlinuz")
    if kernel
        then probe world.http (String.◌++◌ base_url "/images/pxeboot/initrd.img")
        else ok false

  -- `DiscoverTargets`
  unfoldable pub discover_targets : FedoraProvider → Result ProviderError (List Target)
  unfolding discovery_metadata_url ensure_trailing_slash fetch_status parse_releases_index
      discover_each has_netboot discovered_target
  discover_targets p = do
    let index_url = ensure_trailing_slash (discovery_metadata_url p)
    answer ← wrap of_http (fetch_status world.http index_url)
    refuse_if (not (eqb answer.1 status_ok)) (of_http (bad_status answer.1))
    discover_each (has_netboot index_url)
        (discovered_target p (ensure_trailing_slash p.discovery_url))
        (parse_releases_index answer.0)
