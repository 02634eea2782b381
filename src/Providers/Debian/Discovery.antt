-- ===== src/Providers/Debian/Discovery.antt =====
-- internal/providers/debian/provider.go: the discovery of targets in the index of distributions.
use bootup.Verify.{Bytes}
use bootup.Provider.{Target}
use bootup.Provider.Registry.{DiscoveryFamily}
use bootup.Http.{HttpError, bad_status, fetch_status, status_not_found, status_ok}
use bootup.Providers.{ProviderError, base_source, of_http}
use bootup.Providers.Staging.{World}
use bootup.Providers.Discovery.{collect_releases, discover_each, lifecycle_entry}
use bootup.Providers.Debian.{DebianProvider, provider_id}
use Prim.Native.String
use bootup.Common.{
  Bool, List, Result, String, [], contains, eqb, false, if◌then◌else◌, leb, not, ok, refuse_if,
  wrap, ℕ, ◌&&◌, ◌>>=◌, ◌>>◌, ◌||◌, ◌∷◌,
}
use bootup.Text.{concat, contains_func, has_part, has_prefix, is_empty, sort_texts}

abbrev is_release_rune : ℕ → Bool
is_release_rune r = (leb b'a' r && leb r b'z') || (leb b'0' r && leb r b'9') || eqb r b'-'

-- the names of suites that are no releases
abbrev suites : List String
suites =
    "stable" ∷ "oldstable" ∷ "oldoldstable" ∷ "testing" ∷ "unstable" ∷ "sid" ∷ "experimental"
    ∷ "rc-buggy" ∷ []

-- `isDiscoveryRelease`
unfoldable pub is_discovery_release : String → Bool
unfolding has_prefix
is_discovery_release release =
    not (is_empty release)
    && not (has_prefix release ".")
    && not (contains release suites)
    && not (contains_func (λ r. not (is_release_rune r)) release)

-- `discoveredTarget`
unfoldable pub discovered_target : DebianProvider → String → Target
unfolding lifecycle_entry
discovered_target p release = record {
  id = concat ("debian-" ∷ release ∷ "-amd64-netboot" ∷ []);
  provider_id = provider_id;
  name = concat ("Debian " ∷ release ∷ " amd64 netboot" ∷ []);
  action = "";
  catalog = record {
    distribution = provider_id;
    release = release;
    architecture = "amd64";
    kind = "installer";
  };
  source = base_source p.discovery_url;
  lifecycle = lifecycle_entry "debian" p.lifecycle release;
  options = [];
  secrets = [];
}

-- `DiscoveryFamily`
abbrev pub discovery_family : DiscoveryFamily
discovery_family = record {
  id = provider_id;
  provider_id = provider_id;
  name = "Debian";
  description = "Discover Debian amd64 netboot installers from the configured mirror.";
}

module _ {Keyring : Type 0} (world : World Keyring) where
  -- `parseDistsIndex`
  unfoldable pub parse_dists_index : Bytes → List String
  unfolding sort_texts collect_releases is_discovery_release
  parse_dists_index message =
      sort_texts (collect_releases is_discovery_release [] (world.hrefs message))

  -- `discoverReleases`
  unfoldable pub discover_releases : String → Result ProviderError (List String)
  unfolding fetch_status parse_dists_index
  discover_releases mirror_url = do
    answer ← wrap of_http (fetch_status world.http (String.◌++◌ mirror_url "/dists/"))
    refuse_if (not (eqb answer.1 status_ok)) (of_http (bad_status answer.1))
    ok (parse_dists_index answer.0)

  -- `hasAMD64Netboot`
  unfoldable pub has_amd64_netboot : String → String → Result HttpError Bool
  unfolding fetch_status has_part
  has_amd64_netboot mirror_url release = do
    answer ← fetch_status world.http (
        concat (
          mirror_url ∷ "/dists/" ∷ release ∷ "/main/installer-amd64/current/images/SHA256SUMS"
          ∷ []))
    let body = world.crypto.to_text answer.0
    if eqb answer.1 status_not_found then ok false else do
      refuse_if (not (eqb answer.1 status_ok)) (bad_status answer.1)
      ok (
          has_part body "netboot/debian-installer/amd64/linux"
          && has_part body "netboot/debian-installer/amd64/initrd.gz")

  -- `discoveryMetadataURL`
  unfoldable pub discovery_metadata_url : DebianProvider → String
  discovery_metadata_url p =
      if is_empty p.discovery_file then p.discovery_url else world.http.file_url p.discovery_file

  -- `DiscoverTargets`
  unfoldable pub discover_targets : DebianProvider → Result ProviderError (List Target)
  unfolding discovery_metadata_url discover_releases discover_each has_amd64_netboot
      discovered_target
  discover_targets p = do
    let metadata_url = discovery_metadata_url p
    releases ← discover_releases metadata_url
    discover_each (has_amd64_netboot metadata_url) (discovered_target p) releases
