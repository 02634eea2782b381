-- ===== src/Lib.antt =====
-- bootup: a program that boots a machine from the network. It verifies what it downloads, keeps a
-- registry of the providers of boot targets, and follows a signed policy. This library models
--
-- * verify/verify.go in Verify: the digest, checksum file and signature checks, up to
--   `Artifact`, which combines them (`verify_artifact`);
-- * internal/provider/provider.go in Provider: targets and their validation (Source, Options,
--   Validation), the selection of options and the command line (Fragments), references to secret
--   inputs (SecretRefs), and the registry (Registry);
-- * internal/policy/policy.go in Policy: trust, parsing and freshness of a decision, loading it
--   from a file, a URL or the cache (Loading), and its validation against the inventory
--   (Selection);
-- * internal/secrets/store.go in Secrets: `Load`, which reads secret inputs from private files, and
--   `StageFile`;
-- * internal/catalog/catalog.go in Catalog: `Parse`, `Generate` and `Compose`;
-- * internal/providerhttp/providerhttp.go in Http: `Fetch`, `Status` and `Probe`;
-- * internal/providers in Providers: linux in Linux, with the steps of staging that the providers
--   share in Staging; localdisk in LocalDisk; fedora in Fedora, with its parser of .treeinfo files
--   in Fedora/Treeinfo; debian in Debian; ubuntu in Ubuntu; mfsbsd in Mfsbsd, with its reader of
--   ISO images in Mfsbsd/Iso. Discovery holds what the discovery of releases shares.
--
-- Policy, Catalog and Secrets stand on Provider, Secrets on the disk of Policy/Loading, which maps
-- each path to what it holds, and whose directories os.MkdirAll makes on the way to a file. The Providers stand on Http for downloads, on Verify for digests and
-- signatures, on Provider for plans, and on the same disk. All of them stand on Common (tests,
-- lists, maps, results, int64) and Text (what the program uses of Go's strings, unicode,
-- encoding/hex, path, sort and time). A definition has the name of its function in snake case,
-- with the loops of a function as definitions of their own; an error is a constructor, without the
-- text of its message.
--
-- A string is a sequence of runes, so that invalid UTF-8 is not represented. A Go map is an
-- association list whose first entry for a key counts; where Go ranges over one, the program
-- sorts the keys or stops at the first, except in Ubuntu's `parseLiveServerISO`, where the list's
-- order stands for the random one. Byte sequences are lists of numbers, times are numbers of
-- nanoseconds, and durations and limits are integers; the bound 2^63-1 of int64 is written out
-- where the code can meet it. Recursion is structural, except for the loops over the bytes of an
-- ISO image, which run on fuel. A loop over a directory or a record gets as much as there are
-- bytes, which is enough, since each round takes some (Mfsbsd/Iso/Reading); the fuel of an
-- extraction is an argument that bounds the depth of directories: two more than the sectors of the
-- image are enough where directories list later ones (Mfsbsd/Iso/Depth), and no fuel is where one
-- lists itself (Mfsbsd/Iso/Endless).
--
-- Parameters stand for what is called outside the repository: url.Parse, JSON, SHA-256, OpenPGP,
-- Ed25519, Unicode's lower case beyond ASCII, gzip, xz and tar, the pattern of links in an
-- index, strings.EqualFold, (*URL).ResolveReference, filepath.Join on the names in an image, and
-- the answers of the file system, with what a failed write leaves, of the network and of the
-- providers that are registered. What the theorems ask of SHA-256 (32 bytes) and of lower case (no
-- hexadecimal digit comes of a wide rune) is the record Verify.Digests.IsLawful.
--
-- Not modelled: the texts of messages, contexts and timeouts, file modes beyond what is
-- stated; the loop mounts of `LoopISOExtractor`, which are commands and copies; the hosted and
-- conformance catalogs and the configuration of providers, which come next; the application, the
-- commands, the user interface, the handoff to a kernel, the runtime of the initramfs and the
-- diagnostics, which are mostly input and output.
mod Common
pub mod Text
pub mod Provider
pub mod Verify
pub mod Policy
pub mod Catalog
pub mod Http
pub mod Providers
pub mod Secrets
