-- ===== src/Providers/Staging/Laws.antt =====
-- What a disk can hold after staging steps, on every outcome, and what the steps do where they
-- succeed.
use bootup.Verify.{Bytes, Reader, VerifyError}
use bootup.Verify.Digests.{IsLawful, check_sha256_iff}
use bootup.Provider.Source.{Url, UrlParser}
use bootup.Provider.{Artifact}
use bootup.Http.{fetch}
use bootup.Provider.Registry.{completed, fetching, started, verifying, writing}
use bootup.Providers.{ProviderError, Step, of_http, of_verify, url_not_secure}
use bootup.Providers.Staging.{
  World, Writer, and_then, check_pin, check_reported, fetch_checked, fetch_reported, reading,
  report, require_https, write_file, write_reported,
}
use bootup.Policy.Loading.{Disk, put}
use bootup.Common.{
  >>-eq-ok, >>=-eq-ok, All, Bool-cases, List, Option, Option-cases, Result, String, [], ap, arith,
  eq_iff, err, false, if-false, inl, inr, not, ok, refl, refuse_if, refuse_if-eq-ok, some, sym,
  wrap, wrap-eq-ok, ◌==◌, ◌∙◌, ◌∷◌, ◌≡◌, ◌⊎◌,
}
use bootup.Text.{decode_hex, is_empty, join_path}

-- what is known where a chain of steps succeeds
pub and_then-eq-ok :
    {A B : Type 0} (first : Result ProviderError A × Disk) (next : A → Step B) {b : B}
    → (and_then first next).0 ≡ ok b
    → (a : A) × (first.0 ≡ ok a)
      × ((next a first.1).0 ≡ ok b)
      × ((and_then first next).1 ≡ (next a first.1).1)
and_then-eq-ok (err e, disk) next done = cc
and_then-eq-ok (ok a, disk) next done = (a, refl, done, refl)

module _ (writer : Writer) (P : String → Bytes → Type 0) where
  -- What a write may leave at a path: the message, or what a failed write of it leaves.
  pub record Left (path : String) (content : Option Reader) : Type 0 where
    pub message : Bytes
    pub allowed : P path message
    pub shown : (content ≡ some (some message)) ⊎ (content ≡ writer.torn path message)

  -- Every path is as it was, or has been written with an allowed message.
  pub Touched : Disk → Disk → Type 0
  Touched before after = (place : String) → (after place ≡ before place) ⊎ Left place (after place)

  pub Touched-refl : (disk : Disk) → Touched disk disk
  unfolding Touched
  Touched-refl disk place = inl refl

  pub Touched-trans :
      (before between after : Disk)
      → Touched before between
      → Touched between after
      → Touched before after
  unfolding Touched
  Touched-trans before between after first second place = elim (second place) [
    | inr left ↦ inr left
    | inl same ↦ elim (first place) [ inl kept ↦ inl (same ∙ kept) | inr left ↦ inr (rw same left) ]
  ]

  pub and_then-Touched :
      {A B : Type 0} (before : Disk) (first : Result ProviderError A × Disk) (next : A → Step B)
      → Touched before first.1
      → ((a : A) → first.0 ≡ ok a → Touched first.1 (next a first.1).1)
      → Touched before (and_then first next).1
  and_then-Touched before (err e, disk) next kept later = kept
  and_then-Touched before (ok a, disk) next kept later =
      Touched-trans before disk (next a disk).1 kept (later a refl)

module _ {Keyring : Type 0} (world : World Keyring) where
  module _ (P : String → Bytes → Type 0) where
    write_file-Touched :
        (path : String) (message : Bytes) (disk : Disk)
        → P path message
        → Touched world.writer P disk (write_file world path message disk).1
    unfolding write_file Touched
    write_file-Touched path message disk allowed place = elim (Bool-cases (path == place)) [
      | inr other ↦ elim (Bool-cases (world.writer.write_ok path message)) [
        | inl done ↦ rw (done, other) (inl refl)
        | inr refused ↦ rw (refused, other) (inl refl)
      ]
      | inl here ↦
          let same = (eq_iff path place).0 here in
          elim (Bool-cases (world.writer.write_ok path message)) [
            | inl done ↦
                rw (done, here)
                  (inr
                    (record { message = message; allowed = rw (← same) allowed; shown = inl refl }))
            | inr refused ↦
                rw (refused, here)
                  (inr (record {
                    message = message;
                    allowed = rw (← same) allowed;
                    shown = inr (rw (← same) refl);
                  }))
          ]
    ]

    -- A write between its reports touches the path of its file only.
    pub write_reported-Touched :
        (dir name : String) (message : Bytes) (disk : Disk)
        → P (join_path dir name) message
        → Touched world.writer P disk (write_reported world dir name message disk).1
    unfolding write_reported
    write_reported-Touched dir name message disk allowed =
        and_then-Touched world.writer P disk
          (reading (report world.progress writing started name) disk) _
          (Touched-refl world.writer P disk)
          (λ _ _.
            and_then-Touched world.writer P disk
              (write_file world (join_path dir name) message disk) _
              (write_file-Touched (join_path dir name) message disk allowed)
              (λ _ _. Touched-refl world.writer P _))

  write_file-eq-ok :
      (path : String) (message : Bytes) (disk : Disk) {u : Unit {0}}
      → (write_file world path message disk).0 ≡ ok u
      → (write_file world path message disk).1 ≡ put path (some (some message)) disk
  unfolding write_file
  write_file-eq-ok path message disk h = elim (Bool-cases (world.writer.write_ok path message)) [
    | inl done ↦ rw done
    | inr refused ↦ absurd (ground (arith, refused))
  ]

  -- A write that succeeds puts the message at the path that it returns.
  pub write_reported-eq-ok :
      (dir name : String) (message : Bytes) (disk : Disk) (path : String)
      → (write_reported world dir name message disk).0 ≡ ok path
      → (path ≡ join_path dir name)
        × ((write_reported world dir name message disk).1 ≡ put path (some (some message)) disk)
  unfolding write_reported
  write_reported-eq-ok dir name message disk path h =
      let target = join_path dir name in
      let (_, _, h1, disk1) =
        and_then-eq-ok (reading (report world.progress writing started name) disk) _ h in
      let (_, wrote, h2, disk2) = and_then-eq-ok (write_file world target message disk) _ h1 in
      let (_, _, same) = >>-eq-ok (report world.progress writing completed name) _ h2 in
      let eq : target ≡ path = cc in
      (
        sym eq,
        disk1
            ∙ disk2
            ∙ write_file-eq-ok target message disk wrote
            ∙ ap (λ p. put p (some (some message)) disk) eq,
      )

  -- What an artifact may be staged with: bytes that were downloaded from its URL and whose SHA-256
  -- is its pinned digest, where it has one.
  pub record IsGenuine (artifact : Artifact) (message : Bytes) : Type 0 where
    pub downloaded : fetch world.http artifact.url ≡ ok message
    pub pinned :
        is_empty artifact.sha256 ≡ false
        → decode_hex artifact.sha256 ≡ some (world.crypto.sha256 message)

  -- A download between its reports is a download.
  pub fetch_reported-eq-ok :
      (url name : String) (message : Bytes)
      → fetch_reported world url name ≡ ok message
      → fetch world.http url ≡ ok message
  unfolding fetch_reported
  fetch_reported-eq-ok url name message h =
      let (_, _, h1) = >>-eq-ok (report world.progress fetching started name) _ h in
      let (got, fetched, h2) = >>=-eq-ok (wrap of_http (fetch world.http url)) _ h1 in
      let (_, _, same) = >>-eq-ok (report world.progress fetching completed name) _ h2 in
      let eq : got ≡ message = cc in wrap-eq-ok of_http (fetch world.http url) fetched ∙ ap ok eq

  -- A check between its reports is a check.
  pub check_reported-eq-ok :
      (name : String) (outcome : Result VerifyError (Unit {0})) {u : Unit {0}}
      → check_reported world name outcome ≡ ok u
      → outcome ≡ ok tt
  unfolding check_reported
  check_reported-eq-ok name outcome h =
      let (_, _, h1) = >>-eq-ok (report world.progress verifying started name) _ h in
      let (_, checked, _) = >>-eq-ok (wrap of_verify outcome) _ h1 in
      wrap-eq-ok of_verify outcome checked

  pub fetch_checked-IsGenuine :
      IsLawful world.crypto
      → (artifact : Artifact) (message : Bytes) → fetch_checked world artifact ≡ ok message
      → IsGenuine artifact message
  unfolding fetch_checked check_pin
  fetch_checked-IsGenuine lawful artifact message h =
      let (got, fetched, h1) = >>=-eq-ok (fetch_reported world artifact.url artifact.name) _ h in
      let (_, checked, same) = >>-eq-ok (check_pin world artifact got) _ h1 in
      let eq : got ≡ message = cc in
      record {
        downloaded = fetch_reported-eq-ok artifact.url artifact.name message (fetched ∙ ap ok eq);
        pinned = λ some_pin. rw (← eq) (
            (check_sha256_iff world.crypto lawful got artifact.sha256).0 (
              check_reported-eq-ok artifact.name _
                (if-false (is_empty artifact.sha256) (ok tt) _ some_pin checked)));
      }

-- A URL that parses with the scheme of HTTPS.
pub IsSecure : UrlParser → String → Type 0
IsSecure parse_url url = (parsed : Url) × (parse_url url ≡ some parsed) × (parsed.scheme ≡ "https")

pub require_https-IsSecure :
    (parse_url : UrlParser) (urls : List String) {u : Unit {0}}
    → require_https parse_url urls ≡ ok u
    → All (IsSecure parse_url) urls
unfolding require_https IsSecure
require_https-IsSecure parse_url [] h = tt
require_https-IsSecure parse_url (url ∷ urls) h = elim (Option-cases (parse_url url)) [
  | inl bad ↦ absurd (ground (arith, bad))
  | inr (parsed, good) ↦
      let (_, secure, rest) =
        >>-eq-ok (refuse_if (not (parsed.scheme == "https")) url_not_secure) _
          (rw (require_https, good) at h) in
      (
        (parsed, good, (eq_iff _ _).0 (ground (arith, refuse_if-eq-ok _ _ secure))),
        require_https-IsSecure parse_url urls rest,
      )
]
