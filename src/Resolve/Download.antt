-- ===== src/Resolve/Download.antt =====
-- src/resolve.cpp: one transfer, and the loop that retries it. libcurl, the file system's refusals and
-- the variables are parameters; `slept` records the pauses.
use cyborgdb_embed.Prelude.{
  ℕ, zero, suc, ◌+◌, ◌-◌, ◌^◌, min, max, Bool, true, false, not, ◌&&◌, ◌||◌, List, [], ◌∷◌, ◌++◌,
  Option, none, some, leb, ◌==◌, if◌then◌else◌, Text, codes, text_eq,
}
use cyborgdb_embed.Status.{Status, success, is_ok, download_failed}
use cyborgdb_embed.Registry.Lookup.{is_empty}
use cyborgdb_embed.Resolve.{Variables, env}

abbrev pub Disk : Type 0
Disk = Text → Option (List ℕ)

unfoldable pub put_file : Disk → Text → List ℕ → Disk
put_file disk path bytes q = if text_eq path q then some bytes else disk q

unfoldable pub remove_file : Disk → Text → Disk
remove_file disk path q = if text_eq path q then none else disk q

pub data CurlCode : Type 0 where
  curl_ok operation_timedout couldnt_connect couldnt_resolve_host : CurlCode
  send_error recv_error got_nothing partial_file other_error : CurlCode

-- What `curl_easy_perform` leaves: `body` is what `write_to_file` has put into the file, `detail` the
-- error buffer, or else the code's text.
pub record Transfer : Type 0 where
  pub code : CurlCode
  pub http : ℕ
  pub retry_after : ℕ
  pub detail : Text
  pub body : List ℕ

pub record System : Type 0 where
  pub vars : Variables
  pub is_regular_file : Text → Bool
  -- The n-th `curl_easy_init` gives a handle.
  pub initialises : ℕ → Bool
  pub is_writable : Text → Bool
  -- The n-th transfer of a url with a CA bundle and a header.
  pub perform : ℕ → Text → Text → Text → Transfer
  -- After the n-th transfer, the removal of a file fails.
  pub keeps : ℕ → Text → Bool

pub record Machine : Type 0 where
  pub disk : Disk
  pub transfers : ℕ
  pub slept : List ℕ

-- `fs::remove` after so many transfers; its error is ignored.
unfoldable pub remove_at : System → ℕ → Disk → Text → Disk
unfolding remove_file
remove_at sys n disk path = if sys.keeps n path then disk else remove_file disk path

abbrev first_file : (Text → Bool) → List Text → Text
first_file is_regular_file [] = []
first_file is_regular_file (path ∷ paths) =
    if is_regular_file path then path else first_file is_regular_file paths

unfoldable pub ca_bundle : System → Text
unfolding env is_empty
ca_bundle sys =
    let curl = env sys.vars (codes "CURL_CA_BUNDLE") in
    let ssl = env sys.vars (codes "SSL_CERT_FILE") in
    if not (is_empty curl)
    then curl
    else if not (is_empty ssl)
    then ssl
    else first_file sys.is_regular_file (
        codes "/etc/ssl/certs/ca-certificates.crt"
        ∷ codes "/etc/pki/tls/certs/ca-bundle.crt"
        ∷ codes "/etc/ssl/ca-bundle.pem"
        ∷ codes "/etc/ssl/cert.pem"
        ∷ [])

-- `url.rfind(prefix, 0) == 0`.
unfoldable pub starts_with : Text → Text → Bool
starts_with [] url = true
starts_with (a ∷ prefix) [] = false
starts_with (a ∷ prefix) (b ∷ url) = a == b && starts_with prefix url

unfoldable pub auth_header : Variables → Text → Text
unfolding env is_empty starts_with
auth_header vars url =
    let hf = env vars (codes "HF_TOKEN") in
    let token = if is_empty hf then env vars (codes "HUGGING_FACE_HUB_TOKEN") else hf in
    if not (starts_with (codes "https://huggingface.co/") url)
    then []
    else if is_empty token
    then []
    else codes "Authorization: Bearer " ++ token

pub record Attempt : Type 0 where
  pub status : Status
  pub transient : Bool
  pub retry_after : ℕ

abbrev pub is_network_error : CurlCode → Bool
is_network_error curl_ok = false
is_network_error other_error = false
is_network_error _ = true

abbrev pub is_curl_ok : CurlCode → Bool
is_curl_ok curl_ok = true
is_curl_ok _ = false

abbrev pub failed_attempt : Text → Attempt
failed_attempt message = record {
  status = record { code = download_failed; message = message };
  transient = false;
  retry_after = 0;
}

-- The transfer's outcome.
unfoldable pub judge : Text → Transfer → Attempt
judge url t =
    if is_curl_ok t.code
    then record { status = success; transient = false; retry_after = 0 }
    else record {
      status = record { code = download_failed; message = url ++ (codes ": " ++ t.detail) };
      transient = t.http == 429 || (leb 500 t.http || is_network_error t.code);
      retry_after = t.retry_after;
    }

unfoldable pub download_once : System → Text → Text → Machine → Attempt × Machine
unfolding judge put_file remove_at ca_bundle auth_header
download_once sys url destination m =
    let t = sys.perform m.transfers url (ca_bundle sys) (auth_header sys.vars url) in
    let next = suc m.transfers in
    let written = put_file m.disk destination t.body in
    if not (sys.initialises m.transfers)
    then (failed_attempt (codes "could not initialise curl"), record m { transfers = next })
    else if not (sys.is_writable destination)
    then (failed_attempt (codes "cannot write to " ++ destination), record m { transfers = next })
    else (
      judge url t,
      record m {
        disk = if is_curl_ok t.code then written else remove_at sys next written destination;
        transfers = next;
      },
    )

abbrev pub max_attempts : ℕ
max_attempts = 5

-- `min(60, max(1 << (attempt - 1), retry_after))`.
unfoldable pub backoff : ℕ → ℕ → ℕ
backoff attempt retry_after = min 60 (max (2 ^ (attempt - 1)) retry_after)

-- The loop from an attempt on; `none` is want of fuel.
unfoldable pub download_from : System → Text → Text → ℕ → ℕ → Machine → Option (Status × Machine)
unfolding download_once backoff
download_from sys url destination zero attempt m = none
download_from sys url destination (suc fuel) attempt m =
    let r = download_once sys url destination m in
    let again =
      download_from sys url destination fuel (attempt + 1)
        (record r.1 { slept = backoff attempt r.0.retry_after ∷ r.1.slept }) in
    if is_ok r.0.status || (not r.0.transient || attempt == max_attempts)
    then some (r.0.status, r.1)
    else again

unfoldable pub download : System → Text → Text → Machine → Option (Status × Machine)
unfolding download_from
download sys url destination m = download_from sys url destination max_attempts 1 m
