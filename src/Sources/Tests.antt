-- ===== src/Sources/Tests.antt =====
-- A source behind a redirect to another origin, a directory, and two hosts with one origin.
use xray_e2e_prober.Base.{
  ℕ, zero, suc, ◌≤◌, ◌≡◌, refl, String, true, false, Option, none, some, List, [], ◌∷◌, ◌==◌,
  string_eq, if◌then◌else◌, ok, err, ◌⊎◌, insert,
}
use xray_e2e_prober.Sources.Config.{
  local_unreadable, invalid_secret_reference, Source, Secrets, Url, no_port, UrlLibrary, origin_of,
  suffix, literal, resolved_headers, literal_headers, secret_headers,
}
use xray_e2e_prober.Sources.Http.{
  Request, Response, Reply, answered, Body, complete, chunk, SourcePayload, fetch_http, fetch_loop,
  check_location, merged, redirect_target, payload_of, read_limited, read_chunks,
}
use xray_e2e_prober.Sources.Local.{Node, directory, Child, fetch_local, only}
use xray_e2e_prober.Sources.Requests.{IsDisciplined, fetch_http_requests}
use xray_e2e_prober.Sources.Documents.{contents, total_bytes, fetch_local_documents}
use xray_e2e_prober.Sources.Origins.{at_port, without_port, origin_collision}

abbrev https : String → Url
https host = record { scheme = "https"; hostname = some host; port = no_port }

abbrev lib : UrlLibrary
lib = record {
  urlsplit = λ url.
      if url == "https://a/s"
      then some (https "a")
      else if url == "https://b/s"
      then some (https "b")
      else none;
  urljoin = λ base target. some target;
  decimal = λ t. none;
  str = λ n. "8080";
}

abbrev secrets : Secrets
secrets = record {
  from_file = λ path. err invalid_secret_reference;
  under_base = λ path. path;
  variable = λ name. none;
}

abbrev source : Source
source = record {
  kind = "url";
  location = some "https://a/s";
  location_ref = none;
  headers = ("X-Token", literal "secret") ∷ [];
  headers_ref = [];
  allow_insecure_http = false;
  max_bytes = 10;
  max_redirects = 3;
}

abbrev response : ℕ → Option String → Body → Response
response status location body = record {
  status_code = status;
  url = "https://b/s";
  location = location;
  content_type = none;
  content_length = none;
  body = body;
}

-- The first request is sent on, the second one answered.
abbrev client : ℕ → Request → Reply
client zero request = answered (response 302 (some "https://b/s") complete)
client (suc n) request = answered (response 200 none (chunk (1 ∷ 2 ∷ []) complete))

-- The other origin does not get the token.
fetched :
    (fetch_http lib secrets client "probe" source "https://a/s").1
    ≡ record { url = "https://a/s"; headers = ("User-Agent", "probe") ∷ ("X-Token", "secret") ∷ [] }
      ∷ record { url = "https://b/s"; headers = ("User-Agent", "probe") ∷ [] }
      ∷ []
unfolding fetch_http fetch_loop check_location merged redirect_target payload_of read_limited
    read_chunks resolved_headers literal_headers secret_headers origin_of suffix insert
fetched = refl

fetch_http_requests_example :
    IsDisciplined lib secrets client "probe" source "https://a/s"
      (fetch_http lib secrets client "probe" source "https://a/s")
fetch_http_requests_example = fetch_http_requests lib secrets client "probe" source "https://a/s"

abbrev child : String → List ℕ → Child
child suffix bytes = record {
  is_file = true;
  suffix = suffix;
  file = record { size = some 2; bytes = some bytes };
}

abbrev folder : Node
folder =
    directory
      (child ".json" (1 ∷ 2 ∷ []) ∷ child ".md" (3 ∷ 4 ∷ []) ∷ child ".txt" (5 ∷ 6 ∷ []) ∷ [])

fetch_local_documents_example :
    (fetch_local 6 folder ≡ err local_unreadable)
    ⊎ ((p : SourcePayload) × (fetch_local 6 folder ≡ ok p)
        × (p.documents ≡ contents folder)
        × (total_bytes p.documents ≤ 6)
        × (p.content ≡ only (contents folder)))
fetch_local_documents_example = fetch_local_documents 6 folder (refl, (refl, (refl, tt)))

origin_collision_example :
    origin_of lib (some (at_port "http" "fd00::1" 8080))
    ≡ origin_of lib (some (without_port "http" "fd00::1:8080"))
origin_collision_example = origin_collision lib "http" "fd00::1" 8080 refl refl refl refl refl
