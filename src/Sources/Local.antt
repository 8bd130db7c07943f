-- ===== src/Sources/Local.antt =====
-- src/xray_e2e_prober/sources.py: `_read_local`, `_fetch_local`, and `fetch`. What a path leads to is
-- a node; the children of a directory stand in the order of their paths.
use text.Mathlib.Text.{starts_with}
use xray_e2e_prober.Base.{
  ℕ, suc, ◌+◌, String, Bool, ◌&&◌, ◌||◌, Option, none, some, List, [], ◌∷◌, if◌then◌else◌, ltb,
  ◌==◌, string_eq, member, Result, ok, err, ◌>>=◌, ◌>>◌, reject,
}
use xray_e2e_prober.Sources.Config.{
  FetchError, unsupported_kind, local_unreadable, value_error, os_error, Source, Secrets,
  location_of, UrlLibrary,
}
use xray_e2e_prober.Sources.Http
use xray_e2e_prober.Sources.Http.{SourcePayload}

-- A file: the size that `stat` gives and the bytes that reading gives; either may raise an OSError.
pub record FileNode : Type 0 where
  pub size : Option ℕ
  pub bytes : Option (List ℕ)

pub record Child : Type 0 where
  pub is_file : Bool
  pub suffix : String
  pub file : FileNode

pub data Node : Type 0 where
  missing : Node
  regular : FileNode → Node
  directory : List Child → Node

abbrev pub or_os_error : {A : Type 0} → Option A → Result FetchError A
or_os_error none = err os_error
or_os_error (some a) = ok a

-- The children that are read: files with the suffixes of a source, as `suffix.lower()` gives them.
abbrev pub is_document : Child → Bool
is_document c = c.is_file && member c.suffix (".json" ∷ ".txt" ∷ ".conf" ∷ [])

abbrev pub prepend_to :
    List ℕ → Result FetchError (List (List ℕ)) → Result FetchError (List (List ℕ))
prepend_to bytes (ok rest) = ok (bytes ∷ rest)
prepend_to bytes (err e) = err e

unfoldable pub read_child : ℕ → FileNode → ℕ → Result FetchError (ℕ × List ℕ)
read_child limit f total = do
  size ← or_os_error f.size
  reject (ltb limit (total + suc size)) value_error
  bytes ← or_os_error f.bytes
  ok (total + suc size, bytes)

-- The loop over the children, with the total so far.
unfoldable pub read_children : ℕ → List Child → ℕ → Result FetchError (List (List ℕ))
read_children limit [] total = ok []
read_children limit (c ∷ cs) total =
    let skip = read_children limit cs total in
    let read =
      read_child limit c.file total >>= λ got. prepend_to got.1 (read_children limit cs got.0) in
    if is_document c then read else skip

-- `_read_local`
unfoldable pub read_local : ℕ → Node → Result FetchError (List (List ℕ))
read_local limit missing = err os_error
read_local limit (regular f) = do
  size ← or_os_error f.size
  reject (ltb limit size) value_error
  bytes ← or_os_error f.bytes
  ok (bytes ∷ [])
read_local limit (directory children) = read_children limit children 0

abbrev pub only : List (List ℕ) → List ℕ
only (bytes ∷ []) = bytes
only _ = []

abbrev pub local_payload : Result FetchError (List (List ℕ)) → Result FetchError SourcePayload
local_payload (err e) = err local_unreadable
local_payload (ok documents) = ok record {
  content = only documents;
  content_type = none;
  origin = "local";
  documents = documents;
}

-- `_fetch_local`
unfoldable pub fetch_local : ℕ → Node → Result FetchError SourcePayload
fetch_local max_bytes node = local_payload (read_local max_bytes node)

-- `SourceLoader.fetch`; `casefold` and the file system are arguments.
module _ (lib : UrlLibrary) (secrets : Secrets) (client : ℕ → Http.Request → Http.Reply)
    (user_agent : String) (casefold : String → String) (file_system : String → Node)
    (source : Source) where
  abbrev pub fetch_from : String → String → Http.Outcome
  fetch_from kind location =
      if member kind ("http" ∷ "https" ∷ "url" ∷ [])
      then Http.fetch_http lib secrets client user_agent source location
      else if member kind ("file" ∷ "directory" ∷ [])
      then (fetch_local source.max_bytes (file_system location), [])
      else if kind == "auto"
      then (if starts_with location "http://" || starts_with location "https://"
          then Http.fetch_http lib secrets client user_agent source location
          else (fetch_local source.max_bytes (file_system location), []))
      else (err unsupported_kind, [])

  unfoldable pub fetch : Http.Outcome
  fetch =
      Http.with_value (location_of secrets source.location source.location_ref)
        (fetch_from (casefold source.kind))
