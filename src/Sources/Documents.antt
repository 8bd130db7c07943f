-- ===== src/Sources/Documents.antt =====
-- What a local source is read to.
use xray_e2e_prober.Base.{
  ℕ, suc, ◌+◌, ◌≤◌, ◌≡◌, refl, ap, subst, Option, none, some, List, [], ◌∷◌, map, keep, All, ltb,
  string_eq, length, Bool-cases, Result-cases, inl, inr, ◌⊎◌, Result, ok, err, reject, >>=-eq-ok,
  arith,
}
use xray_e2e_prober.Sources.Config.{FetchError, local_unreadable, value_error}
use xray_e2e_prober.Sources.Http.{SourcePayload}
use xray_e2e_prober.Sources.Local.{
  FileNode, Child, Node, missing, regular, directory, or_os_error, is_document, prepend_to,
  read_child, read_children, read_local, only, fetch_local,
}

abbrev pub bytes_of : Option (List ℕ) → List ℕ
bytes_of none = []
bytes_of (some bytes) = bytes

-- The contents of the file, or of the children that are documents, in order.
abbrev pub contents : Node → List (List ℕ)
contents missing = []
contents (regular f) = bytes_of f.bytes ∷ []
contents (directory children) = map (λ c. bytes_of c.file.bytes) (keep is_document children)

unfoldable pub total_bytes : List (List ℕ) → ℕ
total_bytes [] = 0
total_bytes (d ∷ ds) = length d + total_bytes ds

-- Reading gives as many bytes as the size says: nobody writes the file in between.
abbrev pub IsSteady : FileNode → Type 0
IsSteady f = f.size ≡ some (length (bytes_of f.bytes))

abbrev pub AllSteady : Node → Type 0
AllSteady missing = Unit
AllSteady (regular f) = IsSteady f
AllSteady (directory children) = All (λ c. IsSteady c.file) children

read_of : {A : Type 0} (o : Option A) {a : A} → or_os_error o ≡ ok a → o ≡ some a
read_of none e = cc (e)
read_of (some b) e = ground (arith, e)

read_child_lem :
    (limit : ℕ) (f : FileNode) (total : ℕ) {got : ℕ × List ℕ}
    → IsSteady f
    → read_child limit f total ≡ ok got
    → (got.1 ≡ bytes_of f.bytes) × (total + length got.1 ≤ got.0) × (got.0 ≤ limit)
unfolding read_child
read_child_lem limit f total {got} steady e =
    let (size, sized, e1) = >>=-eq-ok (or_os_error f.size) _ e in
    let (_, fits, e2) = >>=-eq-ok (reject (ltb limit (total + suc size)) value_error) _ e1 in
    let (bytes, read, e3) = >>=-eq-ok (or_os_error f.bytes) _ e2 in
    let known : f.bytes ≡ some bytes = read_of f.bytes read in
    let s : some (length (bytes_of f.bytes)) ≡ some size = cc (steady, read_of f.size sized) in
    let same : length bytes ≡ size = ground (arith, rw known at s) in
    let pair : ◌≡◌ {A = ℕ × List ℕ} (total + suc size, bytes) got = ground (arith, e3) in
    subst
      (λ (g : ℕ × List ℕ). (g.1 ≡ bytes_of f.bytes) × (total + length g.1 ≤ g.0) × (g.0 ≤ limit))
      pair (rw known refl, omega (arith, same), ground (arith, fits))

read_children_lem :
    (limit : ℕ) (cs : List Child) (total : ℕ) {docs : List (List ℕ)}
    → All (λ c. IsSteady c.file) cs
    → total ≤ limit
    → read_children limit cs total ≡ ok docs
    → (docs ≡ contents (directory cs)) × (total + total_bytes docs ≤ limit)
unfolding read_children total_bytes
read_children_lem limit [] total steady le e =
    subst (λ docs. (docs ≡ []) × (total + total_bytes docs ≤ limit)) (ground (arith, e))
      (refl, omega arith)
read_children_lem limit (c ∷ cs) total {docs} steady le e = elim (Bool-cases (is_document c)) [
  | inr skipped ↦ rw skipped (read_children_lem limit cs total steady.1 le (rw skipped at e))
  | inl taken ↦
      let (got, read, e1) = >>=-eq-ok (read_child limit c.file total) _ (rw taken at e) in
      let v = read_child_lem limit c.file total steady.0 read in
      let (rest, more, same) = rest_of got.1 (read_children limit cs got.0) e1 in
      let ih = read_children_lem limit cs got.0 steady.1 v.2 more in
      rw taken (
        subst
          (λ ds.
            (ds ≡ bytes_of c.file.bytes ∷ contents (directory cs))
            × (total + total_bytes ds ≤ limit))
          same (cc (v.0, ih.0), omega (arith, v.1, ih.1)))
]
  where
    rest_of :
        (bytes : List ℕ) (r : Result FetchError (List (List ℕ))) {ds : List (List ℕ)}
        → prepend_to bytes r ≡ ok ds
        → (rest : List (List ℕ)) × (r ≡ ok rest) × (bytes ∷ rest ≡ ds)
    rest_of bytes (ok rest) h = (rest, refl, ground (arith, h))
    rest_of bytes (err problem) h = cc (h)

read_local_lem :
    (limit : ℕ) (node : Node) {docs : List (List ℕ)}
    → AllSteady node
    → read_local limit node ≡ ok docs
    → (docs ≡ contents node) × (total_bytes docs ≤ limit)
unfolding read_local total_bytes
read_local_lem limit missing steady e = cc (e)
read_local_lem limit (directory cs) steady e =
    let v = read_children_lem limit cs 0 steady (omega arith) e in (v.0, omega (arith, v.1))
read_local_lem limit (regular f) {docs} steady e =
    let (size, sized, e1) = >>=-eq-ok (or_os_error f.size) _ e in
    let (_, fits, e2) = >>=-eq-ok (reject (ltb limit size) value_error) _ e1 in
    let (bytes, read, e3) = >>=-eq-ok (or_os_error f.bytes) _ e2 in
    let known : f.bytes ≡ some bytes = read_of f.bytes read in
    let s : some (length (bytes_of f.bytes)) ≡ some size = cc (steady, read_of f.size sized) in
    let same : length bytes ≡ size = ground (arith, rw known at s) in
    let pair : bytes ∷ [] ≡ docs = ground (arith, e3) in
    subst (λ ds. (ds ≡ bytes_of f.bytes ∷ []) × (total_bytes ds ≤ limit)) pair
      (rw known refl, ground (arith, fits, same))

-- Where no file changes while it is read, a local source either fails with the one error of an
-- unreadable source, or its documents are the contents of the file, or of all children that are
-- documents, in order, and have at most max_bytes bytes together; the payload's own content is the
-- only document.
pub fetch_local_documents :
    (max_bytes : ℕ) (node : Node)
    → AllSteady node
    → (fetch_local max_bytes node ≡ err local_unreadable)
      ⊎ ((p : SourcePayload) × (fetch_local max_bytes node ≡ ok p)
          × (p.documents ≡ contents node)
          × (total_bytes p.documents ≤ max_bytes)
          × (p.content ≡ only (contents node)))
unfolding fetch_local
fetch_local_documents max_bytes node steady = elim (Result-cases (read_local max_bytes node)) [
  | inr (e, failed) ↦ inl (rw failed refl)
  | inl (docs, found) ↦
      let v = read_local_lem max_bytes node steady found in
      inr (
        record { content = only docs; content_type = none; origin = "local"; documents = docs },
        rw found refl,
        v.0,
        v.1,
        ap only v.0,
      )
]
