-- ===== src/IdMap/Roots.antt =====
-- What `getRecursiveMinId` of gettextpo-helper/gtpo/mappedfile.cpp computes: the end of the chain
-- of links that starts at an ID.
use stupid_ids.Base.{
  if◌then◌else◌, ℕ, ◌*◌, ◌%◌, ◌≡◌, ◌≢◌, ◌↔◌, ok-injective, inl, inr, Acc, ◌<◌, ◌≤◌, ok, ◌==◌, arith,
  dec_lt, lt_wf, Bool-cases, ◌≡◌, dif_pos, le_prop, refl, sym, ◌∙◌, ap, subst,
}
use stupid_ids.IdMap.{
  MappedFile, get_row_const, recursive_min_id_loop, get_recursive_min_id, get_plain_min_id,
}

-- Whole rows, links that lead to smaller IDs, none from a reserved ID, none outside the file.
pub record IsWellFormed (file : MappedFile) : Type 0 where
  pub aligned : file.file_length % 4 ≡ 0
  pub falling : (i : ℕ) → file.rows i ≢ 0 → file.rows i < i
  pub reserved : (i : ℕ) → i < 100 → file.rows i ≡ 0
  pub outside : (i : ℕ) → file.file_length ≤ 4 * i → file.rows i ≡ 0

-- `r` is the end of the chain of links from `i`.
pub data Root (rows : ℕ → ℕ) : ℕ → ℕ → Type 0 where
  top : {i : ℕ} → rows i ≡ 0 → Root rows i i
  link : {i r : ℕ} → rows i ≢ 0 → Root rows (rows i) r → Root rows i r

pub get_row_const_lem :
    {file : MappedFile} → IsWellFormed file → (i : ℕ) → get_row_const file i ≡ ok (file.rows i)
unfolding get_row_const
get_row_const_lem v i = ground (arith, v.aligned, v.outside i)

pub get_plain_min_id_lem :
    {file : MappedFile}
    → IsWellFormed file
    → (i : ℕ) → get_plain_min_id file i ≡ ok (if file.rows i == 0 then i else file.rows i)
unfolding get_plain_min_id
get_plain_min_id_lem v i = rw (get_row_const_lem v i) (ground arith)

loop-Root :
    {file : MappedFile}
    → IsWellFormed file
    → (i : ℕ) (w : Acc ◌<◌ i)
    → (r : ℕ) × (recursive_min_id_loop file i w ≡ ok r) × Root file.rows i r
unfolding recursive_min_id_loop
loop-Root {file} v i (Acc.intro _ smaller) = elim (Bool-cases (file.rows i == 0)) [
  | inl e ↦ (i, rw (get_row_const_lem v i, e, recursive_min_id_loop), top (ground arith))
  | inr e ↦
      let below : file.rows i < i = v.falling i (ground arith) in
      let (r, p, q) = loop-Root v (file.rows i) (smaller (file.rows i) below) in
      (
        r,
        rw (get_row_const_lem v i, e, recursive_min_id_loop)
            (rw (dif_pos (dec_lt (file.rows i) i) le_prop below) p),
        link (ground arith) q,
      )
]

module _ {file : MappedFile} (v : IsWellFormed file) where
  -- In a well-formed file the loop of `getRecursiveMinId` ends for any ID, without a failed
  -- assert, at the end of the chain of links from the ID.
  pub get_recursive_min_id-Root :
      (i : ℕ) → (r : ℕ) × (get_recursive_min_id file i ≡ ok r) × Root file.rows i r
  unfolding get_recursive_min_id
  get_recursive_min_id-Root i = loop-Root v i (lt_wf.apply i)

  pub Root-le : {i r : ℕ} → Root file.rows i r → r ≤ i
  Root-le (top e) = omega arith
  Root-le {i} (link n q) = omega (arith, v.falling i n, Root-le q)

pub Root-unique : {rows : ℕ → ℕ} {i r s : ℕ} → Root rows i r → Root rows i s → r ≡ s
Root-unique (top e) (top f) = refl
Root-unique (top e) (link n q) = absurd (n e)
Root-unique (link n q) (top e) = absurd (n e)
Root-unique (link n p) (link m q) = Root-unique p q

pub Root-top : {rows : ℕ → ℕ} {i r : ℕ} → Root rows i r → rows r ≡ 0
Root-top (top e) = e
Root-top (link n q) = Root-top q

pub Root-ne-zero : {rows : ℕ → ℕ} {i r : ℕ} → i ≢ 0 → Root rows i r → r ≢ 0
Root-ne-zero h (top e) = h
Root-ne-zero h (link n q) = Root-ne-zero n q

module _ {file : MappedFile} (v : IsWellFormed file) where
  -- `getRecursiveMinId` returns an ID exactly when it ends the chain.
  pub get_recursive_min_id_iff :
      (i r : ℕ) → (get_recursive_min_id file i ≡ ok r) ↔ Root file.rows i r
  get_recursive_min_id_iff i r =
      let (s, e, p) = get_recursive_min_id-Root v i in
      (
        (λ f. subst (Root file.rows i) (ok-injective (sym e ∙ f)) p),
        (λ q. e ∙ ap ok (Root-unique p q)),
      )
