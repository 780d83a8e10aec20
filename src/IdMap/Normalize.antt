-- ===== src/IdMap/Normalize.antt =====
-- `normalizeDatabase` of gettextpo-helper/gtpo/mappedfile.cpp: afterwards one lookup is enough.
use stupid_ids.Base.{
  ℕ, ◌+◌, ◌-◌, ◌*◌, ◌/◌, ◌≡◌, ◌≢◌, ◌⊎◌, inl, inr, ◌<◌, ◌≤◌, ok, ltb, ◌==◌, arith, zero, suc,
  Bool-cases, ltb-false, refl, sym, ◌∙◌, subst, not, ◌&&◌,
}
use stupid_ids.IdMap.{
  MappedFile, ptr, get_row, get_recursive_min_id, get_plain_min_id, update, normalize_row,
  normalize_rows, normalize_database,
}
use stupid_ids.IdMap.Roots.{
  IsWellFormed, Root, top, link, get_recursive_min_id-Root, get_recursive_min_id_iff, Root-le,
  Root-unique, Root-top, Root-ne-zero, get_row_const_lem,
}

get_row_inside :
    (file : MappedFile) (i : ℕ) → 4 * i + 4 ≤ file.file_length → get_row file i ≡ ok file
unfolding get_row ptr
get_row_inside file i h = ground arith

Root-linked : {rows : ℕ → ℕ} {i r : ℕ} → rows i ≢ 0 → Root rows i r → r ≢ 0
Root-linked h (top e) = absurd (h e)
Root-linked h (link n q) = Root-ne-zero n q

-- To point a row at the end of its chain changes the end of no chain.
module _ {rows : ℕ → ℕ} (m r : ℕ) (linked : rows m ≢ 0) (end : Root rows m r) where
  shortcut_self : Root (update rows m r) m r
  shortcut_self =
      link (λ z. Root-linked linked end (ground arith))
        (subst (λ j. Root (update rows m r) j r) (ground arith)
          (top (ground (arith, Root-top end))))

  shortcut-Root : {i s : ℕ} → Root rows i s → Root (update rows m r) i s
  shortcut-Root {i} (top e) = top (ground arith)
  shortcut-Root {i} {s} (link n q) = elim (Bool-cases (m == i)) [
    | inl e ↦
        let same : m ≡ i = ground arith in
        let last : r ≡ s = Root-unique end (subst (λ j. Root rows j s) (sym same) (link n q)) in
        subst (λ j. Root (update rows m r) j s) same
          (subst (Root (update rows m r) m) last shortcut_self)
    | inr e ↦
        link (ground arith)
          (subst (λ j. Root (update rows m r) j s) (ground arith) (shortcut-Root q))
  ]

-- The state of the loop before the round for `k`.
record Shortened (file : MappedFile) (k : ℕ) (now : MappedFile) : Type 0 where
  valid : IsWellFormed now
  size : now.file_length ≡ file.file_length
  roots : (i r : ℕ) → Root file.rows i r → Root now.rows i r
  short : (i : ℕ) → i < k → now.rows (now.rows i) ≡ 0

normalize_row-Shortened :
    {file now : MappedFile} (k count : ℕ)
    → Shortened file k now
    → 4 * k + 4 ≤ file.file_length
    → (after : MappedFile) × (count' : ℕ) × (normalize_row k (now, count) ≡ ok (after, count'))
      × Shortened file (k + 1) after
unfolding normalize_row
normalize_row-Shortened {file} {now} k count s h =
    let (r, e, q) = get_recursive_min_id-Root s.valid k in
    elim (Bool-cases (not (now.rows k == 0) && not (now.rows k == r))) [
      | inl t ↦ (
        record now { rows = update now.rows k r },
        count + 1,
        rw (get_row_inside now k (omega (arith, s.size)), e, t),
        record {
          valid = record {
            aligned = s.valid.aligned;
            falling = λ j n. ground (arith, s.valid.falling j, Root-le s.valid q, Root-top q);
            reserved = λ j n. ground (arith, s.valid.reserved j);
            outside = λ j n. ground (arith, s.valid.outside j);
          };
          size = s.size;
          roots = λ i u p. shortcut-Root k r (ground arith) q (s.roots i u p);
          short = λ i lt. ground (arith, s.short i, Root-top q);
        },
      )
      | inr t ↦ (
        now,
        count,
        rw (get_row_inside now k (omega (arith, s.size)), e, t),
        record {
          valid = s.valid;
          size = s.size;
          roots = s.roots;
          short = λ i lt. ground (arith, s.short i, Root-top q, s.valid.reserved 0);
        },
      )
    ]

normalize_rows-Shortened :
    {file : MappedFile} (rounds k count : ℕ) (now : MappedFile)
    → Shortened file k now
    → (4 * (k + rounds) ≤ file.file_length) ⊎ (rounds ≡ 0)
    → (after : MappedFile) × (count' : ℕ) × (normalize_rows rounds k (now, count)
        ≡ ok (after, count'))
      × Shortened file (k + rounds) after
unfolding normalize_rows
normalize_rows-Shortened {file} zero k count now s h =
    (now, count, refl, subst (λ j. Shortened file j now) (omega arith) s)
normalize_rows-Shortened {file} (suc rounds) k count now s h =
    let (next, count', e, t) = normalize_row-Shortened k count s (omega arith) in
    let (after, count'', f, u) =
      normalize_rows-Shortened rounds (k + 1) count' next t (omega arith) in
    (after, count'', rw e f, subst (λ j. Shortened file j after) (omega arith) u)

module _ {file after : MappedFile} (v : IsWellFormed file) where
  Shortened-ends :
      {k : ℕ}
      → Shortened file k after
      → (i : ℕ) → get_recursive_min_id after i ≡ get_recursive_min_id file i
  Shortened-ends s i =
      let (r, e, q) = get_recursive_min_id-Root v i in
      (get_recursive_min_id_iff s.valid i r).1 (s.roots i r q) ∙ sym e

  Shortened-plain :
      {k : ℕ}
      → Shortened file k after
      → file.file_length / 4 ≤ k
      → (i : ℕ) → get_plain_min_id after i ≡ get_recursive_min_id after i
  unfolding get_plain_min_id
  Shortened-plain {k} s h i =
      rw (get_row_const_lem s.valid i) (elim (Bool-cases (after.rows i == 0)) [
        | inl e ↦ rw e (sym ((get_recursive_min_id_iff s.valid i i).1 (top (ground arith))))
        | inr e ↦ rw e (
            sym (
              (get_recursive_min_id_iff s.valid i (after.rows i)).1
                (link (ground arith) (top flat))))
      ])
    where
      flat : after.rows (after.rows i) ≡ 0
      flat = elim (Bool-cases (ltb i k)) [
        | inl e ↦ s.short i (ground arith)
        | inr e ↦
            let free =
              s.valid.outside i (omega (arith, s.size, s.valid.aligned, ltb-false i k e)) in
            rw free (s.valid.reserved 0 (omega arith))
      ]

-- On a well-formed file `normalizeDatabase` succeeds and leaves a well-formed file; it changes the
-- end of no chain, and afterwards the plain lookup of any ID finds the end of its old chain.
pub normalize_database-plain :
    {file : MappedFile}
    → IsWellFormed file
    → (after : MappedFile) × (count : ℕ) × (normalize_database file ≡ ok (after, count))
      × IsWellFormed after
      × ((i : ℕ) → get_recursive_min_id after i ≡ get_recursive_min_id file i)
      × ((i : ℕ) → get_plain_min_id after i ≡ get_recursive_min_id file i)
unfolding normalize_database
normalize_database-plain {file} v =
    let start : Shortened file 100 file = record {
      valid = v;
      size = refl;
      roots = λ i r q. q;
      short = λ i h. ground (arith, v.reserved i, v.reserved 0);
    } in
    let (after, count, e, s) =
      normalize_rows-Shortened (file.file_length / 4 - 100) 100 0 file start (omega arith) in
    (
      after,
      count,
      e,
      s.valid,
      Shortened-ends v s,
      λ i. Shortened-plain v s (omega arith) i ∙ Shortened-ends v s i,
    )
