-- ===== src/IdMap/Collapse.antt =====
-- `addRow` of gettextpo-helper/gtpo/mappedfile.cpp: which IDs it collapses.
use stupid_ids.Base.{
  ℕ, ◌+◌, ◌*◌, ◌%◌, ◌≡◌, ◌≢◌, ◌⊎◌, inl, inr, ◌<◌, ◌≤◌, ok, ltb, ◌==◌, arith, Bool-cases, min-eq,
  le→leb, lt→ltb, refl, sym, ◌∙◌, false, subst, min, not,
}
use stupid_ids.IdMap.{
  MappedFile, round_up, grow, ptr, get_row, get_recursive_min_id, update, write_row, write_row_if,
  add_row,
}
use stupid_ids.IdMap.Roots.{
  IsWellFormed, Root, top, link, get_recursive_min_id_iff, Root-le, Root-unique, Root-top,
  Root-ne-zero,
}

-- The file reaches over the row, and reads as before.
pub record Extends (file : MappedFile) (i : ℕ) (after : MappedFile) : Type 0 where
  pub same : (j : ℕ) → after.rows j ≡ file.rows j
  pub covered : 4 * i + 4 ≤ after.file_length
  pub valid : IsWellFormed after

round_up_bounds : (n : ℕ) → (n ≤ round_up n) × (round_up n % 4 ≡ 0)
unfolding round_up
round_up_bounds n = omega arith

grow-Extends :
    {file : MappedFile}
    → IsWellFormed file
    → (i : ℕ) → file.file_length < 4 * i + 4
    → Extends file i (grow (4 * i + 4) file)
unfolding grow
grow-Extends {file} v i h = record {
  same = same_rows;
  covered = omega (arith, round_up_bounds (4 * i + 4));
  valid = record {
    aligned = omega (arith, round_up_bounds (4 * i + 4), v.aligned);
    falling = λ j n. ground (arith, v.falling j, same_rows j);
    reserved = λ j h. same_rows j ∙ v.reserved j h;
    outside = λ j h. same_rows j ∙ v.outside j (omega (arith, round_up_bounds (4 * i + 4)));
  };
}
  where
    same_rows : (j : ℕ) → (grow (4 * i + 4) file).rows j ≡ file.rows j
    same_rows j = ground (arith, v.outside j)

pub get_row-Extends :
    {file : MappedFile}
    → IsWellFormed file
    → (i : ℕ) → (after : MappedFile) × (get_row file i ≡ ok after) × Extends file i after
unfolding get_row ptr
get_row-Extends {file} v i = elim (Bool-cases (ltb file.file_length (4 * i + 4))) [
  | inl e ↦
      let x = grow-Extends v i (ground arith) in
      (grow (4 * i + 4) file, rw e (ground (arith, x.covered)), x)
  | inr e ↦
      (file, rw e (ground arith), record { same = λ j. refl; covered = ground arith; valid = v })
]

-- The file after `writeRow(msg_id, min_id)`.
pub record Written (file : MappedFile) (msg_id min_id : ℕ) (after : MappedFile) : Type 0 where
  pub changed : (j : ℕ) → after.rows j ≡ update file.rows msg_id min_id j
  pub valid : IsWellFormed after

pub write_row-Written :
    {file : MappedFile} (msg_id min_id : ℕ)
    → IsWellFormed file
    → 100 ≤ msg_id
    → msg_id < 100_000_000
    → min_id < msg_id
    → (after : MappedFile) × (write_row file msg_id min_id ≡ ok after)
      × Written file msg_id min_id after
unfolding write_row
write_row-Written {file} msg_id min_id v lo hi lt =
    let (accessible, e, x) = get_row-Extends v msg_id in
    (
      record accessible { rows = update accessible.rows msg_id min_id },
      rw (le→leb _ _ lo, lt→ltb _ _ hi, e),
      record {
        changed = λ j. ground (arith, x.same j);
        valid = record {
          aligned = x.valid.aligned;
          falling = λ j n. ground (arith, x.valid.falling j);
          reserved = λ j h. ground (arith, x.valid.reserved j);
          outside = λ j h. ground (arith, x.valid.outside j, x.covered);
        };
      },
    )

abbrev LeadsTo : (ℕ → ℕ) → ℕ → ℕ → Type 0
LeadsTo rows msg_id r = (msg_id ≡ r) ⊎ (rows msg_id ≡ r)

LeadsTo-Root : {rows : ℕ → ℕ} (i r : ℕ) → r ≢ 0 → rows r ≡ 0 → LeadsTo rows i r → Root rows i r
LeadsTo-Root {rows} i r h e (inl p) = subst (λ j. Root rows j r) (sym p) (top e)
LeadsTo-Root {rows} i r h e (inr p) = link (λ z. h (sym p ∙ z)) (rw p (top e))

-- One of the two conditional writes: the ID now leads to `global_min`, all other rows are kept.
record Linked (file : MappedFile) (msg_id global_min : ℕ) (after : MappedFile) : Type 0 where
  leads : LeadsTo after.rows msg_id global_min
  ends : after.rows global_min ≡ 0
  others : (j : ℕ) → j ≢ msg_id → after.rows j ≡ file.rows j
  valid : IsWellFormed after

write_row_if-Linked :
    {file : MappedFile} (msg_id global_min : ℕ)
    → IsWellFormed file
    → 100 ≤ msg_id
    → msg_id < 100_000_000
    → global_min ≤ msg_id
    → file.rows global_min ≡ 0
    → (after : MappedFile) × (write_row_if (not (msg_id == global_min)) file msg_id global_min
        ≡ ok after)
      × Linked file msg_id global_min after
unfolding write_row_if
write_row_if-Linked {file} msg_id global_min v lo hi le ends =
    elim (Bool-cases (msg_id == global_min)) [
      | inl e ↦ (
        file,
        rw e,
        record { leads = inl (ground arith); ends = ends; others = λ j h. refl; valid = v },
      )
      | inr e ↦
          let (after, f, w) = write_row-Written msg_id global_min v lo hi (ground arith) in
          (
            after,
            rw e f,
            record {
              leads = inr (ground (arith, w.changed msg_id));
              ends = ground (arith, w.changed global_min);
              others = λ j h. ground (arith, w.changed j);
              valid = w.valid;
            },
          )
    ]

-- After `addRow` both IDs lead to the smaller of their old ends, and no other row has changed.
pub record Collapsed (file : MappedFile) (msg_id min_id global_min : ℕ) (after : MappedFile)
    : Type 0 where
  pub first : get_recursive_min_id after msg_id ≡ ok global_min
  pub second : get_recursive_min_id after min_id ≡ ok global_min
  pub others : (j : ℕ) → j ≢ msg_id → j ≢ min_id → after.rows j ≡ file.rows j
  pub valid : IsWellFormed after

module _ {file : MappedFile} (v : IsWellFormed file) (msg_id min_id : ℕ) (ne : msg_id ≢ min_id)
    (lo : 100 ≤ msg_id) (hi : msg_id < 100_000_000) (lo' : 100 ≤ min_id)
    (hi' : min_id < 100_000_000) {a b : ℕ} (ea : get_recursive_min_id file msg_id ≡ ok a)
    (eb : get_recursive_min_id file min_id ≡ ok b) where
  a-Root : Root file.rows msg_id a
  a-Root = (get_recursive_min_id_iff v msg_id a).0 ea

  b-Root : Root file.rows min_id b
  b-Root = (get_recursive_min_id_iff v min_id b).0 eb

  ends_at_min : file.rows (min a b) ≡ 0
  ends_at_min = elim (min-eq a b) [
    | inl e ↦ rw e (Root-top a-Root)
    | inr e ↦ rw e (Root-top b-Root)
  ]

  min_nonzero : min a b ≢ 0
  min_nonzero = elim (min-eq a b) [
    | inl e ↦ rw e (Root-ne-zero (omega arith) a-Root)
    | inr e ↦ rw e (Root-ne-zero (omega arith) b-Root)
  ]

  -- In a well-formed file any two distinct IDs in the range of `writeRow` can be collapsed:
  -- afterwards both lead to the smaller of their two ends, no other row has changed, and the file
  -- is well formed.
  pub add_row-Collapsed :
      (after : MappedFile) × (add_row file msg_id min_id ≡ ok after)
      × Collapsed file msg_id min_id (min a b) after
  unfolding add_row
  add_row-Collapsed =
      let (written, p, l) =
        write_row_if-Linked msg_id (min a b) v lo hi (omega (arith, Root-le v a-Root))
          ends_at_min in
      let (after, q, m) =
        write_row_if-Linked min_id (min a b) l.valid lo' hi' (omega (arith, Root-le v b-Root))
          l.ends in
      let distinct : (msg_id == min_id) ≡ false = ground arith in
      let kept = m.others msg_id ne in
      (
        after,
        rw (distinct, ea, eb, p) q,
        record {
          first =
              (get_recursive_min_id_iff m.valid msg_id (min a b)).1
                (LeadsTo-Root msg_id (min a b) min_nonzero m.ends (rw (← kept) at l.leads));
          second =
              (get_recursive_min_id_iff m.valid min_id (min a b)).1
                (LeadsTo-Root min_id (min a b) min_nonzero m.ends m.leads);
          others = λ j h k. m.others j k ∙ l.others j h;
          valid = m.valid;
        },
      )

  -- The defect: in a well-formed file, where `msg_id` was collapsed with a smaller `a` and is now
  -- collapsed with an ID that leads below `a`, the row of `a` is left behind: `msg_id` leads to
  -- the new end, `a` still to itself, though both had led to `a`.
  pub add_row_splits :
      a ≢ msg_id
      → b < a
      → (after : MappedFile) × (add_row file msg_id min_id ≡ ok after)
        × (get_recursive_min_id file a ≡ ok a)
        × (get_recursive_min_id after a ≡ ok a)
        × (get_recursive_min_id after msg_id ≡ ok b)
  add_row_splits old below =
      let (after, e, c) = add_row-Collapsed in
      let smaller : min a b ≡ b = omega arith in
      let other : a ≢ min_id = λ p.
        omega
          (arith, Root-unique b-Root (subst (λ i. Root file.rows i a) p (top (Root-top a-Root)))) in
      (
        after,
        e,
        (get_recursive_min_id_iff v a a).1 (top (Root-top a-Root)),
        (get_recursive_min_id_iff c.valid a a).1 (top (c.others a old other ∙ Root-top a-Root)),
        rw smaller at c.first,
      )
