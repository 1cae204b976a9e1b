-- ===== src/Service/Transfer.antt =====
-- The rows that `export_rows` sends, put together again by `import_rows`.
use turbovec_grpc.Prelude.{
  ==_iff, List, Option, ap, arith, inl, length, map, refl, some, take_all, true, u64_mod, ℕ, ◌*◌,
  ◌+◌, ◌<◌, ◌==◌, ◌∙◌, ◌∷◌, ◌≡◌, ◌≤◌,
}
use turbovec_grpc.Float.{F32}
use turbovec_grpc.Status.{ok}
use turbovec_grpc.Wire.{RowBlock}
use turbovec_grpc.Service.Export.{TurboQuantIndex, export_rows}
use turbovec_grpc.Service.Import.{
  ImportBuilder, Parts, block, finish, finish_head, import_parts, import_start, new_builder,
}
use turbovec_grpc.Service.Blocks.{IsLaidOut, block_of, names_of, range, row_bytes, shape}
use turbovec_grpc.Service.Feeding.{Fed, HasRoom, all_rows, export_rows-Fed}

pub range_all {ℓ} :
    {A : Type ℓ} (from n : ℕ) (xs : List A) → from ≡ 0 → length xs ≤ n → range from n xs ≡ xs
range_all from n xs e h = rw (e) (take_all n xs h)

abbrev pub parts_like : RowBlock → ℕ → List ℕ → List F32 → List ℕ → Parts
parts_like head rows packed scales labels = record {
  dim = head.dim;
  bit_width = head.bit_width;
  rows = rows;
  packed = packed;
  scales = scales;
  tqplus_shift = head.tqplus_shift;
  tqplus_scale = head.tqplus_scale;
  labels = labels;
}

-- The parts that a full builder has collected.
abbrev pub collected : RowBlock → ImportBuilder → Parts
collected head s = parts_like head s.rows s.packed s.scales s.labels

pub finish_full :
    (s : ImportBuilder) (head : RowBlock)
    → s.head ≡ some head
    → s.rows ≡ s.expected_rows
    → finish s ≡ ok (collected head s)
unfolding finish finish_head
finish_full s head hd e =
    ap (λ o. finish_head o s) hd ∙ complete ((==_iff s.rows s.expected_rows).1 e)
  where
    complete :
        (s.rows == s.expected_rows) ≡ true → finish_head (some head) s ≡ ok (collected head s)
    complete t = rw (t) refl

pub parts_like-eq :
    (head : RowBlock) {rows rows' : ℕ} {packed packed' : List ℕ} {scales scales' : List F32}
    {labels labels' : List ℕ}
    → rows ≡ rows'
    → packed ≡ packed'
    → scales ≡ scales'
    → labels ≡ labels'
    → parts_like head rows packed scales labels ≡ parts_like head rows' packed' scales' labels'
parts_like-eq head e f g h = rw (e, f, g, h) refl

module _ (index : TurboQuantIndex) (labels : Option (List ℕ)) (dim : ℕ)
    (laid : IsLaidOut index labels dim) where
  -- The parts of an index that holds the rows `from` to `from + count`.
  abbrev pub parts_of : ℕ → ℕ → Parts
  parts_of from count =
      let b = block_of index labels dim from count in
      record {
        dim = dim;
        bit_width = index.bit_width;
        rows = count;
        packed = b.packed_codes;
        scales = b.scales;
        tqplus_shift = index.tqplus_shift;
        tqplus_scale = index.tqplus_scale;
        labels = b.labels;
      }

  pub new_builder-HasRoom :
      (count : ℕ) → count < u64_mod → HasRoom index labels dim count (new_builder count)
  unfolding new_builder
  new_builder-HasRoom count h = record { matching = inl refl; room = omega arith; small = h }

  -- An import that was announced as many rows as it was fed.
  pub finish-Fed :
      (from count : ℕ) (s : ImportBuilder)
      → Fed index labels dim from count (new_builder count) s
      → finish s ≡ ok (parts_of from count)
  unfolding new_builder
  finish-Fed from count s fed =
      let counted : s.rows ≡ 0 + count = fed.counted in
      let expects : s.expected_rows ≡ count = fed.expects in
      let codes : s.packed
          ≡ range (from * row_bytes index dim) (count * row_bytes index dim) index.packed_codes =
        fed.codes in
      let scaled : s.scales ≡ range from count index.scales = fed.scaled in
      let named : s.labels ≡ range from count (names_of index labels) = fed.named in
      finish_full s (shape index labels dim) fed.headed (omega arith)
      ∙ ap ok (parts_like-eq (shape index labels dim) (omega arith) codes scaled named)

  -- The parts from which the new index is made.
  pub whole : Parts
  whole = record {
    dim = dim;
    bit_width = index.bit_width;
    rows = index.len;
    packed = index.packed_codes;
    scales = index.scales;
    tqplus_shift = index.tqplus_shift;
    tqplus_scale = index.tqplus_scale;
    labels = names_of index labels;
  }

  parts_of-whole : parts_of 0 index.len ≡ whole
  unfolding whole
  parts_of-whole =
      rw
        (
          range_all (0 * row_bytes index dim) (index.len * row_bytes index dim) index.packed_codes
              (omega arith) (omega (arith, laid.codes_each)),
          range_all 0 index.len index.scales refl (omega (arith, laid.one_scale_each)),
          range_all 0 index.len (names_of index labels) refl (omega (arith, laid.one_label_each)),
        )
        refl

  -- An import that is fed what an export of all rows sends returns the parts of the exported index,
  -- byte for byte, with its labels, or with its slots as labels where it has none.
  pub import-export :
      ((export_rows index labels 0 0).1 ≡ ok tt)
      × (import_parts (import_start index.len ∷ map block (export_rows index labels 0 0).0)
          ≡ ok whole)
  unfolding import_parts
  import-export =
      let (ended, s, pushed, fed) =
        export_rows-Fed index labels dim laid 0 0 index.len (new_builder index.len)
          (all_rows index labels dim laid) (omega arith) (λ z. omega arith)
          (new_builder-HasRoom index.len laid.fits) in
      (ended, rw (pushed) (finish-Fed 0 index.len s fed ∙ ap ok parts_of-whole))
