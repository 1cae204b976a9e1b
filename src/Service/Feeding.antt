-- ===== src/Service/Feeding.antt =====
-- The frames of `export_rows` for a range of rows, fed to the builder of `import_rows`.
use turbovec_grpc.Prelude.{
  Bool-cases, List, Option, ap, append-nil, arith, false, if◌then◌else◌, inl, inr, le→ltb, ltb,
  ltb→le, lt→ltb, map, min, none, not, refl, some, subst, suc, sym, u64_mod, zero, ℕ, ◌*◌, ◌++◌,
  ◌+◌, ◌-◌, ◌<◌, ◌==◌, ◌∙◌, ◌≡◌, ◌≤◌, ◌⊎◌,
}
use turbovec_grpc.Status.{Result-cases, err-ne-ok, ok, panic-ne-ok, refuse_if-eq-ok}
use turbovec_grpc.Service.Export.{
  TurboQuantIndex, bound_dim, export_loop, export_range, export_rows, rows_per_frame, sent,
}
use turbovec_grpc.Service.Import.{ImportBuilder, block, extend, push, push_frames}
use turbovec_grpc.Service.Blocks.{
  IsLaidOut, block_of, export_block-ok, export_range-ok, names_of, push-block_of, range, row_bytes,
  shape, times_sum,
}
use turbovec_grpc.Service.Ranges.{extended}

module _ (index : TurboQuantIndex) (labels : Option (List ℕ)) (dim : ℕ) where
  -- The builder `s'` is `s` with the rows `from` to `from + count` of the index behind it.
  pub record Fed (from count : ℕ) (s s' : ImportBuilder) : Type 0 where
    pub expects : s'.expected_rows ≡ s.expected_rows
    pub headed : s'.head ≡ some (shape index labels dim)
    pub counted : s'.rows ≡ s.rows + count
    pub codes :
        s'.packed
        ≡ s.packed
          ++ range (from * row_bytes index dim) (count * row_bytes index dim) index.packed_codes
    pub scaled : s'.scales ≡ s.scales ++ range from count index.scales
    pub named : s'.labels ≡ s.labels ++ range from count (names_of index labels)

  pub joined_ranges :
      (from a b c : ℕ) (s s₁ s₂ : ImportBuilder)
      → c ≡ a + b
      → Fed from a s s₁
      → Fed (from + a) b s₁ s₂
      → Fed from c s s₂
  joined_ranges from a b c s s₁ s₂ e u v =
      let w = row_bytes index dim in
      record {
        expects = v.expects ∙ u.expects;
        headed = v.headed;
        counted = omega (arith, u.counted, v.counted);
        codes =
            extended s.packed s₁.packed s₂.packed index.packed_codes (from * w) (a * w) (b * w)
              (c * w) ((from + a) * w) u.codes v.codes (times_sum from a w)
              (ap (λ n. n * w) e ∙ times_sum a b w);
        scaled =
            extended s.scales s₁.scales s₂.scales index.scales from a b c (from + a) u.scaled
              v.scaled refl e;
        named =
            extended s.labels s₁.labels s₂.labels (names_of index labels) from a b c (from + a)
              u.named v.named refl e;
      }

  -- A builder with room for `count` rows of this shape.
  pub record HasRoom (count : ℕ) (s : ImportBuilder) : Type 0 where
    pub matching : (s.head ≡ none) ⊎ (s.head ≡ some (shape index labels dim))
    pub room : s.rows + count ≤ s.expected_rows
    pub small : s.expected_rows < u64_mod

  module _ (laid : IsLaidOut index labels dim) where
    pub push-Fed :
        (from count : ℕ) (s : ImportBuilder)
        → from + count ≤ index.len
        → HasRoom count s
        → (s' : ImportBuilder) × (push s (block_of index labels dim from count) ≡ ok s')
          × Fed from count s s'
    unfolding extend
    push-Fed from count s h free =
        let (pushed, headed) =
          push-block_of index labels dim laid from count s h free.matching free.room free.small in
        (
          extend s (block_of index labels dim from count),
          pushed,
          record {
            expects = refl;
            headed = headed;
            counted = refl;
            codes = refl;
            scaled = refl;
            named = refl;
          },
        )

    zero_times : (n b : ℕ) → n ≡ 0 → n * b ≡ 0
    zero_times n b e = rw (e) (omega arith)

    with_none {ℓ} : {A : Type ℓ} (ys xs : List A) (from n : ℕ) → n ≡ 0 → ys ≡ ys ++ range from n xs
    with_none ys xs from n e = rw (e) (sym (append-nil ys))

    -- No rows leave a builder that has its head as it is.
    no_rows :
        (from n : ℕ) (s : ImportBuilder)
        → n ≡ 0
        → s.head ≡ some (shape index labels dim)
        → Fed from n s s
    no_rows from n s e hd = record {
      expects = refl;
      headed = hd;
      counted = omega arith;
      codes =
          with_none s.packed index.packed_codes (from * row_bytes index dim)
            (n * row_bytes index dim) (zero_times n (row_bytes index dim) e);
      scaled = with_none s.scales index.scales from n e;
      named = with_none s.labels (names_of index labels) from n e;
    }

    left_room :
        (count rest : ℕ) (s s' : ImportBuilder) (from : ℕ)
        → HasRoom (count + rest) s
        → Fed from count s s'
        → HasRoom rest s'
    left_room count rest s s' from free fed = record {
      matching = inr fed.headed;
      room = omega (arith, free.room, fed.counted, fed.expects);
      small = omega (arith, free.small, fed.expects);
    }

    first_room : (count rest : ℕ) (s : ImportBuilder) → HasRoom (count + rest) s → HasRoom count s
    first_room count rest s free = record {
      matching = free.matching;
      room = omega (arith, free.room);
      small = free.small;
    }

    no_room : (rows : ℕ) (s : ImportBuilder) → HasRoom rows s → HasRoom 0 s
    no_room rows s free = record {
      matching = free.matching;
      room = omega (arith, free.room);
      small = free.small;
    }

    suc-ne-zero : (n : ℕ) → (suc n == 0) ≡ false
    suc-ne-zero n = ground arith

    -- The blocks of the loop bring the rows they are asked for.
    export_loop-Fed :
        (per : ℕ) (p : 0 < per) (fuel from rows : ℕ) (s : ImportBuilder)
        → (rows ≡ 0 → s.head ≡ some (shape index labels dim))
        → rows ≤ fuel
        → from + rows ≤ index.len
        → HasRoom rows s
        → let r = export_loop index labels per fuel from rows in
          (r.1 ≡ ok tt)
          × (s' : ImportBuilder) × (push_frames s (map block r.0) ≡ ok s')
          × Fed from rows s s'
    unfolding export_loop push_frames sent
    export_loop-Fed per p zero from rows s hd f h free =
        (refl, s, refl, no_rows from rows s (omega arith) (hd (omega arith)))
    export_loop-Fed per p (suc fuel) from zero s hd f h free =
        (refl, s, refl, no_rows from zero s refl (hd refl))
    export_loop-Fed per p (suc fuel) from (suc rows) s hd f h free =
        let count = min per (suc rows) in
        let rest = suc rows - count in
        let split : suc rows ≡ count + rest = omega arith in
        let free' : HasRoom (count + rest) s = subst (λ n. HasRoom n s) split free in
        let (s₁, pushed, fed) =
          push-Fed from count s (omega arith) (first_room count rest s free') in
        let (ended, s₂, more, fed') =
          export_loop-Fed per p fuel (from + count) rest s₁ (λ e. fed.headed) (omega arith)
            (omega arith) (left_room count rest s s₁ from free' fed) in
        rw
          (
            suc-ne-zero rows,
            export_block-ok index labels dim laid from count (λ e. absurd (omega arith))
                (omega arith),
            pushed,
          )
          (ended, s₂, more, joined_ranges from count rest (suc rows) s s₁ s₂ split fed fed')

    rows_per_frame-pos : 0 < rows_per_frame index.bit_width dim
    unfolding rows_per_frame
    rows_per_frame-pos = ground arith

    bound_dim-ok : bound_dim index.dim_opt ≡ ok dim
    unfolding bound_dim
    bound_dim-ok = rw (laid.bound) refl

    -- A stream for a range that is there brings exactly its rows.
    pub export_rows-Fed :
        (from asked rows : ℕ) (s : ImportBuilder)
        → export_range index from asked ≡ ok (from, rows)
        → from + rows ≤ index.len
        → (rows ≡ 0 → from ≡ index.len)
        → HasRoom rows s
        → ((export_rows index labels from asked).1 ≡ ok tt)
          × (s' : ImportBuilder) × (push_frames s
                (map block (export_rows index labels from asked).0)
              ≡ ok s')
          × Fed from rows s s'
    unfolding export_rows push_frames sent
    export_rows-Fed from asked rows s ranged h z free = elim (Bool-cases (rows == 0)) [
      | inl e ↦
          let (s', pushed, fed) = push-Fed from 0 s (omega arith) (no_room rows s free) in
          rw
            (
              ranged,
              bound_dim-ok,
              e,
              export_block-ok index labels dim laid from 0 (λ _. z (ground arith)) (omega arith),
              pushed,
            )
            (refl, s', refl, subst (λ n. Fed from n s s') (ground arith) fed)
      | inr e ↦
          let (ended, s', pushed, fed) =
            export_loop-Fed (rows_per_frame index.bit_width dim) rows_per_frame-pos rows from rows s
              (λ z. ground arith) (omega arith) h free in
          rw (ranged, bound_dim-ok, e, pushed) (ended, s', refl, fed)
    ]

    pub all_rows : export_range index 0 0 ≡ ok (0, index.len)
    unfolding export_range
    all_rows =
        rw
          (
            le→ltb index.len 0 (omega arith),
            lt→ltb (0 + (index.len - 0)) u64_mod (omega (arith, laid.fits)),
            le→ltb index.len (0 + (index.len - 0)) (omega arith),
          )
          (ap (λ n. ok (0, n)) (omega arith))

    pub some_rows :
        (from asked : ℕ)
        → 0 < asked
        → from + asked ≤ index.len
        → export_range index from asked ≡ ok (from, asked)
    some_rows from asked p h =
        export_range-ok index labels dim laid from asked (λ e. absurd (omega arith)) h

    asked_rows : (asked n : ℕ) → 0 < asked → (if asked == 0 then n else asked) ≡ asked
    asked_rows asked n p = ground arith

    export_range-bound :
        (from asked : ℕ) (r : ℕ × ℕ)
        → 0 < asked
        → export_range index from asked ≡ ok r
        → from + asked ≤ index.len
    unfolding export_range
    export_range-bound from asked r p h =
        let h' = rw (asked_rows asked (index.len - from) p) at h in
        let (_, h₁) = refuse_if-eq-ok (ltb index.len from) _ _ h' in
        let (_, h₂) = refuse_if-eq-ok (not (ltb (from + asked) u64_mod)) _ _ h₁ in
        let (inside, _) = refuse_if-eq-ok (ltb index.len (from + asked)) _ _ h₂ in
        ltb→le index.len (from + asked) inside

    -- A stream that ends well was asked for rows that are there.
    pub export_rows-bound :
        (from asked : ℕ)
        → 0 < asked
        → (export_rows index labels from asked).1 ≡ ok tt
        → from + asked ≤ index.len
    unfolding export_rows
    export_rows-bound from asked p h = elim (Result-cases (export_range index from asked)) [
      | inl (r, e) ↦ export_range-bound from asked r p e
      | inr (inl (e, f)) ↦ absurd (err-ne-ok (rw (f) at h))
      | inr (inr f) ↦ absurd (panic-ne-ok (rw (f) at h))
    ]
