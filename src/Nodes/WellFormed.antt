-- ===== src/Nodes/WellFormed.antt =====
-- coordinator/nodes.rs: what a node table that was parsed looks like.
use turbovec_grpc.Prelude.{
  All, Bool-cases, List, Option, Option-cases, Text, [], ap, arith, false, get_elem?, inl, inr,
  is_empty, ltb, ltb→lt, map, none, none-ne-some, refl, some, some-injective, subst, suc, u64_mod,
  ℕ, ◌<◌, ◌∙◌, ◌∷◌, ◌≡◌,
}
use turbovec_grpc.Fallible.{>>=-eq-done, done, done-injective, fail_if-eq-done, parse_u64-lt}
use turbovec_grpc.Nodes.{
  HasScheme, NodeTable, ShardConfig, new_shard, positive_only, with_index, with_index_generation,
  with_scheme, with_scheme-HasScheme,
}
use turbovec_grpc.Nodes.Parse.{
  parse, parse_entries, parse_entry, parse_fields, parse_generation, refuse_extra, shard_of,
  split_entries, split_replicas, strip_comment, trim, with_addresses, words,
}

-- A required generation is positive, fits 64 bits, and stands beside an index handle.
abbrev pub GenerationFits : Option ℕ → Option Text → Type 0
GenerationFits none index_id = Unit
GenerationFits (some n) none = ⊥
GenerationFits (some n) (some id) = (0 < n) × (n < u64_mod)

pub record IsWellFormed (c : ShardConfig) : Type 0 where
  pub scheme : HasScheme c.address
  pub failover : All HasScheme c.replicas
  pub generation : GenerationFits c.required_generation c.index_id

All-HasScheme : (xs : List Text) → All HasScheme (map with_scheme xs)
All-HasScheme [] = tt
All-HasScheme (x ∷ xs) = (with_scheme-HasScheme x, All-HasScheme xs)

GenerationFits-positive :
    (g : Option ℕ) (id : Text)
    → ((n : ℕ) → g ≡ some n → n < u64_mod)
    → GenerationFits (positive_only g) (some id)
GenerationFits-positive none id h = tt
GenerationFits-positive (some n) id h = elim (Bool-cases (ltb 0 n)) [
  | inl b ↦ rw b (ltb→lt 0 n b, h n refl)
  | inr b ↦ rw b tt
]

module _ (position : ℕ) where
  shard_of-IsWellFormed :
      (primary : Text) (index_id : Option Text) (generation : Option ℕ) (replicas : List Text)
      (c : ShardConfig)
      → ((n : ℕ) → generation ≡ some n → n < u64_mod)
      → All HasScheme replicas
      → shard_of position primary index_id generation ≡ done c
      → IsWellFormed (record c { replicas = replicas })
  unfolding shard_of with_index_generation with_index new_shard
  shard_of-IsWellFormed primary (some id) g replicas c fits ok h =
      subst (λ d. IsWellFormed (record d { replicas = replicas })) (done-injective h)
        (record {
          scheme = with_scheme-HasScheme primary;
          failover = ok;
          generation = GenerationFits-positive g id fits;
        })
  shard_of-IsWellFormed primary none none replicas c fits ok h =
      subst (λ d. IsWellFormed (record d { replicas = replicas })) (done-injective h)
        (record { scheme = with_scheme-HasScheme primary; failover = ok; generation = tt })
  shard_of-IsWellFormed primary none (some n) replicas c fits ok h = cc

  parse_generation-lt :
      (field : Option Text) (g : Option ℕ)
      → parse_generation position field ≡ done g
      → (n : ℕ) → g ≡ some n
      → n < u64_mod
  unfolding parse_generation
  parse_generation-lt none g h n e = cc
  parse_generation-lt (some value) g h n e = ground (arith, parse_u64-lt value n)

  with_addresses-IsWellFormed :
      (addresses : List Text) (index_id : Option Text) (generation : Option ℕ) (c : ShardConfig)
      → ((n : ℕ) → generation ≡ some n → n < u64_mod)
      → with_addresses position addresses index_id generation ≡ done c
      → IsWellFormed c
  unfolding with_addresses
  with_addresses-IsWellFormed [] index_id generation c fits h = cc
  with_addresses-IsWellFormed (primary ∷ replicas) index_id generation c fits h =
      let (d, e, h₁) = >>=-eq-done (shard_of position primary index_id generation) _ h in
      subst IsWellFormed (done-injective h₁) (
        shard_of-IsWellFormed primary index_id generation (map with_scheme replicas) d fits
          (All-HasScheme replicas) e)

  parse_fields-IsWellFormed :
      (fields : List Text) (c : ShardConfig)
      → parse_fields position fields ≡ done c
      → IsWellFormed c
  unfolding parse_fields
  parse_fields-IsWellFormed [] c h = cc
  parse_fields-IsWellFormed (addresses ∷ fields) c h =
      let (g, eg, h₁) = >>=-eq-done (parse_generation position (get_elem? fields 1)) _ h in
      let (_, _, h₂) = >>=-eq-done (refuse_extra position (get_elem? fields 2)) _ h₁ in
      with_addresses-IsWellFormed (split_replicas addresses) (get_elem? fields 0) g c
        (parse_generation-lt (get_elem? fields 1) g eg) h₂

  parse_entry-IsWellFormed :
      (raw : Text) (o : Option ShardConfig) (c : ShardConfig)
      → parse_entry position raw ≡ done o
      → o ≡ some c
      → IsWellFormed c
  unfolding parse_entry
  parse_entry-IsWellFormed raw o c h e = elim (Bool-cases (is_empty (trim (strip_comment raw)))) [
    | inl b ↦ absurd (none-ne-some (done-injective (rw b at h) ∙ e))
    | inr b ↦
        let (d, ed, h₁) =
          >>=-eq-done (parse_fields position (words (trim (strip_comment raw)))) _ (rw b at h) in
        parse_fields-IsWellFormed (words (trim (strip_comment raw))) c
          (ed ∙ ap done (some-injective (done-injective h₁ ∙ e)))
  ]

parse_entries-IsWellFormed :
    (position : ℕ) (entries : List Text) (shards : List ShardConfig)
    → parse_entries position entries ≡ done shards
    → All IsWellFormed shards
unfolding parse_entries
parse_entries-IsWellFormed position [] shards h = subst (All IsWellFormed) (done-injective h) tt
parse_entries-IsWellFormed position (raw ∷ entries) shards h =
    let (o, eo, h₁) = >>=-eq-done (parse_entry position raw) _ h in
    let (rest, er, h₂) = >>=-eq-done (parse_entries (suc position) entries) _ h₁ in
    let later : All IsWellFormed rest = parse_entries-IsWellFormed (suc position) entries rest er in
    subst (All IsWellFormed) (done-injective h₂) (elim (Option-cases o) [
      | inl e ↦ rw e later
      | inr (c, e) ↦ rw e (parse_entry-IsWellFormed position raw o c eo e, later)
    ])

-- A table that parses has a shard. Each of its shards names a scheme in its own address and in
-- those of its replicas, and requires a generation only with a handle, then one that is positive
-- and fits 64 bits.
pub parse-IsWellFormed :
    (s : Text) {table : NodeTable}
    → parse s ≡ done table
    → (is_empty table.shards ≡ false) × All IsWellFormed table.shards
unfolding parse
parse-IsWellFormed s {table} h =
    let (shards, e, h₁) = >>=-eq-done (parse_entries 0 (split_entries s)) _ h in
    let (full, h₂) = fail_if-eq-done (is_empty shards) _ _ h₁ in
    subst (λ t. (is_empty t.shards ≡ false) × All IsWellFormed t.shards) (done-injective h₂)
      (full, parse_entries-IsWellFormed 0 (split_entries s) shards e)
