-- ===== src/Nodes/Comments.antt =====
-- coordinator/nodes.rs: a comma inside a comment of a node table.
use turbovec_grpc.Nodes.Parse.{
  cons_some, is_entry_end, parse, parse_entries, parse_entry, pieces, split_entries, strip_comment,
}
use mathlib.Core.List.{append_assoc, append-nil}
use turbovec_grpc.Prelude.{
  All, Bool, Bool-cases, Text, [], ap, append-nil, append_assoc, arith, false, inl, inr, refl, suc,
  sym, true, ℕ, ◌++◌, ◌∙◌, ◌∷◌, ◌≡◌,
}
use turbovec_grpc.Fallible.{done, ◌>>=◌}

pieces-append :
    (is_sep : ℕ → Bool) (cur a : Text) (c : ℕ) (b : Text)
    → All (λ x. is_sep x ≡ false) a
    → is_sep c ≡ true
    → pieces is_sep cur (a ++ c ∷ b) ≡ (cur ++ a) ∷ pieces is_sep [] b
unfolding pieces
pieces-append is_sep cur [] c b h e = rw (e, pieces) (rw append-nil)
pieces-append is_sep cur (x ∷ a) c b h e =
    rw (h.0, pieces) (pieces-append is_sep (cur ++ x ∷ []) a c b h.1 e ∙ rw append_assoc)

pieces-sep :
    (is_sep : ℕ → Bool) (cur : Text) (c : ℕ) (rest : Text)
    → is_sep c ≡ true
    → pieces is_sep cur (c ∷ rest) ≡ cur ∷ pieces is_sep [] rest
unfolding pieces
pieces-sep is_sep cur c rest e = rw (e, pieces) refl

pieces-other :
    (is_sep : ℕ → Bool) (cur : Text) (c : ℕ) (rest : Text)
    → is_sep c ≡ false
    → pieces is_sep cur (c ∷ rest) ≡ pieces is_sep (cur ++ c ∷ []) rest
unfolding pieces
pieces-other is_sep cur c rest e = rw (e, pieces) refl

strip_comment-comment :
    (entry comment : Text) → strip_comment (entry ++ b'#' ∷ comment) ≡ strip_comment entry
unfolding strip_comment
strip_comment-comment [] comment = refl
strip_comment-comment (c ∷ entry) comment = ground (arith, strip_comment-comment entry comment)

parse_entry-comment :
    (position : ℕ) (entry comment : Text)
    → parse_entry position (entry ++ b'#' ∷ comment) ≡ parse_entry position entry
unfolding parse_entry
parse_entry-comment position entry comment = rw (strip_comment-comment entry comment) refl

parse_entries-comment :
    (position : ℕ) (cur before comment rest : Text)
    → All (λ x. is_entry_end x ≡ false) comment
    → parse_entries position (pieces is_entry_end cur (before ++ b'#' ∷ (comment ++ b',' ∷ rest)))
      ≡ parse_entries position (pieces is_entry_end cur (before ++ b',' ∷ rest))
unfolding parse_entries
parse_entries-comment position cur [] comment rest h =
    ap (parse_entries position)
      (pieces-append is_entry_end cur (b'#' ∷ comment) b',' rest (refl, h) refl)
    ∙ ap
        (λ r. r >>= λ shard.
          parse_entries (suc position) (pieces is_entry_end [] rest) >>= λ shards.
          done (cons_some shard shards))
        (parse_entry-comment position cur comment)
    ∙ sym (ap (parse_entries position) (pieces-sep is_entry_end cur b',' rest refl))
parse_entries-comment position cur (c ∷ before) comment rest h =
    elim (Bool-cases (is_entry_end c)) [
      | inl e ↦
          ap (parse_entries position) (pieces-sep is_entry_end cur c _ e)
          ∙ ap
              (λ r.
                parse_entry position cur >>= λ shard. r >>= λ shards. done (cons_some shard shards))
              (parse_entries-comment (suc position) [] before comment rest h)
          ∙ sym (ap (parse_entries position) (pieces-sep is_entry_end cur c _ e))
      | inr e ↦
          ap (parse_entries position) (pieces-other is_entry_end cur c _ e)
          ∙ parse_entries-comment position (cur ++ c ∷ []) before comment rest h
          ∙ sym (ap (parse_entries position) (pieces-other is_entry_end cur c _ e))
    ]

-- Wherever a comment stands in a node table, a comma inside it ends it: the table is read as the
-- one that has the comma in the comment's place, so what follows the comma is an entry.
pub parse-comment_comma :
    (before comment rest : Text)
    → All (λ x. is_entry_end x ≡ false) comment
    → parse (before ++ b'#' ∷ (comment ++ b',' ∷ rest)) ≡ parse (before ++ b',' ∷ rest)
unfolding parse split_entries
parse-comment_comma before comment rest h =
    rw (parse_entries-comment 0 [] before comment rest h) refl
