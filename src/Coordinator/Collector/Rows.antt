-- ===== src/Coordinator/Collector/Rows.antt =====
-- What a batch holds as candidates, read off its fields, and that the loop over the batch offers
-- exactly those to the heap and to the tie candidates.
use mathlib.Core.List.{append-nil, append_assoc}
use turbovec_grpc.Prelude.{
  All, Bool, List, Option, Text, [], ap, arith, false, get_elem?, is_empty, none, not, refl, suc,
  true, ℕ, ◌++◌, ◌∙◌, ◌∷◌, ◌≡◌,
}
use turbovec_grpc.Float.{F32, is_nan}
use turbovec_grpc.Status.{>>=-eq-ok, ok, refuse_if-eq-ok}
use turbovec_grpc.Wire.{absent, batch, summary}
use turbovec_grpc.TopK.{offer_all}
use turbovec_grpc.Coordinator.Collector.{
  HeapCandidate, QueryOptions, StreamEvent, absorb, candidate_cmp, closed, error, label_at, message,
  scan_rows,
}

-- An entry of a list behind a switch.
abbrev entry_if : Bool → List ℕ → ℕ → Option ℕ
entry_if true labels i = get_elem? labels i
entry_if false labels i = none

-- The candidates of aligned scores and slots from position `i` on.
unfoldable pub rows_from : Bool → ℕ → List ℕ → ℕ → List F32 → List ℕ → List HeapCandidate
rows_from stable rank labels i [] slots = []
rows_from stable rank labels i (score ∷ scores) [] = []
rows_from stable rank labels i (score ∷ scores) (slot ∷ slots) =
    record {
      score = score;
      shard_rank = rank;
      slot = slot;
      label = entry_if (not (is_empty labels)) labels i;
      label_order_key = entry_if stable labels i;
    }
    ∷ rows_from stable rank labels (suc i) scores slots

-- The candidates that an event brings.
unfoldable pub event_rows : Bool → StreamEvent → List HeapCandidate
unfolding rows_from
event_rows stable (message rank (batch b)) = rows_from stable rank b.labels 0 b.scores b.slots
event_rows stable (message rank (summary m)) = []
event_rows stable (message rank absent) = []
event_rows stable (error rank e) = []
event_rows stable (closed rank) = []

label_at-eq_ok :
    (flag : Bool) (labels : List ℕ) (i : ℕ) (o : Option ℕ)
    → label_at flag labels i ≡ ok o
    → o ≡ entry_if flag labels i
unfolding label_at
label_at-eq_ok false labels i o h = ground arith
label_at-eq_ok true labels i o h = ground arith

module _ (options : QueryOptions) (k : ℕ) where
  abbrev pub Kept : Type 0
  Kept = List HeapCandidate × List HeapCandidate

  absorb_all : List HeapCandidate → Kept → Kept
  absorb_all [] acc = acc
  absorb_all (c ∷ cs) acc = absorb_all cs (absorb options k c acc)

  -- A loop that ends well has met no NaN and has absorbed every row of the batch in order.
  scan_rows-absorb :
      (address : Text) (rank : ℕ) (labels : List ℕ) (i : ℕ) (scores : List F32) (slots : List ℕ)
      (acc acc' : Kept)
      → scan_rows options k address rank labels i scores slots acc ≡ ok acc'
      → (acc' ≡ absorb_all (rows_from options.stable_label_order rank labels i scores slots) acc)
        × All
            (λ c. is_nan c.score ≡ false)
            (rows_from options.stable_label_order rank labels i scores slots)
  unfolding scan_rows rows_from absorb_all
  scan_rows-absorb address rank labels i [] slots acc acc' h = ground arith
  scan_rows-absorb address rank labels i (score ∷ scores) [] acc acc' h = ground arith
  scan_rows-absorb address rank labels i (score ∷ scores) (slot ∷ slots) acc acc' h =
      let (real, h₁) = refuse_if-eq-ok (is_nan score) _ _ h in
      let (label, el, h₂) = >>=-eq-ok (label_at (not (is_empty labels)) labels i) _ h₁ in
      let (key, ek, h₃) = >>=-eq-ok (label_at options.stable_label_order labels i) _ h₂ in
      let c : HeapCandidate = record {
        score = score;
        shard_rank = rank;
        slot = slot;
        label = label;
        label_order_key = key;
      } in
      let rest =
        scan_rows-absorb address rank labels (suc i) scores slots (absorb options k c acc) acc'
          h₃ in
      rw
        (
          ← label_at-eq_ok (not (is_empty labels)) labels i label el,
          ← label_at-eq_ok options.stable_label_order labels i key ek,
        )
        (rest.0, (real, rest.1))

  absorb_all-heap :
      (cs heap ties : List HeapCandidate)
      → (absorb_all cs (heap, ties)).0 ≡ offer_all candidate_cmp k heap cs
  unfolding absorb_all absorb offer_all
  absorb_all-heap [] heap ties = refl
  absorb_all-heap (c ∷ cs) heap ties = absorb_all-heap cs _ _

  absorb_all-ties :
      (cs heap ties : List HeapCandidate)
      → options.tie_complete ≡ true
      → (absorb_all cs (heap, ties)).1 ≡ ties ++ cs
  unfolding absorb_all absorb
  absorb_all-ties [] heap ties t = rw append-nil
  absorb_all-ties (c ∷ cs) heap ties t = absorb_all-ties cs _ _ t ∙ rw t (rw append_assoc)

  -- The same of the two lists that the loop keeps.
  pub scan_rows_lem :
      (address : Text) (rank : ℕ) (labels : List ℕ) (i : ℕ) (scores : List F32) (slots : List ℕ)
      (heap ties : List HeapCandidate) (acc' : Kept)
      → scan_rows options k address rank labels i scores slots (heap, ties) ≡ ok acc'
      → let rows = rows_from options.stable_label_order rank labels i scores slots in
        (acc'.0 ≡ offer_all candidate_cmp k heap rows)
        × (options.tie_complete ≡ true → acc'.1 ≡ ties ++ rows)
        × All (λ c. is_nan c.score ≡ false) rows
  scan_rows_lem address rank labels i scores slots heap ties acc' h =
      let (e, real) = scan_rows-absorb address rank labels i scores slots (heap, ties) acc' h in
      (
        ap (λ p. p.0) e ∙ absorb_all-heap _ heap ties,
        λ t. ap (λ p. p.1) e ∙ absorb_all-ties _ heap ties t,
        real,
      )
