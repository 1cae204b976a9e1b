-- ===== src/Coordinator/Collector/Ranking.antt =====
-- The order of `HeapCandidate`, and what it has to do with a floor.
use turbovec_grpc.Prelude.{arith, false, true, ℕ, ◌<◌, ◌≡◌, ◌≤◌}
use turbovec_grpc.Order.{
  IsOrd, by_key, by_key-IsOrd, by_key_desc, by_key_desc-IsOrd, lexico, lexico-IsOrd,
}
use turbovec_grpc.Float.{total_rank}
use turbovec_grpc.TopK.{before}
use turbovec_grpc.Coordinator.Collector.{HeapCandidate, candidate_cmp, option_rank}

abbrev label_key : HeapCandidate → ℕ
label_key c = option_rank c.label_order_key

abbrev shard_key : HeapCandidate → ℕ
shard_key c = c.shard_rank

abbrev slot_key : HeapCandidate → ℕ
slot_key c = c.slot

pub candidate_cmp-IsOrd : IsOrd candidate_cmp
unfolding candidate_cmp
candidate_cmp-IsOrd =
    lexico-IsOrd (by_key_desc (λ c. total_rank c.score))
      (lexico (by_key label_key) (lexico (by_key shard_key) (by_key slot_key)))
      (by_key_desc-IsOrd _)
      (lexico-IsOrd (by_key label_key) (lexico (by_key shard_key) (by_key slot_key))
        (by_key-IsOrd label_key)
        (lexico-IsOrd (by_key shard_key) (by_key slot_key) (by_key-IsOrd shard_key)
          (by_key-IsOrd slot_key)))

-- A lower score never stands before a higher one.
pub lower_not_before :
    (a b : HeapCandidate)
    → total_rank a.score < total_rank b.score
    → before candidate_cmp a b ≡ false
unfolding candidate_cmp
lower_not_before a b h = ground arith

pub not_before_rank :
    (a b : HeapCandidate)
    → before candidate_cmp a b ≡ false
    → total_rank a.score ≤ total_rank b.score
unfolding candidate_cmp
not_before_rank a b h = ground arith

pub before_rank :
    (a b : HeapCandidate)
    → before candidate_cmp a b ≡ true
    → total_rank b.score ≤ total_rank a.score
unfolding candidate_cmp
before_rank a b h = ground arith
