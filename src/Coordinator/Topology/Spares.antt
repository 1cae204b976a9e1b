-- ===== src/Coordinator/Topology/Spares.antt =====
-- The spare pool: no spare serves a shard, none is listed twice, and registration is idempotent
-- and never changes the serving topology.
use turbovec_grpc.Prelude.{
  All, All-append, Bool, Bool-cases, List, Option, Text, [], any, arith, false, inl, inr, refl,
  retain, subst, sym, text_eq, text_eq_refl, true, ℕ, ◌++◌, ◌∷◌, ◌≡◌, ◌⊎◌,
}
use turbovec_grpc.Status.{Result, err, err-ne-ok, ok, ok-injective, panic, panic-ne-ok}
use turbovec_grpc.Fallible.{Fallible, done, fail, panics}
use turbovec_grpc.Nodes.{ShardConfig}
use turbovec_grpc.Nodes.State.{Disk, Host}
use turbovec_grpc.Coordinator.Topology.{
  RegisterNodeResponse, Service, commit_spares, enroll, rebind_inner, serves_address, surviving,
}
use turbovec_grpc.Coordinator.Topology.Rebinding.{Rebound, rebind_inner-Rebound}

abbrev pub Idle : List ShardConfig → List Text → Type 0
Idle shards = All (λ spare. any (serves_address spare) shards ≡ false)

abbrev pub Distinct : List Text → Type 0
Distinct [] = Unit
Distinct (a ∷ xs) = All (λ b. text_eq a b ≡ false) xs × Distinct xs

pub record PoolOk (s : Service) : Type 0 where
  pub idle : Idle s.shards s.spares
  pub distinct : Distinct s.spares

All-retain : (P : Text → Type 0) (p : Text → Bool) (xs : List Text) → All P xs → All P (retain p xs)
All-retain P p [] h = tt
All-retain P p (x ∷ xs) h = elim (Bool-cases (p x)) [
  | inl b ↦ rw (b, retain) (h.0, All-retain P p xs h.1)
  | inr b ↦ rw (b, retain) (All-retain P p xs h.1)
]

surviving-Idle :
    (shards : List ShardConfig) (spares : List Text) → Idle shards (surviving shards spares)
unfolding surviving
surviving-Idle shards [] = tt
surviving-Idle shards (x ∷ xs) = elim (Bool-cases (any (serves_address x) shards)) [
  | inl b ↦ rw (b, retain) (surviving-Idle shards xs)
  | inr b ↦ rw (b, retain) (b, surviving-Idle shards xs)
]

surviving-Distinct :
    (shards : List ShardConfig) (spares : List Text)
    → Distinct spares
    → Distinct (surviving shards spares)
unfolding surviving
surviving-Distinct shards [] d = tt
surviving-Distinct shards (x ∷ xs) d = elim (Bool-cases (any (serves_address x) shards)) [
  | inl b ↦ rw (b, retain) (surviving-Distinct shards xs d.1)
  | inr b ↦
      rw (b, retain)
        (All-retain (λ y. text_eq x y ≡ false) _ xs d.0, surviving-Distinct shards xs d.1)
]

Rebound-PoolOk :
    (host : Host) (expected : Option ℕ) (shards : List ShardConfig) (s s' : Service) (r : Result ℕ)
    → Rebound host expected shards s (r, s')
    → PoolOk s
    → PoolOk s'
Rebound-PoolOk host expected shards s s' (ok g) (_, _, _, _, e, f, _, _) v = record {
  idle = rw (e, f) (surviving-Idle shards s.spares);
  distinct = rw f (surviving-Distinct shards s.spares v.distinct);
}
Rebound-PoolOk host expected shards s s' (err e) m v = record {
  idle = rw (m.same_shards, m.same_spares) v.idle;
  distinct = rw m.same_spares v.distinct;
}
Rebound-PoolOk host expected shards s s' panic m v = absurd m

-- A rebind keeps the pool sound, with whatever outcome: the spares that the new table places
-- leave it.
pub rebind_inner-PoolOk :
    (host : Host) (expected : Option ℕ) (shards : List ShardConfig) (s : Service)
    → PoolOk s
    → PoolOk (rebind_inner host expected shards s).1
rebind_inner-PoolOk host expected shards s v =
    Rebound-PoolOk host expected shards s _ _ (rebind_inner-Rebound host expected shards s) v

All-end : (P : Text → Type 0) (xs : List Text) (a : Text) → All P xs → P a → All P (xs ++ a ∷ [])
All-end P xs a h p = All-append P xs (a ∷ []) h (p, tt)

text_eq_comm : (a b : Text) → text_eq a b ≡ text_eq b a
unfolding text_eq
text_eq_comm [] [] = refl
text_eq_comm [] (y ∷ ys) = refl
text_eq_comm (x ∷ xs) [] = refl
text_eq_comm (x ∷ xs) (y ∷ ys) = ground (arith, text_eq_comm xs ys)

Distinct-end :
    (xs : List Text) (a : Text)
    → any (λ x. text_eq x a) xs ≡ false
    → Distinct xs
    → Distinct (xs ++ a ∷ [])
Distinct-end [] a h d = (tt, tt)
Distinct-end (x ∷ xs) a h d = (
  All-end (λ b. text_eq x b ≡ false) xs a d.0 (ground arith),
  Distinct-end xs a (ground arith) d.1,
)

module _ (host : Host) (address : Text) (s : Service) where
  commit_spares-PoolOk :
      (next : List Text) (r : Fallible (Unit {0})) (d : Disk)
      → PoolOk s
      → Idle s.shards next
      → Distinct next
      → PoolOk (commit_spares s next (r, d)).1
  unfolding commit_spares
  commit_spares-PoolOk next (done u) d v i n = record { idle = i; distinct = n }
  commit_spares-PoolOk next (fail e) d v i n = record { idle = v.idle; distinct = v.distinct }
  commit_spares-PoolOk next panics d v i n = record { idle = v.idle; distinct = v.distinct }

  enroll-PoolOk : PoolOk s → PoolOk (enroll host address s).1
  unfolding enroll
  enroll-PoolOk v = elim (Bool-cases (any (serves_address address) s.shards)) [
    | inl m ↦ rw m v
    | inr m ↦ rw m (elim (Bool-cases (any (λ x. text_eq x address) s.spares)) [
      | inl b ↦ rw b v
      | inr b ↦ rw b (
          commit_spares-PoolOk (s.spares ++ address ∷ []) _ _ v
            (All-end (λ spare. any (serves_address spare) s.shards ≡ false) s.spares address v.idle
              m)
            (Distinct-end s.spares address b v.distinct))
    ])
  ]

  -- What a registration leaves alone, and what it says.
  record Enrolled (response : RegisterNodeResponse) (s' : Service) : Type 0 where
    same_topology : (s'.generation ≡ s.generation) × (s'.shards ≡ s.shards) × (s'.pinned ≡ s.pinned)
    says : response.topology_generation ≡ s.generation
    member_iff : response.member ≡ any (serves_address address) s.shards
    pooled : response.member ≡ false → any (λ x. text_eq x address) s'.spares ≡ true
    kept : (s'.spares ≡ s.spares) ⊎ (s'.spares ≡ s.spares ++ address ∷ [])

  any_end : (xs : List Text) → any (λ x. text_eq x address) (xs ++ address ∷ []) ≡ true
  any_end [] = rw (text_eq_refl address)
  any_end (x ∷ xs) = ground (arith, any_end xs)

  commit_spares-Enrolled :
      (r : Fallible (Unit {0})) (d : Disk) (response : RegisterNodeResponse)
      → any (serves_address address) s.shards ≡ false
      → (commit_spares s (s.spares ++ address ∷ []) (r, d)).0 ≡ ok response
      → Enrolled response (commit_spares s (s.spares ++ address ∷ []) (r, d)).1
  unfolding commit_spares
  commit_spares-Enrolled (done u) d response m h =
      subst (λ q. Enrolled q (record s { spares = s.spares ++ address ∷ []; disk = d }))
        (ok-injective h)
        (record {
          same_topology = (refl, refl, refl);
          says = refl;
          member_iff = sym m;
          pooled = λ _. any_end s.spares;
          kept = inr refl;
        })
  commit_spares-Enrolled (fail e) d response m h = absurd (err-ne-ok h)
  commit_spares-Enrolled panics d response m h = absurd (panic-ne-ok h)

  -- A registration that returns changes neither the serving topology nor its generation nor the
  -- binding; it says whether the address serves a shard, and if not the address is in the pool.
  enroll-Enrolled :
      (response : RegisterNodeResponse)
      → (enroll host address s).0 ≡ ok response
      → Enrolled response (enroll host address s).1
  unfolding enroll
  enroll-Enrolled response h = elim (Bool-cases (any (serves_address address) s.shards)) [
    | inl m ↦ rw m (
        subst (λ q. Enrolled q s) (ok-injective (rw m at h))
          (record {
            same_topology = (refl, refl, refl);
            says = refl;
            member_iff = sym m;
            pooled = λ e. cc;
            kept = inl refl;
          }))
    | inr m ↦
        let h' = rw m at h in
        rw m (elim (Bool-cases (any (λ x. text_eq x address) s.spares)) [
          | inl b ↦ rw b (
              subst (λ q. Enrolled q s) (ok-injective (rw b at h'))
                (record {
                  same_topology = (refl, refl, refl);
                  says = refl;
                  member_iff = sym m;
                  pooled = λ e. b;
                  kept = inl refl;
                }))
          | inr b ↦ rw b (commit_spares-Enrolled _ _ response m (rw b at h'))
        ])
  ]

enroll_again :
    (host : Host) (address : Text) (s s' : Service) (response : RegisterNodeResponse)
    → Enrolled host address s response s'
    → enroll host address s' ≡ (ok response, s')
unfolding enroll
enroll_again host address s s' response e =
    let (g, t, _) = e.same_topology in ground (arith, g, t, e.says, e.member_iff, e.pooled)

-- Announcing an address again answers the same and changes nothing.
pub enroll_idem :
    (host : Host) (address : Text) (s : Service) (response : RegisterNodeResponse)
    → (enroll host address s).0 ≡ ok response
    → enroll host address (enroll host address s).1 ≡ (ok response, (enroll host address s).1)
enroll_idem host address s response h =
    enroll_again host address s _ response (enroll-Enrolled host address s response h)
