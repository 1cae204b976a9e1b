-- ===== src/Coordinator/Topology/Bindings.antt =====
-- The cached binding against the topology it was built from.
use turbovec_grpc.Prelude.{
  List, Option, [], ap, is_empty, none, refl, some, subst, ℕ, ◌+◌, ◌∙◌, ◌∷◌, ◌≡◌,
}
use turbovec_grpc.Status.{
  >>=-eq-ok, Result, err, err-ne-ok, ok, ok-injective, panic, panic-ne-ok, refuse_if-eq-ok,
}
use turbovec_grpc.Nodes.{ShardConfig}
use turbovec_grpc.Nodes.State.{Host}
use turbovec_grpc.Coordinator.{Pinned, Probe}
use turbovec_grpc.Coordinator.Bind.{bind, bind_iff}
use turbovec_grpc.Coordinator.Probing.{Cluster, probe_all}
use turbovec_grpc.Coordinator.Topology.{
  Service, all_probes, build_binding, collection, rebind, rebind_inner, serve_cached, store_binding,
}
use turbovec_grpc.Coordinator.Topology.Rebinding.{Rebound, rebind_inner-Rebound}

-- The cached binding, if there is one, is of the current generation.
abbrev pub IsFresh : Service → Type 0
IsFresh s = (p : Pinned) → s.pinned ≡ some p → p.generation ≡ s.generation

build_binding-generation :
    (cluster : Cluster) (generation : ℕ) (table : List ShardConfig) (p : Pinned)
    → build_binding cluster generation table ≡ ok p
    → p.generation ≡ generation
unfolding build_binding bind
build_binding-generation cluster generation table p h =
    let (_, h₁) = refuse_if-eq-ok (is_empty table) _ _ h in
    let (shards, _, h₂) = >>=-eq-ok (all_probes (probe_all cluster table)) _ h₁ in bound shards h₂
  where
    bound : (shards : List Probe) → bind generation shards ≡ ok p → p.generation ≡ generation
    bound [] h = absurd (err-ne-ok h)
    bound (head ∷ shards) h = ap (λ q. q.generation) ((bind_iff generation head shards p).0 h).1

some-injective {ℓ} : {A : Type ℓ} {a b : A} → some a ≡ some b → a ≡ b
some-injective h = cc

store_binding-IsFresh :
    (s : Service) (r : Result Pinned)
    → IsFresh s
    → ((p : Pinned) → r ≡ ok p → p.generation ≡ s.generation)
    → IsFresh (store_binding r s).1
      × ((p : Pinned) → (store_binding r s).0 ≡ ok p → p.generation ≡ s.generation)
unfolding store_binding
store_binding-IsFresh s (ok q) fresh g = (
  λ p h. subst (λ x. x.generation ≡ s.generation) (some-injective h) (g q refl),
  λ p h. subst (λ x. x.generation ≡ s.generation) (ok-injective h) (g q refl),
)
store_binding-IsFresh s (err x) fresh g = (fresh, λ p h. absurd (err-ne-ok h))
store_binding-IsFresh s panic fresh g = (fresh, λ p h. absurd (panic-ne-ok h))

serve_cached-IsFresh :
    (cluster : Cluster) (o : Option Pinned) (s : Service)
    → s.pinned ≡ o
    → IsFresh s
    → IsFresh (serve_cached cluster o s).1
      × ((p : Pinned) → (serve_cached cluster o s).0 ≡ ok p → p.generation ≡ s.generation)
unfolding serve_cached
serve_cached-IsFresh cluster (some q) s e fresh =
    (fresh, λ p h. fresh p (e ∙ ap some (ok-injective h)))
serve_cached-IsFresh cluster none s e fresh =
    store_binding-IsFresh s (build_binding cluster s.generation s.shards) fresh
      (λ p h. build_binding-generation cluster s.generation s.shards p h)

-- A `collection` that runs with nothing in between serves the current generation and leaves a
-- fresh binding behind; one that fails leaves the binding fresh too.
pub collection-IsFresh :
    (cluster : Cluster) (s : Service)
    → IsFresh s
    → IsFresh (collection cluster s).1
      × ((p : Pinned) → (collection cluster s).0 ≡ ok p → p.generation ≡ s.generation)
unfolding collection
collection-IsFresh cluster s fresh = serve_cached-IsFresh cluster s.pinned s refl fresh

-- A binding that was built before a rebind and stored after it is of the old generation, and it
-- is what every later search is served from until the next rebind.
pub store_binding_stale :
    (host : Host) (cluster : Cluster) (s : Service) (shards : List ShardConfig) (g : ℕ) (p : Pinned)
    → build_binding cluster s.generation s.shards ≡ ok p
    → (rebind host shards s).0 ≡ ok g
    → let s' = (store_binding (ok p) (rebind host shards s).1).1 in
      (collection cluster s' ≡ (ok p, s'))
      × (p.generation ≡ s.generation)
      × (s'.generation ≡ s.generation + 1)
unfolding store_binding collection serve_cached rebind
store_binding_stale host cluster s shards g p built moved_on = (
  refl,
  build_binding-generation cluster s.generation s.shards p built,
  next (rebind_inner host none shards s) (rebind_inner-Rebound host none shards s) moved_on,
)
  where
    next :
        (r : Result ℕ × Service)
        → Rebound host none shards s r
        → r.0 ≡ ok g
        → r.1.generation ≡ s.generation + 1
    next (ok n, s') (e, _, e', _, _, _, _, _) h = e' ∙ e
    next (err e, s') m h = absurd (err-ne-ok h)
    next (panic, s') m h = absurd (panic-ne-ok h)
