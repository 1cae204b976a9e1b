-- ===== src/Tests/Codec.antt =====
-- A codec for the topology file, with a length before each list.
use turbovec_grpc.Prelude.{
  List, Option, Text, [], ap, length, none, refl, some, suc, zero, ℕ, ◌++◌, ◌∷◌, ◌≡◌,
}
use turbovec_grpc.Nodes.{ShardConfig}
use turbovec_grpc.Nodes.State.{Host, PersistedTopology, RoundTrips}

abbrev pub Reads : Type 0 → Type 0
Reads A = Option (A × Text)

unfoldable and_get : {A B : Type 0} → Reads A → (A → Text → Reads B) → Reads B
and_get none next = none
and_get (some (a, rest)) next = next a rest

pub record Codec (A : Type 0) : Type 0 where
  pub put : A → Text → Text
  pub get : Text → Reads A
  pub back : (a : A) (rest : Text) → get (put a rest) ≡ some (a, rest)

unfoldable get_number : Text → Reads ℕ
get_number [] = none
get_number (n ∷ rest) = some (n, rest)

number : Codec ℕ
unfolding get_number
number = record { put = λ n rest. n ∷ rest; get = get_number; back = λ n rest. refl }

unfoldable split_at : ℕ → Text → Text × Text
split_at zero xs = ([], xs)
split_at (suc n) [] = ([], [])
split_at (suc n) (x ∷ xs) = let r = split_at n xs in (x ∷ r.0, r.1)

split_at-append : (t rest : Text) → split_at (length t) (t ++ rest) ≡ (t, rest)
unfolding split_at
split_at-append [] rest = refl
split_at-append (x ∷ t) rest = ap (λ r. (x ∷ r.0, r.1)) (split_at-append t rest)

unfoldable get_text : Text → Reads Text
get_text [] = none
get_text (n ∷ xs) = some (split_at n xs)

text_codec : Codec Text
unfolding get_text
text_codec = record {
  put = λ t rest. length t ∷ (t ++ rest);
  get = get_text;
  back = λ t rest. ap some (split_at-append t rest);
}

module _ {A : Type 0} (c : Codec A) where
  put_option : Option A → Text → Text
  put_option none rest = 0 ∷ rest
  put_option (some a) rest = 1 ∷ c.put a rest

  get_option : Text → Reads (Option A)
  unfolding and_get
  get_option [] = none
  get_option (zero ∷ rest) = some (none, rest)
  get_option (suc n ∷ rest) = and_get (c.get rest) (λ a left. some (some a, left))

  option_back : (o : Option A) (rest : Text) → get_option (put_option o rest) ≡ some (o, rest)
  unfolding put_option get_option and_get
  option_back none rest = refl
  option_back (some a) rest = rw (c.back a rest) refl

  option_codec : Codec (Option A)
  option_codec = record { put = put_option; get = get_option; back = option_back }

  put_items : List A → Text → Text
  put_items [] rest = rest
  put_items (a ∷ later) rest = c.put a (put_items later rest)

  get_items : ℕ → Text → Reads (List A)
  unfolding and_get
  get_items zero xs = some ([], xs)
  get_items (suc n) xs =
      and_get (c.get xs)
        (λ a left. and_get (get_items n left) (λ later last. some (a ∷ later, last)))

  items_back :
      (xs : List A) (rest : Text) → get_items (length xs) (put_items xs rest) ≡ some (xs, rest)
  unfolding put_items get_items and_get
  items_back [] rest = refl
  items_back (a ∷ later) rest = rw (c.back a (put_items later rest), items_back later rest) refl

  get_list : Text → Reads (List A)
  unfolding get_items
  get_list [] = none
  get_list (n ∷ xs) = get_items n xs

  list_codec : Codec (List A)
  unfolding get_list
  list_codec = record {
    put = λ xs rest. length xs ∷ put_items xs rest;
    get = get_list;
    back = items_back;
  }

module _ {A B : Type 0} (c : Codec A) where
  put_pair : Codec B → A × B → Text → Text
  put_pair d (a, b) rest = c.put a (d.put b rest)

  get_pair : Codec B → Text → Reads (A × B)
  get_pair d xs =
      and_get (c.get xs) (λ a left. and_get (d.get left) (λ b last. some ((a, b), last)))

  pair_codec : Codec B → Codec (A × B)
  unfolding put_pair get_pair and_get
  pair_codec d = record {
    put = put_pair d;
    get = get_pair d;
    back = λ p rest. rw (c.back p.0 (d.put p.1 rest), d.back p.1 rest) refl;
  }

  via : (to : B → A) (from : A → B) → ((b : B) → from (to b) ≡ b) → Codec B
  unfolding and_get
  via to from same = record {
    put = λ b rest. c.put (to b) rest;
    get = λ xs. and_get (c.get xs) (λ a left. some (from a, left));
    back = λ b rest. rw (c.back (to b) rest, same b) refl;
  }

shard_codec : Codec ShardConfig
shard_codec =
    via
      (pair_codec text_codec (
        pair_codec (option_codec text_codec)
          (pair_codec (list_codec text_codec) (option_codec number))))
      (λ s. (s.address, (s.index_id, (s.replicas, s.required_generation))))
      (λ t. record {
        address = t.0;
        index_id = t.1.0;
        replicas = t.1.1.0;
        required_generation = t.1.1.1;
      })
      (λ s. refl)

pub topology_codec : Codec PersistedTopology
topology_codec =
    via
      (pair_codec number
        (pair_codec number (pair_codec (list_codec shard_codec) (list_codec text_codec))))
      (λ p. (p.version, (p.generation, (p.shards, p.spares))))
      (λ t. record { version = t.0; generation = t.1.0; shards = t.1.1.0; spares = t.1.1.1 })
      (λ p. refl)

abbrev pub decoded : Reads PersistedTopology → Option PersistedTopology
decoded none = none
decoded (some (p, rest)) = some p

-- A file system without faults under this codec.
abbrev pub coded_host : Host
coded_host = record {
  encode = λ p. topology_codec.put p [];
  decode = λ bytes. decoded (topology_codec.get bytes);
  fault = λ step. none;
}

pub coded_host-RoundTrips : RoundTrips coded_host
coded_host-RoundTrips p = ap decoded (topology_codec.back p [])
