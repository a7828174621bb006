-- ===== src/Node/Peerlist/Refinement.antt =====
-- Peer ID.go: the peer list against its specification, a directory that has at most one public key
-- for each compressed key.
use peernet_core.Prelude.{
  ℕ, ◌<◌, ◌≡◌, refl, sym, ap, ◌∙◌, true, List, [], ◌∷◌, map, Option, none, some, if◌then◌else◌,
  arith, Bool-cases, Option-cases, inl, inr,
}
use peernet_core.Ip.{Bytes, bytes_equal}
use peernet_core.Ip.Canonical.{bytes_equal-eq}
use peernet_core.Crypto.{Crypto}
use peernet_core.Slice.Pointers.{has}
use peernet_core.Connection.{PeerInfo}
use peernet_core.Node.{Node, update_peer}
use peernet_core.Node.Invariant.{has-map_get, has-map_set}
use peernet_core.Node.Peerlist.{
  map_get, map_set, map_delete, public_key2_compressed, peerlist_add, peerlist_remove,
  peerlist_lookup,
}
use peernet_core.Node.Peerlist.Laws.{map_get-map_set, map_get-map_delete}

-- A call that changes the peer list: `PeerlistAdd` with at least one connection, or
-- `PeerlistRemove` of the peer that a lookup of the key finds.
pub data Call (K : Type 0) : Type 0 where
  add : K → ℕ → List ℕ → Call K
  forget : K → Call K

pub has-map_delete :
    (k : Bytes) (q : ℕ) (m : List (Bytes × ℕ))
    → has q (map (λ e. e.1) (map_delete k m)) ≡ true
    → has q (map (λ e. e.1) m) ≡ true
unfolding map_delete
has-map_delete k q [] h = h
has-map_delete k q ((j, r) ∷ m) h = ground (arith, has-map_delete k q m)

module _ (c : Crypto) where
  open c use {PublicKey}

  abbrev compressed : PublicKey → Bytes
  compressed = public_key2_compressed c

  abbrev forget_found : Node PublicKey → Option ℕ → Node PublicKey
  forget_found n none = n
  forget_found n (some q) = peerlist_remove c n q

  abbrev call : Call PublicKey → Node PublicKey → Node PublicKey
  call (add k latest more) n = (peerlist_add c n k (latest ∷ more)).2
  call (forget k) n = forget_found n (peerlist_lookup c n k)

  pub run : List (Call PublicKey) → Node PublicKey → Node PublicKey
  run [] n = n
  run (o ∷ os) n = run os (call o n)

  -- The specification.
  abbrev pub Directory : Type 0
  Directory = Bytes → Option PublicKey

  abbrev or_new : Option PublicKey → PublicKey → PublicKey
  or_new none k = k
  or_new (some old) k = old

  abbrev pub specified : Call PublicKey → Directory → Directory
  specified (add k latest more) d b =
      if bytes_equal (compressed k) b then some (or_new (d (compressed k)) k) else d b
  specified (forget k) d b = if bytes_equal (compressed k) b then none else d b

  pub run_specified : List (Call PublicKey) → Directory → Directory
  run_specified [] d = d
  run_specified (o ∷ os) d = run_specified os (specified o d)

  abbrev key_at : (ℕ → PeerInfo PublicKey) → Option ℕ → Option PublicKey
  key_at h none = none
  key_at h (some q) = some (h q).public_key

  -- A node's peer list stands for a directory: a lookup finds a peer with the directory's key, all
  -- listed peers are in use, and the directory has each key at its compressed form.
  pub record Represents (n : Node PublicKey) (d : Directory) : Type 0 where
    pub looked_up : (b : Bytes) → key_at n.peers (map_get b n.peer_list) ≡ d b
    pub in_use : (q : ℕ) → has q (map (λ e. e.1) n.peer_list) ≡ true → q < n.next_peer
    pub keyed : (b : Bytes) (k : PublicKey) → d b ≡ some k → compressed k ≡ b

  key_at-update :
      (h : ℕ → PeerInfo PublicKey) (next : ℕ) (p : PeerInfo PublicKey) (found : Option ℕ)
      → ((q : ℕ) → found ≡ some q → q < next)
      → key_at (update_peer h next p) found ≡ key_at h found
  key_at-update h next p none inside = refl
  key_at-update h next p (some q) inside = ground (arith, inside q refl)

  -- A lookup after `PeerlistAdd` of a new key.
  new-looked_up :
      (n : Node PublicKey) (d : Directory) (k : PublicKey) (p : PeerInfo PublicKey) (b : Bytes)
      → Represents n d
      → p.public_key ≡ k
      → key_at
          (update_peer n.peers n.next_peer p)
          (map_get b (map_set (compressed k) n.next_peer n.peer_list))
        ≡ (if bytes_equal (compressed k) b then some k else d b)
  new-looked_up n d k p b r e =
      ap (key_at (update_peer n.peers n.next_peer p))
        (map_get-map_set (compressed k) b n.next_peer n.peer_list)
      ∙ elim (Bool-cases (bytes_equal (compressed k) b)) [
        | inl hit ↦ rw hit (ground (arith, e))
        | inr miss ↦ rw miss (
            key_at-update n.peers n.next_peer p (map_get b n.peer_list)
              (λ q found. r.in_use q (has-map_get b q n.peer_list found))
            ∙ r.looked_up b)
      ]

  or_new-keyed :
      (o : Option PublicKey) (k j : PublicKey) (b : Bytes)
      → ((k' : PublicKey) → o ≡ some k' → compressed k' ≡ b)
      → compressed k ≡ b
      → some (or_new o k) ≡ some j
      → compressed j ≡ b
  or_new-keyed none k j b old new e = cc
  or_new-keyed (some k') k j b old new e = old j e

  or_new-known : (o : Option PublicKey) (k j : PublicKey) → o ≡ some j → some (or_new o k) ≡ o
  or_new-known none k j e = absurd (cc)
  or_new-known (some old) k j e = refl

  unregistered-keyed :
      (d : Directory) (k : PublicKey) (b : Bytes) (j : PublicKey)
      → ((b' : Bytes) (k' : PublicKey) → d b' ≡ some k' → compressed k' ≡ b')
      → specified (forget k) d b ≡ some j
      → compressed j ≡ b
  unregistered-keyed d k b j keyed = elim (Bool-cases (bytes_equal (compressed k) b)) [
    | inl hit ↦ rw hit (λ e. absurd (cc))
    | inr miss ↦ rw miss (keyed b j)
  ]

  -- What the directory has at a key, by what the peer list has there.
  at_key :
      (n : Node PublicKey) (d : Directory) (k : PublicKey) (found : Option ℕ)
      → Represents n d
      → map_get (compressed k) n.peer_list ≡ found
      → d (compressed k) ≡ key_at n.peers found
  at_key n d k found r e = sym (r.looked_up (compressed k)) ∙ ap (key_at n.peers) e

  registered-keyed :
      (d : Directory) (k : PublicKey) (b : Bytes) (j : PublicKey)
      → ((b' : Bytes) (k' : PublicKey) → d b' ≡ some k' → compressed k' ≡ b')
      → specified (add k 0 []) d b ≡ some j
      → compressed j ≡ b
  registered-keyed d k b j keyed = elim (Bool-cases (bytes_equal (compressed k) b)) [
    | inl hit ↦ rw hit (
        or_new-keyed (d (compressed k)) k j b
          (λ k' e. keyed (compressed k) k' e ∙ bytes_equal-eq _ b hit) (bytes_equal-eq _ b hit))
    | inr miss ↦ rw miss (keyed b j)
  ]

  add-Represents :
      (n : Node PublicKey) (d : Directory) (k : PublicKey) (latest : ℕ) (more : List ℕ)
      → Represents n d
      → Represents (call (add k latest more) n) (specified (add k latest more) d)
  unfolding peerlist_add
  add-Represents n d k latest more r = elim (Option-cases (map_get (compressed k) n.peer_list)) [
    | inl new ↦
        rw (new, call, peerlist_add)
          (record {
            looked_up = λ b.
                new-looked_up n d k _ b r refl
                ∙ ap (λ o. if bytes_equal (compressed k) b then some (or_new o k) else d b)
                    (sym (at_key n d k none r new));
            in_use = λ q h. elim (has-map_set (compressed k) n.next_peer q n.peer_list h) [
              | inl e ↦ omega (arith, e)
              | inr old ↦ omega (arith, r.in_use q old)
            ];
            keyed = λ b j. registered-keyed d k b j r.keyed;
          })
    | inr (q, old) ↦
        rw (old, call, peerlist_add)
          (record {
            looked_up = λ b. r.looked_up b ∙ elim (Bool-cases (bytes_equal (compressed k) b)) [
              | inl hit ↦ rw hit (
                  ap d (sym (bytes_equal-eq _ b hit))
                  ∙ sym (or_new-known _ k _ (at_key n d k (some q) r old)))
              | inr miss ↦ rw miss refl
            ];
            in_use = r.in_use;
            keyed = λ b j. registered-keyed d k b j r.keyed;
          })
  ]

  forget-Represents :
      (n : Node PublicKey) (d : Directory) (k : PublicKey)
      → Represents n d
      → Represents (call (forget k) n) (specified (forget k) d)
  unfolding peerlist_remove peerlist_lookup
  forget-Represents n d k r = elim (Option-cases (map_get (compressed k) n.peer_list)) [
    | inl gone ↦
        rw (gone, forget_found)
          (record {
            looked_up = λ b. r.looked_up b ∙ elim (Bool-cases (bytes_equal (compressed k) b)) [
              | inl hit ↦ rw hit (ap d (sym (bytes_equal-eq _ b hit)) ∙ at_key n d k none r gone)
              | inr miss ↦ rw miss refl
            ];
            in_use = r.in_use;
            keyed = λ b j. unregistered-keyed d k b j r.keyed;
          })
    | inr (q, old) ↦
        rw (old, forget_found)
          (record {
            looked_up = λ b.
                ap (λ z. key_at n.peers (map_get b (map_delete z n.peer_list)))
                  (r.keyed _ _ (at_key n d k (some q) r old))
                ∙ ap (key_at n.peers) (map_get-map_delete (compressed k) b n.peer_list)
                ∙ elim (Bool-cases (bytes_equal (compressed k) b)) [
                  | inl hit ↦ rw hit refl
                  | inr miss ↦ rw miss (r.looked_up b)
                ];
            in_use = λ p h. r.in_use p (has-map_delete _ p n.peer_list h);
            keyed = λ b j. unregistered-keyed d k b j r.keyed;
          })
  ]

  call-Represents :
      (o : Call PublicKey) (n : Node PublicKey) (d : Directory)
      → Represents n d
      → Represents (call o n) (specified o d)
  call-Represents (add k latest more) n d r = add-Represents n d k latest more r
  call-Represents (forget k) n d r = forget-Represents n d k r

  -- If a node's peer list stands for a directory, then after any sequence of `PeerlistAdd`, each
  -- with at least one connection, and of `PeerlistRemove` of the peers that lookups find, it stands
  -- for the directory after the specified changes: a key is registered if it was not, and the first
  -- public key stays; or it is taken out.
  pub run-Represents :
      (os : List (Call PublicKey)) (n : Node PublicKey) (d : Directory)
      → Represents n d
      → Represents (run os n) (run_specified os d)
  unfolding run run_specified
  run-Represents [] n d r = r
  run-Represents (o ∷ os) n d r =
      run-Represents os (call o n) (specified o d) (call-Represents o n d r)
