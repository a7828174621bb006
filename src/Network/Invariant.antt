-- ===== src/Network/Invariant.antt =====
-- Network.go: what holds of the lists of networks between two steps.
pub mod Discovery
pub mod Listen
pub mod Start
pub mod Changes
use peernet_core.Prelude.{
  ℕ, suc, ◌≤◌, ◌<◌, ◌≡◌, refl, sym, ap, ◌∙◌, subst, Bool, true, false, arith, ◌==◌, ==_iff,
  Bool-cases, inl, inr, if◌then◌else◌, if-both, List,
}
use peernet_core.Ip.{Bytes, is_ipv4}
use peernet_core.Slice.Pointers.{has}
use peernet_core.Network.{
  Adapters, Network, set_network, terminate, add_listen_address, remove_listen_address,
}

-- The networks in the array of the list for IPv4 are in use and have an IPv4 address, those in the
-- array of the list for IPv6 are in use and have none.
pub record IsFiled (a : Adapters) : Type 0 where
  pub filed4 :
      (k : ℕ)
      → has k a.networks4.array ≡ true
      → (k < a.next_network) × (is_ipv4 (a.networks k).address.ip ≡ true)
  pub filed6 :
      (k : ℕ)
      → has k a.networks6.array ≡ true
      → (k < a.next_network) × (is_ipv4 (a.networks k).address.ip ≡ false)

-- A step that adds no network, and changes no network's IP.
pub record Agrees (a a' : Adapters) : Type 0 where
  pub next_same : a'.next_network ≡ a.next_network
  pub ip_same : (k : ℕ) → (a'.networks k).address.ip ≡ (a.networks k).address.ip
  pub only4 : (k : ℕ) → has k a'.networks4.array ≡ true → has k a.networks4.array ≡ true
  pub only6 : (k : ℕ) → has k a'.networks6.array ≡ true → has k a.networks6.array ≡ true

pub Agrees-refl : (a : Adapters) → Agrees a a
Agrees-refl a = record { next_same = refl; ip_same = λ k. refl; only4 = λ k h. h; only6 = λ k h. h }

pub Agrees-trans : (a b d : Adapters) → Agrees a b → Agrees b d → Agrees a d
Agrees-trans a b d x y = record {
  next_same = y.next_same ∙ x.next_same;
  ip_same = λ k. y.ip_same k ∙ x.ip_same k;
  only4 = λ k h. x.only4 k (y.only4 k h);
  only6 = λ k h. x.only6 k (y.only6 k h);
}

pub Agrees-IsFiled : (a a' : Adapters) → Agrees a a' → IsFiled a → IsFiled a'
Agrees-IsFiled a a' same filed = record {
  filed4 = λ k h.
      let (lt, kind) = filed.filed4 k (same.only4 k h) in
      (omega (arith, lt, same.next_same), ap is_ipv4 (same.ip_same k) ∙ kind);
  filed6 = λ k h.
      let (lt, kind) = filed.filed6 k (same.only6 k h) in
      (omega (arith, lt, same.next_same), ap is_ipv4 (same.ip_same k) ∙ kind);
}

pub set_network-Agrees :
    (a : Adapters) (k : ℕ) (v : Network)
    → v.address.ip ≡ (a.networks k).address.ip
    → Agrees a (set_network a k v)
set_network-Agrees a k v e = record {
  next_same = refl;
  ip_same = λ d. elim (Bool-cases (d == k)) [
    | inl hit ↦ rw (hit, (==_iff d k).0 hit) e
    | inr miss ↦ rw miss refl
  ];
  only4 = λ d h. h;
  only6 = λ d h. h;
}

-- What is not in the invariant.
pub others-Agrees :
    (a : Adapters) (ips : List (Bytes × ℕ)) (binds : ℕ)
    → Agrees a (record a { ips_listen = ips; binds = binds })
others-Agrees a ips binds = record {
  next_same = refl;
  ip_same = λ k. refl;
  only4 = λ k h. h;
  only6 = λ k h. h;
}

pub terminate-Agrees : (k : ℕ) (a : Adapters) → Agrees a (terminate k a)
unfolding terminate remove_listen_address
terminate-Agrees k a =
    let v : Network = record (a.networks k) {
      is_terminated = true;
      terminate_closed = true;
      socket_closed = true;
    } in
    if-both (Agrees a) (a.networks k).is_terminated (Agrees-refl a) (
      Agrees-trans a (set_network a k v) _ (set_network-Agrees a k v refl)
        (others-Agrees (set_network a k v) _ a.binds))
