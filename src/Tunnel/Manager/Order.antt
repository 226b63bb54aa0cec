-- ===== src/Tunnel/Manager/Order.antt =====
-- When the table of tunnels is in order, and what the manager's calls do to it.
use go_ios.Common.{
  ℕ, Bool, ◌≡◌, refl, sym, ap, ◌∙◌, none, some, List, [], ◌∷◌, ◌⊎◌, inl, inr, Bool-cases, All,
  arith,
}
use go_ios.Common.Bytes.{Bytes}
use go_ios.Common.Maps.{
  Bytes_eq, bytes_same, bytes_same_iff, lookup, insert, delete, lookup-insert, lookup-delete,
  same_refl,
}
use go_ios.Common.Keyed.{Member, Keyed, delete-Keyed}
use go_ios.Tunnel.Manager.{Tunnel, Tunnels, TunnelManager, stop_tunnel, new_tunnel_manager}

-- each tunnel stands under its own device
abbrev pub IsOwn : Tunnels → Type 0
IsOwn ts = (u : Bytes) (t : Tunnel) → lookup u ts ≡ some t → t.udid ≡ u

-- A tunnel that was started runs under its device in the table, or was closed.
abbrev pub IsKept : Tunnels → List Tunnel → Tunnel → Type 0
IsKept ts stopped t = (lookup t.udid ts ≡ some t) ⊎ Member t stopped

pub record Inv (m : TunnelManager) : Type 0 where
  pub keyed : Keyed m.tunnels
  pub own : IsOwn m.tunnels
  pub known : (u : Bytes) (t : Tunnel) → lookup u m.tunnels ≡ some t → Member t m.started
  pub kept : All (IsKept m.tunnels m.stopped) m.started

pub new_tunnel_manager-Inv :
    (userspace : Bool) (udid_filter : Bytes) (base_port http_api_port : ℕ)
    → Inv (new_tunnel_manager userspace udid_filter base_port http_api_port)
unfolding new_tunnel_manager lookup
new_tunnel_manager-Inv userspace udid_filter base_port http_api_port = record {
  keyed = tt;
  own = λ u t found. cc;
  known = λ u t found. cc;
  kept = tt;
}

-- a copy of the table that has at least its entries
pub record Covers (local : Tunnels) (m : TunnelManager) : Type 0 where
  pub keyed : Keyed local
  pub own : IsOwn local
  pub above : (u : Bytes) (t : Tunnel) → lookup u m.tunnels ≡ some t → lookup u local ≡ some t

-- Where the table has a tunnel for the device of one of these, it is this one.
abbrev pub Holds : Tunnels → TunnelManager → Type 0
Holds ts m =
    All (λ (e : Bytes × Tunnel). (t : Tunnel) → lookup e.1.udid m.tunnels ≡ some t → t ≡ e.1) ts

pub All-map {ℓ κ} :
    {A : Type ℓ} (P Q : A → Type κ) (xs : List A) → ((x : A) → P x → Q x) → All P xs → All Q xs
All-map P Q [] f h = tt
All-map P Q (x ∷ xs) f h = (f x h.0, All-map P Q xs f h.1)

-- what a deletion leaves, it left as it was
pub delete-le :
    (k u : Bytes) (ts : Tunnels) {t : Tunnel}
    → lookup u (delete k ts) ≡ some t
    → lookup u ts ≡ some t
delete-le k u ts h = ground (arith, lookup-delete k u ts)

delete-IsKept :
    (ts : Tunnels) (stopped : List Tunnel) (t : Tunnel)
    → ((t' : Tunnel) → lookup t.udid ts ≡ some t' → t' ≡ t)
    → (s : Tunnel) → IsKept ts stopped s
    → IsKept (delete t.udid ts) (t ∷ stopped) s
delete-IsKept ts stopped t only s (inr closed) = inr (inr closed)
delete-IsKept ts stopped t only s (inl runs) = elim (Bool-cases (bytes_same t.udid s.udid)) [
  | inl e ↦ inr (inl (only s (ap (λ u. lookup u ts) ((bytes_same_iff t.udid s.udid).0 e) ∙ runs)))
  | inr e ↦ inl (lookup-delete t.udid s.udid ts ∙ rw e runs)
]

-- Closing the tunnel that the table has for its device, if it has one, keeps the order.
pub stop_tunnel-Inv :
    (t : Tunnel) (m : TunnelManager)
    → ((t' : Tunnel) → lookup t.udid m.tunnels ≡ some t' → t' ≡ t)
    → Inv m
    → Inv (stop_tunnel t m)
unfolding stop_tunnel
stop_tunnel-Inv t m only v = record {
  keyed = delete-Keyed t.udid m.tunnels v.keyed;
  own = λ u s found. v.own u s (delete-le t.udid u m.tunnels found);
  known = λ u s found. v.known u s (delete-le t.udid u m.tunnels found);
  kept =
      All-map (IsKept m.tunnels m.stopped) (IsKept (delete t.udid m.tunnels) (t ∷ m.stopped))
        m.started (delete-IsKept m.tunnels m.stopped t only) v.kept;
}

-- The table is at most what it was.
abbrev pub Shrinks : TunnelManager → TunnelManager → Type 0
Shrinks m m' = (u : Bytes) (t : Tunnel) → lookup u m'.tunnels ≡ some t → lookup u m.tunnels ≡ some t

pub stop_tunnel-Shrinks : (t : Tunnel) (m : TunnelManager) → Shrinks m (stop_tunnel t m)
unfolding stop_tunnel
stop_tunnel-Shrinks t m u s found = delete-le t.udid u m.tunnels found

pub Shrinks-Holds : (ts : Tunnels) (m m' : TunnelManager) → Shrinks m m' → Holds ts m → Holds ts m'
Shrinks-Holds [] m m' less h = tt
Shrinks-Holds ((u, s) ∷ ts) m m' less h =
    (λ t found. h.0 t (less s.udid t found), Shrinks-Holds ts m m' less h.1)

pub Shrinks-Covers :
    (local : Tunnels) (m m' : TunnelManager) → Shrinks m m' → Covers local m → Covers local m'
Shrinks-Covers local m m' less c = record {
  keyed = c.keyed;
  own = c.own;
  above = λ u t found. c.above u t (less u t found);
}

module _ (u : Bytes) (t : Tunnel) (own : t.udid ≡ u) where
  pub insert-IsOwn : (ts : Tunnels) → IsOwn ts → IsOwn (insert u t ts)
  insert-IsOwn ts h v s found = elim (Bool-cases (bytes_same u v)) [
    | inl e ↦
        let same : some t ≡ some s = sym (lookup-insert u v t ts ∙ rw e refl) ∙ found in
        let st : t ≡ s = cc same in
        ap (λ (x : Tunnel). x.udid) (sym st) ∙ own ∙ (bytes_same_iff u v).0 e
    | inr e ↦ h v s (sym (lookup-insert u v t ts ∙ rw e refl) ∙ found)
  ]

  -- Where the table has nothing for the device, what was kept still is.
  pub insert-IsKept :
      (ts : Tunnels) (stopped : List Tunnel)
      → lookup u ts ≡ none
      → (s : Tunnel) → IsKept ts stopped s
      → IsKept (insert u t ts) stopped s
  insert-IsKept ts stopped free s (inr closed) = inr closed
  insert-IsKept ts stopped free s (inl runs) = elim (Bool-cases (bytes_same u s.udid)) [
    | inl e ↦ cc (free, runs, (bytes_same_iff u s.udid).0 e)
    | inr e ↦ inl (lookup-insert u s.udid t ts ∙ rw e runs)
  ]

  pub lookup-insert_here : (ts : Tunnels) → lookup t.udid (insert u t ts) ≡ some t
  lookup-insert_here ts =
      ap (λ v. lookup v (insert u t ts)) own ∙ lookup-insert u u t ts ∙ rw (same_refl u) refl
