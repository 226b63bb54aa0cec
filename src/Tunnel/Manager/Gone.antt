-- ===== src/Tunnel/Manager/Gone.antt =====
-- The end of an update: which tunnels are closed.
use go_ios.Common.{
  ◌≡◌, refl, ap, ◌∙◌, true, false, none, some, List, [], ◌∷◌, inl, inr, Bool-cases, if◌then◌else◌,
  All,
}
use go_ios.Common.Bytes.{Bytes}
use go_ios.Common.Maps.{Bytes_eq, bytes_same, bytes_same_iff, lookup, lookup-delete}
use go_ios.Common.Keyed.{entries}
use go_ios.Tunnel.Manager.{
  Tunnel, Tunnels, DeviceEntry, TunnelManager, is_connected, stop_tunnel, stop_gone,
}
use go_ios.Tunnel.Manager.Order.{
  Inv, Covers, Holds, All-map, stop_tunnel-Inv, stop_tunnel-Shrinks, Shrinks-Holds,
}
use go_ios.Tunnel.Manager.Rounds.{view}

-- each entry is of the device that it stands under
abbrev pub AreOwn : Tunnels → Type 0
AreOwn ts = All (λ (e : Bytes × Tunnel). e.1.udid ≡ e.0) ts

pub Covers-AreOwn : (local : Tunnels) (m : TunnelManager) → Covers local m → AreOwn local
Covers-AreOwn local m c =
    All-map (λ (e : Bytes × Tunnel). lookup e.0 local ≡ some e.1)
      (λ (e : Bytes × Tunnel). e.1.udid ≡ e.0) local (λ e has. c.own e.0 e.1 has)
      (entries local c.keyed)

pub stop_gone-Inv :
    (devices : List DeviceEntry) (ts : Tunnels) (m : TunnelManager)
    → Holds ts m
    → Inv m
    → Inv (stop_gone devices ts m)
unfolding stop_gone
stop_gone-Inv devices [] m h v = v
stop_gone-Inv devices ((u, t) ∷ ts) m h v = elim (Bool-cases (is_connected devices u)) [
  | inl e ↦ rw (stop_gone, e) (stop_gone-Inv devices ts m h.1 v)
  | inr e ↦
      rw (stop_gone, e)
        (stop_gone-Inv devices ts (stop_tunnel t m)
          (Shrinks-Holds ts m (stop_tunnel t m) (stop_tunnel-Shrinks t m) h.1)
          (stop_tunnel-Inv t m h.0 v))
]

view-stop_tunnel :
    (t : Tunnel) (m : TunnelManager) (u : Bytes)
    → view (stop_tunnel t m) u ≡ (if bytes_same t.udid u then none else view m u)
unfolding stop_tunnel
view-stop_tunnel t m u = lookup-delete t.udid u m.tunnels

-- The tunnels of connected devices stay.
pub stop_gone_connected :
    (devices : List DeviceEntry) (ts : Tunnels) (m : TunnelManager) (u : Bytes)
    → AreOwn ts
    → is_connected devices u ≡ true
    → view (stop_gone devices ts m) u ≡ view m u
unfolding stop_gone
stop_gone_connected devices [] m u own c = refl
stop_gone_connected devices ((k, t) ∷ ts) m u own c = elim (Bool-cases (is_connected devices k)) [
  | inl e ↦ rw (stop_gone, e) (stop_gone_connected devices ts m u own.1 c)
  | inr e ↦
      rw (stop_gone, e)
        (stop_gone_connected devices ts (stop_tunnel t m) u own.1 c
          ∙ view-stop_tunnel t m u
          ∙ elim (Bool-cases (bytes_same t.udid u)) [
            | inl s ↦ cc (own.0, (bytes_same_iff t.udid u).0 s, e, c)
            | inr s ↦ rw s refl
          ])
]

stop_gone-none :
    (devices : List DeviceEntry) (ts : Tunnels) (m : TunnelManager) (u : Bytes)
    → view m u ≡ none
    → view (stop_gone devices ts m) u ≡ none
unfolding stop_gone
stop_gone-none devices [] m u h = h
stop_gone-none devices ((k, t) ∷ ts) m u h = elim (Bool-cases (is_connected devices k)) [
  | inl e ↦ rw (stop_gone, e) (stop_gone-none devices ts m u h)
  | inr e ↦
      rw (stop_gone, e)
        (stop_gone-none devices ts (stop_tunnel t m) u (
          view-stop_tunnel t m u
          ∙ elim (Bool-cases (bytes_same t.udid u)) [ inl s ↦ rw s refl | inr s ↦ rw s h ]))
]

-- Those of other devices go, where they are among the tunnels that the loop goes through.
pub stop_gone_other :
    (devices : List DeviceEntry) (ts : Tunnels) (m : TunnelManager) (u : Bytes)
    → AreOwn ts
    → is_connected devices u ≡ false
    → (lookup u ts ≡ none → view m u ≡ none)
    → view (stop_gone devices ts m) u ≡ none
unfolding stop_gone lookup
stop_gone_other devices [] m u own c h = h refl
stop_gone_other devices ((k, t) ∷ ts) m u own c h = elim (Bool-cases (bytes_same k u)) [
  | inl s ↦
      let k_gone : is_connected devices k ≡ false =
        ap (is_connected devices) ((bytes_same_iff k u).0 s) ∙ c in
      let gone : bytes_same t.udid u ≡ true = rw own.0 s in
      rw (stop_gone, k_gone)
        (stop_gone-none devices ts (stop_tunnel t m) u (view-stop_tunnel t m u ∙ rw gone refl))
  | inr s ↦
      let missing : lookup u ts ≡ none → view m u ≡ none = λ e. h (rw s e) in
      elim (Bool-cases (is_connected devices k)) [
        | inl e ↦ rw (stop_gone, e) (stop_gone_other devices ts m u own.1 c missing)
        | inr e ↦
            rw (stop_gone, e)
              (stop_gone_other devices ts (stop_tunnel t m) u own.1 c (λ n.
                view-stop_tunnel t m u ∙ elim (Bool-cases (bytes_same t.udid u)) [
                  | inl g ↦ rw g refl
                  | inr g ↦ rw g (missing n)
                ]))
      ]
]
