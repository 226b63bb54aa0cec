-- ===== src/Tunnel/Manager/Removals.antt =====
-- Removing a tunnel and closing the manager keep the order of the table.
use go_ios.Common.{
  ◌≡◌, refl, sym, true, Option, some, List, [], ◌∷◌, inl, inr, Bool-cases, Option-cases,
}
use go_ios.Common.Bytes.{Bytes}
use go_ios.Common.Maps.{Bytes_eq, lookup}
use go_ios.Common.Keyed.{entries}
use go_ios.Tunnel.Manager.{
  Tunnel, Tunnels, TunnelManager, stop_tunnel, remove_tunnel, close, close_each, list_tunnels,
}
use go_ios.Tunnel.Manager.Order.{
  Inv, Covers, Holds, IsKept, Shrinks, All-map, stop_tunnel-Inv, stop_tunnel-Shrinks,
}
use go_ios.Tunnel.Manager.Attempts.{SameTable, SameTable-Inv}

-- The entries of a copy are what the table has, where it has any.
pub Covers-Holds : (local : Tunnels) (m : TunnelManager) → Covers local m → Holds local m
Covers-Holds local m c =
    All-map (λ (e : Bytes × Tunnel). lookup e.0 local ≡ some e.1)
      (λ (e : Bytes × Tunnel). (t : Tunnel) → lookup e.1.udid m.tunnels ≡ some t → t ≡ e.1) local
      (λ e has t found. cc (c.above e.1.udid t found, c.own e.0 e.1 has, has))
      (entries local c.keyed)

module _ (closing : List Tunnel → Tunnel → Option Bytes) where
  pub remove_tunnel-Keeps :
      (u : Bytes) (m : TunnelManager)
      → Inv m
      → Inv (remove_tunnel closing u m).0 × Shrinks m (remove_tunnel closing u m).0
  unfolding remove_tunnel stop_tunnel
  remove_tunnel-Keeps u m v = elim (Option-cases (lookup u m.tunnels)) [
    | inl e ↦ rw (remove_tunnel, e) (v, λ w t found. found)
    | inr (t, e) ↦
        let own : t.udid ≡ u = v.own u t e in
        let only : (t' : Tunnel) → lookup t.udid m.tunnels ≡ some t' → t' ≡ t =
          λ t' found. cc (found, own, e) in
        let less : Shrinks m (stop_tunnel t m) = stop_tunnel-Shrinks t m in
        let order : Inv (stop_tunnel t m) = stop_tunnel-Inv t m only v in
        rw (remove_tunnel, e, sym own) (order, less)
  ]

  -- Closing all tunnels leaves the table, and the tunnels that were closed stay closed.
  close_each-Keeps :
      (ts : List Tunnel) (m : TunnelManager)
      → Inv m
      → Inv (close_each closing ts m).0 × Shrinks m (close_each closing ts m).0
  unfolding close_each
  close_each-Keeps [] m v = (v, λ w t found. found)
  close_each-Keeps (t ∷ ts) m v =
      close_each-Keeps ts (record m { stopped = t ∷ m.stopped })
        (record {
          keyed = v.keyed;
          own = v.own;
          known = v.known;
          kept =
              All-map (IsKept m.tunnels m.stopped) (IsKept m.tunnels (t ∷ m.stopped)) m.started
                (λ s k. more t m s k) v.kept;
        })
    where
      more :
          (x : Tunnel) (n : TunnelManager) (s : Tunnel)
          → IsKept n.tunnels n.stopped s
          → IsKept n.tunnels (x ∷ n.stopped) s
      more x n s (inl runs) = inl runs
      more x n s (inr closed) = inr (inr closed)

  pub close-Keeps :
      (m : TunnelManager) → Inv m → Inv (close closing m).0 × Shrinks m (close closing m).0
  unfolding close
  close-Keeps m v = elim (Bool-cases m.closed_once) [
    | inl e ↦ simp (close, e) (v, λ w t found. found)
    | inr e ↦
        let same : SameTable m (record m { closed_once = true }) = record {
          tunnels = refl;
          started = refl;
          stopped = refl;
        } in
        simp (close, e)
          (close_each-Keeps (list_tunnels m) (record m { closed_once = true })
            (SameTable-Inv same v))
  ]
