-- ===== src/Tunnel/Manager/Views.antt =====
-- What a client of the manager sees: the tunnel of each device, as a function that an update and a
-- removal change.
use go_ios.Common.{
  ℕ, ◌≡◌, refl, sym, ap, ◌∙◌, Bool, true, false, Option, none, some, List, [], ◌∷◌, inl, inr,
  Bool-cases, Option-cases, if◌then◌else◌,
}
use go_ios.Common.Bytes.{Bytes}
use go_ios.Common.Maps.{Bytes_eq, bytes_same, bytes_same_iff, lookup, delete, lookup-delete}
use go_ios.Tunnel.Manager.{
  Tunnel, Tunnels, DeviceEntry, TunnelManager, visit_all, is_connected, stop_gone, stop_all,
  finish_update, update_tunnels, remove_tunnel, find_tunnel, values, first_with, list_tunnels,
}
use go_ios.Tunnel.Manager.Order.{Inv, Covers}
use go_ios.Tunnel.Manager.Attempts.{SameTable, SameTable-Inv, StartsOwn}
use go_ios.Tunnel.Manager.Removals.{Covers-Holds, remove_tunnel-Keeps}
use go_ios.Tunnel.Manager.Gone.{
  AreOwn, Covers-AreOwn, stop_gone-Inv, stop_gone_connected, stop_gone_other,
}
use go_ios.Tunnel.Manager.Rounds.{view, visit_all-Extends, stop_all-gone}

-- what an update may make of the tunnels: those of devices that are gone are gone, those of connected
-- devices stay, and only a connected device may get one
pub record Refreshes (devices : List DeviceEntry) (f g : Bytes → Option Tunnel) : Type 0 where
  pub gone : (u : Bytes) → is_connected devices u ≡ false → g u ≡ none
  pub stays : (u : Bytes) (t : Tunnel) → is_connected devices u ≡ true → f u ≡ some t → g u ≡ some t

-- the calls, and what each makes of the tunnels
pub data Call : Type 0 where
  update : Option (List DeviceEntry) → Call
  remove : Bytes → Call

pub data Changes : Call → (Bytes → Option Tunnel) → (Bytes → Option Tunnel) → Type 0 where
  updated :
      (devices : List DeviceEntry) (f g : Bytes → Option Tunnel)
      → Refreshes devices f g
      → Changes (update (some devices)) f g
  torn_down : (f g : Bytes → Option Tunnel) → ((u : Bytes) → g u ≡ none) → Changes (update none) f g
  removed :
      (v : Bytes) (f g : Bytes → Option Tunnel)
      → ((u : Bytes) → g u ≡ (if bytes_same v u then none else f u))
      → Changes (remove v) f g

pub data Runs : List Call → (Bytes → Option Tunnel) → (Bytes → Option Tunnel) → Type 0 where
  done : (f : Bytes → Option Tunnel) → Runs [] f f
  next :
      (c : Call) (cs : List Call) (f g h : Bytes → Option Tunnel)
      → Changes c f g
      → Runs cs g h
      → Runs (c ∷ cs) f h

first_with-values : (u : Bytes) (ts : Tunnels) → AreOwn ts → first_with u (values ts) ≡ lookup u ts
unfolding first_with lookup
first_with-values u [] own = refl
first_with-values u ((k, t) ∷ ts) own =
    let mine : bytes_same t.udid u ≡ bytes_same k u = ap (λ v. bytes_same v u) own.0 in
    let rest = first_with-values u ts own.1 in
    elim (Bool-cases (bytes_same k u)) [
      | inl e ↦ rw (first_with, lookup, mine, e) refl
      | inr e ↦ rw (first_with, lookup, mine, e) rest
    ]

pub table-Covers : (m : TunnelManager) → Inv m → Covers m.tunnels m
table-Covers m v = record { keyed = v.keyed; own = v.own; above = λ u t found. found }

pub find_tunnel-view : (u : Bytes) (m : TunnelManager) → Inv m → find_tunnel u m ≡ view m u
unfolding find_tunnel list_tunnels
find_tunnel-view u m v =
    first_with-values u m.tunnels (Covers-AreOwn m.tunnels m (table-Covers m v))

module _ {V : Type 0} (clock : ℕ → ℕ) (product_version : ℕ → DeviceEntry → Option V)
    (starter : ℕ → DeviceEntry → V → Bool → Option Tunnel) where
  pub update_tunnels-Changes :
      StartsOwn clock product_version starter
      → (o : Option (List DeviceEntry)) (m : TunnelManager) → Inv m
      → Inv (update_tunnels clock product_version starter o m).0
        × Changes (update o) (view m) (view (update_tunnels clock product_version starter o m).0)
  unfolding update_tunnels finish_update is_connected
  update_tunnels-Changes owns none m v =
      let c = table-Covers m v in
      let e : stop_all m.tunnels m ≡ stop_gone [] m.tunnels m = stop_all-gone m.tunnels m in
      let after = stop_gone [] m.tunnels m in
      let order : Inv after = stop_gone-Inv [] m.tunnels m (Covers-Holds m.tunnels m c) v in
      let empty : (u : Bytes) → view after u ≡ none =
        λ u. stop_gone_other [] m.tunnels m u (Covers-AreOwn m.tunnels m c) refl (λ n. n) in
      (rw e order, rw e (torn_down (view m) (view after) empty))
  update_tunnels-Changes owns (some devices) m v =
      let c = table-Covers m v in
      let r = visit_all clock product_version starter m.failed_devices devices m.tunnels m in
      let (extends, goes) =
        visit_all-Extends clock product_version starter owns m.failed_devices devices m.tunnels m
          (λ u. refl) v c in
      let own = Covers-AreOwn r.0 r.1 goes.covers in
      let after = stop_gone devices r.0 r.1 in
      let same : SameTable after (finish_update devices after) = record {
        tunnels = refl;
        started = refl;
        stopped = refl;
      } in
      (
        SameTable-Inv same
            (stop_gone-Inv devices r.0 r.1 (Covers-Holds r.0 r.1 goes.covers) goes.order),
        updated devices (view m) (view (finish_update devices after)) (record {
          gone = λ u c. stop_gone_other devices r.0 r.1 u own c (λ n. extends.same u ∙ n);
          stays = λ u t c had.
              stop_gone_connected devices r.0 r.1 u own c ∙ extends.same u ∙ extends.old u t had;
        }),
      )

module _ {V : Type 0} (clock : ℕ → ℕ) (product_version : ℕ → DeviceEntry → Option V)
    (starter : ℕ → DeviceEntry → V → Bool → Option Tunnel)
    (closing : List Tunnel → Tunnel → Option Bytes) where
  -- the calls one after the other, without what they return
  unfoldable pub run : List Call → TunnelManager → TunnelManager
  run [] m = m
  run (update o ∷ cs) m = run cs (update_tunnels clock product_version starter o m).0
  run (remove u ∷ cs) m = run cs (remove_tunnel closing u m).0

  remove_tunnel-Changes :
      (w : Bytes) (m : TunnelManager)
      → Changes (remove w) (view m) (view (remove_tunnel closing w m).0)
  unfolding remove_tunnel
  remove_tunnel-Changes w m = elim (Option-cases (lookup w m.tunnels)) [
    | inl e ↦
        rw (remove_tunnel, e)
          (removed w (view m) (view m) (λ u. elim (Bool-cases (bytes_same w u)) [
            | inl s ↦ rw s (ap (λ x. lookup x m.tunnels) (sym ((bytes_same_iff w u).0 s)) ∙ e)
            | inr s ↦ rw s refl
          ]))
    | inr (t, e) ↦
        rw (remove_tunnel, e)
          (removed w (view m) (λ u. lookup u (delete w m.tunnels))
            (λ u. lookup-delete w u m.tunnels))
  ]

  -- Whatever updates and removals are called on a manager in order, one after the other: an update
  -- without a list of devices leaves no tunnel; an update with a list leaves none of a device that is
  -- not in it, and keeps each tunnel of a device that is; a removal takes the tunnel of its device and
  -- no other. The manager is in order after them, and `FindTunnel` gives the tunnel that the table has
  -- under the device. The starter must put the device's serial number into a tunnel.
  pub run-Runs :
      StartsOwn clock product_version starter
      → (cs : List Call) (m : TunnelManager) → Inv m
      → Runs cs (view m) (view (run cs m))
        × Inv (run cs m)
        × ((u : Bytes) → find_tunnel u (run cs m) ≡ view (run cs m) u)
  unfolding run
  run-Runs owns [] m v = (done (view m), v, λ u. find_tunnel-view u m v)
  run-Runs owns (update o ∷ cs) m v =
      let m' = (update_tunnels clock product_version starter o m).0 in
      let (order, change) = update_tunnels-Changes clock product_version starter owns o m v in
      let (rest, last, found) = run-Runs owns cs m' order in
      (next (update o) cs (view m) (view m') (view (run cs m')) change rest, last, found)
  run-Runs owns (remove u ∷ cs) m v =
      let m' = (remove_tunnel closing u m).0 in
      let order = (remove_tunnel-Keeps closing u m v).0 in
      let (rest, last, found) = run-Runs owns cs m' order in
      (
        next (remove u) cs (view m) (view m') (view (run cs m')) (remove_tunnel-Changes u m) rest,
        last,
        found,
      )
