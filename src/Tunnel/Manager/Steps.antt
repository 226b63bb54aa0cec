-- ===== src/Tunnel/Manager/Steps.antt =====
-- The goroutine that updates the tunnels, and the others that remove tunnels and close the manager:
-- what may happen between any two sections that hold the manager's lock. A phase says how far an
-- update has come. An attempt is one step: its wait for the device holds no lock, but what is removed
-- meanwhile is removed just as well before it.
use go_ios.Common.{ℕ, ◌≡◌, refl, Bool, true, false, Option, List, [], ◌∷◌}
use go_ios.Common.Bytes.{Bytes}
use go_ios.Common.Maps.{Bytes_eq}
use go_ios.Tunnel.Manager.{
  Tunnel, Tunnels, DeviceEntry, Failures, TunnelManager, visit, stop_tunnel, finish_update,
  is_connected, remove_tunnel, close, new_tunnel_manager,
}
use go_ios.Tunnel.Manager.Order.{
  new_tunnel_manager-Inv, Inv, Covers, Holds, Shrinks, stop_tunnel-Inv, stop_tunnel-Shrinks,
  Shrinks-Holds, Shrinks-Covers,
}
use go_ios.Tunnel.Manager.Attempts.{SameTable, SameTable-Inv, Goes, StartsOwn, visit-Goes}
use go_ios.Tunnel.Manager.Removals.{Covers-Holds, remove_tunnel-Keeps, close-Keeps}

pub data Phase : Type 0 where
  idle : Phase
  listing : Tunnels → Failures → Phase
  visiting : List DeviceEntry → List DeviceEntry → Tunnels → Failures → Phase
  stopping : List DeviceEntry → Tunnels → Phase
  tearing : Tunnels → Phase

pub record Agent : Type 0 where
  pub manager : TunnelManager
  pub phase : Phase

abbrev pub at : TunnelManager → Phase → Agent
at m p = record { manager = m; phase = p }

module _ {V : Type 0} (clock : ℕ → ℕ) (product_version : ℕ → DeviceEntry → Option V)
    (starter : ℕ → DeviceEntry → V → Bool → Option Tunnel)
    (closing : List Tunnel → Tunnel → Option Bytes) where
  pub data Step : Agent → Agent → Type 0 where
    begins : (m : TunnelManager) → Step (at m idle) (at m (listing m.tunnels m.failed_devices))
    lists :
        (m : TunnelManager) (local : Tunnels) (failed : Failures) (devices : List DeviceEntry)
        → Step (at m (listing local failed)) (at m (visiting devices devices local failed))
    lists_nothing :
        (m : TunnelManager) (local : Tunnels) (failed : Failures)
        → Step (at m (listing local failed)) (at m (tearing local))
    visits :
        (m : TunnelManager) (devices ds : List DeviceEntry) (d : DeviceEntry) (local : Tunnels)
        (failed : Failures) (r : Tunnels × TunnelManager)
        → r ≡ visit clock product_version starter failed d local m
        → Step
            (at m (visiting devices (d ∷ ds) local failed))
            (at r.1 (visiting devices ds r.0 failed))
    turns :
        (m : TunnelManager) (devices : List DeviceEntry) (local : Tunnels) (failed : Failures)
        → Step (at m (visiting devices [] local failed)) (at m (stopping devices local))
    keeps :
        (m : TunnelManager) (devices : List DeviceEntry) (u : Bytes) (t : Tunnel) (ts : Tunnels)
        → is_connected devices u ≡ true
        → Step (at m (stopping devices ((u, t) ∷ ts))) (at m (stopping devices ts))
    stops :
        (m : TunnelManager) (devices : List DeviceEntry) (u : Bytes) (t : Tunnel) (ts : Tunnels)
        → is_connected devices u ≡ false
        → Step (at m (stopping devices ((u, t) ∷ ts))) (at (stop_tunnel t m) (stopping devices ts))
    ends :
        (m : TunnelManager) (devices : List DeviceEntry)
        → Step (at m (stopping devices [])) (at (finish_update devices m) idle)
    tears :
        (m : TunnelManager) (u : Bytes) (t : Tunnel) (ts : Tunnels)
        → Step (at m (tearing ((u, t) ∷ ts))) (at (stop_tunnel t m) (tearing ts))
    gives_up : (m : TunnelManager) → Step (at m (tearing [])) (at m idle)
    removes :
        (m : TunnelManager) (p : Phase) (u : Bytes)
        → Step (at m p) (at (remove_tunnel closing u m).0 p)
    closes : (m : TunnelManager) (p : Phase) → Step (at m p) (at (close closing m).0 p)

  pub data Lives (a : Agent) : Agent → Type 0 where
    starts : Lives a a
    goes_on : (b c : Agent) → Lives a b → Step b c → Lives a c

-- what holds of the copies that an update works with
abbrev pub Fits : Phase → TunnelManager → Type 0
Fits idle m = Unit
Fits (listing local failed) m = Covers local m
Fits (visiting devices ds local failed) m = Covers local m
Fits (stopping devices ts) m = Holds ts m
Fits (tearing ts) m = Holds ts m

pub record IsOrderly (a : Agent) : Type 0 where
  pub order : Inv a.manager
  pub fits : Fits a.phase a.manager

Shrinks-Fits : (p : Phase) (m m' : TunnelManager) → Shrinks m m' → Fits p m → Fits p m'
Shrinks-Fits idle m m' less f = tt
Shrinks-Fits (listing local failed) m m' less f = Shrinks-Covers local m m' less f
Shrinks-Fits (visiting devices ds local failed) m m' less f = Shrinks-Covers local m m' less f
Shrinks-Fits (stopping devices ts) m m' less f = Shrinks-Holds ts m m' less f
Shrinks-Fits (tearing ts) m m' less f = Shrinks-Holds ts m m' less f

module _ {V : Type 0} (clock : ℕ → ℕ) (product_version : ℕ → DeviceEntry → Option V)
    (starter : ℕ → DeviceEntry → V → Bool → Option Tunnel)
    (closing : List Tunnel → Tunnel → Option Bytes)
    (owns : StartsOwn clock product_version starter) where
  pub Step-IsOrderly :
      {a b : Agent} → Step clock product_version starter closing a b → IsOrderly a → IsOrderly b
  unfolding finish_update
  Step-IsOrderly (begins m) o = record {
    order = o.order;
    fits = record { keyed = o.order.keyed; own = o.order.own; above = λ u t found. found };
  }
  Step-IsOrderly (lists m local failed devices) o = record { order = o.order; fits = o.fits }
  Step-IsOrderly (lists_nothing m local failed) o = record {
    order = o.order;
    fits = Covers-Holds local m o.fits;
  }
  Step-IsOrderly (visits m devices ds d local failed r e) o =
      let g : Goes r =
        rw e (visit-Goes clock product_version starter owns failed d local m o.order o.fits) in
      record { order = g.order; fits = g.covers }
  Step-IsOrderly (turns m devices local failed) o = record {
    order = o.order;
    fits = Covers-Holds local m o.fits;
  }
  Step-IsOrderly (keeps m devices u t ts c) o = record { order = o.order; fits = o.fits.1 }
  Step-IsOrderly (stops m devices u t ts c) o = record {
    order = stop_tunnel-Inv t m o.fits.0 o.order;
    fits = Shrinks-Holds ts m (stop_tunnel t m) (stop_tunnel-Shrinks t m) o.fits.1;
  }
  Step-IsOrderly (ends m devices) o =
      let same : SameTable m (finish_update devices m) = record {
        tunnels = refl;
        started = refl;
        stopped = refl;
      } in
      record { order = SameTable-Inv same o.order; fits = tt }
  Step-IsOrderly (tears m u t ts) o = record {
    order = stop_tunnel-Inv t m o.fits.0 o.order;
    fits = Shrinks-Holds ts m (stop_tunnel t m) (stop_tunnel-Shrinks t m) o.fits.1;
  }
  Step-IsOrderly (gives_up m) o = record { order = o.order; fits = tt }
  Step-IsOrderly (removes m p u) o =
      let (v, less) = remove_tunnel-Keeps closing u m o.order in
      record { order = v; fits = Shrinks-Fits p m (remove_tunnel closing u m).0 less o.fits }
  Step-IsOrderly (closes m p) o =
      let (v, less) = close-Keeps closing m o.order in
      record { order = v; fits = Shrinks-Fits p m (close closing m).0 less o.fits }

  Lives-from :
      {a b : Agent} → IsOrderly a → Lives clock product_version starter closing a b → IsOrderly b
  Lives-from o starts = o
  Lives-from o (goes_on b c l s) = Step-IsOrderly s (Lives-from o l)

  -- Whatever devices come and go and whatever is removed or closed meanwhile, in any order, from a
  -- new manager that is updated by one goroutine: every tunnel that was started stands in the table
  -- under its own device or was closed, and the table has nothing but such tunnels, each under its
  -- own device and each device once. The starter must put the device's serial number into a tunnel.
  pub Lives-IsOrderly :
      (userspace : Bool) (udid_filter : Bytes) (base_port http_api_port : ℕ) (a : Agent)
      → Lives clock product_version starter closing
          (at (new_tunnel_manager userspace udid_filter base_port http_api_port) idle)
          a
      → Inv a.manager
  Lives-IsOrderly userspace udid_filter base_port http_api_port a l =
      (Lives-from
        (record {
          order = new_tunnel_manager-Inv userspace udid_filter base_port http_api_port;
          fits = tt;
        })
        l).order
