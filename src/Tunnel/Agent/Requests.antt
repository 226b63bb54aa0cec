-- ===== src/Tunnel/Agent/Requests.antt =====
-- A client of the agent and the agent's handler, one after the other.
use go_ios.Common.{
  ℕ, ◌<◌, ◌^◌, ◌≡◌, ◌≢◌, refl, sym, ap, ◌∙◌, Bool, true, false, ◌||◌, Option, none, some, List, [],
  ◌∷◌, ◌++◌, inl, inr, Option-cases, All, ◌==◌, between,
}
use go_ios.Common.Bytes.{Bytes}
use go_ios.Common.Maps.{Bytes_eq, bytes_same, lookup, lookup-delete, same_refl}
use go_ios.Common.Result.{Result, ok, err}
use go_ios.Tunnel.Manager.{
  Tunnel, TunnelManager, TunnelError, tunnel_not_found, no_device_list, not_closed, find_tunnel,
  remove_tunnel,
}
use go_ios.Tunnel.Manager.Order.{Inv}
use go_ios.Tunnel.Manager.Removals.{remove_tunnel-Keeps}
use go_ios.Tunnel.Manager.Rounds.{view}
use go_ios.Tunnel.Manager.Views.{find_tunnel-view}
use go_ios.Tunnel.Agent.{
  Response, Reply, ClientError, tunnel_missing, unexpected_status, method_get, method_delete,
  tunnel_prefix, tunnel_url, trim_prefix, tunnel, on_udid, found, removal, http_error,
  tunnel_info_for_device, tunnel_info_reply, tunnel_info_body, stop_tunnel_for_device, stop_reply,
  stop_body,
}

-- a response that comes through
abbrev pub delivered : Response → Option Reply
delivered r = some (record { status = r.status; body = some r.body })

-- letters, digits and the hyphen, which a URL has no other meaning for
abbrev pub is_unreserved : ℕ → Bool
is_unreserved c = between 97 122 c || between 65 90 c || between 48 57 c || c == 45

-- the devices' names: those that a URL carries as they are
abbrev pub IsUdid : Bytes → Type 0
IsUdid udid = (udid ≢ []) × All (λ c. is_unreserved c ≡ true) udid

-- a tunnel whose texts are ASCII and whose ports are numbers of 64 bits with a sign
pub record IsReadable (t : Tunnel) : Type 0 where
  pub address : All (λ c. c < 128) t.address
  pub udid : All (λ c. c < 128) t.udid
  pub rsd_port : t.rsd_port < 2 ^ 63
  pub userspace_tun_port : t.userspace_tun_port < 2 ^ 63

-- what a client sees of a tunnel: all but its closer
abbrev pub public : Tunnel → Tunnel
public t = record t { closer = 0 }

abbrev pub seen : Option Tunnel → Result ClientError Tunnel
seen none = err tunnel_missing
seen (some t) = ok (public t)

-- what the client makes of a removal
abbrev pub reported :
    (Bytes → Bytes) → Result TunnelError (Unit {0}) → Result ClientError (Unit {0})
reported trim_space (ok u) = ok tt
reported trim_space (err tunnel_not_found) = err tunnel_missing
reported trim_space (err no_device_list) = err (unexpected_status 500 (trim_space (10 ∷ [])))
reported trim_space (err (not_closed e)) = err (unexpected_status 500 (trim_space (e ++ (10 ∷ []))))

module _ (closing : List Tunnel → Tunnel → Option Bytes) (encode : Tunnel → Bytes)
    (trim_space : Bytes → Bytes) where
  stop_reported :
      (r : TunnelManager × Result TunnelError (Unit {0}))
      → stop_reply trim_space (delivered (removal closing encode r).1) ≡ reported trim_space r.1
  unfolding stop_reply stop_body removal http_error
  stop_reported (m, ok u) = refl
  stop_reported (m, err tunnel_not_found) = refl
  stop_reported (m, err no_device_list) = refl
  stop_reported (m, err (not_closed e)) = refl

  removal-manager :
      (r : TunnelManager × Result TunnelError (Unit {0})) → (removal closing encode r).0 ≡ r.0
  unfolding removal
  removal-manager (m, ok u) = refl
  removal-manager (m, err tunnel_not_found) = refl
  removal-manager (m, err no_device_list) = refl
  removal-manager (m, err (not_closed e)) = refl

  tunnel-delete :
      (c : ℕ) (cs : Bytes) (m : TunnelManager)
      → tunnel closing encode
          (record { method = method_delete; path = tunnel_prefix ++ (c ∷ cs) })
          m
        ≡ removal closing encode (remove_tunnel closing (c ∷ cs) m)
  unfolding tunnel on_udid trim_prefix
  tunnel-delete c cs m = refl

  tunnel-get :
      (c : ℕ) (cs : Bytes) (m : TunnelManager)
      → tunnel closing encode (record { method = method_get; path = tunnel_prefix ++ (c ∷ cs) }) m
        ≡ (m, found closing encode (find_tunnel (c ∷ cs) m))
  unfolding tunnel on_udid trim_prefix
  tunnel-get c cs m = refl

  view-remove_tunnel_self :
      (u : Bytes) (m : TunnelManager) → view (remove_tunnel closing u m).0 u ≡ none
  unfolding remove_tunnel
  view-remove_tunnel_self u m = elim (Option-cases (lookup u m.tunnels)) [
    | inl e ↦ rw (remove_tunnel, e) e
    | inr (t, e) ↦ rw (remove_tunnel, e) (lookup-delete u u m.tunnels ∙ rw (same_refl u) refl)
  ]

  -- what the agent makes of a request that a client sends: `path_of` is the path of a URL
  abbrev pub answer : (Bytes → Bytes) → TunnelManager → Bytes → Bytes → TunnelManager × Response
  answer path_of m method url =
      tunnel closing encode (record { method = method; path = path_of url }) m

  -- the client's side of that
  abbrev pub serve : (Bytes → Bytes) → TunnelManager → Bytes → Bytes → Option Reply
  serve path_of m method url = delivered (answer path_of m method url).1

  module _ (path_of : Bytes → Bytes) (host_port : Bytes)
      (transmits : (u : Bytes) → IsUdid u → path_of (tunnel_url host_port u) ≡ tunnel_prefix ++ u)
      (decode : Bytes → Option Tunnel)
      (reads : (t : Tunnel) → IsReadable t → decode (encode t) ≡ some (public t)) where
    info_found :
        (c : ℕ) (cs : Bytes) (o : Option Tunnel)
        → ((t : Tunnel) → o ≡ some t → (t.udid ≡ c ∷ cs) × IsReadable t)
        → tunnel_info_reply trim_space decode (delivered (found closing encode o)) ≡ seen o
    unfolding tunnel_info_reply tunnel_info_body found http_error
    info_found c cs none own = refl
    info_found c cs (some t) own =
        let (same, readable) = own t refl in
        let e : bytes_same t.udid [] ≡ false = ap (λ u. bytes_same u []) same in
        rw (tunnel_info_reply, found, e, reads t readable) refl

    answered_get :
        (c : ℕ) (cs : Bytes) (m : TunnelManager)
        → IsUdid (c ∷ cs)
        → answer path_of m method_get (tunnel_url host_port (c ∷ cs))
          ≡ (m, found closing encode (find_tunnel (c ∷ cs) m))
    answered_get c cs m n = rw (transmits (c ∷ cs) n) (tunnel-get c cs m)

    answered_delete :
        (c : ℕ) (cs : Bytes) (m : TunnelManager)
        → IsUdid (c ∷ cs)
        → answer path_of m method_delete (tunnel_url host_port (c ∷ cs))
          ≡ removal closing encode (remove_tunnel closing (c ∷ cs) m)
    answered_delete c cs m n = rw (transmits (c ∷ cs) n) (tunnel-delete c cs m)

    info_seen :
        (c : ℕ) (cs : Bytes) (m : TunnelManager)
        → IsUdid (c ∷ cs)
        → Inv m
        → ((t : Tunnel) → view m (c ∷ cs) ≡ some t → IsReadable t)
        → tunnel_info_for_device trim_space decode (serve path_of m) host_port (c ∷ cs)
          ≡ seen (view m (c ∷ cs))
    unfolding tunnel_info_for_device
    info_seen c cs m n i readable =
        let f = find_tunnel-view (c ∷ cs) m i in
        ap (λ (r : TunnelManager × Response). tunnel_info_reply trim_space decode (delivered r.1))
          (answered_get c cs m n)
        ∙ info_found c cs (find_tunnel (c ∷ cs) m)
            (λ t e. (i.own (c ∷ cs) t (sym f ∙ e), readable t (sym f ∙ e)))
        ∙ ap seen f

    -- With an agent whose table is in order, a device whose name consists of letters, digits and
    -- hyphens, whose tunnel, if there is one, has ASCII texts and ports below 2^63, an HTTP library
    -- that hands such a name over as the end of the path, and a JSON library that reads back such a
    -- tunnel but for its closer: `TunnelInfoForDevice` gives the tunnel that the table has under the
    -- device, or that there is none, and leaves the agent as it was; `StopTunnelForDevice` makes the
    -- agent remove this tunnel and reports what became of it; and after that `TunnelInfoForDevice`
    -- reports that there is none.
    pub requests-tunnel :
        (u : Bytes) (m : TunnelManager)
        → IsUdid u
        → Inv m
        → ((t : Tunnel) → view m u ≡ some t → IsReadable t)
        → ((answer path_of m method_get (tunnel_url host_port u)).0 ≡ m)
          × (tunnel_info_for_device trim_space decode (serve path_of m) host_port u
              ≡ seen (view m u))
          × ((answer path_of m method_delete (tunnel_url host_port u)).0
              ≡ (remove_tunnel closing u m).0)
          × (stop_tunnel_for_device trim_space (serve path_of m) host_port u
              ≡ reported trim_space (remove_tunnel closing u m).1)
          × (tunnel_info_for_device trim_space decode
                (serve path_of (answer path_of m method_delete (tunnel_url host_port u)).0)
                host_port
                u
              ≡ err tunnel_missing)
    unfolding stop_tunnel_for_device
    requests-tunnel [] m n v readable = absurd (n.0 refl)
    requests-tunnel (c ∷ cs) m n v readable =
        let u = c ∷ cs in
        let after = remove_tunnel closing u m in
        let deleted = answered_delete c cs m n in
        let gone : view after.0 u ≡ none = view-remove_tunnel_self u m in
        let left : (answer path_of m method_delete (tunnel_url host_port u)).0 ≡ after.0 =
          ap (λ (r : TunnelManager × Response). r.0) deleted ∙ removal-manager after in
        (
          ap (λ (r : TunnelManager × Response). r.0) (answered_get c cs m n),
          info_seen c cs m n v readable,
          left,
          ap (λ (r : TunnelManager × Response). stop_reply trim_space (delivered r.1)) deleted
              ∙ stop_reported after,
          ap (λ k. tunnel_info_for_device trim_space decode (serve path_of k) host_port u) left
              ∙ info_seen c cs after.0 n (remove_tunnel-Keeps closing u m v).0 (λ t e. cc (gone, e))
              ∙ ap seen gone,
        )
