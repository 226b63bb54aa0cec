-- ===== src/Tunnel/Agent.antt =====
-- ios/tunnel/tunnel_api.go: the HTTP handlers of an agent (`tunnelInfoMux`), and the functions of other
-- processes that ask it. A request comes to a handler with its method and the path that the HTTP
-- library makes of the URL. `send` is the HTTP client on a method and a URL: a reply is none where the
-- request cannot be made or fails, and its body is none where reading it fails. `host_port` is what
-- `net.JoinHostPort` makes of the agent's host and port. The JSON library is four parameters, and
-- `strings.TrimSpace` is one.
pub mod Requests
pub mod Refresh
use go_ios.Common.{
  ℕ, zero, suc, ◌+◌, ◌*◌, ◌^◌, Bool, true, false, not, Option, none, some, List, [], ◌∷◌, ◌++◌, ltb,
  ◌==◌, take, drop, length, if◌then◌else◌,
}
use go_ios.Common.Bytes.{Bytes}
use go_ios.Common.Text.{codes}
use go_ios.Common.Maps.{bytes_same}
use go_ios.Common.Result.{Result, ok, err}
use go_ios.Tunnel.Manager.{
  Tunnel, TunnelManager, TunnelError, tunnel_not_found, no_device_list, not_closed, find_tunnel,
  remove_tunnel, list_tunnels, close,
}

pub record Request : Type 0 where
  pub method : Bytes
  pub path : Bytes

pub record Response : Type 0 where
  pub status : ℕ
  pub body : Bytes

unfoldable pub method_get : Bytes
method_get = codes "GET"

unfoldable pub method_delete : Bytes
method_delete = codes "DELETE"

unfoldable pub tunnel_prefix : Bytes
tunnel_prefix = codes "/tunnel/"

unfoldable pub url_scheme : Bytes
url_scheme = codes "http://"

unfoldable pub tunnels_path : Bytes
tunnels_path = codes "/tunnels"

abbrev pub not_found_text : Bytes
not_found_text = codes "tunnel not found"

-- `http.Error`, which ends the text with a new line
unfoldable pub http_error : Bytes → ℕ → Response
http_error text status = record { status = status; body = text ++ (10 ∷ []) }

abbrev pub only : ℕ → Response
only status = record { status = status; body = [] }

abbrev pub has_prefix : Bytes → Bytes → Bool
has_prefix [] s = true
has_prefix (p ∷ ps) [] = false
has_prefix (p ∷ ps) (c ∷ s) = elim (p == c) [ true ↦ has_prefix ps s | false ↦ false ]

-- `strings.TrimPrefix`
unfoldable pub trim_prefix : Bytes → Bytes → Bytes
trim_prefix p s = if has_prefix p s then drop (length p) s else s

unfoldable pub health : Request → Response
unfolding method_get
health r = if not (bytes_same r.method method_get) then only 405 else only 200

unfoldable pub ready : Request → TunnelManager → Response
unfolding method_get
ready r m =
    if not (bytes_same r.method method_get)
    then only 405
    else if m.first_update_completed
    then only 200
    else only 503

module _ (closing : List Tunnel → Tunnel → Option Bytes) where
  -- The process ends one second later.
  unfoldable pub shutdown : Request → TunnelManager → TunnelManager × Response
  unfolding method_get
  shutdown r m = if not (bytes_same r.method method_get) then (m, only 405) else (
    (close closing m).0,
    record { status = 200; body = codes "shutting down in 1 second..." },
  )

  module _ (encode : Tunnel → Bytes) where
    -- The answer for a device without a tunnel is that for the zero `Tunnel`, whose `Udid` is empty.
    unfoldable pub found : Option Tunnel → Response
    found none = http_error not_found_text 404
    found (some t) =
        if bytes_same t.udid []
        then http_error not_found_text 404
        else record { status = 200; body = encode t }

    -- `RemoveTunnel` does not list devices, so that the text of that error does not matter.
    unfoldable pub removal :
        TunnelManager × Result TunnelError (Unit {0}) → TunnelManager × Response
    removal (m, ok u) = (m, only 204)
    removal (m, err tunnel_not_found) = (m, http_error not_found_text 404)
    removal (m, err no_device_list) = (m, http_error [] 500)
    removal (m, err (not_closed e)) = (m, http_error e 500)

    on_udid : Bytes → Request → TunnelManager → TunnelManager × Response
    unfolding method_get method_delete
    on_udid [] r m = (m, http_error (codes "missing udid") 400)
    on_udid (c ∷ cs) r m =
        if bytes_same r.method method_get
        then (m, found (find_tunnel (c ∷ cs) m))
        else if bytes_same r.method method_delete
        then removal (remove_tunnel closing (c ∷ cs) m)
        else (m, only 405)

    unfoldable pub tunnel : Request → TunnelManager → TunnelManager × Response
    unfolding on_udid tunnel_prefix
    tunnel r m = on_udid (trim_prefix tunnel_prefix r.path) r m

  -- The encoder may fail, and then the error is the answer.
  unfoldable pub tunnels : (List Tunnel → Result Bytes Bytes) → Request → TunnelManager → Response
  unfolding method_get
  tunnels encode_all r m =
      if not (bytes_same r.method method_get)
      then only 405
      else elim (encode_all (list_tunnels m)) [
        | ok body ↦ record { status = 200; body = body }
        | err e ↦ http_error e 500
      ]

-- what a client gets of a response
pub record Reply : Type 0 where
  pub status : ℕ
  pub body : Option Bytes

pub data ClientError : Type 0 where
  udid_required not_sent not_read tunnel_missing not_parsed timed_out : ClientError
  unexpected_status : ℕ → Bytes → ClientError

abbrev pub parsed : {A : Type 0} → Option A → Result ClientError A
parsed none = err not_parsed
parsed (some a) = ok a

-- the URL that a client asks for a device by: the device's name is put in as it is
unfoldable pub tunnel_url : Bytes → Bytes → Bytes
unfolding tunnel_prefix url_scheme
tunnel_url host_port udid = url_scheme ++ (host_port ++ (tunnel_prefix ++ udid))

module _ (trim_space : Bytes → Bytes) where
  module _ (decode : Bytes → Option Tunnel) where
    tunnel_info_body : ℕ → Option Bytes → Result ClientError Tunnel
    tunnel_info_body status none = err not_read
    tunnel_info_body status (some body) =
        if status == 404
        then err tunnel_missing
        else if not (status == 200)
        then err (unexpected_status status (trim_space body))
        else parsed (decode body)

    tunnel_info_reply : Option Reply → Result ClientError Tunnel
    unfolding tunnel_info_body
    tunnel_info_reply none = err not_sent
    tunnel_info_reply (some r) = tunnel_info_body r.status r.body

    unfoldable pub tunnel_info_for_device :
        (Bytes → Bytes → Option Reply) → Bytes → Bytes → Result ClientError Tunnel
    unfolding tunnel_info_reply method_get
    tunnel_info_for_device send host_port udid =
        tunnel_info_reply (send method_get (tunnel_url host_port udid))

  module _ (decode_all : Bytes → Option (List Tunnel)) where
    list_body : ℕ → Option Bytes → Result ClientError (List Tunnel)
    list_body status none = err not_read
    list_body status (some body) =
        if not (status == 200)
        then err (unexpected_status status (trim_space body))
        else parsed (decode_all body)

    list_reply : Option Reply → Result ClientError (List Tunnel)
    unfolding list_body
    list_reply none = err not_sent
    list_reply (some r) = list_body r.status r.body

    unfoldable pub list_running_tunnels :
        (Bytes → Bytes → Option Reply) → Bytes → Result ClientError (List Tunnel)
    unfolding list_reply method_get url_scheme tunnels_path
    list_running_tunnels send host_port =
        list_reply (send method_get (url_scheme ++ (host_port ++ tunnels_path)))

  stop_body : ℕ → Option Bytes → Result ClientError (Unit {0})
  stop_body status none = err not_read
  stop_body status (some body) =
      if status == 404
      then err tunnel_missing
      else if not (status == 204)
      then err (unexpected_status status (trim_space body))
      else ok tt

  stop_reply : Option Reply → Result ClientError (Unit {0})
  unfolding stop_body
  stop_reply none = err not_sent
  stop_reply (some r) = stop_body r.status r.body

  -- Without a device nothing is asked.
  unfoldable pub stop_tunnel_for_device :
      (Bytes → Bytes → Option Reply) → Bytes → Bytes → Result ClientError (Unit {0})
  unfolding stop_reply method_delete
  stop_tunnel_for_device send host_port [] = err udid_required
  stop_tunnel_for_device send host_port (c ∷ udid) =
      stop_reply (send method_delete (tunnel_url host_port (c ∷ udid)))

abbrev pub is_missing : ClientError → Bool
is_missing tunnel_missing = true
is_missing _ = false

-- `info n` is what the question number n gets, and `clock n` the reading number n of the clock; one
-- round reads the clock once. None is out of fuel.
module _ (clock : ℕ → ℕ) (info : ℕ → Result ClientError Tunnel) where
  unfoldable pub wait_for_tunnel : ℕ → ℕ → ℕ → Option (Result ClientError Tunnel)
  wait_for_tunnel zero n deadline = none
  wait_for_tunnel (suc fuel) n deadline =
      let rest = wait_for_tunnel fuel (n + 1) deadline in
      elim (info n) [
        | ok t ↦ some (ok t)
        | err e ↦
            if not (is_missing e)
            then some (err e)
            else if ltb deadline (clock (n + 1))
            then some (err timed_out)
            else rest
      ]

  after_stop : ℕ → ℕ → Result ClientError (Unit {0}) → Option (Result ClientError Tunnel)
  after_stop fuel timeout (ok u) = wait_for_tunnel fuel 0 (clock 0 + timeout)
  after_stop fuel timeout (err e) =
      if not (is_missing e) then some (err e) else wait_for_tunnel fuel 0 (clock 0 + timeout)

  unfoldable pub refresh_tunnel_for_device :
      ℕ → ℕ → Result ClientError (Unit {0}) → Option (Result ClientError Tunnel)
  unfolding after_stop
  refresh_tunnel_for_device fuel timeout stopped = after_stop fuel timeout stopped
