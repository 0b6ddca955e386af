-- ===== src/Service/MediaMtx.antt =====
-- internal/service/mediamtx.go
pub mod Client
pub mod Kicks
use Prim.Native.String
use rescuestream_api.Prelude.{String, none, some, List, [], ◌∷◌, str_eq, if◌then◌else◌}
use rescuestream_api.Errors.{ok, err, Action, pure}
use rescuestream_api.Env.{Env, Conn, Listing}

infixr 65 ◌++◌
abbrev ◌++◌ : String → String → String
s ++ t = String.◌++◌ s t

-- `GetHLSURL`, `GetWebRTCURL` and `GetRTMPURL`, with the client's `publicURL`.
unfoldable pub get_hls_url : String → String → String
get_hls_url public_url path = public_url ++ "/" ++ path ++ "/index.m3u8"

unfoldable pub get_webrtc_url : String → String → String
get_webrtc_url public_url path = public_url ++ "/" ++ path ++ "/whep"

unfoldable pub get_rtmp_url : String → String → String
get_rtmp_url public_url path = "rtmp://" ++ public_url ++ "/" ++ path

module _ {W : Type 0} (kick : String → Action W (Unit {0})) (path : String) where
  -- The body of either loop: an error of the kick is only logged.
  unfoldable pub kick_one : Conn → W → W
  kick_one c w = elim c.path [
    | none ↦ w
    | some p ↦ if str_eq p path then (elim c.id [ none ↦ w | some id ↦ (kick id w).1 ]) else w
  ]

  unfoldable pub kick_all : List Conn → W → W
  kick_all [] w = w
  kick_all (c ∷ cs) w = kick_all cs (kick_one c w)

  -- One half of `KickPath`: list, then kick what matches; an error of the list is only logged.
  unfoldable pub kick_listed : Action W Listing → W → W
  kick_listed list w =
      let (r, w') = list w in
      elim r [
        | err e ↦ w'
        | ok none ↦ w'
        | ok (some none) ↦ w'
        | ok (some (some items)) ↦ kick_all items w'
      ]

module _ (e : Env) where
  open e use {World, rtmp_list, rtmp_kick, rtsp_list, rtsp_kick}

  unfoldable pub kick_path : String → Action World (Unit {0})
  kick_path path w =
      pure tt (kick_listed rtsp_kick path rtsp_list (kick_listed rtmp_kick path rtmp_list w))
