-- ===== src/Service/Streams.antt =====
-- internal/service/stream.go
pub mod Listed
use rescuestream_api.Prelude.{String, List, map}
use rescuestream_api.Domain.{Uuid, Stream, StreamWithUrls}
use rescuestream_api.Errors.{Action, pure, ◌>>=◌}
use rescuestream_api.Env.{Env}
use rescuestream_api.Database.StreamRepo
use rescuestream_api.Service.MediaMtx.{get_hls_url, get_webrtc_url}

abbrev pub with_urls : String → Stream → StreamWithUrls
with_urls public_url s = record {
  stream = s;
  urls = record { hls = get_hls_url public_url s.path; webrtc = get_webrtc_url public_url s.path };
}

module _ (e : Env) (public_url : String) where
  open e use {World}

  unfoldable pub list_active : Action World (List StreamWithUrls)
  list_active = do streams ← StreamRepo.list_active e; pure (map (with_urls public_url) streams)

  unfoldable pub get_by_id : Uuid → Action World StreamWithUrls
  get_by_id id = do stream ← StreamRepo.get_by_id e id; pure (with_urls public_url stream)
