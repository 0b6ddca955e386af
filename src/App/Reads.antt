-- ===== src/App/Reads.antt =====
-- The reads of internal/service keep every predicate on the tables.
use rescuestream_api.Prelude.{String, List}
use rescuestream_api.Domain.{Uuid}
use rescuestream_api.Errors.{Error, Result, ok, wrapping, handle}
use rescuestream_api.Store.{Tables, query, query_row}
use rescuestream_api.Env.{Env}
use rescuestream_api.Database.StreamKeyRepo
use rescuestream_api.Database.StreamRepo
use rescuestream_api.Database.BroadcasterRepo
use rescuestream_api.Service.StreamKeys
use rescuestream_api.Service.Broadcasters
use rescuestream_api.Service.Streams as StreamService
use rescuestream_api.Consistency.Base.{query_row-Preserves, query-Preserves}
use rescuestream_api.Consistency.Actions.{Keeps, run-Keeps, >>=-Keeps, handle-Keeps}

module _ (e : Env) (I : Tables → Type 0) where
  open e use {World, run}

  row-Keeps :
      {R A : Type 0} (f : R → Result A) (g : Error → Error) (rows : Tables → List R)
      → Keeps e I (handle f g (run (query_row rows)))
  row-Keeps f g rows = handle-Keeps e I f g _ (run-Keeps e I _ (query_row-Preserves I rows))

  rows-Keeps :
      {R : Type 0} (text : String) (rows : Tables → List R)
      → Keeps e I (wrapping text (run (query rows)))
  rows-Keeps text rows = handle-Keeps e I _ _ _ (run-Keeps e I _ (query-Preserves I rows))

  pub list_keys-Keeps : Keeps e I (StreamKeys.list e)
  unfolding StreamKeys.list StreamKeyRepo.list_all StreamKeyRepo.query_stream_keys
  list_keys-Keeps = >>=-Keeps e I _ _ (rows-Keeps _ _) (λ ks w c. c)

  pub get_key-Keeps : (id : Uuid) → Keeps e I (StreamKeys.get_by_id e id)
  unfolding StreamKeys.get_by_id StreamKeyRepo.get_by_id
  get_key-Keeps id = row-Keeps ok StreamKeyRepo.scan_error _

  pub list_broadcasters-Keeps : Keeps e I (Broadcasters.list e)
  unfolding Broadcasters.list BroadcasterRepo.list
  list_broadcasters-Keeps = >>=-Keeps e I _ _ (rows-Keeps _ _) (λ rows w c. c)

  pub get_broadcaster-Keeps : (id : Uuid) → Keeps e I (Broadcasters.get_by_id e id)
  unfolding Broadcasters.get_by_id BroadcasterRepo.get_by_id
  get_broadcaster-Keeps id = row-Keeps _ _ _

  pub list_streams-Keeps : (url : String) → Keeps e I (StreamService.list_active e url)
  unfolding StreamService.list_active StreamRepo.list_active
  list_streams-Keeps url =
      >>=-Keeps e I _ _ (>>=-Keeps e I _ _ (rows-Keeps _ _) (λ rows w c. c)) (λ ss w c. c)

  pub get_stream-Keeps : (url : String) (id : Uuid) → Keeps e I (StreamService.get_by_id e url id)
  unfolding StreamService.get_by_id StreamRepo.get_by_id
  get_stream-Keeps url id = >>=-Keeps e I _ _ (row-Keeps _ _ _) (λ s w c. c)
