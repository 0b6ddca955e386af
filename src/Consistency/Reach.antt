-- ===== src/Consistency/Reach.antt =====
-- Any sequence of requests, in any order and with any failures: internal/service and
-- internal/handler/webhook.go.
use rescuestream_api.Prelude.{◌≡◌, sym, subst, ℕ, Option, List}
use rescuestream_api.Domain.{Uuid, Time}
use rescuestream_api.Errors.{Result}
use rescuestream_api.Store.{Tables, delete_broadcaster}
use rescuestream_api.Store.Invariant.{IsConsistent, Preserves}
use rescuestream_api.Env.{Env}
use rescuestream_api.Service.Auth.{AuthRequest, authenticate}
use rescuestream_api.Service.StreamKeys
use rescuestream_api.Service.Broadcasters
use rescuestream_api.Handler.Webhook
use rescuestream_api.Consistency.Broadcasters.{delete_broadcaster-Preserves}
use rescuestream_api.Consistency.Rules.{Rules, consistency_rules}
use rescuestream_api.Consistency.Revoke.{revoke-Keeps}
use rescuestream_api.Consistency.Authenticate.{authenticate-Keeps}
use rescuestream_api.Consistency.Requests.{
  create_key-Keeps, handle_ready-Keeps, handle_not_ready-Keeps, create_broadcaster-Keeps,
  update_broadcaster-Keeps, delete_broadcaster-Keeps,
}

module _ (e : Env) where
  open e use {World, tables}

  -- One request that may write, with what the clock, the generators of UUIDs and random bytes and
  -- the decoder of the body give it; or anything that leaves the tables as they are.
  pub data Step : World → World → Type 0 where
    auth :
        (now db_now : Time) (req : AuthRequest) (w : World)
        → Step w (authenticate e now db_now req w).1
    ready :
        (fresh spare : Uuid) (now : Time) (body : Option Webhook.WebhookReadyRequest) (w : World)
        → Step w (Webhook.handle_ready e fresh spare now body w).1
    not_ready :
        (now : Time) (body : Option Webhook.WebhookNotReadyRequest) (w : World)
        → Step w (Webhook.handle_not_ready e now body w).1
    create_key :
        (fresh spare : Uuid) (now : Time) (random : Result (List ℕ))
        (req : StreamKeys.CreateRequest) (w : World)
        → Step w (StreamKeys.create e fresh spare now random req w).1
    revoke_key :
        (now db_now : Time) (id : Uuid) (w : World) → Step w (StreamKeys.revoke e now db_now id w).1
    create_broadcaster :
        (fresh spare : Uuid) (created updated : Time) (req : Broadcasters.CreateBroadcasterRequest)
        (w : World)
        → Step w (Broadcasters.create e fresh spare created updated req w).1
    update_broadcaster :
        (now : Time) (id : Uuid) (req : Broadcasters.UpdateBroadcasterRequest) (w : World)
        → Step w (Broadcasters.update e now id req w).1
    drop_broadcaster : (id : Uuid) (w : World) → Step w (Broadcasters.delete e id w).1
    quiet : (w w' : World) → tables w' ≡ tables w → Step w w'

  pub data Reach (w : World) : World → Type 0 where
    here : Reach w w
    next : {u v : World} → Reach w u → Step u v → Reach w v

  -- The IDs of broadcasters that a step, or all steps of a run, ask to delete.
  abbrev pub Drops : {w w' : World} → (Uuid → Type 0) → Step w w' → Type 0
  Drops P (drop_broadcaster id w) = P id
  Drops P (auth now db_now req w) = Unit {0}
  Drops P (ready fresh spare now body w) = Unit {0}
  Drops P (not_ready now body w) = Unit {0}
  Drops P (create_key fresh spare now random req w) = Unit {0}
  Drops P (revoke_key now db_now id w) = Unit {0}
  Drops P (create_broadcaster fresh spare created updated req w) = Unit {0}
  Drops P (update_broadcaster now id req w) = Unit {0}
  Drops P (quiet w w' same) = Unit {0}

  abbrev pub AllDrops : {w w' : World} → (Uuid → Type 0) → Reach w w' → Type 0
  AllDrops P here = Unit {0}
  AllDrops P (next r s) = AllDrops P r × Drops P s

  module _ (I : Tables → Type 0) (rules : Rules I) (P : Uuid → Type 0)
      (dropped : (id : Uuid) → P id → Preserves I (delete_broadcaster id)) where
    Step-Keeps : {w w' : World} → (s : Step w w') → Drops P s → I (tables w) → I (tables w')
    Step-Keeps (auth now db_now req w) d = authenticate-Keeps e I rules.uses now db_now req w
    Step-Keeps (ready fresh spare now body w) d =
        handle_ready-Keeps e I rules.uses fresh spare now body w
    Step-Keeps (not_ready now body w) d = handle_not_ready-Keeps e I rules.uses now body w
    Step-Keeps (create_key fresh spare now random req w) d =
        create_key-Keeps e I rules fresh spare now random req w
    Step-Keeps (revoke_key now db_now id w) d = revoke-Keeps e I rules now db_now id w
    Step-Keeps (create_broadcaster fresh spare created updated req w) d =
        create_broadcaster-Keeps e I rules fresh spare created updated req w
    Step-Keeps (update_broadcaster now id req w) d = update_broadcaster-Keeps e I rules now id req w
    Step-Keeps (drop_broadcaster id w) d = delete_broadcaster-Keeps e I rules id (dropped id d) w
    Step-Keeps (quiet w w' same) d = subst I (sym same)

    -- What the statements keep holds after any run whose deletions it survives.
    pub Reach-Keeps :
        {w w' : World} → (r : Reach w w') → AllDrops P r → I (tables w) → I (tables w')
    Reach-Keeps here d c = c
    Reach-Keeps (next r s) d c = Step-Keeps s d.1 (Reach-Keeps r d.0 c)

  AnyDrops : {w w' : World} → (r : Reach w w') → AllDrops (λ _. Unit {0}) r
  AnyDrops here = tt
  AnyDrops (next r s) = (AnyDrops r, any_drop s)
    where
      any_drop : {w w' : World} → (s : Step w w') → Drops (λ _. Unit {0}) s
      any_drop (drop_broadcaster id w) = tt
      any_drop (auth now db_now req w) = tt
      any_drop (ready fresh spare now body w) = tt
      any_drop (not_ready now body w) = tt
      any_drop (create_key fresh spare now random req w) = tt
      any_drop (revoke_key now db_now id w) = tt
      any_drop (create_broadcaster fresh spare created updated req w) = tt
      any_drop (update_broadcaster now id req w) = tt
      any_drop (quiet w w' same) = tt

  -- Whatever requests are served one after another from consistent tables, and whatever fails while
  -- they are served, the tables stay consistent: IDs and key values are not repeated, every key has
  -- its broadcaster and every stream its key, no key has two active streams, `revoked_at` is set for
  -- the revoked keys alone and `ended_at` for the ended streams alone.
  pub Reach-IsConsistent :
      {w w' : World} → IsConsistent (tables w) → Reach w w' → IsConsistent (tables w')
  Reach-IsConsistent c r =
      Reach-Keeps IsConsistent consistency_rules (λ _. Unit {0})
        (λ id _. delete_broadcaster-Preserves id) r (AnyDrops r) c
