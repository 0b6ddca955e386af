-- ===== src/Cmd/Start/Ready.antt =====
-- What cmd/rescuestream-api/main.go has when it starts to serve, and what it leaves.
use rescuestream_api.Prelude.{◌≡◌, refl, ap, ◌∙◌, subst, suc, String, Bool, true, [], ◌∷◌}
use rescuestream_api.Errors.{Result, ok, err, Action, lift, pure, ◌>>=◌}
use rescuestream_api.Errors.Cases.{left_by, bind_cases, Framed, bind-Framed, wrapping-Framed}
use rescuestream_api.Config.{Config}
use rescuestream_api.Database.Pool.{PoolConfig, new_pool, with_tracing}
use rescuestream_api.Database.Pool.Balance.{
  Balanced, new_pool-Balanced, Pinged, new_pool-Pinged, new_pool-Framed,
}
use rescuestream_api.Database.Migrations.{run_migrations}
use rescuestream_api.Database.Migrations.Balance.{Closed, migrations-Closed, run_migrations-Framed}
use rescuestream_api.Service.MediaMtx.Client.{HttpClient, MediaMtxClient, new_media_mtx_client}
use rescuestream_api.Cmd.Start.{
  StartCalls, TelemetryConfig, telemetry_config, Running, start_with, start,
}

abbrev pub SameSchema : {World : Type 0} → StartCalls World → World → World → Type 0
SameSchema lib w w' =
    (lib.migrations.open_instances w' ≡ lib.migrations.open_instances w)
    × (lib.migrations.is_current w' ≡ lib.migrations.is_current w)

-- No pool or instance is opened or closed, and the schema stays.
abbrev pub Apart : {World : Type 0} → StartCalls World → World → World → Type 0
Apart lib w w' =
    (lib.pools.open_pools w' ≡ lib.pools.open_pools w)
    × (lib.migrations.open_instances w' ≡ lib.migrations.open_instances w)
    × (lib.migrations.is_current w' ≡ lib.migrations.is_current w)

-- Each law is of one call: the libraries do not touch each other's resources: pgxpool makes no migration, golang-migrate
-- no pool, and telemetry, the client and the server neither.
pub record AreApart {World : Type 0} (lib : StartCalls World) : Type 0 where
  pub pool_made :
      (c : PoolConfig lib.pools.Rest) (w : World)
      → SameSchema lib w (lib.pools.new_with_config c w).1
  pub pool_pinged : (p : lib.pools.Pool) (w : World) → SameSchema lib w (lib.pools.ping p w).1
  pub pool_closed : (p : lib.pools.Pool) (w : World) → SameSchema lib w (lib.pools.close p w)
  pub instance_made :
      (s : lib.migrations.Source) (url : String) (w : World)
      → lib.pools.open_pools (lib.migrations.new_with_source_instance s url w).1
        ≡ lib.pools.open_pools w
  pub migrated_up :
      (m : lib.migrations.Migrate) (w : World)
      → lib.pools.open_pools (lib.migrations.up m w).1 ≡ lib.pools.open_pools w
  pub instance_closed :
      (m : lib.migrations.Migrate) (w : World)
      → lib.pools.open_pools (lib.migrations.close m w) ≡ lib.pools.open_pools w
  pub telemetry_made : (c : TelemetryConfig) (w : World) → Apart lib w (lib.init_telemetry c w).1
  pub telemetry_shut : (t : lib.Telemetry) (w : World) → Apart lib w (lib.shutdown_telemetry t w).1
  pub runtime_started : (w : World) → Apart lib w (lib.start_runtime w).1
  pub host_started : (w : World) → Apart lib w (lib.start_host w).1
  pub client_made :
      (url : String) (c : HttpClient) (w : World) → Apart lib w (lib.new_client url c w).1
  pub served :
      (c : Config) (p : lib.pools.Pool) (m : MediaMtxClient lib.Generated) (w : World)
      → Apart lib w (lib.serve_until c p m w).1
  pub pool_stays_client :
      (url : String) (c : HttpClient) (w : World)
      → lib.pools.is_open (lib.new_client url c w).1 ≡ lib.pools.is_open w
  pub pool_stays_served :
      (c : Config) (p : lib.pools.Pool) (m : MediaMtxClient lib.Generated) (w : World)
      → lib.pools.is_open (lib.serve_until c p m w).1 ≡ lib.pools.is_open w
  pub pool_stays_awaited :
      (w : World) → lib.pools.is_open (lib.await_signal w) ≡ lib.pools.is_open w
  pub pool_stays_shut :
      (w : World) → lib.pools.is_open (lib.shutdown_server w).1 ≡ lib.pools.is_open w
  pub signal_awaited : (w : World) → Apart lib w (lib.await_signal w)
  pub server_shut : (w : World) → Apart lib w (lib.shutdown_server w).1

module _ {World : Type 0} (lib : StartCalls World) (apart : AreApart lib) where
  open lib use {pools, migrations}

  -- The pool has answered a ping without an error.
  abbrev pub HasAnswered : pools.Pool → Type 0
  HasAnswered p = (v : World) × ((pools.ping p v).0 ≡ ok tt)

  -- With the parts made, one pool more is open and has answered a ping, no migration instance is
  -- left, and the schema is the newest.
  abbrev pub Ready : World → Result (Running lib) × World → Type 0
  Ready w (ok r, w') =
      (pools.open_pools w' ≡ suc (pools.open_pools w))
      × (migrations.open_instances w' ≡ migrations.open_instances w)
      × (migrations.is_current w' ≡ true)
      × HasAnswered r.pool
      × (pools.is_open w' r.pool ≡ true)
  Ready w (err x, w') = migrations.open_instances w' ≡ migrations.open_instances w

  -- What holds of the world on the way.
  abbrev Same : World → World → Type 0
  Same w v =
      (pools.open_pools v ≡ pools.open_pools w)
      × (migrations.open_instances v ≡ migrations.open_instances w)

  -- A call of a library apart, then the rest.
  apart_then :
      {A : Type 0} (m : Action World A) (f : A → Action World (Running lib)) (w v : World)
      → Same w v
      → Apart lib v (m v).1
      → ((a : A) (v' : World) → Same w v' → Ready w (f a v'))
      → Ready w ((m >>= f) v)
  apart_then m f w v (pools_same, instances_same) (pools_kept, instances_kept, _) later =
      bind_cases (Ready w) m f v
        (λ a v' h. later a v' (
          left_by pools.open_pools h ∙ pools_kept ∙ pools_same,
          left_by migrations.open_instances h ∙ instances_kept ∙ instances_same,
        ))
        (λ x v' h. left_by migrations.open_instances h ∙ instances_kept ∙ instances_same)

  module _ (c : Config) (t : lib.Telemetry) where
    -- The parts that need the database, the last first.
    with_pool : pools.Pool → Action World (Running lib)
    with_pool p = do
      client ← new_media_mtx_client lib.new_client c.mediamtx_api_url c.mediamtx_public_url []
      pure (record { config = c; telemetry = t; pool = p; client = client })

    with_schema : Action World (Running lib)
    unfolding with_pool
    with_schema = do
      p ← new_pool pools c.database_url (with_tracing c.tracing_enabled ∷ [])
      with_pool p

    client-Framed :
        {X : Type 0} (f : World → X)
        → ((url : String) (h : HttpClient) → Framed f (lib.new_client url h))
        → Framed f (new_media_mtx_client lib.new_client c.mediamtx_api_url c.mediamtx_public_url [])
    unfolding new_media_mtx_client
    client-Framed f made = bind-Framed f _ _ (wrapping-Framed f _ _ (made _ _)) (λ client w. refl)

    -- What the client needs: the pool and the schema.
    abbrev HasDatabase : World → World → Type 0
    HasDatabase w v =
        (pools.open_pools v ≡ suc (pools.open_pools w))
        × (migrations.open_instances v ≡ migrations.open_instances w)
        × (migrations.is_current v ≡ true)

    with_pool-Ready :
        (p : pools.Pool) (w v : World)
        → HasDatabase w v
        → HasAnswered p
        → pools.is_open v p ≡ true
        → Ready w (with_pool p v)
    unfolding with_pool
    with_pool-Ready p w v (more, same, current) pinged opened =
        let call =
          new_media_mtx_client lib.new_client c.mediamtx_api_url c.mediamtx_public_url [] in
        bind_cases (Ready w) call _ v
          (λ client v' h. (
            left_by pools.open_pools h
                ∙ client-Framed pools.open_pools (λ url x u. (apart.client_made url x u).0) v
                ∙ more,
            left_by migrations.open_instances h
                ∙ client-Framed migrations.open_instances (λ url x u. (apart.client_made url x u).1)
                    v
                ∙ same,
            left_by migrations.is_current h
                ∙ client-Framed migrations.is_current (λ url x u. (apart.client_made url x u).2) v
                ∙ current,
            pinged,
            ap (λ (o : pools.Pool → Bool). o p)
                  (left_by pools.is_open h ∙ client-Framed pools.is_open apart.pool_stays_client v)
                ∙ opened,
          ))
          (λ x v' h.
            left_by migrations.open_instances h
            ∙ client-Framed migrations.open_instances (λ url y u. (apart.client_made url y u).1) v
            ∙ same)

    ping_of : (p : pools.Pool) {v' : World} → Pinged pools (ok p, v') → HasAnswered p
    ping_of p (v, answered) = (v, ap (λ a. a.0) answered)

    -- The pool's part.
    with_schema-Ready :
        (w v : World) → Same w v → migrations.is_current v ≡ true → Ready w (with_schema v)
    unfolding with_schema
    with_schema-Ready w v (pools_same, instances_same) current =
        let call = new_pool pools c.database_url (with_tracing c.tracing_enabled ∷ []) in
        let instances : Framed migrations.open_instances call =
          new_pool-Framed pools migrations.open_instances _ _ (λ x u. (apart.pool_made x u).0)
            (λ p u. (apart.pool_pinged p u).0) (λ p u. (apart.pool_closed p u).0) in
        let schema : Framed migrations.is_current call =
          new_pool-Framed pools migrations.is_current _ _ (λ x u. (apart.pool_made x u).1)
            (λ p u. (apart.pool_pinged p u).1) (λ p u. (apart.pool_closed p u).1) in
        bind_cases (Ready w) call with_pool v
          (λ p v' h.
            with_pool-Ready p w v'
              (
                (subst (Balanced pools v) h (new_pool-Balanced pools c.database_url _ v)).0
                    ∙ ap suc pools_same,
                left_by migrations.open_instances h ∙ instances v ∙ instances_same,
                left_by migrations.is_current h ∙ schema v ∙ current,
              )
              (ping_of p (subst (Pinged pools) h (new_pool-Pinged pools c.database_url _ v)))
              (subst (Balanced pools v) h (new_pool-Balanced pools c.database_url _ v)).1)
          (λ x v' h. left_by migrations.open_instances h ∙ instances v ∙ instances_same)

    migrated-Ready :
        (w v : World)
        → Same w v
        → Ready w ((run_migrations migrations c.database_url >>= λ _. with_schema) v)
    migrated-Ready w v (pools_same, instances_same) =
        let call = run_migrations migrations c.database_url in
        let kept : Framed pools.open_pools call =
          run_migrations-Framed migrations pools.open_pools c.database_url apart.instance_made
            apart.migrated_up apart.instance_closed in
        let closed = (migrations-Closed migrations c.database_url v).0 in
        let Newest : Unit {0} → World → Type 0 = λ _ u. migrations.is_current u ≡ true in
        bind_cases (Ready w) call (λ _. with_schema) v
          (λ u v' h.
            let (same, current) = subst (Closed migrations Newest v) h closed in
            with_schema-Ready w v'
              (left_by pools.open_pools h ∙ kept v ∙ pools_same, same ∙ instances_same) current)
          (λ x v' h. subst (Closed migrations Newest v) h closed ∙ instances_same)

  start_with-Ready : (c : Config) (w v : World) → Same w v → Ready w (start_with lib c v)
  unfolding start_with with_schema with_pool
  start_with-Ready c w v same =
      apart_then (lib.init_telemetry (telemetry_config c)) _ w v same (apart.telemetry_made _ v)
        (λ t v₁ same₁.
          apart_then lib.start_runtime _ w v₁ same₁ (apart.runtime_started v₁) (λ _ v₂ same₂.
            apart_then lib.start_host _ w v₂ same₂ (apart.host_started v₂)
              (λ _ v₃ same₃. migrated-Ready c t w v₃ same₃)))

  -- When everything that the server needs has been made, one pool more is open than before and has
  -- answered a ping, no instance of golang-migrate is left, and the schema is the newest; and an
  -- error on the way leaves no instance.
  pub start-Ready : (w : World) → Ready w (start lib w)
  unfolding start
  start-Ready w =
      bind_cases (Ready w) (lift _) _ w
        (λ level v h.
          bind_cases (Ready w) (lift _) (start_with lib) v
            (λ c v' h'. start_with-Ready c w v' (
              left_by pools.open_pools h' ∙ left_by pools.open_pools h,
              left_by migrations.open_instances h' ∙ left_by migrations.open_instances h,
            ))
            (λ x v' h'. left_by migrations.open_instances h' ∙ left_by migrations.open_instances h))
        (λ x v h. left_by migrations.open_instances h)
