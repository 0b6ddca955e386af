-- ===== src/Cmd/Start/Returned.antt =====
-- What `main` of cmd/rescuestream-api/main.go leaves when it returns.
use rescuestream_api.Prelude.{◌≡◌, ap, ◌∙◌, suc, Bool, true}
use rescuestream_api.Errors.{Result, ok, err}
use rescuestream_api.Cmd.Start.{
  StartCalls, Running, Wakeup, signalled, listened, Ended, exited, returned, stop, woken, started,
  main,
}
use rescuestream_api.Server.{start_result}
use rescuestream_api.Cmd.Start.Ready.{AreApart, Ready, start-Ready}

module _ {World : Type 0} (lib : StartCalls World) (apart : AreApart lib) where
  open lib use {pools, migrations}

  -- If `main` has returned, the pools and the instances open are those of before.
  abbrev pub Left : World → Ended × World → Type 0
  Left w (returned, w') =
      (pools.open_pools w' ≡ pools.open_pools w)
      × (migrations.open_instances w' ≡ migrations.open_instances w)
  Left w (exited e, w') = Unit {0}

  stop-Left :
      (w v : World) (r : Running lib)
      → pools.is_open v r.pool ≡ true
      → pools.open_pools v ≡ suc (pools.open_pools w)
      → migrations.open_instances v ≡ migrations.open_instances w
      → Left w (returned, stop lib r v)
  unfolding stop
  stop-Left w v r opened more same =
      let v₁ = (lib.shutdown_server v).1 in
      let (pools₁, instances₁, _) = apart.server_shut v in
      let v₂ = pools.close r.pool v₁ in
      let (pools₃, instances₃, _) = apart.telemetry_shut r.telemetry v₂ in
      (
        pools₃
            ∙ pools.close_lem r.pool v₁ (pools.open_pools w)
                (ap (λ (o : pools.Pool → Bool). o r.pool) (apart.pool_stays_shut v) ∙ opened)
                (pools₁ ∙ more),
        instances₃ ∙ (apart.pool_closed r.pool v₁).0 ∙ instances₁ ∙ same,
      )

  woken-Left :
      (w : World) (r : Running lib) (o : Wakeup) (v : World)
      → pools.is_open v r.pool ≡ true
      → pools.open_pools v ≡ suc (pools.open_pools w)
      → migrations.open_instances v ≡ migrations.open_instances w
      → Left w (woken lib r (o, v))
  woken-Left w r signalled v opened more same = stop-Left w v r opened more same
  woken-Left w r (listened l) v opened more same = by_result (start_result l)
    where
      by_result :
          (q : Result (Unit {0}))
          → Left w (elim q as (λ _. Ended × World) [
            | ok u ↦ (returned, stop lib r (lib.await_signal v))
            | err e ↦ (exited e, v)
          ])
      by_result (ok u) =
          let (pools_kept, instances_kept, _) = apart.signal_awaited v in
          stop-Left w (lib.await_signal v) r
            (ap (λ (o : pools.Pool → Bool). o r.pool) (apart.pool_stays_awaited v) ∙ opened)
            (pools_kept ∙ more) (instances_kept ∙ same)
      by_result (err e) = tt

  started-Left :
      (w v : World) (r : Result (Running lib))
      → Ready lib apart w (r, v)
      → Left w (started lib (r, v))
  started-Left w v (ok r) (more, same, _, _, opened) =
      let (pools_kept, instances_kept, _) = apart.served r.config r.pool r.client v in
      woken-Left w r _ _
        (ap (λ (o : pools.Pool → Bool). o r.pool)
            (apart.pool_stays_served r.config r.pool r.client v)
          ∙ opened)
        (pools_kept ∙ more) (instances_kept ∙ same)
  started-Left w v (err x) ready = tt

  -- When `main` returns, after a signal, the pool that it opened is closed and no instance of
  -- golang-migrate is left.
  pub main-Left : (w : World) → Left w (main lib w)
  unfolding main
  main-Left w = started-Left w _ _ (start-Ready lib apart w)
