-- ===== src/Database/Pool/Balance.antt =====
-- `NewPool` of internal/database/database.go leaves no pool open but the one that it returns.
use rescuestream_api.Prelude.{◌≡◌, refl, sym, ap, ◌∙◌, Bool, true, suc, String, List}
use rescuestream_api.Errors.Cases.{
  Framed, bind-Framed, wrapping-Framed, bind_cases, wrapping-bind_cases,
}
use rescuestream_api.Errors.{Error, Result, ok, err, attempt, lift}
use rescuestream_api.Database.Pool.{
  PoolLibrary, PoolConfig, PoolOption, configured, apply_pool_options, default_options, pinged,
  new_pool,
}

module _ {World : Type 0} (lib : PoolLibrary World) where
  open lib use {
    Pool, Rest, parse_config, new_with_config, ping, close, open_pools, new_ok, new_err, ping_lem,
    close_lem, is_open, new_open, ping_open,
  }

  -- One pool more with the value, which is open, and none with an error.
  abbrev pub Balanced : World → Result Pool × World → Type 0
  Balanced w (ok p, w') = (open_pools w' ≡ suc (open_pools w)) × (is_open w' p ≡ true)
  Balanced w (err x, w') = open_pools w' ≡ open_pools w

  pinged-Balanced :
      (w w' : World) (p : Pool) (r : Result (Unit {0}))
      → open_pools w' ≡ suc (open_pools w)
      → is_open w' p ≡ true
      → Balanced w (pinged lib p r w')
  unfolding pinged
  pinged-Balanced w w' p (ok u) more opened = (more, opened)
  pinged-Balanced w w' p (err x) more opened = close_lem p w' (open_pools w) opened more

  untouched :
      {A : Type 0} (r q : Result A) (w w' : World)
      → ◌≡◌ {A = Result A × World} (r, w) (q, w')
      → open_pools w' ≡ open_pools w
  untouched r q w w' h = ap (λ c. open_pools c.1) (sym h)

  after_ping :
      (p : Pool) (w w' : World) (r : Result (Unit {0}))
      → attempt (ping p) w ≡ (ok r, w')
      → open_pools w' ≡ open_pools w
  unfolding attempt
  after_ping p w w' r h = ap (λ c. open_pools c.1) (sym h) ∙ ping_lem p w

  open_after_ping :
      (p : Pool) (w w' : World) (r : Result (Unit {0}))
      → attempt (ping p) w ≡ (ok r, w')
      → is_open w' p ≡ is_open w p
  unfolding attempt
  open_after_ping p w w' r h =
      ap (λ c. is_open c.1 p) (sym h) ∙ ap (λ (o : Pool → Bool). o p) (ping_open p w)

  attempt-not_err : (p : Pool) (w w' : World) (x : Error) → attempt (ping p) w ≡ (err x, w') → ⊥
  unfolding attempt
  attempt-not_err p w w' x h = cc

  -- Whatever the options are and whatever fails: a pool that is returned is the only one that has
  -- been opened, and an error leaves none open that was not open before.
  pub new_pool-Balanced :
      (conn_string : String) (opts : List PoolOption) (w : World)
      → Balanced w (new_pool lib conn_string opts w)
  unfolding new_pool
  new_pool-Balanced conn_string opts w =
      let cfg = apply_pool_options opts default_options in
      wrapping-bind_cases (Balanced w) _ (lift (parse_config conn_string)) _ w
        (λ parsed w₁ h.
          wrapping-bind_cases (Balanced w) _ (new_with_config (configured cfg parsed)) _ w₁
            (λ p w₂ made.
              let more =
                new_ok (configured cfg parsed) w₁ w₂ p made ∙ ap suc (untouched _ _ w w₁ h) in
              bind_cases (Balanced w) (attempt (ping p)) (pinged lib p) w₂
                (λ r w₃ answered. pinged-Balanced w w₃ p r (after_ping p w₂ w₃ r answered ∙ more) (
                  open_after_ping p w₂ w₃ r answered
                  ∙ new_open (configured cfg parsed) w₁ w₂ p made))
                (λ x w₃ answered. absurd (attempt-not_err p w₂ w₃ x answered)))
            (λ x w₂ failed. new_err (configured cfg parsed) w₁ w₂ x failed ∙ untouched _ _ w w₁ h))
        (λ x w₁ h. untouched _ _ w w₁ h)

  -- The pool that is returned has answered a ping just before.
  abbrev pub Pinged : Result Pool × World → Type 0
  Pinged (ok p, w') = (v : World) × (ping p v ≡ (ok tt, w'))
  Pinged (err x, w') = Unit {0}

  pinged-Pinged :
      (p : Pool) (r : Result (Unit {0})) (v w' : World)
      → attempt (ping p) v ≡ (ok r, w')
      → Pinged (pinged lib p r w')
  unfolding pinged attempt
  pinged-Pinged p (ok u) v w' h = (v, cc)
  pinged-Pinged p (err x) v w' h = tt

  pub new_pool-Pinged :
      (conn_string : String) (opts : List PoolOption) (w : World)
      → Pinged (new_pool lib conn_string opts w)
  unfolding new_pool
  new_pool-Pinged conn_string opts w =
      let cfg = apply_pool_options opts default_options in
      wrapping-bind_cases Pinged _ (lift (parse_config conn_string)) _ w
        (λ parsed w₁ h.
          wrapping-bind_cases Pinged _ (new_with_config (configured cfg parsed)) _ w₁
            (λ p w₂ made.
              bind_cases Pinged (attempt (ping p)) (pinged lib p) w₂
                (λ r w₃ answered. pinged-Pinged p r w₂ w₃ answered) (λ x w₃ answered. tt))
            (λ x w₂ failed. tt))
        (λ x w₁ h. tt)

  -- What the library's calls keep of the world, `NewPool` keeps.
  module _ {X : Type 0} (f : World → X) where
    pub new_pool-Framed :
        (conn_string : String) (opts : List PoolOption)
        → ((c : PoolConfig Rest) → Framed f (new_with_config c))
        → ((p : Pool) → Framed f (ping p))
        → ((p : Pool) (w : World) → f (close p w) ≡ f w)
        → Framed f (new_pool lib conn_string opts)
    unfolding new_pool pinged attempt
    new_pool-Framed conn_string opts made pings closed =
        bind-Framed f _ _ (wrapping-Framed f _ (lift (parse_config conn_string)) (λ w. refl))
          (λ parsed.
            bind-Framed f _ _ (wrapping-Framed f _ (new_with_config _) (made _))
              (λ p. bind-Framed f _ _ (pings p) (pinged-Framed p)))
      where
        pinged-Framed : (p : Pool) (r : Result (Unit {0})) → Framed f (pinged lib p r)
        pinged-Framed p (ok u) w = refl
        pinged-Framed p (err x) w = closed p w
