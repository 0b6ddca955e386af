-- ===== src/App/Sequence.antt =====
-- Requests over HTTP that are served one after another: cmd/rescuestream-api/main.go and
-- internal/server/server.go.
use rescuestream_api.Prelude.{List, [], ◌∷◌, All}
use rescuestream_api.Store.{Tables}
use rescuestream_api.Store.Invariant.{IsConsistent}
use rescuestream_api.Env.{Env}
use rescuestream_api.Consistency.Reach.{Reach-IsConsistent}
use rescuestream_api.Consistency.Used.{IsUsed, IsUsed-refl}
use rescuestream_api.Server.{HttpRequest}
use rescuestream_api.Server.Dispatch.{Mux}
use rescuestream_api.App.{Libraries, Settings, Inputs, serve_request}
use rescuestream_api.App.Access.{serve_request-Reach}
use rescuestream_api.App.Unsigned.{IsSigned, unsigned_request-Keeps}

-- A request, what the clocks and the generators give while it is served, and the multiplexer.
pub record Arrival (W : Type 0) : Type 0 where
  pub inputs : Inputs
  pub mux : Mux W
  pub request : HttpRequest

module _ (e : Env) (lib : Libraries) (settings : Settings) where
  open e use {World, tables}

  abbrev pub serve_requests : List (Arrival World) → World → World
  serve_requests [] w = w
  serve_requests (a ∷ rs) w =
      serve_requests rs (serve_request e lib settings a.inputs a.mux a.request w).1

  abbrev pub IsUnsigned : Arrival World → Type 0
  IsUnsigned a = IsSigned lib settings a.inputs a.request → ⊥

  unsigned_requests-Keeps :
      (t₀ : Tables) (rs : List (Arrival World)) (w : World)
      → All IsUnsigned rs
      → IsUsed t₀ (tables w)
      → IsUsed t₀ (tables (serve_requests rs w))
  unsigned_requests-Keeps t₀ [] w unsigned used = used
  unsigned_requests-Keeps t₀ (a ∷ rs) w (first, rest) used =
      unsigned_requests-Keeps t₀ rs (serve_request e lib settings a.inputs a.mux a.request w).1 rest
        (unsigned_request-Keeps e lib settings a.inputs t₀ a.mux a.request w first used)

  -- However many requests are served one after another, if none is signed for its contents with the
  -- API secret in time, they leave consistent tables consistent, every broadcaster as it was, and the
  -- stream keys the same one by one, but for the times of last use and for active keys that have
  -- expired, whatever they ask for and whatever fails.
  pub unsigned_requests-IsUsed :
      (rs : List (Arrival World)) (w : World)
      → All IsUnsigned rs
      → IsConsistent (tables w)
      → IsUsed (tables w) (tables (serve_requests rs w))
  unsigned_requests-IsUsed rs w unsigned c =
      unsigned_requests-Keeps (tables w) rs w unsigned (IsUsed-refl (tables w) c)

  -- However many requests over HTTP are served one after another, whatever they are and whatever
  -- fails, consistent tables stay consistent.
  pub serve_requests-IsConsistent :
      (rs : List (Arrival World)) (w : World)
      → IsConsistent (tables w)
      → IsConsistent (tables (serve_requests rs w))
  serve_requests-IsConsistent [] w c = c
  serve_requests-IsConsistent (a ∷ rs) w c =
      serve_requests-IsConsistent rs _
        (Reach-IsConsistent e c (serve_request-Reach e lib settings a.inputs a.mux a.request w).0)
