-- ===== src/Service/MediaMtx/Kicks.antt =====
-- What `KickPath` of internal/service/mediamtx.go kicks.
use rescuestream_api.Prelude.{
  String, ◌≡◌, refl, ◌∙◌, ap, Option, none, some, List, [], ◌∷◌, str_eq, arith, if◌then◌else◌,
}
use rescuestream_api.Errors.{Result, ok, err, Action}
use rescuestream_api.Env.{Env, Conn, Listing}
use rescuestream_api.Service.MediaMtx.{kick_one, kick_all, kick_listed, kick_path}

-- The ID of a connection, if it has one and its path is known and is `path`.
abbrev pub target : String → Conn → Option String
target path c = elim c.path [ none ↦ none | some p ↦ if str_eq p path then c.id else none ]

-- The IDs to kick, in the order of the list.
abbrev pub targets : String → List Conn → List String
targets path [] = []
targets path (c ∷ cs) = elim (target path c) [
  | none ↦ targets path cs
  | some id ↦ id ∷ targets path cs
]

-- The items of an answer; none if the call failed or `JSON200` or `Items` is nil.
abbrev pub items_of : Result Listing → List Conn
items_of (ok (some (some items))) = items
items_of (ok (some none)) = []
items_of (ok none) = []
items_of (err e) = []

module _ {W : Type 0} (kick : String → Action W (Unit {0})) where
  -- One kick for each ID, in order, whatever each answers.
  unfoldable pub kick_each : List String → W → W
  kick_each [] w = w
  kick_each (id ∷ ids) w = kick_each ids (kick id w).1

  kick_one-target :
      (path : String) (c : Conn) (o : Option String) (w : W)
      → target path c ≡ o
      → kick_one kick path c w ≡ elim o [ none ↦ w | some id ↦ (kick id w).1 ]
  unfolding kick_one
  kick_one-target path c none w h = ground arith
  kick_one-target path c (some id) w h = ground arith

  kick_all-targets :
      (path : String) (cs : List Conn) (w : W)
      → kick_all kick path cs w ≡ kick_each (targets path cs) w
  unfolding kick_all kick_each
  kick_all-targets path [] w = refl
  kick_all-targets path (c ∷ cs) w = by_target (target path c) refl (kick_all-targets path cs)
    where
      by_target :
          (o : Option String)
          → target path c ≡ o
          → ((w' : W) → kick_all kick path cs w' ≡ kick_each (targets path cs) w')
          → kick_all kick path cs (kick_one kick path c w)
            ≡ kick_each (elim o [ none ↦ targets path cs | some id ↦ id ∷ targets path cs ]) w
      by_target none h rest = ap (kick_all kick path cs) (kick_one-target path c none w h) ∙ rest w
      by_target (some id) h rest =
          ap (kick_all kick path cs) (kick_one-target path c (some id) w h) ∙ rest (kick id w).1

  pub kick_listed-targets :
      (path : String) (list : Action W Listing) (w : W)
      → kick_listed kick path list w ≡ kick_each (targets path (items_of (list w).0)) (list w).1
  unfolding kick_listed kick_each
  kick_listed-targets path list w = by_answer (list w).0 (list w).1
    where
      by_answer :
          (r : Result Listing) (w' : W)
          → (elim r as (λ _. W) [
            | err x ↦ w'
            | ok none ↦ w'
            | ok (some none) ↦ w'
            | ok (some (some items)) ↦ kick_all kick path items w'
          ])
            ≡ kick_each (targets path (items_of r)) w'
      by_answer (err x) w' = refl
      by_answer (ok none) w' = refl
      by_answer (ok (some none)) w' = refl
      by_answer (ok (some (some items))) w' = kick_all-targets path items w'

  -- What every kick leaves alone, all of them leave alone.
  pub kick_each-same :
      {B : Type 0} (view : W → B)
      → ((id : String) (w : W) → view (kick id w).1 ≡ view w)
      → (ids : List String) (w : W) → view (kick_each ids w) ≡ view w
  unfolding kick_each
  kick_each-same view apart [] w = refl
  kick_each-same view apart (id ∷ ids) w = kick_each-same view apart ids (kick id w).1 ∙ apart id w

module _ (e : Env) where
  open e use {World, tables, healthy}

  kick_path-same :
      {B : Type 0} (view : World → B)
      → ((w : World) → view (e.rtmp_list w).1 ≡ view w)
      → ((id : String) (w : World) → view (e.rtmp_kick id w).1 ≡ view w)
      → ((w : World) → view (e.rtsp_list w).1 ≡ view w)
      → ((id : String) (w : World) → view (e.rtsp_kick id w).1 ≡ view w)
      → (path : String) (w : World) → view (kick_path e path w).1 ≡ view w
  unfolding kick_path
  kick_path-same view list₁ kick₁ list₂ kick₂ path w =
      ap view (kick_listed-targets e.rtsp_kick path e.rtsp_list _)
      ∙ kick_each-same e.rtsp_kick view kick₂ _ _
      ∙ list₂ _
      ∙ ap view (kick_listed-targets e.rtmp_kick path e.rtmp_list w)
      ∙ kick_each-same e.rtmp_kick view kick₁ _ _
      ∙ list₁ w

  -- Kicking does not touch the database.
  pub kick_path_apart : (path : String) (w : World) → tables (kick_path e path w).1 ≡ tables w
  kick_path_apart =
      kick_path-same tables (λ w. (e.rtmp_list_lem w).0) (λ id w. (e.rtmp_kick_lem id w).0)
        (λ w. (e.rtsp_list_lem w).0) (λ id w. (e.rtsp_kick_lem id w).0)

  pub kick_path_healthy : (path : String) (w : World) → healthy (kick_path e path w).1 ≡ healthy w
  kick_path_healthy =
      kick_path-same healthy (λ w. (e.rtmp_list_lem w).1) (λ id w. (e.rtmp_kick_lem id w).1)
        (λ w. (e.rtsp_list_lem w).1) (λ id w. (e.rtsp_kick_lem id w).1)

  -- `KickPath` succeeds. It lists the RTMP connections and kicks each that is listed with the path
  -- and an ID, once and in the order of the list, and then does the same with the RTSP sessions; a
  -- list call that fails, or whose answer has no items, kicks nothing, and a kick that fails stops
  -- nothing.
  pub kick_path-kicks :
      (path : String) (w : World)
      → let (listed, w₁) = e.rtmp_list w in
        let w₂ = kick_each e.rtmp_kick (targets path (items_of listed)) w₁ in
        let (sessions, w₃) = e.rtsp_list w₂ in
        kick_path e path w ≡ (ok tt, kick_each e.rtsp_kick (targets path (items_of sessions)) w₃)
  unfolding kick_path
  kick_path-kicks path w =
      rw
        (
          kick_listed-targets e.rtsp_kick path e.rtsp_list,
          kick_listed-targets e.rtmp_kick path e.rtmp_list,
        )
        refl
