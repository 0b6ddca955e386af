-- ===== src/Service/Streams/Listed.antt =====
-- `StreamService.ListActive` of internal/service/stream.go: which streams it lists.
use mathlib.Core.List.{Perm}
use mathlib.Core.List.{Permᴰ}
use mathlib.Core.Bool.{Bool-set, false≢true}
use mathlib.Core.Logic.{∥∥₁_elim}
use Prim.Native.String.{◌++◌}
use rescuestream_api.Service.MediaMtx.{get_hls_url, get_webrtc_url}
use rescuestream_api.Prelude.{
  ◌≡◌, refl, sym, ap, ◌∙◌, subst, String, Bool, true, false, not, ◌||◌, List, [], ◌∷◌, any, select,
  map, arith,
}
use rescuestream_api.Domain.{Metadata, nil_map, object, Stream, StreamWithUrls, stream_is_active}
use rescuestream_api.Errors.{Result, ok, err, Action, lift, wrapping, wrap}
use rescuestream_api.Store.{Tables, StreamRow, Json, query}
use rescuestream_api.Env.{Env}
use rescuestream_api.Env.Sorted.{Latest, ReadAll, wrapping-ReadAll}
use rescuestream_api.Env.Rules.{bind_rule}
use rescuestream_api.Env.Healthy.{run_ok, handle_ok, bind_Gives, pure_after}
use rescuestream_api.Database.StreamRepo
use rescuestream_api.Database.StreamRepo.{of_row, scan_row, scan_rows, unmarshal}
use rescuestream_api.Service.Streams.{with_urls, list_active}

or-swap : (a b c : Bool) → (a || (b || c)) ≡ (b || (a || c))
or-swap a b c = ground arith

or_right : (a b : Bool) → (a || b) ≡ false → b ≡ false
or_right a b h = ground arith

or_left : (a b : Bool) → (a || b) ≡ false → a ≡ false
or_left a b h = ground arith

any-Permᴰ : {A : Type 0} (p : A → Bool) {xs ys : List A} → Permᴰ xs ys → any p xs ≡ any p ys
any-Permᴰ p Permᴰ.nil = refl
any-Permᴰ p (Permᴰ.cons same d) = let rest = any-Permᴰ p d in rw same (rw rest refl)
any-Permᴰ p (Permᴰ.swap {a' = a'} {b' = b'} {l = l} e₁ e₂) =
    rw e₁ (rw e₂ (or-swap (p b') (p a') (any p l)))
any-Permᴰ p (Permᴰ.trans d₁ d₂) = any-Permᴰ p d₁ ∙ any-Permᴰ p d₂

any-Perm : {A : Type 0} (p : A → Bool) {xs ys : List A} → Perm xs ys → any p xs ≡ any p ys
any-Perm p {xs} {ys} h = ∥∥₁_elim h (Bool-set (any p xs) (any p ys)) (any-Permᴰ p)

-- The metadata of a row can be decoded.
abbrev pub decodes : StreamRow → Bool
decodes r = elim (scan_row r) [ ok s ↦ true | err x ↦ false ]

-- The metadata are neither null nor an object.
abbrev pub is_other : Json → Bool
is_other Json.null = false
is_other (Json.object s) = false
is_other (Json.other s) = true

decodes_lem : (r : StreamRow) → is_other r.metadata ≡ false → not (decodes r) ≡ false
decodes_lem r h = by_json r.metadata refl h
  where
    by_json : (j : Json) → r.metadata ≡ j → is_other j ≡ false → not (decodes r) ≡ false
    by_json Json.null e h' = rw (e, decodes, scan_row) refl
    by_json (Json.object s) e h' = rw (e, decodes, scan_row) refl
    by_json (Json.other s) e h' = cc

pub decodes_all :
    (rows : List StreamRow)
    → any (λ r. is_other r.metadata) rows ≡ false
    → any (λ r. not (decodes r)) rows ≡ false
decodes_all [] h = refl
decodes_all (r ∷ rs) h =
    let later =
      decodes_all rs (or_right (is_other r.metadata) (any (λ x. is_other x.metadata) rs) h) in
    rw (decodes_lem r (or_left (is_other r.metadata) (any (λ x. is_other x.metadata) rs) h)) later

abbrev pub active_rows : Tables → List StreamRow
active_rows t = select (λ s. stream_is_active s.status) t.streams

-- The JSON of a column and the metadata read from it.
abbrev pub SameMetadata : Json → Metadata → Type 0
SameMetadata Json.null nil_map = Unit
SameMetadata (Json.object s) (object s') = s' ≡ s
SameMetadata Json.null (object s) = ⊥
SameMetadata (Json.object s) nil_map = ⊥
SameMetadata (Json.other s) m = ⊥

-- The stream has what the columns of the row hold.
pub record Scanned (r : StreamRow) (s : Stream) : Type 0 where
  pub id : s.id ≡ r.id
  pub stream_key_id : s.stream_key_id ≡ r.stream_key_id
  pub path : s.path ≡ r.path
  pub status : s.status ≡ r.status
  pub started_at : s.started_at ≡ r.started_at
  pub ended_at : s.ended_at ≡ r.ended_at
  pub source_type : s.source_type ≡ r.source_type
  pub source_id : s.source_id ≡ r.source_id
  pub metadata : SameMetadata r.metadata s.metadata
  pub recording_ref : s.recording_ref ≡ r.recording_ref

unmarshal-SameMetadata : (j : Json) (m : Metadata) → unmarshal j ≡ ok m → SameMetadata j m
unmarshal-SameMetadata Json.null nil_map h = tt
unmarshal-SameMetadata Json.null (object s) h = cc
unmarshal-SameMetadata (Json.object s) nil_map h = cc
unmarshal-SameMetadata (Json.object s) (object s') h = cc
unmarshal-SameMetadata (Json.other s) m h = cc

pub SameMetadata-unmarshal : (j : Json) (m : Metadata) → SameMetadata j m → unmarshal j ≡ ok m
SameMetadata-unmarshal Json.null nil_map h = refl
SameMetadata-unmarshal Json.null (object s) h = absurd h
SameMetadata-unmarshal (Json.object s) nil_map h = absurd h
SameMetadata-unmarshal (Json.object s) (object s') h = ap (λ x. ok (object x)) (sym h)
SameMetadata-unmarshal (Json.other s) m h = absurd h

scan_row-Scanned : (r : StreamRow) (s : Stream) → scan_row r ≡ ok s → Scanned r s
scan_row-Scanned r s h = by_metadata (unmarshal r.metadata) refl h
  where
    by_metadata :
        (q : Result Metadata)
        → unmarshal r.metadata ≡ q
        → ◌≡◌ {A = Result Stream}
            (elim q as (λ _. Result Stream) [
              | ok m ↦ ok (of_row r m)
              | err e ↦ err (wrap "failed to unmarshal metadata" e)
            ])
            (ok s)
        → Scanned r s
    by_metadata (ok m) decoded same =
        let eq : of_row r m ≡ s = cc in
        subst (Scanned r) eq (record {
          id = refl;
          stream_key_id = refl;
          path = refl;
          status = refl;
          started_at = refl;
          ended_at = refl;
          source_type = refl;
          source_id = refl;
          metadata = unmarshal-SameMetadata r.metadata m decoded;
          recording_ref = refl;
        })
    by_metadata (err e) decoded same = cc

-- The listed streams are the rows, one by one, with the URLs of HLS and WebRTC at which MediaMTX
-- serves their paths.
abbrev pub Decoded : String → List StreamRow → List StreamWithUrls → Type 0
Decoded url [] [] = Unit
Decoded url [] (s ∷ ss) = ⊥
Decoded url (r ∷ rs) [] = ⊥
Decoded url (r ∷ rs) (s ∷ ss) =
    Scanned r s.stream
    × (s.urls.hls ≡ url ++ "/" ++ r.path ++ "/index.m3u8")
    × (s.urls.webrtc ≡ url ++ "/" ++ r.path ++ "/whep")
    × Decoded url rs ss

-- The streams listed are the active rows, each once, the latest first.
abbrev pub Listed : String → Tables → List StreamWithUrls → Type 0
Listed url t ss =
    (rows : List StreamRow) × Latest (λ r. r.started_at) (active_rows t) rows × Decoded url rows ss

with_urls-hls :
    (url : String) (s : Stream)
    → ((with_urls url s).urls.hls ≡ url ++ "/" ++ s.path ++ "/index.m3u8")
      × ((with_urls url s).urls.webrtc ≡ url ++ "/" ++ s.path ++ "/whep")
unfolding get_hls_url get_webrtc_url
with_urls-hls url s = (refl, refl)

scan_rows-Decoded :
    (url : String) (rows : List StreamRow) (ss : List Stream)
    → scan_rows rows ≡ ok ss
    → Decoded url rows (map (with_urls url) ss)
scan_rows-Decoded url [] ss h =
    let none_left : [] ≡ ss = cc in
    subst (λ xs. Decoded url [] (map (with_urls url) xs)) none_left tt
scan_rows-Decoded url (r ∷ rs) ss h =
    by_row (scan_row r) (scan_rows rs) refl (scan_rows-Decoded url rs) h
  where
    by_row :
        (q : Result Stream) (rest : Result (List Stream))
        → scan_row r ≡ q
        → ((xs : List Stream) → rest ≡ ok xs → Decoded url rs (map (with_urls url) xs))
        → ◌≡◌ {A = Result (List Stream)}
            (elim q as (λ _. Result (List Stream)) [
              | ok s ↦ elim rest as (λ _. Result (List Stream)) [
                | ok xs ↦ ok (s ∷ xs)
                | err e ↦ err e
              ]
              | err e ↦ err e
            ])
            (ok ss)
        → Decoded url (r ∷ rs) (map (with_urls url) ss)
    by_row (ok s) (ok xs) is_s later same =
        let eq : (s ∷ xs) ≡ ss = cc in
        subst (λ ys. Decoded url (r ∷ rs) (map (with_urls url) ys)) eq
          (let scanned = scan_row-Scanned r s is_s in
            let (hls, webrtc) = with_urls-hls url s in
            (
              scanned,
              hls ∙ ap (λ p. url ++ "/" ++ p ++ "/index.m3u8") scanned.path,
              webrtc ∙ ap (λ p. url ++ "/" ++ p ++ "/whep") scanned.path,
              later xs refl,
            ))
    by_row (ok s) (err e) is_s is_rest same = cc
    by_row (err e) rest is_s is_rest same = cc

-- The first row and the others.
joined : Result Stream → Result (List Stream) → Result (List Stream)
joined q rest = elim q [ ok s ↦ elim rest [ ok ss ↦ ok (s ∷ ss) | err e ↦ err e ] | err e ↦ err e ]

-- If every row decodes, so does the list.
scan_rows-decodes :
    (rows : List StreamRow)
    → any (λ r. not (decodes r)) rows ≡ false
    → (ss : List Stream) × (scan_rows rows ≡ ok ss)
unfolding joined
scan_rows-decodes [] h = ([], refl)
scan_rows-decodes (r ∷ rs) h = by_row (scan_row r) refl (scan_rows-decodes rs)
  where
    by_row :
        (q : Result Stream)
        → scan_row r ≡ q
        → (any (λ r. not (decodes r)) rs ≡ false → (ss : List Stream) × (scan_rows rs ≡ ok ss))
        → (ss : List Stream) × (scan_rows (r ∷ rs) ≡ ok ss)
    by_row (ok s) is_s later =
        let (ss, rest) = later (or_right (not (decodes r)) (any (λ x. not (decodes x)) rs) h) in
        (s ∷ ss, ap (λ q. joined q (scan_rows rs)) is_s ∙ ap (joined (ok s)) rest)
    by_row (err e) is_e later =
        let undecoded : not (decodes r) ≡ true =
          ap (λ q. not (elim q as (λ _. Bool) [ ok s ↦ true | err x ↦ false ])) is_e in
        absurd (
          false≢true
            (sym (or_left (not (decodes r)) (any (λ x. not (decodes x)) rs) h) ∙ undecoded))

-- What a list that is returned holds.
abbrev pub IsListed : String → Tables → Result (List StreamWithUrls) → Type 0
IsListed url t (ok ss) = Listed url t ss
IsListed url t (err x) = Unit

abbrev IsDecoded : String → Tables → Result (List Stream) → Type 0
IsDecoded url t (ok ss) = Listed url t (map (with_urls url) ss)
IsDecoded url t (err x) = Unit

scan_rows-IsDecoded :
    (url : String) (t : Tables) (rows : List StreamRow)
    → Latest (λ r. r.started_at) (active_rows t) rows
    → (q : Result (List Stream)) → scan_rows rows ≡ q
    → IsDecoded url t q
scan_rows-IsDecoded url t rows latest (ok ss) h = (rows, latest, scan_rows-Decoded url rows ss h)
scan_rows-IsDecoded url t rows latest (err x) h = tt

module _ (e : Env) (url : String) where
  open e use {World, tables, healthy, order_desc, order_perm, run}

  rows_listed :
      (w : World)
      → IsDecoded url (tables w) (StreamRepo.list_active e w).0
        × (tables (StreamRepo.list_active e w).1 ≡ tables w)
  unfolding StreamRepo.list_active
  rows_listed w =
      let read : Action World (List StreamRow) =
        wrapping "failed to list active streams"
          (run (query (λ t. order_desc (λ s. s.started_at) (active_rows t)))) in
      let answer =
        wrapping-ReadAll e (λ (r : StreamRow). r.started_at) active_rows
          "failed to list active streams" w in
      bind_rule (λ o. IsDecoded url (tables w) o.0 × (tables o.1 ≡ tables w)) read _ w
        (λ rows h.
          let (same, latest) =
            subst
              (λ q.
                ReadAll (λ (r : StreamRow). r.started_at) (active_rows (tables w)) (tables w) q
                  (tables (read w).1))
              h answer in
          (scan_rows-IsDecoded url (tables w) rows latest (scan_rows rows) refl, same))
        (λ x h. (
          tt,
          subst
              (λ q.
                ReadAll (λ (r : StreamRow). r.started_at) (active_rows (tables w)) (tables w) q
                  (tables (read w).1))
              h answer,
        ))

  -- The streams that are listed are the active ones, each once with its URLs, the latest first,
  -- whatever fails; and the tables stay.
  pub list_active-Listed :
      (w : World)
      → IsListed url (tables w) (list_active e url w).0
        × (tables (list_active e url w).1 ≡ tables w)
  unfolding list_active
  list_active-Listed w =
      let (listed, same) = rows_listed w in
      bind_rule (λ o. IsListed url (tables w) o.0 × (tables o.1 ≡ tables w))
        (StreamRepo.list_active e) _ w (λ ss h. (subst (IsDecoded url (tables w)) h listed, same))
        (λ x h. (tt, same))

  -- While the database answers and the metadata of every active stream decodes, there is a list.
  pub list_active-some :
      (w : World)
      → healthy w ≡ true
      → any (λ r. not (decodes r)) (active_rows (tables w)) ≡ false
      → (ss : List StreamWithUrls) × ((list_active e url w).0 ≡ ok ss)
  unfolding list_active StreamRepo.list_active
  list_active-some w up all_decode =
      let rows = order_desc (λ (s : StreamRow). s.started_at) (active_rows (tables w)) in
      let read =
        handle_ok e ok (wrap "failed to list active streams") _ w
          (run_ok e (query (λ t. order_desc (λ s. s.started_at) (active_rows t))) w up refl) in
      let (ss, scanned) =
        scan_rows-decodes rows
          (any-Perm (λ r. not (decodes r)) (order_perm _ (active_rows (tables w))) ∙ all_decode) in
      let inner =
        bind_Gives e _ (λ rs. lift (scan_rows rs)) w read
          (record { result = scanned; left = read.left; up = read.up }) in
      let outer = bind_Gives e _ _ w inner (pure_after e (map (with_urls url) ss) inner) in
      (map (with_urls url) ss, outer.result)
