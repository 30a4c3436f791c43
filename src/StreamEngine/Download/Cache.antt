-- ===== src/StreamEngine/Download/Cache.antt =====
-- packages/stream-engine/src/download.ts: whatever happens meanwhile, the cache and the promises of a
-- file are as good as its sources.
use ddrive.Prelude.{
  ℕ, zero, suc, ◌+◌, ◌≡◌, refl, sym, ap, ap₂, ◌∙◌, inl, inr, not, List, [], ◌∷◌, Option, none, some,
  String, ltb, All, Option-cases, subst,
}
use ddrive.Prelude.Tables.{lookup}
use ddrive.Processing.Chunker.{Bytes}
use ddrive.Storage.Rows.{Result, ok, err}
use ddrive.StreamEngine.Download.Maps.{get_in-set_in, get_in-filter, get_in-delete_in}
use ddrive.StreamEngine.Download.{
  StreamConfig, Engine, get_in, ChunkSource, Event, begins, settles, evicts, fetch_and_decrypt,
  begin_chunk, settle_chunk, schedule_eviction, prefetch_from, happen, happen_all,
  get_decrypted_chunk,
}

-- What holds of every chunk of the file that is fetched from this source.
abbrev pub IsHonest :
    (String → Bytes → Bytes → Option Bytes)
    → String
    → StreamConfig
    → (ℕ → Result Bytes → Type 0)
    → ChunkSource
    → Type 0
IsHonest subtle_decrypt file stream Good source =
    (ci : ℕ) → Good ci (fetch_and_decrypt subtle_decrypt file stream ci source)

module _ (subtle_decrypt : String → Bytes → Bytes → Option Bytes) (file : String)
    (stream : StreamConfig) (Good : ℕ → Result Bytes → Type 0) where
  -- The file is registered, and what the engine holds of it is good.
  pub record Coherent (e : Engine) : Type 0 where
    pub registered : lookup file e.streams ≡ some stream
    pub cached : (ci : ℕ) (b : Bytes) → get_in file ci e.chunk_cache ≡ some b → Good ci (ok b)
    pub pending : (ci : ℕ) (r : Result Bytes) → get_in file ci e.fetching ≡ some r → Good ci r

  -- Sources that are asked for the file meanwhile are honest.
  abbrev pub IsHonestEvent : Event → Type 0
  IsHonestEvent (begins source f ci) = IsHonest subtle_decrypt file stream Good source
  IsHonestEvent (settles f ci) = Unit
  IsHonestEvent (evicts f current) = Unit

  begin_chunk-Coherent :
      (e : Engine) (f : String) (ci : ℕ) (source : ChunkSource)
      → IsHonest subtle_decrypt file stream Good source
      → Coherent e
      → Coherent (begin_chunk subtle_decrypt e f ci source).0
        × (f ≡ file → Good ci (begin_chunk subtle_decrypt e f ci source).1)
  unfolding begin_chunk
  begin_chunk-Coherent e f ci source honest c = elim (Option-cases (get_in f ci e.chunk_cache)) [
    | inr (b, hit) ↦
        rw (hit, begin_chunk)
          (c, λ eq. c.cached ci b (subst (λ g. get_in g ci e.chunk_cache ≡ some b) eq hit))
    | inl miss ↦ elim (Option-cases (get_in f ci e.fetching)) [
      | inr (promise, at) ↦
          rw (miss, at, begin_chunk)
            (
              c,
              λ eq. c.pending ci promise (subst (λ g. get_in g ci e.fetching ≡ some promise) eq at),
            )
      | inl idle ↦ elim (Option-cases (lookup f e.streams)) [
        | inl absent ↦ rw (miss, idle, absent, begin_chunk) (c, λ eq. absurd (unknown absent eq))
        | inr (s, at) ↦
            let good : f ≡ file → Good ci (fetch_and_decrypt subtle_decrypt f s ci source) = λ eq.
              subst (Good ci)
                (ap₂ (λ g t. fetch_and_decrypt subtle_decrypt g t ci source) (sym eq)
                  (sym (stream_of at eq)))
                (honest ci) in
            rw (miss, idle, at, begin_chunk)
              (
                record {
                  registered = c.registered;
                  cached = c.cached;
                  pending = λ j r got. elim (get_in-set_in f file ci j _ r e.fetching got) [
                    | inl (eq, same, value) ↦
                        subst (λ i. Good i r) same (subst (Good ci) value (good eq))
                    | inr before ↦ c.pending j r before
                  ];
                },
                good,
              )
      ]
    ]
  ]
    where
      unknown : lookup f e.streams ≡ none → f ≡ file → ⊥
      unknown at eq =
          let reg = c.registered in
          let same : none ≡ some stream = sym at ∙ ap (λ g. lookup g e.streams) eq ∙ reg in cc

      stream_of : {s : StreamConfig} → lookup f e.streams ≡ some s → f ≡ file → s ≡ stream
      stream_of {s = s} at eq =
          let reg = c.registered in
          let same : some s ≡ some stream = sym at ∙ ap (λ g. lookup g e.streams) eq ∙ reg in cc

  settle_chunk-Coherent :
      (e : Engine) (f : String) (ci : ℕ)
      → Coherent e
      → Coherent (settle_chunk subtle_decrypt e f ci)
  unfolding settle_chunk
  settle_chunk-Coherent e f ci c = elim (Option-cases (get_in f ci e.fetching)) [
    | inl idle ↦ rw (idle, settle_chunk) c
    | inr (err why, at) ↦
        rw (at, settle_chunk)
          (record {
            registered = c.registered;
            cached = c.cached;
            pending = λ j r got. c.pending j r (get_in-delete_in f file ci j r e.fetching got);
          })
    | inr (ok decrypted, at) ↦
        rw (at, settle_chunk)
          (record {
            registered = c.registered;
            cached = λ j b got. elim (get_in-set_in f file ci j decrypted b e.chunk_cache got) [
              | inl (eq, same, value) ↦ c.pending j (ok b) (
                  subst (λ g. get_in g j e.fetching ≡ some (ok b)) eq
                    (ap (λ i. get_in f i e.fetching) (sym same) ∙ at ∙ ap (λ x. some (ok x)) value))
              | inr before ↦ c.cached j b before
            ];
            pending = λ j r got. c.pending j r (get_in-delete_in f file ci j r e.fetching got);
          })
  ]

  pub evict-Coherent :
      (e : Engine) (f : String) (current : ℕ)
      → Coherent e
      → Coherent (schedule_eviction subtle_decrypt e f current)
  unfolding schedule_eviction
  evict-Coherent e f current c = elim (Option-cases (lookup f e.streams)) [
    | inl absent ↦ rw (absent, schedule_eviction) c
    | inr (s, known) ↦ elim (Option-cases (lookup f e.chunk_cache)) [
      | inl absent ↦ rw (known, absent, schedule_eviction) c
      | inr (cache, at) ↦
          rw (known, at, schedule_eviction)
            (record {
              registered = c.registered;
              cached = λ j b got. c.cached j b (
                  get_in-filter (λ i. not (ltb (i + s.chunks_behind) current)) f file j b cache
                    e.chunk_cache at got);
              pending = c.pending;
            })
    ]
  ]

  happen-Coherent :
      (e : Engine) (v : Event) → IsHonestEvent v → Coherent e → Coherent (happen subtle_decrypt e v)
  unfolding happen
  happen-Coherent e (begins source f ci) h c = (begin_chunk-Coherent e f ci source h c).0
  happen-Coherent e (settles f ci) h c = settle_chunk-Coherent e f ci c
  happen-Coherent e (evicts f current) h c = evict-Coherent e f current c

  happen_all-Coherent :
      (e : Engine) (vs : List Event)
      → All IsHonestEvent vs
      → Coherent e
      → Coherent (happen_all subtle_decrypt e vs)
  unfolding happen_all
  happen_all-Coherent e [] h c = c
  happen_all-Coherent e (v ∷ vs) (h, hs) c =
      happen_all-Coherent (happen subtle_decrypt e v) vs hs (happen-Coherent e v h c)

  pub prefetch_from-Coherent :
      (e : Engine) (source : ChunkSource) (ci left : ℕ)
      → IsHonest subtle_decrypt file stream Good source
      → Coherent e
      → Coherent (prefetch_from subtle_decrypt e file source ci left)
  unfolding prefetch_from
  prefetch_from-Coherent e source ci zero h c = c
  prefetch_from-Coherent e source ci (suc left) h c =
      prefetch_from-Coherent (begin_chunk subtle_decrypt e file ci source).0 source (ci + 1) left h
        (begin_chunk-Coherent e file ci source h c).0

  -- What `getDecryptedChunk` gives is good, and the engine stays coherent.
  pub get_decrypted_chunk-Coherent :
      (e : Engine) (ci : ℕ) (source : ChunkSource) (meanwhile : List Event)
      → IsHonest subtle_decrypt file stream Good source
      → All IsHonestEvent meanwhile
      → Coherent e
      → Coherent (get_decrypted_chunk subtle_decrypt e file ci source meanwhile).0
        × Good ci (get_decrypted_chunk subtle_decrypt e file ci source meanwhile).1
  unfolding get_decrypted_chunk
  get_decrypted_chunk-Coherent e ci source meanwhile h hs c =
      let (c', good) = begin_chunk-Coherent e file ci source h c in
      (settle_chunk-Coherent _ file ci (happen_all-Coherent _ meanwhile hs c'), good refl)
