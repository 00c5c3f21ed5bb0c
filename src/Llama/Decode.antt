-- ===== src/Llama/Decode.antt =====
-- The contract of the decoder: what `prefill`, `decode` and `release` make of the lanes.
use burn_lm.Prelude.{
  ℕ, ◌+◌, ◌<◌, ◌≤◌, ◌≡◌, ◌≢◌, ◌⊎◌, inl, inr, refl, sym, ap, ◌∙◌, subst, List, [], ◌∷◌, some, arith,
  map, length, get_elem?, All, Distinct, mem, true, false, ◌==◌, ==_iff, Bool-cases, get_elem?_kept,
}
use burn_lm.Pool.{ok, err}
use burn_lm.Pool.Invariant.{Consistent}
use burn_lm.Pool.Round.{Advanced}
use burn_lm.Engine.{InferenceResult, DecodeRow}
use burn_lm.Store.{ℤ, as_i32}
use burn_lm.Cache.{PagedKvCache, PagedKvError}
use burn_lm.Cache.Prepare.{prepare_lanes_cases}
use burn_lm.Cache.Reset.{reset_lane_lem}
use burn_lm.Llama.{
  Network, LlamaDecoder, forward_lanes, error_of, clear_lane, begin_prefill, prefill, decode,
  release,
}

module _ (N : Network) where
  open N use {Kv, Logits}

  -- What a forward over `lanes` of `n` new positions each makes of the cache.
  pub record Forwarded (c : PagedKvCache) (lanes : List ℕ) (n : ℕ) (c' : PagedKvCache)
      : Type 0 where
    pub consistent : Consistent c'.pool
    pub same_layout : c'.layout ≡ c.layout
    pub longer : Advanced c.pool.lens n lanes c'.pool.lens
    pub in_window :
        (lane len : ℕ)
        → mem lane lanes ≡ true
        → get_elem? c'.pool.lens lane ≡ some len
        → len ≤ c.layout.max_seq_len

  -- What a forward that failed leaves.
  pub record Untouched (c c' : PagedKvCache) : Type 0 where
    pub consistent : Consistent c'.pool
    pub same_layout : c'.layout ≡ c.layout
    pub same_tables : c'.pool.tables ≡ c.pool.tables
    pub same_lens : c'.pool.lens ≡ c.pool.lens

  -- The ways that a call ends.
  abbrev pub Ends : PagedKvCache → List ℕ → ℕ → LlamaDecoder N × InferenceResult Logits → Type 0
  Ends c lanes n out =
      ((l : Logits) × (out.1 ≡ ok l) × Forwarded c lanes n out.0.cache)
      ⊎ ((e : PagedKvError) × (out.1 ≡ err (error_of e)) × Untouched c out.0.cache)

  forward_lanes_lem :
      (d : LlamaDecoder N) (n lane : ℕ) (lanes : List ℕ) (input : List (List ℤ))
      → Consistent d.cache.pool
      → All (λ l. l < length d.cache.pool.lens) (lane ∷ lanes)
      → Distinct (lane ∷ lanes)
      → (n == 0) ≡ false
      → (out : LlamaDecoder N × InferenceResult Logits) × (forward_lanes N d (lane ∷ lanes) input n
          ≡ some out)
        × Ends d.cache (lane ∷ lanes) n out
  unfolding forward_lanes
  forward_lanes_lem d n lane lanes input g inside apart fed =
      elim (prepare_lanes_cases d.cache n lane lanes g inside apart) [
        | inl (c', plan, run, r) ↦
            let out = N.forward_lanes d.kv input plan in
            (
              (record { kv = out.0; cache = c' }, ok (out.1)),
              rw (run, fed) refl,
              inl (
                out.1,
                refl,
                record {
                  consistent = r.consistent;
                  same_layout = r.same_layout;
                  longer = r.committed.lens;
                  in_window = r.in_window;
                },
              ),
            )
        | inr (c', e, run, tables, lens, good, layout) ↦ (
          (record { kv = d.kv; cache = c' }, err (error_of e)),
          rw run refl,
          inr (
            e,
            refl,
            record {
              consistent = good;
              same_layout = layout;
              same_tables = tables;
              same_lens = lens;
            },
          ),
        )
      ]

  abbrev pub slots_of : List DecodeRow → List ℕ
  slots_of rows = map (λ (r : DecodeRow). r.slot) rows

  -- A fused decode over one row or more, of different slots in range, never panics: it makes each of
  -- their lanes one position longer, within the context, and leaves the others; or it is an error, and
  -- every table and length is as it was.
  pub decode_lem :
      (d : LlamaDecoder N) (row : DecodeRow) (rows : List DecodeRow)
      → Consistent d.cache.pool
      → All (λ l. l < length d.cache.pool.lens) (slots_of (row ∷ rows))
      → Distinct (slots_of (row ∷ rows))
      → (out : LlamaDecoder N × InferenceResult Logits) × (decode N d (row ∷ rows) ≡ some out)
        × Ends d.cache (slots_of (row ∷ rows)) 1 out
  unfolding decode
  decode_lem d row rows g inside apart =
      forward_lanes_lem d 1 row.slot (slots_of rows) _ g inside apart refl

  -- Where a prefill starts from.
  record Begun (c : PagedKvCache) (slot position : ℕ) (c' : PagedKvCache) : Type 0 where
    consistent : Consistent c'.pool
    starts : get_elem? c'.pool.lens slot ≡ some position
    others : (i : ℕ) → slot ≢ i → get_elem? c'.pool.lens i ≡ get_elem? c.pool.lens i
    same_count : length c'.pool.lens ≡ length c.pool.lens
    same_layout : c'.layout ≡ c.layout

  begin_prefill_lem :
      (d : LlamaDecoder N) (slot position len : ℕ)
      → Consistent d.cache.pool
      → slot < length d.cache.pool.lens
      → get_elem? d.cache.pool.lens slot ≡ some len
      → (position ≡ 0) ⊎ (position ≡ len)
      → (d' : LlamaDecoder N) × (begin_prefill N d slot position ≡ some d')
        × Begun d.cache slot position d'.cache
  unfolding begin_prefill clear_lane
  begin_prefill_lem d slot position len g inside at where_from = elim (Bool-cases (position == 0)) [
    | inl first ↦
        let (c', run, r) = reset_lane_lem d.cache slot g inside in
        let zero_at : position ≡ 0 = (==_iff position 0).0 first in
        (
          record d { cache = c' },
          rw (first, run) refl,
          record {
            consistent = r.consistent;
            starts = r.emptied ∙ ap some (sym zero_at);
            others = r.others;
            same_count = r.same_count;
            same_layout = r.same_layout;
          },
        )
    | inr later ↦
        let same : position ≡ len = elim where_from [
          | inl zero_at ↦ absurd (ground arith)
          | inr eq ↦ eq
        ] in
        (
          d,
          rw later refl,
          record {
            consistent = g;
            starts = at ∙ ap some (sym same);
            others = λ i ne. refl;
            same_count = refl;
            same_layout = refl;
          },
        )
  ]

  -- A cache in which the lane has `len` positions, and the other lanes have as many as in `c`.
  pub record Filled (c : PagedKvCache) (slot len : ℕ) (c' : PagedKvCache) : Type 0 where
    pub consistent : Consistent c'.pool
    pub filled : get_elem? c'.pool.lens slot ≡ some len
    pub others : (i : ℕ) → slot ≢ i → get_elem? c'.pool.lens i ≡ get_elem? c.pool.lens i
    pub same_layout : c'.layout ≡ c.layout

  mem-singleton : (i : ℕ) → mem i (i ∷ []) ≡ true
  mem-singleton i = ground arith

  mem-singleton_ne : (i slot : ℕ) → slot ≢ i → mem i (slot ∷ []) ≡ false
  mem-singleton_ne i slot ne = ground arith

  Filled-Forwarded :
      (c c' c'' : PagedKvCache) (slot position n : ℕ)
      → Begun c slot position c'
      → Forwarded c' (slot ∷ []) n c''
      → Filled c slot (position + n) c''
  Filled-Forwarded c c' c'' slot position n b f = record {
    consistent = f.consistent;
    filled = f.longer.longer slot position b.starts (mem-singleton slot);
    others = λ i ne.
        get_elem?_kept c'.pool.lens c''.pool.lens i f.longer.same_count
          (λ len e. f.longer.kept i len e (mem-singleton_ne i slot ne))
        ∙ b.others i ne;
    same_layout = f.same_layout ∙ b.same_layout;
  }

  Filled-Untouched :
      (c c' c'' : PagedKvCache) (slot position : ℕ)
      → Begun c slot position c'
      → Untouched c' c''
      → Filled c slot position c''
  Filled-Untouched c c' c'' slot position b u = record {
    consistent = u.consistent;
    filled = ap (λ l. get_elem? l slot) u.same_lens ∙ b.starts;
    others = λ i ne. ap (λ l. get_elem? l i) u.same_lens ∙ b.others i ne;
    same_layout = u.same_layout ∙ b.same_layout;
  }

  -- The ways that a prefill ends.
  abbrev pub Prefills : PagedKvCache → ℕ → ℕ → ℕ → LlamaDecoder N × InferenceResult Logits → Type 0
  Prefills c slot position n out =
      ((l : Logits) × (out.1 ≡ ok l)
        × Filled c slot (position + n) out.0.cache
        × (position + n ≤ c.layout.max_seq_len))
      ⊎ ((e : PagedKvError) × (out.1 ≡ err (error_of e)) × Filled c slot position out.0.cache)

  -- A prefill of one token or more into a lane in range, from position 0 or from the end of the lane,
  -- never panics. The lane then has `position` plus the number of tokens as its length, within the
  -- context; or it is an error, and the lane has `position` positions. The other lanes keep theirs.
  pub prefill_lem :
      (d : LlamaDecoder N) (slot position len : ℕ) (tokens : List ℕ)
      → Consistent d.cache.pool
      → slot < length d.cache.pool.lens
      → get_elem? d.cache.pool.lens slot ≡ some len
      → (position ≡ 0) ⊎ (position ≡ len)
      → (length tokens == 0) ≡ false
      → (out : LlamaDecoder N × InferenceResult Logits) × (prefill N d slot tokens position
          ≡ some out)
        × Prefills d.cache slot position (length tokens) out
  unfolding prefill
  prefill_lem d slot position len tokens g inside at where_from fed =
      let (d', begun, b) = begin_prefill_lem d slot position len g inside at where_from in
      let here : slot < length d'.cache.pool.lens = rw b.same_count inside in
      let (out, run, ends) =
        forward_lanes_lem d' (length tokens) slot [] (map as_i32 tokens ∷ []) b.consistent
          (here, tt) ((refl, tt)) fed in
      (
        out,
        rw begun run,
        elim ends [
          | inl (l, e, f) ↦
              let r =
                Filled-Forwarded d.cache d'.cache out.0.cache slot position (length tokens) b f in
              inl (
                l,
                e,
                r,
                subst (λ layout. position + length tokens ≤ layout.max_seq_len) b.same_layout
                    (f.in_window slot _ (mem-singleton slot) r.filled),
              )
          | inr (x, e, u) ↦
              inr (x, e, Filled-Untouched d.cache d'.cache out.0.cache slot position b u)
        ],
      )

  -- A released lane in range is empty, and the other lanes keep their lengths.
  pub release_lem :
      (d : LlamaDecoder N) (slot : ℕ)
      → Consistent d.cache.pool
      → slot < length d.cache.pool.lens
      → (d' : LlamaDecoder N) × (release N d slot ≡ some d')
        × Filled d.cache slot 0 d'.cache
        × (d'.kv ≡ d.kv)
  unfolding release clear_lane
  release_lem d slot g inside =
      let (c', run, r) = reset_lane_lem d.cache slot g inside in
      (
        record d { cache = c' },
        rw run refl,
        record {
          consistent = r.consistent;
          filled = r.emptied;
          others = r.others;
          same_layout = r.same_layout;
        },
        refl,
      )
