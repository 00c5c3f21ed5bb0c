-- ===== src/Generate/Stream.antt =====
-- crates/burn-lm-llama/src/generation/context.rs and streaming.rs: the decoder thread of a sequence,
-- which turns tokens into text. The tokenizer is a parameter; text is its UTF-8 bytes. The channel to
-- the thread is the list of the tokens sent, which the thread has gone through when `finish` joins it. A
-- tokenizer may panic (`none`), which ends the thread and drops its receiver.
use burn_lm.Prelude.{
  ℕ, ◌-◌, ◌≡◌, refl, inl, inr, Bool, Bool-cases, ◌>>=◌, true, false, not, ◌&&◌, ◌||◌, List, [], ◌∷◌,
  ◌++◌, Option, none, some, ltb, leb, ◌==◌, if◌then◌else◌, length, get_elem?, take, drop,
}

pub record Tokenizer : Type 0 where
  pub decode : List ℕ → Option (List ℕ)
  pub streaming_context_size : ℕ

pub record GenerationContext : Type 0 where
  pub emitter : ℕ
  pub sent : List ℕ

-- `send(token).unwrap()`, which panics if the thread is gone.
unfoldable pub update : Bool → GenerationContext → ℕ → Option GenerationContext
update true context token = none
update false context token = some (record context { sent = context.sent ++ token ∷ [] })

-- Without the tokenizer, its context size and the overlap, which do not change.
pub record StreamingDecoder : Type 0 where
  pub buffer : List ℕ
  pub emitted_tokens : ℕ

abbrev pub context_overlap : ℕ
context_overlap = 2

abbrev pub new_decoder : StreamingDecoder
new_decoder = record { buffer = []; emitted_tokens = 0 }

-- `str::is_char_boundary`
unfoldable pub is_char_boundary : List ℕ → ℕ → Bool
is_char_boundary s i =
    i == 0 || elim (get_elem? s i) [ none ↦ i == length s | some b ↦ not (leb 128 b && ltb b 192) ]

-- `decoded.get(from..)`
unfoldable pub get_from : List ℕ → ℕ → Option (List ℕ)
unfolding is_char_boundary
get_from s i = if is_char_boundary s i then some (drop i s) else none

unfoldable pub emit : StreamingDecoder → Option (List ℕ) → StreamingDecoder × Option (List ℕ)
emit d none = (d, none)
emit d (some []) = (d, none)
emit d (some (b ∷ bytes)) = (record d { emitted_tokens = length d.buffer }, some (b ∷ bytes))

module _ (T : Tokenizer) where
  open T use {decode, streaming_context_size}

  -- `none` is a panic of the tokenizer.
  unfoldable pub push_tokens :
      StreamingDecoder → List ℕ → Option (StreamingDecoder × Option (List ℕ))
  unfolding get_from emit
  push_tokens d new_tokens =
      if streaming_context_size == 0
      then (decode new_tokens >>= λ text. some (d, some text))
      else let d' = record d { buffer = d.buffer ++ new_tokens } in
        if ltb (length d'.buffer - d'.emitted_tokens) streaming_context_size
        then some (d', none)
        else let overlap_start = d'.emitted_tokens - context_overlap in
          let overlap = take (d'.emitted_tokens - overlap_start) (drop overlap_start d'.buffer) in
          decode (drop overlap_start d'.buffer) >>= λ decoded. decode overlap >>= λ overlap_decoded.
          some (emit d' (get_from decoded (length overlap_decoded)))

  abbrev pub prepend : Option (List ℕ) → List (List ℕ) → List (List ℕ)
  prepend none texts = texts
  prepend (some s) texts = s ∷ texts

  -- `TokenGeneration::process` for each token: the texts emitted, in order, and whether the thread
  -- panicked.
  unfoldable pub process_all : StreamingDecoder → List ℕ → List (List ℕ) × Bool
  unfolding push_tokens
  process_all d [] = ([], false)
  process_all d (token ∷ tokens) = elim (push_tokens d (token ∷ [])) [
    | none ↦ ([], true)
    | some (d', text) ↦
        let (texts, panicked) = process_all d' tokens in (prepend text texts, panicked)
  ]

  unfoldable pub panics : List ℕ → Bool
  unfolding process_all
  panics sent = (process_all new_decoder sent).1

  -- `finish`: the texts, and the count that the thread has stored. `join().unwrap()` panics if the
  -- thread did.
  unfoldable pub finish : GenerationContext → Option (List (List ℕ) × ℕ)
  unfolding panics process_all
  finish context =
      if panics context.sent
      then none
      else some ((process_all new_decoder context.sent).0, length context.sent)

  -- No input makes the tokenizer panic.
  abbrev pub IsTotal : Type 0
  IsTotal = (tokens : List ℕ) → (text : List ℕ) × (decode tokens ≡ some text)

  push_tokens_total :
      IsTotal
      → (d : StreamingDecoder) (new : List ℕ)
      → (out : StreamingDecoder × Option (List ℕ)) × (push_tokens d new ≡ some out)
  unfolding push_tokens
  push_tokens_total total d new = elim (Bool-cases (streaming_context_size == 0)) [
    | inl plain ↦ let (text, e) = total new in ((d, some text), rw (plain, e) refl)
    | inr buffered ↦
        let d' : StreamingDecoder = record d { buffer = d.buffer ++ new } in
        elim (Bool-cases (ltb (length d'.buffer - d'.emitted_tokens) streaming_context_size)) [
          | inl few ↦ ((d', none), rw (buffered, few) refl)
          | inr many ↦
              let from = d'.emitted_tokens - context_overlap in
              let overlap = take (d'.emitted_tokens - from) (drop from d'.buffer) in
              let (decoded, e) = total (drop from d'.buffer) in
              let (overlap_decoded, f) = total overlap in
              (emit d' (get_from decoded (length overlap_decoded)), rw (buffered, many, e, f) refl)
        ]
  ]

  process_all_total :
      IsTotal → (d : StreamingDecoder) (tokens : List ℕ) → (process_all d tokens).1 ≡ false
  unfolding process_all
  process_all_total total d [] = refl
  process_all_total total d (token ∷ tokens) =
      let (out, e) = push_tokens_total total d (token ∷ []) in
      rw (process_all, e) (process_all_total total out.0 tokens)

  -- With a tokenizer that never panics a thread does not either, and can be joined.
  pub panics_total : IsTotal → (sent : List ℕ) → panics sent ≡ false
  unfolding panics
  panics_total total sent = process_all_total total new_decoder sent

  pub finish_total :
      IsTotal
      → (context : GenerationContext) → (out : List (List ℕ) × ℕ) × (finish context ≡ some out)
  unfolding finish
  finish_total total context = (
    ((process_all new_decoder context.sent).0, length context.sent),
    rw (panics_total total context.sent) refl,
  )
