-- ===== src/Execution/Accumulator/Bounded.antt =====
-- What stays in the buffer between two chunks.
use llm_router.Observability.Models.{UsageBreakdown}
use llm_router.Observability.Usage.{is_complete, is_invalid}
use llm_router.Execution.Accumulator.{
  bound, observe_event, drain, Accumulator, cut_off, delimiter, max_usage_event_bytes,
  extract_usage, terminal_outcome, merge_fragment, is_complete, as_partial, UsageBreakdown, feed,
  is_invalid,
}
use llm_router.Domain.{Protocol}
use llm_router.Common.Json.{Json}
use llm_router.Execution.Sse.{
  Bytes, earlier, delimiter, find, extract_usage, starts_with, terminal_outcome,
}
use llm_router.Common.{
  List, ℕ, length, Option, drop, ◌≡◌, ◌≤◌, [], some, ◌-◌, arith, ◌∷◌, refl, zero, none, ◌⊎◌,
  Option-cases, inl, inr, take, ◌+◌, subst, if◌then◌else◌, ap, ◌&&◌, sym, ltb, if_inv, ◌++◌,
}
use Prim.Native.Nat.{ℕ, suc}
use llm_router.Common.Options.{some_inv, some_value, no_value}

length-drop : {A : Type 0} (n : ℕ) (xs : List A) → length (drop n xs) ≡ length xs - n
length-drop zero xs = omega arith
length-drop (suc n) [] = omega arith
length-drop (suc n) (x ∷ xs) = omega (arith, length-drop n xs)

nothing_left : {A : Type 0} (xs : List A) → length xs ≤ 0 → xs ≡ []
nothing_left [] h = refl
nothing_left (x ∷ xs) h = absurd (omega arith)

earlier_size : (m n : Option ℕ) (index size : ℕ) → earlier m n ≡ some (index, size) → 2 ≤ size
unfolding earlier
earlier_size m n index size h = ground arith

delimiter_size : (b : Bytes) (index size : ℕ) → delimiter b ≡ some (index, size) → 2 ≤ size
unfolding delimiter
delimiter_size b index size h =
    earlier_size (find (10 ∷ 10 ∷ []) b) (find (13 ∷ 10 ∷ 13 ∷ 10 ∷ []) b) index size h

delimiter_nil : delimiter [] ≡ none
unfolding delimiter find starts_with earlier
delimiter_nil = refl

module _ (loads : Bytes → Option Json) (protocol : Protocol) where
  observe_event-buffer :
      (event : Bytes) (a b : Accumulator)
      → observe_event loads protocol event a ≡ some b
      → b.buffer ≡ a.buffer
  unfolding observe_event
  observe_event-buffer event a b h =
      let (f, e1, h1) = some_inv (extract_usage loads protocol event) _ h in
      let (o, e2, h2) = some_inv (terminal_outcome loads protocol event) _ h1 in
      let (u, e3, h3) = some_inv (merge_fragment a.usage f) _ h2 in
      sym (ap (λ (x : Accumulator). x.buffer) (some_value h3))

  -- Enough rounds leave no complete event.
  drain_complete :
      (rounds : ℕ) (a b : Accumulator)
      → length a.buffer ≤ rounds
      → drain loads protocol rounds a ≡ some b
      → delimiter b.buffer ≡ none
  unfolding drain
  drain_complete zero a b le h =
      subst (λ (x : Accumulator). delimiter x.buffer ≡ none) (some_value h)
        (rw (nothing_left a.buffer le) delimiter_nil)
  drain_complete (suc rounds) a b le h = elim (Option-cases (delimiter a.buffer)) [
    | inl e ↦
        subst (λ (x : Accumulator). delimiter x.buffer ≡ none) (some_value (rw (e, drain) at h)) e
    | inr ((index, size), e) ↦
        elim (Option-cases (
          observe_event loads protocol (take (index + size) a.buffer)
            (record a { buffer = drop (index + size) a.buffer }))) [
              | inl f ↦ no_value (rw (e, f, drain) at h)
              | inr (c, f) ↦
                  drain_complete rounds c b
                    (omega (
                      arith,
                      le,
                      length-drop (index + size) a.buffer,
                      delimiter_size a.buffer index size e,
                      ap (λ (x : Bytes). length x)
                          (observe_event-buffer (take (index + size) a.buffer)
                            (record a { buffer = drop (index + size) a.buffer }) c f),
                    ))
                    (rw (e, f, drain) at h)
            ]
  ]

  cut_off_buffer :
      (a b : Accumulator) (usage : UsageBreakdown) → cut_off a usage ≡ some b → b.buffer ≡ []
  unfolding cut_off
  cut_off_buffer a b usage h =
      let (cut, e, h1) =
        some_inv (if is_invalid usage.status then some usage else as_partial usage) _ h in
      sym (ap (λ (x : Accumulator). x.buffer) (some_value h1))

  bound_buffer :
      (a b : Accumulator)
      → bound a ≡ some b
      → ((b.buffer ≡ a.buffer) × (length a.buffer ≤ max_usage_event_bytes)) ⊎ (b.buffer ≡ [])
  unfolding bound
  bound_buffer a b h =
      let (usage, e, h1) =
        some_inv
          (if a.overflowed && is_complete a.usage.status then as_partial a.usage else some a.usage)
          _ h in
      elim (if_inv (ltb max_usage_event_bytes (length a.buffer)) h1) [
        | inl (big, cut) ↦ inr (cut_off_buffer a b usage cut)
        | inr (small, kept) ↦
            inl (sym (ap (λ (x : Accumulator). x.buffer) (some_value kept)), ground arith)
      ]

  -- After each chunk, however the bytes are cut into chunks, the buffer holds no complete event, so the
  -- rounds of the loop suffice, and it holds no more than the bound of an event.
  pub feed-bounded :
      (a b : Accumulator) (chunk : Bytes)
      → feed loads protocol a chunk ≡ some b
      → (delimiter b.buffer ≡ none) × (length b.buffer ≤ max_usage_event_bytes)
  unfolding feed
  feed-bounded a b chunk h =
      let (c, drained, h1) =
        some_inv
          (drain loads protocol (length (a.buffer ++ chunk))
            (record a { buffer = a.buffer ++ chunk }))
          _ h in
      let complete =
        drain_complete (length (a.buffer ++ chunk)) (record a { buffer = a.buffer ++ chunk }) c
          (omega arith) drained in
      elim (bound_buffer c b h1) [
        | inl (same, le) ↦ (rw (same) complete, rw (same) le)
        | inr empty ↦ (rw (empty) delimiter_nil, rw (empty) (omega arith))
      ]
