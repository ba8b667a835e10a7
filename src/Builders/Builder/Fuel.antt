-- ===== src/Builders/Builder/Fuel.antt =====
-- The rounds and the levels that `feed` is given are enough: more change nothing.
use cpp_redis.Prelude.{
  ℕ, zero, suc, ◌+◌, ◌≤◌, ◌<◌, true, Option, none, some, [], ◌∷◌, ◌≡◌, refl, arith, Bytes, length,
  Bool-cases, inl, inr, ap,
}
use cpp_redis.Error.{Result, ok, throw}
use cpp_redis.Builders.Fed.{Fed, Fetched}
use cpp_redis.Builders.Builder.{
  Builder, ArrayBuilder, Row, simple_string, error, integer, bulk_string, array, array_row, depth,
  create_builder, start_row, build_row, build_rows, after_row, array_size_known, fetch_array_size,
  feed_array, feed_builder, feed, row_fed,
}
use cpp_redis.Builders.Builder.Potential.{
  level, pending, Shrinks, build_row-RowShrinks, depth-create_builder, feed_builder-Shrinks,
}
use cpp_redis.Builders.Builder.LeafSizes.{fetch_array_size-shrinks}

-- Two versions of `operator<<` agree on all builders and buffers below a bound.
abbrev Agree : (rec rec' : Builder → Bytes → Fed Builder) → ℕ → Type 0
Agree rec rec' m =
    (b : Builder) (buffer : Bytes) → depth b + length buffer < m → rec b buffer ≡ rec' b buffer

after_row-eq :
    (next next' : ArrayBuilder → Option Builder → Bytes → Fed Builder) (r : Row)
    → (r.built ≡ true → next r.array r.current r.buffer ≡ next' r.array r.current r.buffer)
    → after_row next r ≡ after_row next' r
unfolding after_row
after_row-eq next next' r e = elim (Bool-cases r.built) [ inl b ↦ rw b (e b) | inr b ↦ rw b ]

pub pending-none : (c : Option Builder) → c ≡ none → pending c ≡ 0
pending-none none e = refl
pending-none (some c) e = cc

pub pending-le : (c : Option Builder) → pending c ≤ 1
pending-le none = omega arith
pending-le (some c) = omega arith

module _ (rec rec' : Builder → Bytes → Fed Builder) (m : ℕ) (same : Agree rec rec' m) where
  start_row-Agree :
      (a : ArrayBuilder) (id : ℕ) (rest : Bytes) (r : Result Builder)
      → ((c : Builder) → r ≡ ok c → depth c ≡ 0)
      → length rest < m
      → start_row rec a id rest r ≡ start_row rec' a id rest r
  unfolding start_row
  start_row-Agree a id rest (throw e) d h = refl
  start_row-Agree a id rest (ok c) d h = ap (row_fed a) (same c rest (omega (arith, d c refl)))

  build_row-Agree :
      (a : ArrayBuilder) (c : Option Builder) (x : ℕ) (buffer : Bytes)
      → level c + length (x ∷ buffer) ≤ m
      → build_row rec a c (x ∷ buffer) ≡ build_row rec' a c (x ∷ buffer)
  unfolding build_row
  build_row-Agree a none x buffer h =
      start_row-Agree a x buffer (create_builder x) (depth-create_builder x) (omega arith)
  build_row-Agree a (some c) x buffer h = ap (row_fed a) (same c (x ∷ buffer) (omega arith))

  module _ (shrinks : (b : Builder) (buffer : Bytes) → Shrinks b buffer (rec b buffer)) where
    -- With enough rounds on both sides the loops agree.
    pub build_rows-Agree :
        (n n' : ℕ) (a : ArrayBuilder) (c : Option Builder) (buffer : Bytes)
        → level c + length buffer ≤ m
        → length buffer + pending c < n
        → length buffer + pending c < n'
        → build_rows rec n a c buffer ≡ build_rows rec' n' a c buffer
    unfolding build_rows after_row
    build_rows-Agree zero n' a c buffer h k k' = absurd (omega arith)
    build_rows-Agree (suc n) zero a c buffer h k k' = absurd (omega arith)
    build_rows-Agree (suc n) (suc n') a c [] h k k' = refl
    build_rows-Agree (suc n) (suc n') a c (x ∷ buffer) h k k' =
        let r = build_row rec a c (x ∷ buffer) in
        let s = build_row-RowShrinks rec shrinks a c x buffer in
        ground (
          arith,
          build_row-Agree a c x buffer h,
          after_row-eq (build_rows rec n) (build_rows rec' n') r (λ b.
              build_rows-Agree n n' r.array r.current r.buffer (omega (arith, s.levels))
                (omega (arith, s.consumed b, pending-none r.current (s.emptied b)))
                (omega (arith, s.consumed b, pending-none r.current (s.emptied b)))),
        )

    array_size_known-Agree :
        (c : Option Builder) (r : Fetched ArrayBuilder)
        → level c + length r.fed.buffer ≤ m
        → array_size_known rec c r ≡ array_size_known rec' c r
    unfolding array_size_known
    array_size_known-Agree c r h =
        let n = suc (suc (length r.fed.buffer)) in
        ground (arith, pending-le c, build_rows-Agree n n r.fed.builder c r.fed.buffer)

    feed_array-Agree :
        (a : ArrayBuilder) (c : Option Builder) (buffer : Bytes)
        → level c + length buffer ≤ m
        → feed_array rec a c buffer ≡ feed_array rec' a c buffer
    unfolding feed_array
    feed_array-Agree a c buffer h = ground (
      arith,
      fetch_array_size-shrinks a buffer,
      array_size_known-Agree c (fetch_array_size a buffer),
    )

-- Any two numbers of levels that suffice give the same result.
pub feed_builder-Agree :
    (f f' : ℕ) (b : Builder) (buffer : Bytes)
    → depth b + length buffer < f
    → depth b + length buffer < f'
    → feed_builder f b buffer ≡ feed_builder f' b buffer
unfolding feed_builder
feed_builder-Agree zero f' b buffer h h' = absurd (omega arith)
feed_builder-Agree (suc f) zero b buffer h h' = absurd (omega arith)
feed_builder-Agree (suc f) (suc f') (simple_string b) buffer h h' = refl
feed_builder-Agree (suc f) (suc f') (error b) buffer h h' = refl
feed_builder-Agree (suc f) (suc f') (integer b) buffer h h' = refl
feed_builder-Agree (suc f) (suc f') (bulk_string b) buffer h h' = refl
feed_builder-Agree (suc f) (suc f') (array a) buffer h h' =
    feed_array-Agree (feed_builder f) (feed_builder f') (length buffer)
      (λ b buffer lt. feed_builder-Agree f f' b buffer (omega arith) (omega arith))
      (feed_builder-Shrinks f) a none buffer (omega arith)
feed_builder-Agree (suc f) (suc f') (array_row a c) buffer h h' =
    feed_array-Agree (feed_builder f) (feed_builder f') (suc (depth c) + length buffer)
      (λ b buffer lt. feed_builder-Agree f f' b buffer (omega arith) (omega arith))
      (feed_builder-Shrinks f) a (some c) buffer (omega arith)

pub feed_lem :
    (f : ℕ) (b : Builder) (buffer : Bytes)
    → depth b + length buffer < f
    → feed b buffer ≡ feed_builder f b buffer
unfolding feed
feed_lem f b buffer h =
    feed_builder-Agree (suc (depth b + length buffer)) f b buffer (omega arith) h
