-- ===== src/Builders/Builder/Potential.antt =====
-- A call of `operator<<` never grows the buffer, and each level of arrays that it opens costs a byte.
use cpp_redis.Prelude.{
  zero, suc, ℕ, ◌+◌, ◌≤◌, Option, none, some, arith, Bytes, length, ◌≡◌, ap, Bool-cases, inl, refl,
  inr, [],
}
use cpp_redis.Builders.Fed.{Fetched}
use cpp_redis.Builders.Builder.{
  ArrayBuilder, fetch_array_size, create_builder, row_fed, Builder, suc, Fed, Row, depth,
  build_rows, start_row, build_row, with_current, true, ok, ◌∷◌, Result, throw, after_row,
  feed_array, feed_builder, array_size_known, simple_string, error, integer, bulk_string, array,
  array_row,
}
use cpp_redis.Builders.Builder.LeafSizes.{
  feed_integer-shrinks, feed_simple_string-shrinks, feed_error-shrinks, feed_bulk_string-shrinks,
  fetch_array_size-shrinks,
}

-- The levels that an array builder has open below its own.
abbrev pub level : Option Builder → ℕ
level none = 0
level (some c) = suc (depth c)

-- 1 if there is a current builder.
abbrev pub pending : Option Builder → ℕ
pending none = 0
pending (some c) = 1

abbrev pub Shrinks : Builder → Bytes → Fed Builder → Type 0
Shrinks b buffer f =
    (length f.buffer ≤ length buffer)
    × (depth f.builder + length f.buffer ≤ depth b + length buffer)

pub depth-with_current :
    (a : ArrayBuilder) (c : Option Builder) → depth (with_current a c) ≡ level c
depth-with_current a none = refl
depth-with_current a (some c) = refl

-- A new builder has no level open.
pub depth-create_builder : (id : ℕ) (c : Builder) → create_builder id ≡ ok c → depth c ≡ 0
unfolding create_builder
depth-create_builder id c h = ground arith

-- A row that was built leaves no current builder.
pub row_fed-built :
    (a : ArrayBuilder) (f : Fed Builder) → (row_fed a f).built ≡ true → (row_fed a f).current ≡ none
unfolding row_fed
row_fed-built a f h = ground arith

row_fed-returns :
    (a : ArrayBuilder) (f : Fed Builder) → (row_fed a f).built ≡ true → (row_fed a f).thrown ≡ none
unfolding row_fed
row_fed-returns a f h = ground arith

row_fed-level :
    (a : ArrayBuilder) (f : Fed Builder) → level (row_fed a f).current ≤ suc (depth f.builder)
unfolding row_fed
row_fed-level a f = ground arith

row_fed-buffer : (a : ArrayBuilder) (f : Fed Builder) → (row_fed a f).buffer ≡ f.buffer
unfolding row_fed
row_fed-buffer a f = ground arith

-- What a round of the loop may leave, of a current builder and a buffer.
pub record RowShrinks (c : Option Builder) (buffer : Bytes) (r : Row) : Type 0 where
  pub shorter : length r.buffer ≤ length buffer
  pub levels : level r.current + length r.buffer ≤ level c + length buffer
  pub emptied : r.built ≡ true → r.current ≡ none
  pub consumed : r.built ≡ true → length r.buffer + 1 ≤ length buffer + pending c
  pub eaten : r.thrown ≡ none → length r.buffer + 1 ≤ length buffer + pending c
  pub returns : r.built ≡ true → r.thrown ≡ none

module _ (rec : Builder → Bytes → Fed Builder)
    (h : (b : Builder) (buffer : Bytes) → Shrinks b buffer (rec b buffer)) where
  fed_row-RowShrinks :
      (a : ArrayBuilder) (c : Builder) (buffer : Bytes)
      → RowShrinks (some c) buffer (row_fed a (rec c buffer))
  fed_row-RowShrinks a c buffer = record {
    shorter = omega (arith, h c buffer, ap length (row_fed-buffer a (rec c buffer)));
    levels = omega (
      arith,
      h c buffer,
      row_fed-level a (rec c buffer),
      ap length (row_fed-buffer a (rec c buffer)),
    );
    emptied = row_fed-built a (rec c buffer);
    consumed = λ _. omega (arith, h c buffer, ap length (row_fed-buffer a (rec c buffer)));
    eaten = λ _. omega (arith, h c buffer, ap length (row_fed-buffer a (rec c buffer)));
    returns = row_fed-returns a (rec c buffer);
  }

  start_row-RowShrinks :
      (a : ArrayBuilder) (id : ℕ) (rest : Bytes) (r : Result Builder)
      → ((c : Builder) → r ≡ ok c → depth c ≡ 0)
      → RowShrinks none (id ∷ rest) (start_row rec a id rest r)
  unfolding start_row
  start_row-RowShrinks a id rest (throw e) d = record {
    shorter = omega arith;
    levels = omega arith;
    emptied = λ b. refl;
    consumed = λ b. cc;
    eaten = λ t. cc;
    returns = λ b. cc;
  }
  start_row-RowShrinks a id rest (ok c) d =
      let s = fed_row-RowShrinks a c rest in
      record {
        shorter = omega (arith, s.shorter);
        levels = omega (arith, s.levels, d c refl);
        emptied = s.emptied;
        consumed = λ b. omega (arith, s.shorter);
        eaten = λ t. omega (arith, s.shorter);
        returns = s.returns;
      }

  pub build_row-RowShrinks :
      (a : ArrayBuilder) (c : Option Builder) (x : ℕ) (buffer : Bytes)
      → RowShrinks c (x ∷ buffer) (build_row rec a c (x ∷ buffer))
  unfolding build_row
  build_row-RowShrinks a (some c) x buffer = fed_row-RowShrinks a c (x ∷ buffer)
  build_row-RowShrinks a none x buffer =
      start_row-RowShrinks a x buffer (create_builder x) (depth-create_builder x)

  after_row-Shrinks :
      (next : ArrayBuilder → Option Builder → Bytes → Fed Builder) (r : Row) (a : ArrayBuilder)
      (c : Option Builder) (buffer : Bytes)
      → Shrinks (with_current r.array r.current) r.buffer (next r.array r.current r.buffer)
      → RowShrinks c buffer r
      → Shrinks (with_current a c) buffer (after_row next r)
  unfolding after_row
  after_row-Shrinks next r a c buffer n s = elim (Bool-cases r.built) [
    | inl b ↦ rw b (
        omega (
          arith,
          s.shorter,
          s.levels,
          depth-with_current r.array r.current,
          depth-with_current a c,
        ))
    | inr b ↦ rw b (
        omega (
          arith,
          s.shorter,
          s.levels,
          depth-with_current r.array r.current,
          depth-with_current a c,
        ))
  ]

  build_rows-Shrinks :
      (n : ℕ) (a : ArrayBuilder) (c : Option Builder) (buffer : Bytes)
      → Shrinks (with_current a c) buffer (build_rows rec n a c buffer)
  unfolding build_rows
  build_rows-Shrinks zero a c buffer = omega arith
  build_rows-Shrinks (suc n) a c [] = omega arith
  build_rows-Shrinks (suc n) a c (x ∷ buffer) =
      let r = build_row rec a c (x ∷ buffer) in
      ground (
        arith,
        after_row-Shrinks (build_rows rec n) r a c (x ∷ buffer)
            (build_rows-Shrinks n r.array r.current r.buffer) (build_row-RowShrinks a c x buffer),
      )

  array_size_known-Shrinks :
      (c : Option Builder) (r : Fetched ArrayBuilder)
      → Shrinks (with_current r.fed.builder c) r.fed.buffer (array_size_known rec c r)
  unfolding array_size_known
  array_size_known-Shrinks c r =
      ground
        (arith, build_rows-Shrinks (suc (suc (length r.fed.buffer))) r.fed.builder c r.fed.buffer)

  feed_array-Shrinks :
      (a : ArrayBuilder) (c : Option Builder) (buffer : Bytes)
      → Shrinks (with_current a c) buffer (feed_array rec a c buffer)
  unfolding feed_array
  feed_array-Shrinks a c buffer = ground (
    arith,
    array_size_known-Shrinks c (fetch_array_size a buffer),
    fetch_array_size-shrinks a buffer,
    depth-with_current (fetch_array_size a buffer).fed.builder c,
    depth-with_current a c,
  )

-- No call of `operator<<`, at whatever level, grows the buffer, and the levels it opens are paid for
-- with bytes, one each.
pub feed_builder-Shrinks :
    (f : ℕ) (b : Builder) (buffer : Bytes) → Shrinks b buffer (feed_builder f b buffer)
unfolding feed_builder
feed_builder-Shrinks zero b buffer = omega arith
feed_builder-Shrinks (suc f) (simple_string b) buffer =
    omega (arith, feed_simple_string-shrinks b buffer)
feed_builder-Shrinks (suc f) (error b) buffer = omega (arith, feed_error-shrinks b buffer)
feed_builder-Shrinks (suc f) (integer b) buffer = omega (arith, feed_integer-shrinks b buffer)
feed_builder-Shrinks (suc f) (bulk_string b) buffer =
    omega (arith, feed_bulk_string-shrinks b buffer)
feed_builder-Shrinks (suc f) (array a) buffer =
    feed_array-Shrinks (feed_builder f) (feed_builder-Shrinks f) a none buffer
feed_builder-Shrinks (suc f) (array_row a c) buffer =
    feed_array-Shrinks (feed_builder f) (feed_builder-Shrinks f) a (some c) buffer
