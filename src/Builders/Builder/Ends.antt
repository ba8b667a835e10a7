-- ===== src/Builders/Builder/Ends.antt =====
-- No call of `operator<<` runs out of the rounds and levels that the model gives it.
use cpp_redis.Prelude.{
  ℕ, zero, suc, ◌+◌, ◌≤◌, ◌<◌, true, Option, none, some, [], ◌∷◌, ◌≡◌, ◌≢◌, refl, arith, Bytes,
  length, Bool-cases, inl, inr, ℤ, take, find_crlf,
}
use cpp_redis.Error.{Exception, Result, ok, throw, out_of_fuel}
use cpp_redis.Builders.Fed.{Fed, Fetched}
use cpp_redis.Builders.IntegerBuilder.{
  IntegerBuilder, Round, goes_on, throws, read_digit, read_digits, finish_integer, read_integer,
  feed_integer,
}
use cpp_redis.Builders.SimpleStringBuilder.{SimpleStringBuilder, read_line, feed_simple_string}
use cpp_redis.Builders.ErrorBuilder.{ErrorBuilder, line_read, feed_error}
use cpp_redis.Builders.BulkStringBuilder.{
  BulkStringBuilder, feed_bulk_string, fetch_size, size_known, fetch_str, take_str,
}
use cpp_redis.Builders.Builder.{
  Builder, ArrayBuilder, Row, simple_string, error, integer, bulk_string, array, array_row, depth,
  create_builder, start_row, build_row, build_rows, after_row, array_size_known, array_size_fed,
  fetch_array_size, feed_array, feed_builder, row_fed,
}
use cpp_redis.Builders.Builder.Potential.{
  level, pending, Shrinks, build_row-RowShrinks, depth-create_builder, feed_builder-Shrinks,
}
use cpp_redis.Builders.Builder.LeafSizes.{fetch_array_size-shrinks}
use cpp_redis.Builders.Builder.Fuel.{pending-le, pending-none}

abbrev pub Ends : Option Exception → Type 0
Ends o = o ≢ some out_of_fuel

abbrev RoundEnds : Round → Type 0
RoundEnds (goes_on b) = Unit
RoundEnds (throws b e) = e ≢ out_of_fuel

read_digit-RoundEnds : (i c : ℕ) (b : IntegerBuilder) → RoundEnds (read_digit i c b)
unfolding read_digit
read_digit-RoundEnds i c b = ground arith

read_digits-RoundEnds : (i : ℕ) (s : Bytes) (b : IntegerBuilder) → RoundEnds (read_digits i s b)
unfolding read_digits
read_digits-RoundEnds i [] b = tt
read_digits-RoundEnds i (c ∷ s) b =
    go (read_digit i c b) (read_digit-RoundEnds i c b) (read_digits-RoundEnds (suc i) s)
  where
    go :
        (r : Round)
        → RoundEnds r
        → ((b : IntegerBuilder) → RoundEnds (read_digits (suc i) s b))
        → RoundEnds (elim r [ goes_on b' ↦ read_digits (suc i) s b' | throws b' e ↦ throws b' e ])
    go (goes_on b) h k = k b
    go (throws b e) h k = h

finish_integer-Ends :
    (e : ℕ) (buffer : Bytes) (r : Round) → RoundEnds r → Ends (finish_integer e buffer r).thrown
unfolding finish_integer
finish_integer-Ends e buffer (goes_on b) h = λ q. cc
finish_integer-Ends e buffer (throws b x) h = λ q. ground arith

read_integer-Ends :
    (b : IntegerBuilder) (buffer : Bytes) (o : Option ℕ) → Ends (read_integer b buffer o).thrown
unfolding read_integer
read_integer-Ends b buffer none = λ q. cc
read_integer-Ends b buffer (some e) =
    finish_integer-Ends e buffer _ (read_digits-RoundEnds 0 (take e buffer) b)

feed_integer-Ends : (b : IntegerBuilder) (buffer : Bytes) → Ends (feed_integer b buffer).thrown
unfolding feed_integer
feed_integer-Ends b buffer = ground (arith, read_integer-Ends b buffer (find_crlf buffer))

feed_simple_string-Ends :
    (b : SimpleStringBuilder) (buffer : Bytes) → Ends (feed_simple_string b buffer).thrown
unfolding feed_simple_string
feed_simple_string-Ends b buffer = ground (arith, line (find_crlf buffer))
  where
    line : (o : Option ℕ) → Ends (read_line b buffer o).thrown
    line none = λ q. cc
    line (some e) = λ q. cc

feed_error-Ends : (b : ErrorBuilder) (buffer : Bytes) → Ends (feed_error b buffer).thrown
unfolding feed_error line_read
feed_error-Ends b buffer = feed_simple_string-Ends b.string_builder buffer

fetch_size-Ends : (b : BulkStringBuilder) (buffer : Bytes) → Ends (fetch_size b buffer).fed.thrown
unfolding fetch_size
fetch_size-Ends b buffer = ground (arith, feed_integer-Ends b.int_builder buffer)

take_str-Ends : (b : BulkStringBuilder) (buffer : Bytes) (n : ℤ) → Ends (take_str b buffer n).thrown
unfolding take_str
take_str-Ends b buffer (ℤ.pos n) = ground arith
take_str-Ends b buffer (ℤ.negsuc n) = λ q. cc

size_known-Ends : (r : Fetched BulkStringBuilder) → Ends r.fed.thrown → Ends (size_known r).thrown
unfolding size_known fetch_str
size_known-Ends r h =
    ground (arith, take_str-Ends r.fed.builder r.fed.buffer r.fed.builder.str_size)

feed_bulk_string-Ends :
    (b : BulkStringBuilder) (buffer : Bytes) → Ends (feed_bulk_string b buffer).thrown
unfolding feed_bulk_string
feed_bulk_string-Ends b buffer =
    ground (arith, size_known-Ends (fetch_size b buffer) (fetch_size-Ends b buffer))

fetch_array_size-Ends :
    (a : ArrayBuilder) (buffer : Bytes) → Ends (fetch_array_size a buffer).fed.thrown
unfolding fetch_array_size array_size_fed
fetch_array_size-Ends a buffer = ground (arith, feed_integer-Ends a.int_builder buffer)

pub create_builder_throws : (id : ℕ) (e : Exception) → create_builder id ≡ throw e → e ≢ out_of_fuel
unfolding create_builder
create_builder_throws id e h = ground arith

row_fed-Ends : (a : ArrayBuilder) (f : Fed Builder) → Ends f.thrown → Ends (row_fed a f).thrown
unfolding row_fed
row_fed-Ends a f h = ground arith

module _ (rec : Builder → Bytes → Fed Builder) (m : ℕ)
    (ends : (b : Builder) (buffer : Bytes)
      → depth b + length buffer < m
      → Ends (rec b buffer).thrown) where
  start_row-Ends :
      (a : ArrayBuilder) (id : ℕ) (rest : Bytes) (r : Result Builder)
      → ((c : Builder) → r ≡ ok c → depth c ≡ 0)
      → ((e : Exception) → r ≡ throw e → e ≢ out_of_fuel)
      → length rest < m
      → Ends (start_row rec a id rest r).thrown
  unfolding start_row
  start_row-Ends a id rest (throw e) d t h = let ne = t e refl in ground arith
  start_row-Ends a id rest (ok c) d t h =
      row_fed-Ends a (rec c rest) (ends c rest (omega (arith, d c refl)))

  build_row-Ends :
      (a : ArrayBuilder) (c : Option Builder) (x : ℕ) (buffer : Bytes)
      → level c + length (x ∷ buffer) ≤ m
      → Ends (build_row rec a c (x ∷ buffer)).thrown
  unfolding build_row
  build_row-Ends a none x buffer h =
      start_row-Ends a x buffer (create_builder x) (depth-create_builder x)
        (create_builder_throws x) (omega arith)
  build_row-Ends a (some c) x buffer h =
      row_fed-Ends a (rec c (x ∷ buffer)) (ends c (x ∷ buffer) (omega arith))

  after_row-Ends :
      (next : ArrayBuilder → Option Builder → Bytes → Fed Builder) (r : Row)
      → Ends r.thrown
      → (r.built ≡ true → Ends (next r.array r.current r.buffer).thrown)
      → Ends (after_row next r).thrown
  unfolding after_row
  after_row-Ends next r h k = elim (Bool-cases r.built) [ inl b ↦ rw b (k b) | inr b ↦ rw b h ]

  module _ (shrinks : (b : Builder) (buffer : Bytes) → Shrinks b buffer (rec b buffer)) where
    build_rows-Ends :
        (n : ℕ) (a : ArrayBuilder) (c : Option Builder) (buffer : Bytes)
        → level c + length buffer ≤ m
        → length buffer + pending c < n
        → Ends (build_rows rec n a c buffer).thrown
    unfolding build_rows
    build_rows-Ends zero a c buffer h k = absurd (omega arith)
    build_rows-Ends (suc n) a c [] h k = λ q. cc
    build_rows-Ends (suc n) a c (x ∷ buffer) h k =
        let r = build_row rec a c (x ∷ buffer) in
        let s = build_row-RowShrinks rec shrinks a c x buffer in
        ground (
          arith,
          after_row-Ends (build_rows rec n) r (build_row-Ends a c x buffer h) (λ b.
              build_rows-Ends n r.array r.current r.buffer (omega (arith, s.levels))
                (omega (arith, s.consumed b, pending-none r.current (s.emptied b)))),
        )

    feed_array-Ends :
        (a : ArrayBuilder) (c : Option Builder) (buffer : Bytes)
        → level c + length buffer ≤ m
        → Ends (feed_array rec a c buffer).thrown
    unfolding feed_array array_size_known
    feed_array-Ends a c buffer h =
        let r = fetch_array_size a buffer in
        let n = suc (suc (length r.fed.buffer)) in
        ground (
          arith,
          pending-le c,
          fetch_array_size-shrinks a buffer,
          fetch_array_size-Ends a buffer,
          build_rows-Ends n r.fed.builder c r.fed.buffer,
        )

pub feed_builder-Ends :
    (f : ℕ) (b : Builder) (buffer : Bytes)
    → depth b + length buffer < f
    → Ends (feed_builder f b buffer).thrown
unfolding feed_builder
feed_builder-Ends zero b buffer h = absurd (omega arith)
feed_builder-Ends (suc f) (simple_string b) buffer h = feed_simple_string-Ends b buffer
feed_builder-Ends (suc f) (error b) buffer h = feed_error-Ends b buffer
feed_builder-Ends (suc f) (integer b) buffer h = feed_integer-Ends b buffer
feed_builder-Ends (suc f) (bulk_string b) buffer h = feed_bulk_string-Ends b buffer
feed_builder-Ends (suc f) (array a) buffer h =
    feed_array-Ends (feed_builder f) (length buffer)
      (λ b buffer lt. feed_builder-Ends f b buffer (omega arith)) (feed_builder-Shrinks f) a none
      buffer (omega arith)
feed_builder-Ends (suc f) (array_row a c) buffer h =
    feed_array-Ends (feed_builder f) (suc (depth c) + length buffer)
      (λ b buffer lt. feed_builder-Ends f b buffer (omega arith)) (feed_builder-Shrinks f) a
      (some c) buffer (omega arith)
