-- ===== src/Builders/Builder/Chunks.antt =====
-- Input that arrives in parts is read as the same input in one piece, by the builder of any class.
use cpp_redis.Prelude.{
  ℕ, zero, suc, ◌+◌, ◌<◌, ◌++◌, ◌∙◌, true, false, none, some, ◌≡◌, arith, Bytes, length, ap,
}
use cpp_redis.Builders.Fed.{Fed, returned, map_builder}
use cpp_redis.Builders.IntegerBuilder.{feed_integer}
use cpp_redis.Builders.Builder.{
  Builder, simple_string, error, integer, bulk_string, array, array_row, depth, reply_ready,
  feed_array, feed_builder, feed_simple_string, feed_error, feed_bulk_string,
}
use cpp_redis.Builders.Builder.Potential.{feed_builder-Shrinks}
use cpp_redis.Builders.Builder.Leaves.BulkStrings.{feed_bulk_string_split}
use cpp_redis.Builders.Builder.Leaves.{
  feed_integer_split, feed_simple_string_split, feed_error_split,
}
use cpp_redis.Builders.Builder.Ready.{
  feed_integer_ready, feed_simple_string_ready, feed_error_ready, feed_bulk_string_ready,
}
use cpp_redis.Builders.Builder.Resume.{Split, resume, feed_array_done}
use cpp_redis.Builders.Builder.ArrayChunks.{IsArray, feed_array-IsArray, feed_array_split}

-- The two parts of `Split`, for the builder of an array that is in the state `b`.
resume_split :
    (f : ℕ) (full : Fed Builder) (b : Builder) (buffer : Bytes)
    → IsArray b
    → full ≡ resume (feed_builder f) b buffer
    → (reply_ready b ≡ true → full ≡ returned b buffer)
      × (reply_ready b ≡ false → full ≡ feed_builder (suc f) b buffer)
unfolding feed_builder
resume_split f full (array a) buffer is e =
    (λ done. e ∙ feed_array_done (feed_builder f) a none buffer done, λ new. e)
resume_split f full (array_row a c) buffer is e =
    (λ done. e ∙ feed_array_done (feed_builder f) a (some c) buffer done, λ new. e)
resume_split f full (simple_string b) buffer is e = absurd is
resume_split f full (error b) buffer is e = absurd is
resume_split f full (integer b) buffer is e = absurd is
resume_split f full (bulk_string b) buffer is e = absurd is

-- A call that does not throw may be split in two at any byte, whatever the class of the builder and
-- its state.
pub feed_builder-Split :
    (f : ℕ) (b : Builder) (buffer rest : Bytes)
    → depth b + length buffer + length rest < f
    → Split (feed_builder f) b buffer rest
unfolding feed_builder
feed_builder-Split zero b buffer rest h t = absurd (omega arith)
feed_builder-Split (suc f) (simple_string b) buffer rest h t =
    let g = feed_simple_string b buffer in
    let e = ap (map_builder simple_string) (feed_simple_string_split rest b buffer) in
    (
      λ done.
          e
          ∙ ap (map_builder simple_string)
              (feed_simple_string_ready g.builder (g.buffer ++ rest) done),
      λ new. e,
    )
feed_builder-Split (suc f) (error b) buffer rest h t =
    let g = feed_error b buffer in
    let e = ap (map_builder error) (feed_error_split rest b buffer) in
    (
      λ done. e ∙ ap (map_builder error) (feed_error_ready b buffer (g.buffer ++ rest) done),
      λ new. e,
    )
feed_builder-Split (suc f) (integer b) buffer rest h t =
    let g = feed_integer b buffer in
    let e = ap (map_builder integer) (feed_integer_split rest b buffer t) in
    (
      λ done. e ∙ ap (map_builder integer) (feed_integer_ready g.builder (g.buffer ++ rest) done),
      λ new. e,
    )
feed_builder-Split (suc f) (bulk_string b) buffer rest h t =
    let g = feed_bulk_string b buffer in
    let e = ap (map_builder bulk_string) (feed_bulk_string_split rest b buffer t) in
    (
      λ done.
          e
          ∙ ap (map_builder bulk_string) (feed_bulk_string_ready g.builder (g.buffer ++ rest) done),
      λ new. e,
    )
feed_builder-Split (suc f) (array a) buffer rest h t =
    let g = feed_array (feed_builder f) a none buffer in
    resume_split f _ g.builder (g.buffer ++ rest)
      (feed_array-IsArray (feed_builder f) a none buffer)
      (feed_array_split (feed_builder f) f (feed_builder-Split f) (feed_builder-Shrinks f) a none
        buffer rest (omega arith) t)
feed_builder-Split (suc f) (array_row a c) buffer rest h t =
    let g = feed_array (feed_builder f) a (some c) buffer in
    resume_split f _ g.builder (g.buffer ++ rest)
      (feed_array-IsArray (feed_builder f) a (some c) buffer)
      (feed_array_split (feed_builder f) f (feed_builder-Split f) (feed_builder-Shrinks f) a
        (some c) buffer rest (omega arith) t)
