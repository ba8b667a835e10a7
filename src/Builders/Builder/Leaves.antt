-- ===== src/Builders/Builder/Leaves.antt =====
-- The builders of replies that hold no replies: a call on all of the input is a call on its first
-- part, then one on what that call left with the rest.
pub mod BulkStrings
use cpp_redis.Builders.ErrorBuilder.{feed_error, line_read, ErrorBuilder}
use cpp_redis.Prelude.{
  ℕ, ◌+◌, ◌≤◌, ◌++◌, true, none, ◌≡◌, refl, arith, Bytes, length, Bool-cases, Option-cases, inl,
  inr, ℤ, take, find_crlf, find_crlf_bound, find_crlf-append, take-append, drop-append,
  get_elem?-append, lf, false, length-append, sym, ap,
}
use cpp_redis.Builders.Fed.{returned, Fed}
use cpp_redis.Builders.IntegerBuilder.{
  IntegerBuilder, Round, goes_on, throws, read_digits, finish_integer, read_integer, feed_integer,
}
use cpp_redis.Builders.SimpleStringBuilder.{SimpleStringBuilder, read_line, feed_simple_string}
use cpp_redis.Builders.BulkStringBuilder.{
  BulkStringBuilder, take_str, build_reply, size_read, fetch_str, size_known, size_fed,
  feed_bulk_string, fetch_size,
}
use cpp_redis.Builders.Builder.Ready.{
  byte_at_bound, feed_simple_string_ready, line_read_again, feed_bulk_string_ready,
  feed_integer_ready,
}

module _ (rest : Bytes) where
  finish_integer_split :
      (b : IntegerBuilder) (e : ℕ) (buffer : Bytes) (r : Round)
      → e + 2 ≤ length buffer
      → (finish_integer e buffer r).thrown ≡ none
      → finish_integer e (buffer ++ rest) r
        ≡ returned (finish_integer e buffer r).builder ((finish_integer e buffer r).buffer ++ rest)
  unfolding finish_integer
  finish_integer_split b e buffer (goes_on b') h t = rw (drop-append (e + 2) buffer rest h)
  finish_integer_split b e buffer (throws b' x) h t = cc

  finish_integer_ready :
      (e : ℕ) (buffer : Bytes) (r : Round)
      → (finish_integer e buffer r).thrown ≡ none
      → (finish_integer e buffer r).builder.reply_ready ≡ true
  unfolding finish_integer
  finish_integer_ready e buffer (goes_on b') t = refl
  finish_integer_ready e buffer (throws b' x) t = cc

  pub feed_integer_split :
      (b : IntegerBuilder) (buffer : Bytes)
      → (feed_integer b buffer).thrown ≡ none
      → feed_integer b (buffer ++ rest)
        ≡ feed_integer (feed_integer b buffer).builder ((feed_integer b buffer).buffer ++ rest)
  unfolding feed_integer read_integer
  feed_integer_split b buffer t = elim (Bool-cases b.reply_ready) [
    | inl done ↦ ground arith
    | inr more ↦ elim (Option-cases (find_crlf buffer)) [
      | inl waits ↦ ground arith
      | inr (e, found) ↦
          let r = read_digits 0 (take e buffer) b in
          ground (
            arith,
            find_crlf-append buffer rest e found,
            find_crlf_bound buffer e found,
            take-append e buffer rest,
            finish_integer_split b e buffer r,
            finish_integer_ready e buffer r,
          )
    ]
  ]

  pub feed_simple_string_split :
      (b : SimpleStringBuilder) (buffer : Bytes)
      → feed_simple_string b (buffer ++ rest)
        ≡ feed_simple_string
            (feed_simple_string b buffer).builder
            ((feed_simple_string b buffer).buffer ++ rest)
  unfolding feed_simple_string read_line
  feed_simple_string_split b buffer = elim (Bool-cases b.reply_ready) [
    | inl done ↦ ground arith
    | inr more ↦ elim (Option-cases (find_crlf buffer)) [
      | inl waits ↦ ground arith
      | inr (e, found) ↦ ground (
        arith,
        find_crlf-append buffer rest e found,
        find_crlf_bound buffer e found,
        take-append e buffer rest,
        drop-append (e + 2) buffer rest,
      )
    ]
  ]

  -- The error builder sets its reply again at a call behind the end of the line.
  pub feed_error_split :
      (b : ErrorBuilder) (buffer : Bytes)
      → feed_error b (buffer ++ rest)
        ≡ feed_error (feed_error b buffer).builder ((feed_error b buffer).buffer ++ rest)
  unfolding feed_error line_read
  feed_error_split b buffer =
      let f = feed_simple_string b.string_builder buffer in
      rw (feed_simple_string_split b.string_builder buffer) (
        line_read_again b f (feed_simple_string f.builder (f.buffer ++ rest)) (λ done.
          ap (λ (g : Fed SimpleStringBuilder). g.builder)
            (feed_simple_string_ready f.builder (f.buffer ++ rest) done)))
