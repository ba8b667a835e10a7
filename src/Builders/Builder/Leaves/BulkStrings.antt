-- ===== src/Builders/Builder/Leaves/BulkStrings.antt =====
-- The builder of bulk strings: a call on all of the input is a call on its first part, then one on
-- what that call left with the rest.
use cpp_redis.Prelude.{
  ◌+◌, ◌++◌, true, none, ◌≡◌, refl, arith, Bytes, Bool-cases, Option-cases, inl, inr, ℤ,
  take-append, drop-append, get_elem?-append, lf, false, length-append, sym,
}
use cpp_redis.Builders.Fed.{returned, Fed}
use cpp_redis.Builders.IntegerBuilder.{IntegerBuilder, feed_integer}
use cpp_redis.Builders.BulkStringBuilder.{
  BulkStringBuilder, take_str, build_reply, size_read, fetch_str, size_known, size_fed,
  feed_bulk_string, fetch_size,
}
use cpp_redis.Builders.Builder.Ready.{byte_at_bound, feed_bulk_string_ready, feed_integer_ready}
use cpp_redis.Builders.Builder.Leaves.{feed_integer_split}

module _ (rest : Bytes) where
  take_str_split :
      (b : BulkStringBuilder) (buffer : Bytes) (n : ℤ)
      → (take_str b buffer n).thrown ≡ none
      → (take_str b (buffer ++ rest) n
          ≡ returned (take_str b buffer n).builder ((take_str b buffer n).buffer ++ rest))
        × ((take_str b buffer n).builder.reply_ready ≡ true)
  unfolding take_str build_reply
  take_str_split b buffer (ℤ.negsuc n) t = cc
  take_str_split b buffer (ℤ.pos n) t = ground (
    arith,
    byte_at_bound buffer (n + 1) lf,
    get_elem?-append n buffer rest,
    get_elem?-append (n + 1) buffer rest,
    take-append n buffer rest,
    drop-append (n + 2) buffer rest,
  )

  -- The size is known: the string is not yet there, or it is taken.
  fetch_str_split :
      (b : BulkStringBuilder) (buffer : Bytes)
      → b.reply_ready ≡ false
      → b.int_builder.reply_ready ≡ true
      → (fetch_str b buffer).thrown ≡ none
      → fetch_str b (buffer ++ rest)
        ≡ feed_bulk_string (fetch_str b buffer).builder ((fetch_str b buffer).buffer ++ rest)
  unfolding fetch_str feed_bulk_string fetch_size size_known
  fetch_str_split b buffer new sized t =
      ground (arith, take_str_split b buffer b.str_size, length-append buffer rest)

  size_read_int : (b : BulkStringBuilder) → (size_read b).int_builder ≡ b.int_builder
  unfolding size_read
  size_read_int b = ground arith

  size_known_split :
      (b : BulkStringBuilder) (buffer : Bytes)
      → b.int_builder.reply_ready ≡ true
      → (size_known (record { fed = returned b buffer; done = true })).thrown ≡ none
      → size_known (record { fed = returned b (buffer ++ rest); done = true })
        ≡ feed_bulk_string
            (size_known (record { fed = returned b buffer; done = true })).builder
            ((size_known (record { fed = returned b buffer; done = true })).buffer ++ rest)
  unfolding size_known
  size_known_split b buffer sized t =
      ground (arith, fetch_str_split b buffer, feed_bulk_string_ready b (buffer ++ rest))

  size_fed_throws :
      (b : BulkStringBuilder) (f : Fed IntegerBuilder)
      → (size_known (size_fed b f)).thrown ≡ none
      → f.thrown ≡ none
  unfolding size_fed size_known
  size_fed_throws b f t = elim (Option-cases f.thrown) [ inl e ↦ e | inr (x, e) ↦ ground arith ]

  size_fed_waits :
      (b : BulkStringBuilder) (f : Fed IntegerBuilder)
      → f.thrown ≡ none
      → f.builder.reply_ready ≡ false
      → size_fed b f
        ≡ record { fed = returned (record b { int_builder = f.builder }) f.buffer; done = false }
  unfolding size_fed
  size_fed_waits b f t w = ground arith

  size_fed_known :
      (b : BulkStringBuilder) (f : Fed IntegerBuilder)
      → f.thrown ≡ none
      → f.builder.reply_ready ≡ true
      → size_fed b f ≡ record {
        fed = returned (size_read (record b { int_builder = f.builder })) f.buffer;
        done = true;
      }
  unfolding size_fed
  size_fed_known b f t w = ground arith

  size_known_waits :
      (b : BulkStringBuilder) (buffer : Bytes)
      → size_known (record { fed = returned b buffer; done = false }) ≡ returned b buffer
  unfolding size_known
  size_known_waits b buffer = refl

  feed_bulk_string_unsized :
      (b : BulkStringBuilder) (i : IntegerBuilder) (buffer : Bytes)
      → b.reply_ready ≡ false
      → i.reply_ready ≡ false
      → feed_bulk_string (record b { int_builder = i }) buffer
        ≡ size_known (size_fed b (feed_integer i buffer))
  unfolding feed_bulk_string
  feed_bulk_string_unsized b i buffer new h = ground arith

  size_fed_split :
      (b : BulkStringBuilder) (f : Fed IntegerBuilder)
      → b.reply_ready ≡ false
      → (size_known (size_fed b f)).thrown ≡ none
      → size_known (size_fed b (feed_integer f.builder (f.buffer ++ rest)))
        ≡ feed_bulk_string
            (size_known (size_fed b f)).builder
            ((size_known (size_fed b f)).buffer ++ rest)
  size_fed_split b f new t =
      let ok = size_fed_throws b f t in
      elim (Bool-cases f.builder.reply_ready) [
        | inl ready ↦
            rw
              (
                feed_integer_ready f.builder (f.buffer ++ rest) ready,
                size_fed_known b (returned f.builder (f.buffer ++ rest)) refl ready,
                size_fed_known b f ok ready,
              )
              (size_known_split (size_read (record b { int_builder = f.builder })) f.buffer
                (rw (size_read_int (record b { int_builder = f.builder })) ready)
                (rw (size_fed_known b f ok ready) at t))
        | inr waits ↦
            rw
              (
                size_fed_waits b f ok waits,
                size_known_waits (record b { int_builder = f.builder }) f.buffer,
              )
              (sym (feed_bulk_string_unsized b f.builder (f.buffer ++ rest) new waits))
      ]

  bulk_string_sized :
      (b : BulkStringBuilder) (buffer : Bytes)
      → b.reply_ready ≡ false
      → b.int_builder.reply_ready ≡ true
      → feed_bulk_string b buffer ≡ size_known (record { fed = returned b buffer; done = true })
  unfolding feed_bulk_string
  bulk_string_sized b buffer new sized = ground arith

  bulk_string_unsized :
      (b : BulkStringBuilder) (buffer : Bytes)
      → b.reply_ready ≡ false
      → b.int_builder.reply_ready ≡ false
      → feed_bulk_string b buffer ≡ size_known (size_fed b (feed_integer b.int_builder buffer))
  unfolding feed_bulk_string
  bulk_string_unsized b buffer new h = ground arith

  pub feed_bulk_string_split :
      (b : BulkStringBuilder) (buffer : Bytes)
      → (feed_bulk_string b buffer).thrown ≡ none
      → feed_bulk_string b (buffer ++ rest)
        ≡ feed_bulk_string
            (feed_bulk_string b buffer).builder
            ((feed_bulk_string b buffer).buffer ++ rest)
  feed_bulk_string_split b buffer t = elim (Bool-cases b.reply_ready) [
    | inl done ↦ rw (feed_bulk_string_ready b buffer done)
    | inr new ↦ elim (Bool-cases b.int_builder.reply_ready) [
      | inl sized ↦
          rw (bulk_string_sized b (buffer ++ rest) new sized, bulk_string_sized b buffer new sized)
            (size_known_split b buffer sized (rw (bulk_string_sized b buffer new sized) at t))
      | inr unsized ↦
          let f = feed_integer b.int_builder buffer in
          let t' = rw (bulk_string_unsized b buffer new unsized) at t in
          rw
            (
              bulk_string_unsized b (buffer ++ rest) new unsized,
              bulk_string_unsized b buffer new unsized,
              feed_integer_split rest b.int_builder buffer (size_fed_throws b f t'),
            )
            (size_fed_split b f new t')
    ]
  ]
