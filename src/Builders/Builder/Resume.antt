-- ===== src/Builders/Builder/Resume.antt =====
-- A row of `array_builder` that waits for its bytes and is resumed (sources/builders/array_builder.cpp).
use cpp_redis.Prelude.{
  ◌++◌, true, false, Option, none, some, ◌≡◌, refl, arith, Bytes, length, Option-cases, inl, inr,
}
use cpp_redis.Builders.Fed.{Fed, returned}
use cpp_redis.Builders.Builder.{
  Builder, ArrayBuilder, Row, stopped, array_row, reply_ready, row_fed, array, with_current,
  build_rows, suc, feed_array, array_size_known, fetch_array_size,
}

-- Of a call that did not throw: if it completed the reply, the rest of the input is left to what
-- follows; if not, the call on all of the input is the call on the rest, from where it stopped.
abbrev pub Split : (rec : Builder → Bytes → Fed Builder) → Builder → Bytes → Bytes → Type 0
Split rec b buffer rest =
    (rec b buffer).thrown ≡ none
    → (reply_ready (rec b buffer).builder ≡ true
        → rec b (buffer ++ rest) ≡ returned (rec b buffer).builder ((rec b buffer).buffer ++ rest))
      × (reply_ready (rec b buffer).builder ≡ false
          → rec b (buffer ++ rest) ≡ rec (rec b buffer).builder ((rec b buffer).buffer ++ rest))

pub row_fed-int_builder :
    (a : ArrayBuilder) (f : Fed Builder) → (row_fed a f).array.int_builder ≡ a.int_builder
unfolding row_fed
row_fed-int_builder a f = ground arith

pub row_fed_returns :
    (a : ArrayBuilder) (f : Fed Builder) → (row_fed a f).thrown ≡ none → f.thrown ≡ none
unfolding row_fed
row_fed_returns a f h = elim (Option-cases f.thrown) [ inl e ↦ e | inr (x, e) ↦ ground arith ]

-- What a complete row leaves for the rest, and where a row that waits goes on.
pub record RowSplit (rec : Builder → Bytes → Fed Builder) (a : ArrayBuilder) (rest : Bytes)
    (r full : Row) : Type 0 where
  pub built : r.built ≡ true → full ≡ record r { buffer = r.buffer ++ rest }
  pub waits :
      r.built ≡ false
      → (b : Builder) × (reply_ready b ≡ false)
        × (stopped r ≡ returned (array_row a b) r.buffer)
        × (rec b r.buffer ≡ returned b r.buffer)
        × (full ≡ row_fed a (rec b (r.buffer ++ rest)))

pub returned_lem : (f : Fed Builder) → f.thrown ≡ none → f ≡ returned f.builder f.buffer
returned_lem f t = ground arith

pub row_fed_built :
    (a : ArrayBuilder) (f : Fed Builder)
    → f.thrown ≡ none
    → (row_fed a f).built ≡ true
    → reply_ready f.builder ≡ true
unfolding row_fed
row_fed_built a f t b = ground arith

pub row_fed_more :
    (a : ArrayBuilder) (f : Fed Builder) (rest : Bytes)
    → f.thrown ≡ none
    → (row_fed a f).built ≡ true
    → row_fed a (returned f.builder (f.buffer ++ rest))
      ≡ record (row_fed a f) { buffer = (row_fed a f).buffer ++ rest }
unfolding row_fed
row_fed_more a f rest t b = ground arith

-- The row of a builder that waits for more.
abbrev pub waiting : ArrayBuilder → Builder → Bytes → Row
waiting a b buffer = record {
  array = a;
  current = some b;
  buffer = buffer;
  thrown = none;
  built = false;
}

pub row_fed_unready :
    (a : ArrayBuilder) (f : Fed Builder)
    → f.thrown ≡ none
    → (row_fed a f).built ≡ false
    → reply_ready f.builder ≡ false
unfolding row_fed
row_fed_unready a f t b = ground arith

pub row_fed_waits :
    (a : ArrayBuilder) (f : Fed Builder)
    → f.thrown ≡ none
    → reply_ready f.builder ≡ false
    → row_fed a f ≡ waiting a f.builder f.buffer
unfolding row_fed
row_fed_waits a f t new = ground arith

-- The call on a builder of arrays that the loop left.
abbrev pub resume : (rec : Builder → Bytes → Fed Builder) → Builder → Bytes → Fed Builder
resume rec (array a) buffer = feed_array rec a none buffer
resume rec (array_row a c) buffer = feed_array rec a (some c) buffer
resume rec b buffer = returned b buffer

pub resume-with_current :
    (rec : Builder → Bytes → Fed Builder) (a : ArrayBuilder) (c : Option Builder) (buffer : Bytes)
    → resume rec (with_current a c) buffer ≡ feed_array rec a c buffer
resume-with_current rec a none buffer = refl
resume-with_current rec a (some c) buffer = refl

pub feed_array_sized :
    (rec : Builder → Bytes → Fed Builder) (a : ArrayBuilder) (c : Option Builder) (buffer : Bytes)
    → a.int_builder.reply_ready ≡ true
    → a.reply_ready ≡ false
    → feed_array rec a c buffer ≡ build_rows rec (suc (suc (length buffer))) a c buffer
unfolding feed_array array_size_known fetch_array_size
feed_array_sized rec a c buffer sized new = ground arith

pub feed_array_done :
    (rec : Builder → Bytes → Fed Builder) (a : ArrayBuilder) (c : Option Builder) (buffer : Bytes)
    → a.reply_ready ≡ true
    → feed_array rec a c buffer ≡ returned (with_current a c) buffer
unfolding feed_array
feed_array_done rec a c buffer done = ground arith
