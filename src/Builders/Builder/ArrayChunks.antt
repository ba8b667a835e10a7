-- ===== src/Builders/Builder/ArrayChunks.antt =====
-- The builder of an array reads input that arrives in parts as the same input in one piece.
use cpp_redis.Prelude.{
  ℕ, zero, suc, ◌+◌, ◌≤◌, ◌<◌, ◌++◌, ◌∙◌, length-append, true, false, Option, none, some, [], ◌∷◌,
  ◌≡◌, refl, sym, arith, Bytes, length, Bool-cases, Option-cases, inl, inr, ap,
}
use cpp_redis.Builders.Fed.{Fed, Fetched, returned}
use cpp_redis.Builders.IntegerBuilder.{IntegerBuilder, feed_integer, get_integer}
use cpp_redis.Builders.Builder.{
  Builder, ArrayBuilder, array, array_row, with_current, depth, build_row, build_rows, after_row,
  array_size_known, array_sized, array_size_fed, fetch_array_size, feed_array, ℤ,
}
use cpp_redis.Builders.Builder.Potential.{level, Shrinks}
use cpp_redis.Builders.Builder.LeafSizes.{feed_integer-shrinks}
use cpp_redis.Builders.Builder.Fuel.{pending-le}
use cpp_redis.Builders.Builder.Leaves.{feed_integer_split}
use cpp_redis.Builders.Builder.Ready.{feed_integer_ready}
use cpp_redis.Builders.Builder.Rows.{build_rows_split}
use cpp_redis.Builders.Builder.Resume.{
  Split, resume, resume-with_current, feed_array_done, feed_array_sized,
}

array_sized-int_builder : (a : ArrayBuilder) (n : ℤ) → (array_sized a n).int_builder ≡ a.int_builder
unfolding array_sized
array_sized-int_builder a n = ground arith

array_size_fed_waits :
    (a : ArrayBuilder) (f : Fed IntegerBuilder)
    → f.thrown ≡ none
    → f.builder.reply_ready ≡ false
    → array_size_fed a f
      ≡ record { fed = returned (record a { int_builder = f.builder }) f.buffer; done = false }
unfolding array_size_fed
array_size_fed_waits a f t w = ground arith

array_size_fed_known :
    (a : ArrayBuilder) (f : Fed IntegerBuilder)
    → f.thrown ≡ none
    → f.builder.reply_ready ≡ true
    → array_size_fed a f ≡ record {
      fed =
          returned
            (array_sized (record a { int_builder = f.builder }) (get_integer f.builder))
            f.buffer;
      done = true;
    }
unfolding array_size_fed
array_size_fed_known a f t w = ground arith

-- The builder of an array stays one.
abbrev pub IsArray : Builder → Type 0
IsArray (array a) = Unit
IsArray (array_row a c) = Unit
IsArray _ = ⊥

with_current-IsArray : (a : ArrayBuilder) (c : Option Builder) → IsArray (with_current a c)
with_current-IsArray a none = tt
with_current-IsArray a (some c) = tt

module _ (rec : Builder → Bytes → Fed Builder) where
  build_rows-IsArray :
      (n : ℕ) (a : ArrayBuilder) (c : Option Builder) (buffer : Bytes)
      → IsArray (build_rows rec n a c buffer).builder
  unfolding build_rows after_row
  build_rows-IsArray zero a c buffer = with_current-IsArray a c
  build_rows-IsArray (suc n) a c [] = with_current-IsArray a c
  build_rows-IsArray (suc n) a c (x ∷ buffer) =
      let r = build_row rec a c (x ∷ buffer) in
      ground (
        arith,
        with_current-IsArray a c,
        with_current-IsArray r.array r.current,
        build_rows-IsArray n r.array r.current r.buffer,
      )

  pub feed_array-IsArray :
      (a : ArrayBuilder) (c : Option Builder) (buffer : Bytes)
      → IsArray (feed_array rec a c buffer).builder
  unfolding feed_array array_size_known
  feed_array-IsArray a c buffer =
      let r = fetch_array_size a buffer in
      ground (
        arith,
        with_current-IsArray a c,
        with_current-IsArray r.fed.builder c,
        build_rows-IsArray (suc (suc (length r.fed.buffer))) r.fed.builder c r.fed.buffer,
      )

  feed_array_unsized :
      (a : ArrayBuilder) (c : Option Builder) (i : IntegerBuilder) (buffer : Bytes)
      → a.reply_ready ≡ false
      → i.reply_ready ≡ false
      → feed_array rec (record a { int_builder = i }) c buffer
        ≡ array_size_known rec c (array_size_fed a (feed_integer i buffer))
  unfolding feed_array fetch_array_size array_size_fed
  feed_array_unsized a c i buffer new h = ground arith

  array_size_known_waits :
      (a : ArrayBuilder) (c : Option Builder) (buffer : Bytes)
      → array_size_known rec c (record { fed = returned a buffer; done = false })
        ≡ returned (with_current a c) buffer
  unfolding array_size_known
  array_size_known_waits a c buffer = refl

  array_size_known_lem :
      (a : ArrayBuilder) (c : Option Builder) (buffer : Bytes)
      → array_size_known rec c (record { fed = returned a buffer; done = true })
        ≡ build_rows rec (suc (suc (length buffer))) a c buffer
  unfolding array_size_known
  array_size_known_lem a c buffer = refl

  array_size_fed_returns :
      (a : ArrayBuilder) (c : Option Builder) (f : Fed IntegerBuilder)
      → (array_size_known rec c (array_size_fed a f)).thrown ≡ none
      → f.thrown ≡ none
  unfolding array_size_fed array_size_known
  array_size_fed_returns a c f t = elim (Option-cases f.thrown) [
    | inl e ↦ e
    | inr (x, e) ↦ ground arith
  ]

  module _ (m : ℕ)
      (split : (b : Builder) (buffer rest : Bytes)
        → depth b + length buffer + length rest < m
        → Split rec b buffer rest)
      (shrinks : (b : Builder) (buffer : Bytes) → Shrinks b buffer (rec b buffer)) where
    known_split :
        (a : ArrayBuilder) (c : Option Builder) (buffer rest : Bytes)
        → a.int_builder.reply_ready ≡ true
        → level c + length buffer + length rest ≤ m
        → (build_rows rec (suc (suc (length buffer))) a c buffer).thrown ≡ none
        → build_rows rec (suc (suc (length (buffer ++ rest)))) a c (buffer ++ rest)
          ≡ resume rec
              (build_rows rec (suc (suc (length buffer))) a c buffer).builder
              ((build_rows rec (suc (suc (length buffer))) a c buffer).buffer ++ rest)
    known_split a c buffer rest sized h t =
        build_rows_split rec m split shrinks (suc (suc (length buffer)))
          (suc (suc (length (buffer ++ rest)))) a c buffer rest sized h
          (omega (arith, pending-le c)) (omega (arith, pending-le c, length-append buffer rest)) t

    size_fed_split :
        (a : ArrayBuilder) (c : Option Builder) (f : Fed IntegerBuilder) (rest : Bytes)
        → a.reply_ready ≡ false
        → level c + length f.buffer + length rest ≤ m
        → (array_size_known rec c (array_size_fed a f)).thrown ≡ none
        → array_size_known rec c (array_size_fed a (feed_integer f.builder (f.buffer ++ rest)))
          ≡ resume rec
              (array_size_known rec c (array_size_fed a f)).builder
              ((array_size_known rec c (array_size_fed a f)).buffer ++ rest)
    size_fed_split a c f rest new h t =
        let ok = array_size_fed_returns a c f t in
        elim (Bool-cases f.builder.reply_ready) [
          | inl ready ↦
              let a' = array_sized (record a { int_builder = f.builder }) (get_integer f.builder) in
              let e = array_size_fed_known a f ok ready in
              let t' =
                ap (λ (r : Fetched ArrayBuilder). (array_size_known rec c r).thrown) (sym e) ∙ t in
              rw
                (
                  feed_integer_ready f.builder (f.buffer ++ rest) ready,
                  array_size_fed_known a (returned f.builder (f.buffer ++ rest)) refl ready,
                  e,
                  array_size_known_lem a' c (f.buffer ++ rest),
                  array_size_known_lem a' c f.buffer,
                )
                (known_split a' c f.buffer rest
                  (ap (λ (i : IntegerBuilder). i.reply_ready)
                      (array_sized-int_builder (record a { int_builder = f.builder })
                        (get_integer f.builder))
                    ∙ ready)
                  h
                  (ap (λ (g : Fed Builder). g.thrown) (sym (array_size_known_lem a' c f.buffer))
                    ∙ t'))
          | inr waits ↦
              let a' = record a { int_builder = f.builder } in
              rw
                (
                  array_size_fed_waits a f ok waits,
                  array_size_known_waits a' c f.buffer,
                  resume-with_current rec a' c (f.buffer ++ rest),
                )
                (sym (feed_array_unsized a c f.builder (f.buffer ++ rest) new waits))
        ]

    pub feed_array_split :
        (a : ArrayBuilder) (c : Option Builder) (buffer rest : Bytes)
        → level c + length buffer + length rest ≤ m
        → (feed_array rec a c buffer).thrown ≡ none
        → feed_array rec a c (buffer ++ rest)
          ≡ resume rec
              (feed_array rec a c buffer).builder
              ((feed_array rec a c buffer).buffer ++ rest)
    feed_array_split a c buffer rest h t = elim (Bool-cases a.reply_ready) [
      | inl done ↦
          rw (feed_array_done rec a c buffer done)
            (sym (resume-with_current rec a c (buffer ++ rest)))
      | inr new ↦ elim (Bool-cases a.int_builder.reply_ready) [
        | inl sized ↦
            let e = feed_array_sized rec a c buffer sized new in
            rw (feed_array_sized rec a c (buffer ++ rest) sized new, e)
              (known_split a c buffer rest sized h (ap (λ (f : Fed Builder). f.thrown) (sym e) ∙ t))
        | inr unsized ↦
            let f = feed_integer a.int_builder buffer in
            let e = feed_array_unsized a c a.int_builder buffer new unsized in
            let t' = ap (λ (g : Fed Builder). g.thrown) (sym e) ∙ t in
            rw
              (
                feed_array_unsized a c a.int_builder (buffer ++ rest) new unsized,
                e,
                feed_integer_split rest a.int_builder buffer (array_size_fed_returns a c f t'),
              )
              (size_fed_split a c f rest new
                (omega (arith, feed_integer-shrinks a.int_builder buffer)) t')
      ]
    ]
