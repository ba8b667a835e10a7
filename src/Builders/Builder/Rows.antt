-- ===== src/Builders/Builder/Rows.antt =====
-- The loop of the array builder (sources/builders/array_builder.cpp) on input that arrives in parts.
use cpp_redis.Builders.Builder.Fuel.{build_rows-Agree, pending-le, pending-none}
use cpp_redis.Prelude.{
  ℕ, ◌+◌, ◌≤◌, ◌<◌, ◌++◌, append-nil, true, false, Option, none, some, [], ◌∷◌, ◌≡◌, refl, arith,
  Bytes, length, inl, inr, zero, Bool-cases, length-append, ap, sym, ◌∙◌,
}
use cpp_redis.Error.{Result, ok, throw}
use cpp_redis.Builders.Fed.{Fed, returned}
use cpp_redis.Builders.Builder.{
  Builder, ArrayBuilder, Row, stopped, array_row, depth, reply_ready, create_builder, start_row,
  build_row, row_fed, with_current, build_rows, suc, feed_array, after_row, IntegerBuilder,
}
use cpp_redis.Builders.Builder.Potential.{
  level, depth-create_builder, Shrinks, pending, build_row-RowShrinks, RowShrinks,
  depth-with_current,
}
use cpp_redis.Builders.Builder.Resume.{
  Split, row_fed-int_builder, row_fed_returns, RowSplit, returned_lem, row_fed_built, row_fed_more,
  waiting, row_fed_unready, row_fed_waits, resume, resume-with_current, feed_array_sized,
  feed_array_done,
}

module _ (rec : Builder → Bytes → Fed Builder) (m : ℕ)
    (split : (b : Builder) (buffer rest : Bytes)
      → depth b + length buffer + length rest < m
      → Split rec b buffer rest) where
  stalled :
      (c : Builder) (buffer : Bytes)
      → depth c + length buffer < m
      → (rec c buffer).thrown ≡ none
      → reply_ready (rec c buffer).builder ≡ false
      → rec (rec c buffer).builder (rec c buffer).buffer
        ≡ returned (rec c buffer).builder (rec c buffer).buffer
  stalled c buffer h t new =
      let e = (split c buffer [] (omega arith) t).1 new in
      cc (e, append-nil buffer, append-nil (rec c buffer).buffer, returned_lem (rec c buffer) t)

  fed_row-RowSplit :
      (a : ArrayBuilder) (c : Builder) (buffer rest : Bytes)
      → depth c + length buffer + length rest < m
      → (row_fed a (rec c buffer)).thrown ≡ none
      → RowSplit rec a rest (row_fed a (rec c buffer)) (row_fed a (rec c (buffer ++ rest)))
  fed_row-RowSplit a c buffer rest h t =
      let f = rec c buffer in
      let t' = row_fed_returns a f t in
      record {
        built = λ b.
            rw ((split c buffer rest h t').0 (row_fed_built a f t' b)) (row_fed_more a f rest t' b);
        waits = λ b.
            let new = row_fed_unready a f t' b in
            (
              f.builder,
              new,
              rw (row_fed_waits a f t' new),
              rw (row_fed_waits a f t' new) (stalled c buffer (omega arith) t' new),
              rw ((split c buffer rest h t').1 new) (rw (row_fed_waits a f t' new)),
            );
      }

  build_row-int_builder :
      (a : ArrayBuilder) (c : Option Builder) (x : ℕ) (buffer : Bytes)
      → (build_row rec a c (x ∷ buffer)).array.int_builder ≡ a.int_builder
  unfolding build_row
  build_row-int_builder a (some c) x buffer = row_fed-int_builder a (rec c (x ∷ buffer))
  build_row-int_builder a none x buffer = start (create_builder x)
    where
      start : (r : Result Builder) → (start_row rec a x buffer r).array.int_builder ≡ a.int_builder
      start (throw e) = refl
      start (ok c) = row_fed-int_builder a (rec c buffer)

  build_row-RowSplit :
      (a : ArrayBuilder) (c : Option Builder) (x : ℕ) (buffer rest : Bytes)
      → level c + length (x ∷ buffer) + length rest ≤ m
      → (build_row rec a c (x ∷ buffer)).thrown ≡ none
      → RowSplit rec a rest
          (build_row rec a c (x ∷ buffer))
          (build_row rec a c (x ∷ (buffer ++ rest)))
  unfolding build_row
  build_row-RowSplit a (some c) x buffer rest h t =
      fed_row-RowSplit a c (x ∷ buffer) rest (omega arith) t
  build_row-RowSplit a none x buffer rest h t = start (create_builder x) (depth-create_builder x) t
    where
      start :
          (r : Result Builder)
          → ((c : Builder) → r ≡ ok c → depth c ≡ 0)
          → (start_row rec a x buffer r).thrown ≡ none
          → RowSplit rec a rest (start_row rec a x buffer r) (start_row rec a x (buffer ++ rest) r)
      start (throw e) d t = cc
      start (ok c) d t = fed_row-RowSplit a c buffer rest (omega (arith, d c refl)) t

  module _ (shrinks : (b : Builder) (buffer : Bytes) → Shrinks b buffer (rec b buffer)) where
    build_rows_done :
        (n : ℕ) (a : ArrayBuilder) (c : Option Builder) (buffer : Bytes)
        → 0 < n
        → a.reply_ready ≡ true
        → build_rows rec n a c buffer ≡ returned (with_current a c) buffer
    unfolding build_rows
    build_rows_done zero a c buffer h done = absurd (omega arith)
    build_rows_done (suc n) a c [] h done = refl
    build_rows_done (suc n) a c (x ∷ buffer) h done = ground arith

    -- The loop with enough rounds is the call on the array builder, once the size is known.
    build_rows_lem :
        (n : ℕ) (a : ArrayBuilder) (c : Option Builder) (buffer : Bytes)
        → a.int_builder.reply_ready ≡ true
        → level c + length buffer ≤ m
        → length buffer + pending c < n
        → build_rows rec n a c buffer ≡ feed_array rec a c buffer
    build_rows_lem n a c buffer sized h k = elim (Bool-cases a.reply_ready) [
      | inl done ↦
          rw (feed_array_done rec a c buffer done) (build_rows_done n a c buffer (omega arith) done)
      | inr new ↦ rw (feed_array_sized rec a c buffer sized new) (
          build_rows-Agree rec rec m (λ b x lt. refl) shrinks n (suc (suc (length buffer))) a c
            buffer h k (omega (arith, pending-le c)))
    ]

    build_rows_step :
        (n : ℕ) (a : ArrayBuilder) (c : Option Builder) (x : ℕ) (buffer : Bytes)
        → a.reply_ready ≡ false
        → build_rows rec (suc n) a c (x ∷ buffer)
          ≡ after_row (build_rows rec n) (build_row rec a c (x ∷ buffer))
    unfolding build_rows
    build_rows_step n a c x buffer new = ground arith

    after_row_built :
        (next : ArrayBuilder → Option Builder → Bytes → Fed Builder) (r : Row)
        → r.built ≡ true
        → after_row next r ≡ next r.array r.current r.buffer
    unfolding after_row
    after_row_built next r b = ground arith

    after_row_stops :
        (next : ArrayBuilder → Option Builder → Bytes → Fed Builder) (r : Row)
        → r.built ≡ false
        → after_row next r ≡ stopped r
    unfolding after_row
    after_row_stops next r b = ground arith

    stalled_empty :
        (buffer rest : Bytes) (b : Builder)
        → rec b buffer ≡ returned b buffer
        → buffer ++ rest ≡ []
        → rec b [] ≡ returned b []
    stalled_empty [] rest b st e = st
    stalled_empty (x ∷ buffer) rest b st e = cc

    -- The round that waits, taken up again with the rest.
    resume_waiting :
        (n : ℕ) (a : ArrayBuilder) (b : Builder) (buffer : Bytes)
        → reply_ready b ≡ false
        → a.reply_ready ≡ false
        → a.int_builder.reply_ready ≡ true
        → suc (depth b) + length buffer ≤ m
        → length buffer < n
        → (buffer ≡ [] → rec b [] ≡ returned b [])
        → after_row (build_rows rec n) (row_fed a (rec b buffer)) ≡ feed_array rec a (some b) buffer
    unfolding build_row
    resume_waiting n a b [] unready new sized h k st =
        rw
          (
            st refl,
            row_fed_waits a (returned b []) refl unready,
            after_row_stops (build_rows rec n) (waiting a b []) refl,
            feed_array_sized rec a (some b) [] sized new,
          )
          (unfold build_rows in refl)
    resume_waiting n a b (y ∷ buffer) unready new sized h k st =
        rw (← build_rows_step n a (some b) y buffer new)
          (build_rows_lem (suc n) a (some b) (y ∷ buffer) sized h (omega arith))

    after_row_returns :
        (next : ArrayBuilder → Option Builder → Bytes → Fed Builder) (r : Row)
        → (r.built ≡ true → r.thrown ≡ none)
        → (after_row next r).thrown ≡ none
        → r.thrown ≡ none
    after_row_returns next r k t = elim (Bool-cases r.built) [
      | inl b ↦ k b
      | inr b ↦ ap (λ (f : Fed Builder). f.thrown) (sym (after_row_stops next r b)) ∙ t
    ]

    level-stopped :
        (r : Row) (a : ArrayBuilder) (b : Builder)
        → stopped r ≡ returned (array_row a b) r.buffer
        → level r.current ≡ suc (depth b)
    level-stopped r a b e =
        sym (depth-with_current r.array r.current) ∙ ap (λ (f : Fed Builder). depth f.builder) e

    round_split :
        (n N : ℕ) (a : ArrayBuilder) (c : Option Builder) (buffer rest : Bytes) (r full : Row)
        → RowShrinks c buffer r
        → RowSplit rec a rest r full
        → a.reply_ready ≡ false
        → a.int_builder.reply_ready ≡ true
        → level c + length buffer + length rest ≤ m
        → length buffer + length rest + pending c < suc N
        → (after_row (build_rows rec n) r).thrown ≡ none
        → (r.built ≡ true
            → (build_rows rec n r.array r.current r.buffer).thrown ≡ none
            → build_rows rec N r.array r.current (r.buffer ++ rest)
              ≡ resume rec
                  (build_rows rec n r.array r.current r.buffer).builder
                  ((build_rows rec n r.array r.current r.buffer).buffer ++ rest))
        → after_row (build_rows rec N) full
          ≡ resume rec
              (after_row (build_rows rec n) r).builder
              ((after_row (build_rows rec n) r).buffer ++ rest)
    round_split n N a c buffer rest r full s sp new sized h k t ih = elim (Bool-cases r.built) [
      | inl b ↦
          let e = after_row_built (build_rows rec n) r b in
          let i = ih b (ap (λ (f : Fed Builder). f.thrown) (sym e) ∙ t) in
          ap (after_row (build_rows rec N)) (sp.built b)
          ∙ after_row_built (build_rows rec N) (record r { buffer = r.buffer ++ rest }) b
          ∙ i
          ∙ ap (λ (f : Fed Builder). resume rec f.builder (f.buffer ++ rest)) (sym e)
      | inr b ↦
          let e = after_row_stops (build_rows rec n) r b in
          let returns = ap (λ (f : Fed Builder). f.thrown) (sym e) ∙ t in
          let (b', unready, stops, st, more) = sp.waits b in
          ap (after_row (build_rows rec N)) more
          ∙ resume_waiting N a b' (r.buffer ++ rest) unready new sized
              (omega (arith, s.levels, level-stopped r a b' stops, length-append r.buffer rest))
              (omega (arith, s.eaten returns, length-append r.buffer rest))
              (stalled_empty r.buffer rest b' st)
          ∙ ap (λ (f : Fed Builder). resume rec f.builder (f.buffer ++ rest)) (sym (e ∙ stops))
    ]

    pub build_rows_split :
        (n N : ℕ) (a : ArrayBuilder) (c : Option Builder) (buffer rest : Bytes)
        → a.int_builder.reply_ready ≡ true
        → level c + length buffer + length rest ≤ m
        → length buffer + pending c < n
        → length buffer + length rest + pending c < N
        → (build_rows rec n a c buffer).thrown ≡ none
        → build_rows rec N a c (buffer ++ rest)
          ≡ resume rec
              (build_rows rec n a c buffer).builder
              ((build_rows rec n a c buffer).buffer ++ rest)
    build_rows_split zero N a c buffer rest sized h k k' t = absurd (omega arith)
    build_rows_split (suc n) zero a c buffer rest sized h k k' t = absurd (omega arith)
    build_rows_split (suc n) (suc N) a c [] rest sized h k k' t =
        unfold build_rows in
        rw (resume-with_current rec a c rest)
          (build_rows_lem (suc N) a c rest sized (omega arith) (omega arith))
    build_rows_split (suc n) (suc N) a c (x ∷ buffer) rest sized h k k' t =
        elim (Bool-cases a.reply_ready) [
          | inl done ↦
              rw
                (
                  build_rows_done (suc n) a c (x ∷ buffer) (omega arith) done,
                  resume-with_current rec a c (x ∷ buffer ++ rest),
                )
                (build_rows_lem (suc N) a c (x ∷ buffer ++ rest) sized
                  (omega (arith, length-append buffer rest))
                  (omega (arith, length-append buffer rest)))
          | inr new ↦
              let e = build_rows_step n a c x buffer new in
              let r = build_row rec a c (x ∷ buffer) in
              let s = build_row-RowShrinks rec shrinks a c x buffer in
              let t' = ap (λ (f : Fed Builder). f.thrown) (sym e) ∙ t in
              rw (build_rows_step N a c x (buffer ++ rest) new, e)
                (round_split n N a c (x ∷ buffer) rest r _ s
                  (build_row-RowSplit a c x buffer rest (omega arith)
                    (after_row_returns (build_rows rec n) r s.returns t'))
                  new sized h (omega arith) t'
                  (λ b t''.
                    build_rows_split n N r.array r.current r.buffer rest
                      (ap (λ (i : IntegerBuilder). i.reply_ready)
                          (build_row-int_builder a c x buffer)
                        ∙ sized)
                      (omega (arith, s.levels))
                      (omega (arith, s.consumed b, pending-none r.current (s.emptied b)))
                      (omega (arith, s.consumed b, pending-none r.current (s.emptied b))) t''))
        ]
