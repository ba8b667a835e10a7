-- ===== src/Builders/Builder/RoundTrip.antt =====
-- The bytes of a value of the protocol, read by the builder of its kind, give the value's reply.
use cpp_redis.Builders.Builder.Potential.{feed_builder-Shrinks}
use cpp_redis.Protocol.{
  no_items, item, body, reply_of, Value, Values, IsValid, count, bodies, tag, rows_of, AreValid,
}
use cpp_redis.Prelude.{
  ℕ, suc, ◌+◌, ◌≤◌, ◌<◌, ◌++◌, ◌∙◌, none, ◌≡◌, refl, arith, Bytes, length, length-append, ap, crlf,
  to_string, zero,
}
use cpp_redis.Reply.{Reply, Rows, nil, cons, size, push_back, reply_array}
use cpp_redis.Builders.Fed.{Fed, returned}
use cpp_redis.Builders.IntegerBuilder.{integer_builder, max_int64}
use cpp_redis.Builders.BulkStringBuilder.{bulk_string_builder, build_reply}
use cpp_redis.Builders.Builder.{
  Builder, array_builder, array, add_row, build_rows, feed_array, feed_builder, create_builder, ok,
  simple_string, simple_string_builder, map_builder, error, error_builder, integer, bulk_string,
}
use cpp_redis.Builders.Builder.Lines.{feed_integer_line, feed_simple_string_line, feed_error_line}
use cpp_redis.Builders.Builder.BulkStrings.{Reads, feed_bulk_string_value, feed_bulk_string_null}
use cpp_redis.Builders.Builder.Arrays.{
  array_of, array_read, append_rows, append_rows-nil, append_rows-push_back, size-push_back,
  add_row_last, add_row_more, build_rows_read, feed_array_sized, feed_array_empty, feed_array_null,
  one_row,
}

array-Reads :
    (vs : Values) (f : ℕ) (rest : Bytes)
    → count vs ≤ max_int64
    → (0 < count vs
        → build_rows
            (feed_builder f)
            (suc (suc (length (bodies vs rest))))
            (array_of (count vs) nil)
            none
            (bodies vs rest)
          ≡ returned (array (array_read (count vs) (append_rows nil (rows_of vs)))) rest)
    → Reads
        (feed_array
          (feed_builder f)
          array_builder
          none
          (to_string (count vs) ++ (crlf ++ bodies vs rest)))
        rest
        (reply_array (rows_of vs))
unfolding append_rows body reply_of
array-Reads no_items f rest h ih =
    (array (array_read 0 nil), feed_array_empty (feed_builder f) rest, refl, refl)
array-Reads (item v vs) f rest h ih = (
  array (array_read (count (item v vs)) (rows_of (item v vs))),
  feed_array_sized (feed_builder f) (count (item v vs)) (bodies (item v vs) rest) (omega arith) h
      ∙ ih (omega arith),
  refl,
  refl,
)

-- What is left behind a whole value is no longer than the value's bytes with it.
rest_shorter :
    (f : ℕ) (c b : Builder) (buffer rest : Bytes)
    → feed_builder f c buffer ≡ returned b rest
    → length rest ≤ length buffer
rest_shorter f c b buffer rest e =
    omega (arith, feed_builder-Shrinks f c buffer, ap (λ (g : Fed Builder). length g.buffer) e)

-- Behind a row: the last one completes the array, and another is followed by the rest of them.
more_rows :
    (vs : Values) (f m n : ℕ) (rows : Rows) (x : Reply) (rest : Bytes)
    → size rows + suc (count vs) ≡ n
    → 0 < m
    → (0 < count vs
        → build_rows (feed_builder f) m (array_of n (push_back rows x)) none (bodies vs rest)
          ≡ returned (array (array_read n (append_rows (push_back rows x) (rows_of vs)))) rest)
    → build_rows (feed_builder f) m (add_row (array_of n rows) x) none (bodies vs rest)
      ≡ returned (array (array_read n (append_rows rows (cons x (rows_of vs))))) rest
unfolding body reply_of
more_rows vs f zero n rows x rest e p ih = absurd (omega arith)
more_rows no_items f (suc m) n rows x rest e p ih = rw (
  add_row_last n rows x (omega arith),
  build_rows_read (feed_builder f) m n (push_back rows x) rest,
  ← append_rows-push_back rows x nil,
  append_rows-nil (push_back rows x),
)
more_rows (item v vs) f (suc m) n rows x rest e p ih =
    rw (add_row_more n rows x (omega arith), ← append_rows-push_back rows x (rows_of (item v vs)))
      (ih (omega arith))

mutual
  unfolding body reply_of feed_builder create_builder build_reply

  pub read_value :
      (v : Value) (f : ℕ) (rest : Bytes)
      → IsValid v
      → length (body v rest) < f
      → (c : Builder) × (create_builder (tag v) ≡ ok c)
        × Reads (feed_builder f c (body v rest)) rest (reply_of v)
  read_value v zero rest h k = absurd (omega arith)
  read_value (Value.simple_string s) (suc f) rest h k = (
    simple_string simple_string_builder,
    refl,
    (_, ap (map_builder simple_string) (feed_simple_string_line s rest h), refl, refl),
  )
  read_value (Value.error s) (suc f) rest h k = (
    error error_builder,
    refl,
    (_, ap (map_builder error) (feed_error_line s rest h), refl, refl),
  )
  read_value (Value.integer n) (suc f) rest h k = (
    integer integer_builder,
    refl,
    (_, ap (map_builder integer) (feed_integer_line n rest h), refl, refl),
  )
  read_value (Value.bulk_string s) (suc f) rest h k = (
    bulk_string bulk_string_builder,
    refl,
    (_, ap (map_builder bulk_string) (feed_bulk_string_value s rest h), refl, refl),
  )
  read_value Value.null_string (suc f) rest h k =
      let (b, e, ready, r) = feed_bulk_string_null rest in
      (
        bulk_string bulk_string_builder,
        refl,
        (bulk_string b, ap (map_builder bulk_string) e, ready, r),
      )
  read_value Value.null_array (suc f) rest h k =
      (array array_builder, refl, feed_array_null (feed_builder f) rest)
  read_value (Value.array vs) (suc f) rest h k = (
    array array_builder,
    refl,
    array-Reads vs f rest h.0 (λ p.
        read_rows vs f (suc (suc (length (bodies vs rest)))) (count vs) nil rest h.1 (omega arith) p
          (omega (arith, length-append (to_string (count vs)) (crlf ++ bodies vs rest)))
          (omega arith)),
  )

  read_rows :
      (vs : Values) (f m n : ℕ) (rows : Rows) (rest : Bytes)
      → AreValid vs
      → size rows + count vs ≡ n
      → 0 < count vs
      → length (bodies vs rest) ≤ f
      → length (bodies vs rest) < m
      → build_rows (feed_builder f) m (array_of n rows) none (bodies vs rest)
        ≡ returned (array (array_read n (append_rows rows (rows_of vs)))) rest
  read_rows no_items f m n rows rest h e p k l = absurd (omega arith)
  read_rows (item v vs) f zero n rows rest h e p k l = absurd (omega arith)
  read_rows (item v vs) f (suc m) n rows rest h e p k l =
      let (c, create, (b, fed, ready, r)) = read_value v f (bodies vs rest) h.0 (omega arith) in
      one_row (feed_builder f) m (array_of n rows) (tag v) (body v (bodies vs rest))
        (bodies vs rest) c b (reply_of v) create fed ready r refl
      ∙ more_rows vs f m n rows (reply_of v) rest e
          (omega (arith, rest_shorter f c b (body v (bodies vs rest)) (bodies vs rest) fed))
          (λ q.
            read_rows vs f m n (push_back rows (reply_of v)) rest h.1
              (omega (arith, size-push_back rows (reply_of v))) q
              (omega (arith, rest_shorter f c b (body v (bodies vs rest)) (bodies vs rest) fed))
              (omega (arith, rest_shorter f c b (body v (bodies vs rest)) (bodies vs rest) fed)))
