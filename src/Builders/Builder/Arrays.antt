-- ===== src/Builders/Builder/Arrays.antt =====
-- How `array_builder` counts its rows (sources/builders/array_builder.cpp).
use cpp_redis.Prelude.{
  ℕ, suc, ◌≤◌, ◌<◌, ◌++◌, ◌∙◌, true, false, none, [], ◌∷◌, ◌≡◌, refl, arith, Bytes, codes, length,
  ap, crlf, pos, negsuc, to_string, ◌≢◌,
}
use cpp_redis.Reply.{Reply, Rows, nil, cons, size, push_back, reply_array, reply_null}
use cpp_redis.Builders.Fed.{Fed, returned}
use cpp_redis.Builders.IntegerBuilder.{
  IntegerBuilder, integer_builder, get_integer, feed_integer, max_int64,
}
use cpp_redis.Builders.BulkStringBuilder.{to_size}
use cpp_redis.Builders.Builder.{
  Builder, ArrayBuilder, array_builder, array, reply_ready, get_reply, add_row, build_rows,
  array_size_known, array_sized, array_size_fed, fetch_array_size, feed_array, create_builder, ok,
  after_row, build_row, row_fed, start_row,
}
use cpp_redis.Builders.Builder.Lines.{integer_read}
use cpp_redis.Builders.Builder.BulkStrings.{Reads, feed_size, feed_minus_one}

-- The builder of arrays behind the size line of `n` rows.
abbrev pub array_of : ℕ → Rows → ArrayBuilder
array_of n rows = record {
  int_builder = integer_read (pos n);
  array_size = n;
  reply_ready = false;
  reply = reply_array rows;
}

-- All rows were read.
abbrev pub array_read : ℕ → Rows → ArrayBuilder
array_read n rows = record (array_of n rows) { reply_ready = true }

unfoldable pub append_rows : Rows → Rows → Rows
append_rows nil rs = rs
append_rows (cons r rs) rs' = cons r (append_rows rs rs')

pub append_rows-nil : (rs : Rows) → append_rows rs nil ≡ rs
unfolding append_rows
append_rows-nil nil = refl
append_rows-nil (cons r rs) = ap (cons r) (append_rows-nil rs)

pub append_rows-push_back :
    (rs : Rows) (x : Reply) (rs' : Rows)
    → append_rows (push_back rs x) rs' ≡ append_rows rs (cons x rs')
unfolding append_rows
append_rows-push_back nil x rs' = refl
append_rows-push_back (cons r rs) x rs' = ap (cons r) (append_rows-push_back rs x rs')

pub size-push_back : (rs : Rows) (x : Reply) → size (push_back rs x) ≡ suc (size rs)
size-push_back nil x = refl
size-push_back (cons r rs) x = ap suc (size-push_back rs x)

pub add_row_last :
    (n : ℕ) (rows : Rows) (x : Reply)
    → suc (size rows) ≡ n
    → add_row (array_of n rows) x ≡ array_read n (push_back rows x)
unfolding add_row
add_row_last n rows x h = ground (arith, size-push_back rows x)

pub add_row_more :
    (n : ℕ) (rows : Rows) (x : Reply)
    → suc (size rows) ≢ n
    → add_row (array_of n rows) x ≡ array_of n (push_back rows x)
unfolding add_row
add_row_more n rows x h = ground (arith, size-push_back rows x)

build_rows_done :
    (rec : Builder → Bytes → Fed Builder) (m : ℕ) (a : ArrayBuilder) (rest : Bytes)
    → a.reply_ready ≡ true
    → build_rows rec (suc m) a none rest ≡ returned (array a) rest
unfolding build_rows
build_rows_done rec m a [] h = refl
build_rows_done rec m a (x ∷ rest) h = ground arith

pub build_rows_read :
    (rec : Builder → Bytes → Fed Builder) (m n : ℕ) (rows : Rows) (rest : Bytes)
    → build_rows rec (suc m) (array_read n rows) none rest
      ≡ returned (array (array_read n rows)) rest
build_rows_read rec m n rows rest = build_rows_done rec m (array_read n rows) rest refl

feed_array_new :
    (rec : Builder → Bytes → Fed Builder) (buffer : Bytes)
    → feed_array rec array_builder none buffer
      ≡ array_size_known rec none
          (array_size_fed array_builder (feed_integer integer_builder buffer))
unfolding feed_array fetch_array_size
feed_array_new rec buffer = refl

pub feed_array_sized :
    (rec : Builder → Bytes → Fed Builder) (n : ℕ) (rest : Bytes)
    → 0 < n
    → n ≤ max_int64
    → feed_array rec array_builder none (to_string n ++ (crlf ++ rest))
      ≡ build_rows rec (suc (suc (length rest))) (array_of n nil) none rest
unfolding feed_array fetch_array_size array_size_fed array_sized array_size_known to_size
    get_integer
feed_array_sized rec n rest pos_n h =
    feed_array_new rec (to_string n ++ (crlf ++ rest))
    ∙ ap (λ (f : Fed IntegerBuilder). array_size_known rec none (array_size_fed array_builder f))
        (feed_size n rest h)
    ∙ ground arith

pub feed_array_empty :
    (rec : Builder → Bytes → Fed Builder) (rest : Bytes)
    → feed_array rec array_builder none (to_string 0 ++ (crlf ++ rest))
      ≡ returned (array (array_read 0 nil)) rest
unfolding feed_array fetch_array_size array_size_fed array_sized array_size_known to_size
    get_integer
feed_array_empty rec rest =
    feed_array_new rec (to_string 0 ++ (crlf ++ rest))
    ∙ ap (λ (f : Fed IntegerBuilder). array_size_known rec none (array_size_fed array_builder f))
        (feed_size 0 rest (omega arith))
    ∙ build_rows_read rec (suc (length rest)) 0 nil rest

pub feed_array_null :
    (rec : Builder → Bytes → Fed Builder) (rest : Bytes)
    → Reads (feed_array rec array_builder none (codes "-1" ++ (crlf ++ rest))) rest reply_null
unfolding feed_array fetch_array_size array_size_fed array_sized array_size_known to_size
    get_integer
feed_array_null rec rest = (
  array a,
  feed_array_new rec (codes "-1" ++ (crlf ++ rest))
      ∙ ap (λ (f : Fed IntegerBuilder). array_size_known rec none (array_size_fed array_builder f))
          (feed_minus_one rest)
      ∙ build_rows_done rec (suc (length rest)) a rest refl,
  refl,
  refl,
)
  where
    a : ArrayBuilder
    a = array_sized (record array_builder { int_builder = integer_read (negsuc 0) }) (negsuc 0)

-- One round of the loop that reads a whole row.
pub one_row :
    (rec : Builder → Bytes → Fed Builder) (m : ℕ) (a : ArrayBuilder) (id : ℕ) (buffer rest : Bytes)
    (c b : Builder) (r : Reply)
    → create_builder id ≡ ok c
    → rec c buffer ≡ returned b rest
    → reply_ready b ≡ true
    → get_reply b ≡ r
    → a.reply_ready ≡ false
    → build_rows rec (suc m) a none (id ∷ buffer) ≡ build_rows rec m (add_row a r) none rest
one_row rec m a id buffer rest c b r create fed ready rep new =
    step ∙ ap (after_row (build_rows rec m)) (row ∙ ap (row_fed a) fed) ∙ after
  where
    step :
        build_rows rec (suc m) a none (id ∷ buffer)
        ≡ after_row (build_rows rec m) (build_row rec a none (id ∷ buffer))
    step = unfold build_rows in ground arith

    row : build_row rec a none (id ∷ buffer) ≡ row_fed a (rec c buffer)
    row = unfold build_row start_row in rw create

    after :
        after_row (build_rows rec m) (row_fed a (returned b rest))
        ≡ build_rows rec m (add_row a r) none rest
    after = unfold after_row row_fed in ground arith
